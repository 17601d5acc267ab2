-- ===== src/Sessions/Examples.antt =====
-- Tests of the session contexts, and the theorems on them at a customer's session.
use neutail.Base.{suc, true, ℕ, ◌≡◌, refl, ◌≢◌, ◌⊎◌, none, some, List, [], ◌∷◌, ok, raised}
use mathlib.Core.Bool.{false≢true}
use neutail.Base.Lists.{length}
use neutail.Base.Samples.{ascii}
use neutail.Base.Table.{get, put, remove}
use neutail.Base.Text.{codes, codes_eq, strip}
use neutail.Sessions.Schema.{SessionContext, Contexts, identity_mismatch}
use neutail.Sessions.{
  save_context, stored_context, ensure_context, clear_context, create_context, get_context,
  get_or_create, required, new_context, last_items,
}
use neutail.Sessions.Access.{get_context-other, get_context-save_context}
use neutail.Sessions.Fresh.{IsDistinct, create_context-returns}
use neutail.Sessions.Ownership.{Step, Reach, IsValid, Owns, IsClear, Reach-IsValid, Step-Owns}

abbrev session : List ℕ
session = codes "S1"

abbrev customer : List ℕ
customer = codes "C1"

abbrev stranger : List ℕ
stranger = codes "C2"

abbrev opened : SessionContext ℕ
opened = new_context 7 session customer []

abbrev contexts : Contexts ℕ
contexts = (session, opened) ∷ []

abbrev talked : SessionContext ℕ
talked = record opened { conversation = 1 ∷ 2 ∷ []; updated_at = 8 }

last_two : last_items {A = ℕ} 2 (1 ∷ 2 ∷ 3 ∷ []) ≡ 2 ∷ 3 ∷ []
last_two = refl

opens : ensure_context 7 (codes " S1 ") (codes "C1") [] [] ≡ ok (contexts, opened)
unfolding ensure_context required strip get put
opens = refl

abbrev opening : Step {V = ℕ} [] contexts
opening = Step.ensure 7 (codes " S1 ") (codes "C1") [] opened opens

Reach-IsValid_example : IsValid contexts
Reach-IsValid_example = Reach-IsValid (Reach.next Reach.empty opening)

asks_clear : clear_context session customer contexts ≡ ok ([], true)
unfolding clear_context required strip get remove
asks_clear = refl

abbrev clearing : Step contexts []
clearing = Step.clear session customer true asks_clear

owns : Owns contexts session customer
unfolding get
owns = (opened, refl, refl)

Step-Owns_example :
    Owns {V = ℕ} [] session customer
    ⊎ ((get {V = SessionContext ℕ} session [] ≡ none) × IsClear clearing session customer)
Step-Owns_example = Step-Owns session customer clearing owns

-- The ids drawn: the `i`th is the text of the one code point `i`.
abbrev draw : ℕ → List ℕ
draw i = i ∷ []

draw-IsDistinct : IsDistinct draw
draw-IsDistinct i j h = cc

reads_customer : required customer ≡ ok customer
unfolding required strip
reads_customer = refl

reads_session : required session ≡ ok session
unfolding required strip
reads_session = refl

reads_stranger : required stranger ≡ ok stranger
unfolding required strip
reads_stranger = refl

create_context-returns_example :
    (s : List ℕ) × (create_context (suc (length contexts)) draw 9 customer [] contexts
      ≡ ok (some (put s (new_context 9 s customer []) contexts, new_context 9 s customer [])))
    × (get s contexts ≡ none)
create_context-returns_example =
    create_context-returns draw 9 customer customer [] contexts draw-IsDistinct reads_customer

has_session : get session contexts ≡ some opened
unfolding get
has_session = refl

not_own : opened.customer_id ≢ stranger
not_own h = false≢true ((codes_eq.beq_iff customer stranger).1 h)

get_context-other_example :
    (get_context session (some stranger) contexts ≡ raised identity_mismatch)
    × (get_or_create 9 session stranger contexts ≡ raised identity_mismatch)
    × (ensure_context 9 session stranger [] contexts ≡ raised identity_mismatch)
    × (clear_context session stranger contexts ≡ raised identity_mismatch)
    × (save_context 9 (new_context 9 session stranger []) contexts ≡ raised identity_mismatch)
get_context-other_example =
    get_context-other 9 session session stranger stranger [] contexts opened
      (new_context 9 session stranger []) reads_session reads_stranger has_session not_own refl refl

saves : save_context 8 talked contexts ≡ ok ((session, talked) ∷ [], talked)
unfolding save_context get put
saves = refl

get_context-save_context_example :
    (get_context session (some customer) ((session, talked) ∷ [])
      ≡ ok (some (stored_context 8 talked)))
    × (get_context session none ((session, talked) ∷ []) ≡ ok (some (stored_context 8 talked)))
    × (save_context 8 talked ((session, talked) ∷ []) ≡ ok ((session, talked) ∷ [], talked))
get_context-save_context_example =
    get_context-save_context 8 talked talked session customer contexts ((session, talked) ∷ [])
      saves reads_session reads_customer
