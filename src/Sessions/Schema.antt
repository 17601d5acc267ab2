-- ===== src/Sessions/Schema.antt =====
-- `SessionContext` of orchestrator/models.py. Texts are lists of code points, and what the service only
-- stores (attributes, profiles and turns) is of a type `V`.
use neutail.Base.{ℕ, String, Option, List, nat_eq, string_eq, pair_eq}
use neutail.Base.Table.{Table}

pub record SessionContext (V : Type 0) : Type 0 where
  pub session_id : List ℕ
  pub customer_id : List ℕ
  pub turn_count : ℕ
  pub last_intent : Option String
  pub category : Option String
  pub occasion : Option String
  pub selected_sku : Option String
  pub requested_size : Option String
  pub last_agent : Option String
  pub attributes : List (String × V)
  pub customer_context : Option V
  pub conversation : List V
  pub created_at : ℕ
  pub updated_at : ℕ

-- `_contexts`
abbrev pub Contexts : Type 0 → Type 0
Contexts V = Table (List ℕ) (SessionContext V)

-- `ValueError` of `_required`, and `SessionIdentityMismatchError`
pub data Error : Type 0 where
  required_text identity_mismatch : Error
