-- ===== src/Auth/Examples.antt =====
-- Tests of signing in and out, with tokens that are not signed, and the theorems at a customer who signs in.
use neutail.Base.{
  ℕ, zero, suc, ◌+◌, ◌*◌, ◌/◌, ◌≤◌, ◌<◌, ◌≡◌, refl, sym, ap, ◌∙◌, inl, inr, true, ◌&&◌, Option,
  none, some, List, [], ◌∷◌, arith, ltb, leb, if◌then◌else◌, Bool-cases, ◌==◌, nat_eq, string_eq,
  pair_eq, ok, raised,
}
use neutail.Base.Samples.{ascii}
use neutail.Base.Table.{Table, get}
use neutail.Base.Text.{codes, codes_eq, strip, casefold, join}
use neutail.Auth.Schema.{
  Settings, Customer, Claims, Jwt, IsJwt, Credentials, AuthenticatedIdentity, LoginResponse,
  unauthorized,
}
use neutail.Auth.{
  login, login_response, authenticate_customer, checked_password, find_user_by_email, to_auth_user,
  display_name, name_part, has_email, create_access_token, access_token_ttl, valid_ttl, jwt_secret,
  get_authenticated_identity, with_secret, identified, purge, logout, logged_out,
}
use neutail.Auth.Login.{HasPassword, login-authenticates}
use neutail.Auth.Logout.{Later, logout-refused}

-- A text, and where it ends.
abbrev put_text : List ℕ → List ℕ → List ℕ
put_text [] rest = 0 ∷ rest
put_text (c ∷ s) rest = suc c ∷ put_text s rest

abbrev longer : ℕ → Option (List ℕ × List ℕ) → Option (List ℕ × List ℕ)
longer c none = none
longer c (some (s, rest)) = some (c ∷ s, rest)

abbrev take_text : List ℕ → Option (List ℕ × List ℕ)
take_text [] = none
take_text (zero ∷ rest) = some ([], rest)
take_text (suc c ∷ s) = longer c (take_text s)

take-put : (s rest : List ℕ) → take_text (put_text s rest) ≡ some (s, rest)
take-put [] rest = refl
take-put (c ∷ s) rest = rw (take-put s rest) refl

abbrev put_claims : Claims → List ℕ
put_claims c = c.iat ∷ c.exp ∷ elim c.sub [ none ↦ 0 ∷ c.jti | some s ↦ 1 ∷ put_text s c.jti ]

abbrev with_sub : ℕ → ℕ → Option (List ℕ × List ℕ) → Option Claims
with_sub iat exp none = none
with_sub iat exp (some (s, jti)) = some (record { sub = some s; iat = iat; exp = exp; jti = jti })

abbrev take_claims : List ℕ → Option Claims
take_claims (iat ∷ exp ∷ zero ∷ jti) = some (record { sub = none; iat = iat; exp = exp; jti = jti })
take_claims (iat ∷ exp ∷ suc n ∷ rest) = with_sub iat exp (take_text rest)
take_claims _ = none

reads_claims :
    (iat exp : ℕ) (sub : Option (List ℕ)) (jti : List ℕ)
    → let c : Claims = record { sub = sub; iat = iat; exp = exp; jti = jti } in
      take_claims (put_claims c) ≡ some c
reads_claims iat exp none jti = refl
reads_claims iat exp (some s) jti = rw (take-put s jti) refl

abbrev in_time : ℕ → Option Claims → Option Claims
in_time now none = none
in_time now (some c) =
    if leb (c.iat * 1_000_000) now && ltb now (c.exp * 1_000_000) then some c else none

instance abbrev plain_jwt : Jwt
plain_jwt = record {
  encode = λ c secret. put_claims c;
  decode = λ now token secret. in_time now (take_claims token);
}

in_time_inv :
    (now : ℕ) (o : Option Claims) (c : Claims)
    → in_time now o ≡ some c
    → (o ≡ some c) × (now < c.exp * 1_000_000)
in_time_inv now none c h = cc
in_time_inv now (some d) c h =
    elim (Bool-cases (leb (d.iat * 1_000_000) now && ltb now (d.exp * 1_000_000))) [
      | inl q ↦
          let same : some d ≡ some c = rw q at h in
          let before : now < d.exp * 1_000_000 = ground (arith, q) in
          (same, ground (arith, before, same))
      | inr q ↦ cc (rw q at h)
    ]

in_time-valid :
    (now : ℕ) (c : Claims)
    → c.iat * 1_000_000 ≤ now
    → now < c.exp * 1_000_000
    → in_time now (some c) ≡ some c
in_time-valid now c h k = ground (arith, h, k)

some-injective : (a b : Claims) → some a ≡ some b → a ≡ b
some-injective a b h = cc

plain-IsJwt : IsJwt
plain-IsJwt = record {
  decode-encode = λ now c secret h k.
      ap (in_time now) (reads_claims c.iat c.exp c.sub c.jti) ∙ in_time-valid now c h k;
  not_expired = λ now token secret c h. (in_time_inv now (take_claims token) c h).1;
  same_claims = λ now now' token secret c c' h h'. some-injective c c' (
      sym (in_time_inv now (take_claims token) c h).0
      ∙ (in_time_inv now' (take_claims token) c' h').0);
}

abbrev settings : Settings
settings = record {
  jwt_secret = some (codes "0123456789abcdef0123456789abcdef");
  demo_password = some (codes "pw");
  ttl_seconds = none;
}

abbrev customers : Table (List ℕ) Customer
customers =
    (
      codes "C1",
      record {
        customer_id = codes "C1";
        first_name = some (codes "Ada ");
        last_name = none;
        email = some (codes "Ada@x.y");
      },
    )
    ∷ []

abbrev token : List ℕ
token = put_claims (record { sub = some (codes "C1"); iat = 5; exp = 3605; jti = codes "j" })

abbrev response : LoginResponse
response = record {
  access_token = token;
  expires_in = 3600;
  user = record {
    customer_id = codes "C1";
    display_name = codes "Ada";
    email = some (codes "Ada@x.y");
  };
}

signs_in :
    login settings 5_500_000 (codes "j") (codes "ada@x.y") (codes "pw") customers
    ≡ ok (some response)
unfolding login login_response authenticate_customer checked_password find_user_by_email
    to_auth_user display_name name_part has_email create_access_token access_token_ttl valid_ttl
    jwt_secret strip join
signs_in = refl

wrong_password :
    login settings 5_500_000 (codes "j") (codes "ada@x.y") (codes "no") customers ≡ ok none
unfolding login login_response authenticate_customer checked_password
wrong_password = refl

is_bearer : (casefold (codes "Bearer") == codes "bearer") ≡ true
unfolding casefold
is_bearer = refl

none_revoked : get {V = ℕ} token [] ≡ none
unfolding get
none_revoked = refl

login-authenticates_example :
    HasPassword settings (codes "ada@x.y") (codes "pw") customers response.user
    × (1 ≤ 3600)
    × (3600 ≤ 86_400)
    × ((get_authenticated_identity
          (λ t. t)
          settings
          9_000_000
          9_000_001
          (some (record { scheme = codes "Bearer"; token = token }))
          []).1
        ≡ ok (record {
          customer_id = strip (codes "C1");
          token = token;
          expires_at = (5_500_000 / 1_000_000 + 3600) * 1_000_000;
        }))
login-authenticates_example =
    login-authenticates plain-IsJwt (λ t. t) settings 5_500_000 9_000_000 9_000_001 (codes "j")
      (codes "ada@x.y") (codes "pw") (codes "Bearer") customers [] response signs_in is_bearer
      (omega arith) (omega arith) none_revoked

abbrev header : Option Credentials
header = some (record { scheme = codes "Bearer"; token = token })

abbrev identity : AuthenticatedIdentity
identity = record { customer_id = codes "C1"; token = token; expires_at = 3_605_000_000 }

signs_out : (logout (λ t. t) settings 9_000_000 9_000_001 header []).1 ≡ ok identity
unfolding logout logged_out get_authenticated_identity with_secret identified jwt_secret purge get
    strip casefold
signs_out = refl

logout-refused_example :
    (get_authenticated_identity
      (λ t. t)
      settings
      9_500_000
      9_500_001
      header
      (logout (λ t. t) settings 9_000_000 9_000_001 header []).0).1
    ≡ raised unauthorized
logout-refused_example =
    logout-refused (λ t. t) settings plain-IsJwt (λ a b e. e) 9_000_000 9_000_001 9_000_001
      9_500_000 9_500_001 header (codes "Bearer") identity []
      (logout (λ t. t) settings 9_000_000 9_000_001 header []).0 signs_out Later.at_once
      (omega arith) (inl (omega arith))
