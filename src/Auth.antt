-- ===== src/Auth.antt =====
-- api/auth.py: signing in, the tokens, and signing out. The list of revoked tokens is in the process's
-- memory.
pub mod Schema
pub mod Login
pub mod Logout
mod Examples
use neutail.Base.{
  ℕ, zero, suc, ◌+◌, ◌-◌, ◌*◌, ◌/◌, ◌%◌, ◌≤◌, ◌<◌, String, ◌≡◌, refl, sym, ap, ◌∙◌, ◌≢◌, ◌↔◌, ◌⊎◌,
  inl, inr, Bool, true, false, not, ◌&&◌, ◌||◌, Option, none, some, List, [], ◌∷◌, ◌++◌, map, arith,
  ltb, leb, nat_beq, if◌then◌else◌, leb→le, le→leb, Bool-cases, Option-cases, is_some, or_default,
  Eq, ◌==◌, nat_eq, string_eq, pair_eq, beq_self, Outcome, ok, raised, ◌>>=◌, ◌>>◌, require,
  or_raise,
}
use neutail.Base.Table.{Table, get, put, rows}
use neutail.Base.Lists.{find_first, length}
use neutail.Base.Text.{Unicode, codes, codes_eq, strip, casefold, join}
use neutail.Auth.Schema.{
  Integer, Settings, Customer, AuthUser, Claims, Jwt, Credentials, AuthenticatedIdentity,
  LoginResponse, Revoked, Error, natural, negative, service_unavailable, unauthorized, blank,
}

-- `len(value.encode("utf-8"))`
abbrev utf8_length : List ℕ → ℕ
utf8_length [] = 0
utf8_length (c ∷ s) =
    (if ltb c 128 then 1 else if ltb c 2048 then 2 else if ltb c 65_536 then 3 else 4)
    + utf8_length s

-- `_jwt_secret`
pub jwt_secret : Settings → Outcome Error (List ℕ)
jwt_secret settings = elim settings.jwt_secret [
  | none ↦ raised service_unavailable
  | some secret ↦ if ltb (utf8_length secret) 32 then raised service_unavailable else ok secret
]

valid_ttl : Option Integer → Outcome Error ℕ
valid_ttl none = raised service_unavailable
valid_ttl (some (negative n)) = raised service_unavailable
valid_ttl (some (natural n)) = if ltb 0 n && leb n 86_400 then ok n else raised service_unavailable

-- `_access_token_ttl_seconds`
pub access_token_ttl : Settings → Outcome Error ℕ
unfolding valid_ttl
access_token_ttl settings = valid_ttl (or_default (some (natural 3600)) settings.ttl_seconds)

-- `func.lower`, which SQLite applies to ASCII letters only
abbrev lower : List ℕ → List ℕ
lower [] = []
lower (c ∷ s) = (if leb b'A' c && leb c b'Z' then c + 32 else c) ∷ lower s

has_email : List ℕ → Customer → Bool
has_email email c = elim c.email [ none ↦ false | some e ↦ lower e == email ]

module _ ⦃u : Unicode⦄ where
  name_part : Option (List ℕ) → List (List ℕ)
  name_part none = []
  name_part (some t) = if strip t == [] then [] else strip t ∷ []

  -- `_display_name`
  display_name : Customer → List ℕ
  unfolding name_part
  display_name c =
      let name = join (name_part c.first_name ++ name_part c.last_name) in
      if name == [] then c.customer_id else name

  -- `_to_auth_user`
  pub to_auth_user : Customer → AuthUser
  unfolding display_name
  to_auth_user c = record {
    customer_id = c.customer_id;
    display_name = display_name c;
    email = c.email;
  }

  -- `_find_user_by_email`
  pub find_user_by_email : List ℕ → Table (List ℕ) Customer → Option AuthUser
  unfolding has_email to_auth_user
  find_user_by_email email customers = elim (find_first (has_email email) (rows customers)) [
    | none ↦ none
    | some c ↦ some (to_auth_user c)
  ]

  checked_password : List ℕ → Option (List ℕ) → Option AuthUser → Outcome Error (Option AuthUser)
  checked_password password none user = raised service_unavailable
  checked_password password (some configured) user =
      if configured == []
      then raised service_unavailable
      else if password == configured
      then ok user
      else ok none

  -- `authenticate_customer`, for the normalised email
  pub authenticate_customer :
      Settings → List ℕ → List ℕ → Table (List ℕ) Customer → Outcome Error (Option AuthUser)
  unfolding find_user_by_email checked_password
  authenticate_customer settings email password customers =
      checked_password password settings.demo_password (find_user_by_email email customers)

  module _ ⦃jwt : Jwt⦄ where
    -- `create_access_token`
    pub create_access_token : Settings → ℕ → List ℕ → List ℕ → Outcome Error (List ℕ × ℕ)
    unfolding jwt_secret access_token_ttl
    create_access_token settings now jti customer = do
      tt ← require (not (strip customer == [])) blank
      ttl ← access_token_ttl settings
      secret ← jwt_secret settings
      let claims : Claims = record {
        sub = some (strip customer);
        iat = now / 1_000_000;
        exp = (now + ttl * 1_000_000) / 1_000_000;
        jti = jti;
      }
      ok (jwt.encode claims secret, ttl)

    login_response : Settings → ℕ → List ℕ → Option AuthUser → Outcome Error (Option LoginResponse)
    unfolding create_access_token
    login_response settings now jti none = ok none
    login_response settings now jti (some user) = do
      issued ← create_access_token settings now jti user.customer_id
      ok (some (record { access_token = issued.0; expires_in = issued.1; user = user }))

    -- `login`, for the normalised email; `none` is the reply of wrong credentials
    pub login :
        Settings
        → ℕ
        → List ℕ
        → List ℕ
        → List ℕ
        → Table (List ℕ) Customer
        → Outcome Error (Option LoginResponse)
    unfolding login_response
    login settings now jti email password customers = do
      user ← authenticate_customer settings email password customers
      login_response settings now jti user

-- The expired rows of `_is_revoked` are deleted.
pub purge : ℕ → Revoked → Revoked
purge now [] = []
purge now ((k, e) ∷ t) = let rest = purge now t in if leb e now then rest else (k, e) ∷ rest

module _ ⦃u : Unicode⦄ ⦃jwt : Jwt⦄ (fingerprint : List ℕ → List ℕ) where
  -- `_is_revoked`
  abbrev is_revoked : ℕ → List ℕ → Revoked → Revoked × Bool
  is_revoked now token revoked =
      let kept = purge now revoked in (kept, is_some (get (fingerprint token) kept))

  -- `revoke_access_token`
  abbrev pub revoke_access_token : List ℕ → ℕ → Revoked → Revoked
  revoke_access_token token expires_at revoked = put (fingerprint token) expires_at revoked

  -- From the claims that were decoded; the list is read at a moment of its own.
  identified : ℕ → List ℕ → Option Claims → Revoked → Revoked × Outcome Error AuthenticatedIdentity
  unfolding purge
  identified checked token none revoked = (revoked, raised unauthorized)
  identified checked token (some c) revoked =
      let customer = strip (or_default [] c.sub) in
      let (kept, denied) = is_revoked checked token revoked in
      if customer == []
      then (revoked, raised unauthorized)
      else if denied
      then (kept, raised unauthorized)
      else (
        kept,
        ok (record { customer_id = customer; token = token; expires_at = c.exp * 1_000_000 }),
      )

  with_secret :
      ℕ
      → ℕ
      → List ℕ
      → Outcome Error (List ℕ)
      → Revoked
      → Revoked × Outcome Error AuthenticatedIdentity
  unfolding identified
  with_secret now checked token (raised e) revoked = (revoked, raised e)
  with_secret now checked token (ok secret) revoked =
      identified checked token (jwt.decode now token secret) revoked

  -- `get_authenticated_identity`: the token is decoded at the moment `now`, and `_is_revoked` reads the clock
  -- again.
  pub get_authenticated_identity :
      Settings
      → ℕ
      → ℕ
      → Option Credentials
      → Revoked
      → Revoked × Outcome Error AuthenticatedIdentity
  unfolding with_secret jwt_secret
  get_authenticated_identity settings now checked none revoked = (revoked, raised unauthorized)
  get_authenticated_identity settings now checked (some c) revoked =
      if casefold c.scheme == codes "bearer"
      then with_secret now checked c.token (jwt_secret settings) revoked
      else (revoked, raised unauthorized)

  current_user :
      Table (List ℕ) Customer → Outcome Error AuthenticatedIdentity → Outcome Error AuthUser
  unfolding to_auth_user
  current_user customers identity = identity >>= λ i.
      or_raise (get i.customer_id customers) unauthorized >>= λ c. ok (to_auth_user c)

  -- `get_current_user`
  pub get_current_user :
      Settings
      → ℕ
      → ℕ
      → Option Credentials
      → Table (List ℕ) Customer
      → Revoked
      → Revoked × Outcome Error AuthUser
  unfolding current_user
  get_current_user settings now checked credentials customers revoked =
      let (kept, identity) = get_authenticated_identity settings now checked credentials revoked in
      (kept, current_user customers identity)

  logged_out : Revoked → Outcome Error AuthenticatedIdentity → Revoked
  logged_out revoked (raised e) = revoked
  logged_out revoked (ok i) = revoke_access_token i.token i.expires_at revoked

  -- `logout`
  pub logout :
      Settings
      → ℕ
      → ℕ
      → Option Credentials
      → Revoked
      → Revoked × Outcome Error AuthenticatedIdentity
  unfolding logged_out
  logout settings now checked credentials revoked =
      let (kept, identity) = get_authenticated_identity settings now checked credentials revoked in
      (logged_out kept identity, identity)
