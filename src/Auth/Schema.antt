-- ===== src/Auth/Schema.antt =====
-- The settings, rows and values of api/auth.py, and PyJWT. Texts are lists of code points, moments
-- are microseconds, and a token's `exp` and `iat` are whole seconds, as PyJWT writes them.
use neutail.Base.{ℕ, ◌*◌, ◌≤◌, ◌<◌, ◌≡◌, Option, some, List, nat_eq, string_eq, pair_eq}
use neutail.Base.Table.{Table}

-- What `int` reads from a text.
pub data Integer : Type 0 where
  natural : ℕ → Integer
  negative : ℕ → Integer

-- The environment's variables. The lifetime is `none` if it is not set, and `some none` if it is no integer.
pub record Settings : Type 0 where
  pub jwt_secret : Option (List ℕ)
  pub demo_password : Option (List ℕ)
  pub ttl_seconds : Option (Option Integer)

-- A row of `customers`, as far as it is read.
pub record Customer : Type 0 where
  pub customer_id : List ℕ
  pub first_name : Option (List ℕ)
  pub last_name : Option (List ℕ)
  pub email : Option (List ℕ)

pub record AuthUser : Type 0 where
  pub customer_id : List ℕ
  pub display_name : List ℕ
  pub email : Option (List ℕ)

-- The claims of a token. The subject is `none` if it is no text.
pub record Claims : Type 0 where
  pub sub : Option (List ℕ)
  pub iat : ℕ
  pub exp : ℕ
  pub jti : List ℕ

-- `jwt.encode` and `jwt.decode` with HS256, at a moment. `decode` gives `none` where it raises, and where the expiry is no number.
pub record Jwt : Type 0 where
  pub encode : Claims → List ℕ → List ℕ
  pub decode : ℕ → List ℕ → List ℕ → Option Claims

-- What PyJWT documents: a token reads back from its `iat` until its `exp`, no expired token is read, and
-- what a token says does not change.
pub record IsJwt ⦃jwt : Jwt⦄ : Type 0 where
  pub decode-encode :
      (now : ℕ) (c : Claims) (secret : List ℕ)
      → c.iat * 1_000_000 ≤ now
      → now < c.exp * 1_000_000
      → jwt.decode now (jwt.encode c secret) secret ≡ some c
  pub not_expired :
      (now : ℕ) (token secret : List ℕ) (c : Claims)
      → jwt.decode now token secret ≡ some c
      → now < c.exp * 1_000_000
  pub same_claims :
      (now now' : ℕ) (token secret : List ℕ) (c c' : Claims)
      → jwt.decode now token secret ≡ some c
      → jwt.decode now' token secret ≡ some c'
      → c ≡ c'

-- The Bearer header.
pub record Credentials : Type 0 where
  pub scheme : List ℕ
  pub token : List ℕ

pub record AuthenticatedIdentity : Type 0 where
  pub customer_id : List ℕ
  pub token : List ℕ
  pub expires_at : ℕ

pub record LoginResponse : Type 0 where
  pub access_token : List ℕ
  pub expires_in : ℕ
  pub user : AuthUser

-- The fingerprints of the revoked tokens, with their expiry.
abbrev pub Revoked : Type 0
Revoked = Table (List ℕ) ℕ

-- HTTP 503 and 401, and the `ValueError` of a blank id.
pub data Error : Type 0 where
  service_unavailable unauthorized blank : Error
