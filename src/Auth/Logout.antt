-- ===== src/Auth/Logout.antt =====
-- Signing out: the token is refused from then on.
use neutail.Base.{
  ok-injective, ℕ, ◌*◌, ◌≤◌, ◌<◌, ◌≡◌, refl, sym, ap, ◌∙◌, ◌⊎◌, inl, inr, Bool, true, false, Option,
  none, some, List, [], ◌∷◌, arith, leb, leb→le, Bool-cases, is_some, or_default, ◌==◌, nat_eq,
  string_eq, pair_eq, Outcome, ok, raised,
}
use mathlib.Core.Path.{subst}
use mathlib.Core.Bool.{false≢true}
use neutail.Base.Table.{get, put, get-put_self, get-put_ne}
use neutail.Base.Text.{Unicode, codes, codes_eq, strip, casefold}
use neutail.Auth.Schema.{
  unauthorized, Settings, Claims, Jwt, IsJwt, Credentials, AuthenticatedIdentity, Revoked, Error,
}
use neutail.Auth.{
  jwt_secret, get_authenticated_identity, with_secret, identified, purge, logout, logged_out,
  revoke_access_token,
}

purge-kept :
    (now : ℕ) (k : List ℕ) (e : ℕ) (t : Revoked)
    → get k t ≡ some e
    → now < e
    → get k (purge now t) ≡ some e
unfolding purge get
purge-kept now k e [] h lt = cc
purge-kept now k e ((i, d) ∷ t) h lt = ground (arith, h, lt, purge-kept now k e t)

-- The token is in the list until its expiry.
abbrev IsDenied : (List ℕ → List ℕ) → List ℕ → ℕ → ℕ → Revoked → Type 0
IsDenied fingerprint token expiry now revoked =
    (get (fingerprint token) revoked ≡ some expiry) ⊎ (expiry ≤ now)

module _ ⦃u : Unicode⦄ ⦃jwt : Jwt⦄ (fingerprint : List ℕ → List ℕ) (settings : Settings) where
  -- Requests that are authenticated and sign-outs in turn, at moments that do not go back.
  pub data Later (now : ℕ) (revoked : Revoked) : ℕ → Revoked → Type 0 where
    at_once : Later now revoked now revoked
    request :
        {now' : ℕ} {revoked' : Revoked} (now'' checked : ℕ) (c : Option Credentials)
        → Later now revoked now' revoked'
        → now' ≤ now''
        → now'' ≤ checked
        → Later now revoked checked
            (get_authenticated_identity fingerprint settings now'' checked c revoked').0
    sign_out :
        {now' : ℕ} {revoked' : Revoked} (now'' checked : ℕ) (c : Option Credentials)
        → Later now revoked now' revoked'
        → now' ≤ now''
        → now'' ≤ checked
        → Later now revoked checked (logout fingerprint settings now'' checked c revoked').0

  -- What a request has found out about its token.
  record IsAccepted (now : ℕ) (i : AuthenticatedIdentity) : Type 0 where
    pub secret : List ℕ
    pub claims : Claims
    pub has_secret : jwt_secret settings ≡ ok secret
    pub decoded : jwt.decode now i.token secret ≡ some claims
    pub expiry : i.expires_at ≡ claims.exp * 1_000_000

  purge-IsDenied :
      (token : List ℕ) (expiry now now' : ℕ) (revoked : Revoked)
      → now ≤ now'
      → IsDenied fingerprint token expiry now revoked
      → IsDenied fingerprint token expiry now' (purge now' revoked)
  purge-IsDenied token expiry now now' revoked later (inr e) = inr (omega (arith, later, e))
  purge-IsDenied token expiry now now' revoked later (inl h) = elim (Bool-cases (leb expiry now')) [
    | inl q ↦ inr (leb→le expiry now' q)
    | inr q ↦ inl (purge-kept now' (fingerprint token) expiry revoked h (ground (arith, q)))
  ]

  keep-IsDenied :
      (token : List ℕ) (expiry now now' : ℕ) (revoked : Revoked)
      → now ≤ now'
      → IsDenied fingerprint token expiry now revoked
      → IsDenied fingerprint token expiry now' revoked
  keep-IsDenied token expiry now now' revoked later (inl h) = inl h
  keep-IsDenied token expiry now now' revoked later (inr e) = inr (omega (arith, later, e))

  -- A request leaves the list or purges it.
  request-state :
      (now checked : ℕ) (c : Option Credentials) (revoked : Revoked)
      → let s = (get_authenticated_identity fingerprint settings now checked c revoked).0 in
        (s ≡ revoked) ⊎ (s ≡ purge checked revoked)
  unfolding get_authenticated_identity with_secret identified
  request-state now checked none revoked = inl refl
  request-state now checked (some c) revoked = go (casefold c.scheme == codes "bearer") refl
    where
      go :
          (b : Bool)
          → (casefold c.scheme == codes "bearer") ≡ b
          → let s =
              (get_authenticated_identity fingerprint settings now checked (some c) revoked).0 in
            (s ≡ revoked) ⊎ (s ≡ purge checked revoked)
      go false e = inl (rw e refl)
      go true e = rw e (of_secret (jwt_secret settings))
        where
          of_secret :
              (o : Outcome Error (List ℕ))
              → let s = (with_secret fingerprint now checked c.token o revoked).0 in
                (s ≡ revoked) ⊎ (s ≡ purge checked revoked)
          of_secret (raised x) = inl refl
          of_secret (ok secret) = of_claims (jwt.decode now c.token secret)
            where
              of_claims :
                  (o : Option Claims)
                  → let s = (identified fingerprint checked c.token o revoked).0 in
                    (s ≡ revoked) ⊎ (s ≡ purge checked revoked)
              of_claims none = inl refl
              of_claims (some claims) = ground arith

  identified-IsAccepted :
      (now checked : ℕ) (token secret : List ℕ) (revoked : Revoked) (i : AuthenticatedIdentity)
      (o : Option Claims)
      → jwt_secret settings ≡ ok secret
      → jwt.decode now token secret ≡ o
      → (identified fingerprint checked token o revoked).1 ≡ ok i
      → IsAccepted now i
  unfolding identified
  identified-IsAccepted now checked token secret revoked i none s d h = cc
  identified-IsAccepted now checked token secret revoked i (some claims) s d h =
      go (strip (or_default [] claims.sub) == [])
        (is_some (get (fingerprint token) (purge checked revoked))) refl refl
    where
      go :
          (a b : Bool)
          → (strip (or_default [] claims.sub) == []) ≡ a
          → is_some (get (fingerprint token) (purge checked revoked)) ≡ b
          → IsAccepted now i
      go true b p q = cc (rw p at h)
      go false true p q = cc (rw (p, q) at h)
      go false false p q =
          let same = ok-injective _ _ (rw (p, q) at h) in
          record {
            secret = secret;
            claims = claims;
            has_secret = s;
            decoded =
                ap (λ (x : AuthenticatedIdentity). jwt.decode now x.token secret) (sym same) ∙ d;
            expiry = ap (λ (x : AuthenticatedIdentity). x.expires_at) (sym same);
          }

  request-IsAccepted :
      (now checked : ℕ) (c : Option Credentials) (revoked : Revoked) (i : AuthenticatedIdentity)
      → (get_authenticated_identity fingerprint settings now checked c revoked).1 ≡ ok i
      → IsAccepted now i
  unfolding get_authenticated_identity with_secret
  request-IsAccepted now checked none revoked i h = cc
  request-IsAccepted now checked (some c) revoked i h =
      go (casefold c.scheme == codes "bearer") (jwt_secret settings) refl refl
    where
      go :
          (b : Bool) (o : Outcome Error (List ℕ))
          → (casefold c.scheme == codes "bearer") ≡ b
          → jwt_secret settings ≡ o
          → IsAccepted now i
      go false o p q = cc (rw p at h)
      go true (raised e) p q = cc (rw (p, q) at h)
      go true (ok secret) p q =
          identified-IsAccepted now checked c.token secret revoked i (jwt.decode now c.token secret)
            q refl (rw (p, q) at h)

  module _ (laws : IsJwt) (injective : (a b : List ℕ) → fingerprint a ≡ fingerprint b → a ≡ b) where
    same_expiry :
        (before now : ℕ) (i j : AuthenticatedIdentity)
        → IsAccepted before i
        → IsAccepted now j
        → j.token ≡ i.token
        → j.expires_at ≡ i.expires_at
    same_expiry before now i j a b e =
        let secret : b.secret ≡ a.secret = ok-injective _ _ (sym b.has_secret ∙ a.has_secret) in
        let again : jwt.decode now i.token a.secret ≡ some b.claims =
          ap (λ t. jwt.decode now t a.secret) (sym e)
          ∙ ap (λ k. jwt.decode now j.token k) (sym secret)
          ∙ b.decoded in
        b.expiry
        ∙ ap (λ (c : Claims). c.exp * 1_000_000)
            (laws.same_claims now before i.token a.secret b.claims a.claims again a.decoded)
        ∙ sym a.expiry

    -- Signing another token out keeps this one's row.
    put-IsDenied :
        (token : List ℕ) (before now checked : ℕ) (i j : AuthenticatedIdentity) (revoked : Revoked)
        → IsAccepted before i
        → IsAccepted now j
        → IsDenied fingerprint i.token i.expires_at checked revoked
        → IsDenied fingerprint i.token i.expires_at checked
            (revoke_access_token fingerprint j.token j.expires_at revoked)
    put-IsDenied token before now checked i j revoked a b (inr e) = inr e
    put-IsDenied token before now checked i j revoked a b (inl h) =
        elim (Bool-cases (fingerprint j.token == fingerprint i.token)) [
          | inl q ↦
              let f = (codes_eq.beq_iff (fingerprint j.token) (fingerprint i.token)).0 q in
              let e = same_expiry before now i j a b (injective j.token i.token f) in
              inl (
                ap (λ k. get k (put (fingerprint j.token) j.expires_at revoked)) (sym f)
                ∙ get-put_self (fingerprint j.token) j.expires_at revoked
                ∙ ap some e)
          | inr q ↦ inl (
              get-put_ne (fingerprint j.token) (fingerprint i.token) j.expires_at revoked (λ w.
                false≢true
                  (sym q ∙ (codes_eq.beq_iff (fingerprint j.token) (fingerprint i.token)).1 w))
              ∙ h)
        ]

    request-IsDenied :
        (i : AuthenticatedIdentity) (now now' checked : ℕ) (c : Option Credentials)
        (revoked : Revoked)
        → now ≤ now'
        → now' ≤ checked
        → IsDenied fingerprint i.token i.expires_at now revoked
        → IsDenied fingerprint i.token i.expires_at checked
            (get_authenticated_identity fingerprint settings now' checked c revoked).0
    request-IsDenied i now now' checked c revoked le le' h =
        elim (request-state now' checked c revoked) [
          | inl e ↦
              subst (IsDenied fingerprint i.token i.expires_at checked) (sym e)
                (keep-IsDenied i.token i.expires_at now checked revoked (omega (arith, le, le')) h)
          | inr e ↦
              subst (IsDenied fingerprint i.token i.expires_at checked) (sym e)
                (purge-IsDenied i.token i.expires_at now checked revoked (omega (arith, le, le')) h)
        ]

    sign_out-IsDenied :
        (i : AuthenticatedIdentity) (before now now' checked : ℕ) (c : Option Credentials)
        (revoked : Revoked)
        → IsAccepted before i
        → now ≤ now'
        → now' ≤ checked
        → IsDenied fingerprint i.token i.expires_at now revoked
        → IsDenied fingerprint i.token i.expires_at checked
            (logout fingerprint settings now' checked c revoked).0
    unfolding logout logged_out
    sign_out-IsDenied i before now now' checked c revoked a le le' h =
        go (get_authenticated_identity fingerprint settings now' checked c revoked).1 refl
      where
        kept : Revoked
        kept = (get_authenticated_identity fingerprint settings now' checked c revoked).0

        go :
            (o : Outcome Error AuthenticatedIdentity)
            → (get_authenticated_identity fingerprint settings now' checked c revoked).1 ≡ o
            → IsDenied fingerprint i.token i.expires_at checked (logged_out fingerprint kept o)
        go (raised e) q = request-IsDenied i now now' checked c revoked le le' h
        go (ok j) q =
            put-IsDenied i.token before now' checked i j kept a
              (request-IsAccepted now' checked c revoked j q)
              (request-IsDenied i now now' checked c revoked le le' h)

    Later-IsDenied :
        (i : AuthenticatedIdentity) (before now : ℕ) (revoked : Revoked) {now' : ℕ}
        {revoked' : Revoked}
        → IsAccepted before i
        → Later now revoked now' revoked'
        → IsDenied fingerprint i.token i.expires_at now revoked
        → IsDenied fingerprint i.token i.expires_at now' revoked'
    Later-IsDenied i before now revoked a at_once h = h
    Later-IsDenied i before now revoked a (request {now' = n} {revoked' = r} n' k c l le le') h =
        request-IsDenied i n n' k c r le le' (Later-IsDenied i before now revoked a l h)
    Later-IsDenied i before now revoked a (sign_out {now' = n} {revoked' = r} n' k c l le le') h =
        sign_out-IsDenied i before n n' k c r a le le' (Later-IsDenied i before now revoked a l h)

    claims-refused :
        (before now now' checked : ℕ) (i : AuthenticatedIdentity) (revoked : Revoked)
        (secret : List ℕ) (o : Option Claims)
        → IsAccepted before i
        → jwt_secret settings ≡ ok secret
        → IsDenied fingerprint i.token i.expires_at now revoked
        → now ≤ now'
        → (checked < i.expires_at) ⊎ (i.expires_at ≤ now')
        → jwt.decode now' i.token secret ≡ o
        → (identified fingerprint checked i.token o revoked).1 ≡ raised unauthorized
    unfolding identified
    claims-refused before now now' checked i revoked secret none a s h le c d = refl
    claims-refused before now now' checked i revoked secret (some claims) a s h le c d =
        let same : secret ≡ a.secret = ok-injective _ _ (sym s ∙ a.has_secret) in
        let decoded : jwt.decode now' i.token a.secret ≡ some claims =
          ap (λ k. jwt.decode now' i.token k) (sym same) ∙ d in
        let until : i.expires_at ≡ claims.exp * 1_000_000 =
          a.expiry
          ∙ ap (λ (c : Claims). c.exp * 1_000_000)
              (laws.same_claims before now' i.token a.secret a.claims claims a.decoded decoded) in
        let fresh : now' < i.expires_at =
          omega (arith, until, laws.not_expired now' i.token a.secret claims decoded) in
        elim h [
          | inl here ↦
              let before_expiry : checked < i.expires_at = omega (arith, c, fresh) in
              let listed =
                purge-kept checked (fingerprint i.token) i.expires_at revoked here before_expiry in
              rw listed (ground arith)
          | inr e ↦ absurd (omega (arith, e, le, fresh))
        ]

    -- A token that was signed out is refused ever after, whatever requests and sign-outs come in
    -- between, if the clock does not go back, no two tokens share a fingerprint, and its expiry does
    -- not fall between the decoding of the token and the check of the list.
    pub logout-refused :
        (now checked now' now'' checked'' : ℕ) (c : Option Credentials) (scheme : List ℕ)
        (i : AuthenticatedIdentity) (revoked later : Revoked)
        → (logout fingerprint settings now checked c revoked).1 ≡ ok i
        → Later checked (logout fingerprint settings now checked c revoked).0 now' later
        → now' ≤ now''
        → (checked'' < i.expires_at) ⊎ (i.expires_at ≤ now'')
        → (get_authenticated_identity fingerprint settings now'' checked''
            (some (record { scheme = scheme; token = i.token }))
            later).1
          ≡ raised unauthorized
    unfolding logout logged_out get_authenticated_identity with_secret
    logout-refused now checked now' now'' checked'' c scheme i revoked later h l le side =
        let a = request-IsAccepted now checked c revoked i h in
        let start : IsDenied fingerprint i.token i.expires_at checked
            (logout fingerprint settings now checked c revoked).0 =
          inl (rw h (get-put_self (fingerprint i.token) i.expires_at _)) in
        let denied =
          Later-IsDenied i now checked (logout fingerprint settings now checked c revoked).0 a l
            start in
        elim (Bool-cases (casefold scheme == codes "bearer")) [
          | inl q ↦
              rw (q, a.has_secret)
                (claims-refused now now' now'' checked'' i later a.secret _ a a.has_secret denied le
                  side refl)
          | inr q ↦ rw q refl
        ]
