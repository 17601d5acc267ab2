-- ===== src/Auth/Login.antt =====
-- Signing in: who gets a token, and that the token is accepted.
use mathlib.Core.Bool.{false≢true}
use neutail.Base.{
  ok-injective, >>=_inv, ℕ, ◌+◌, ◌*◌, ◌/◌, ◌≤◌, ◌<◌, ◌≡◌, refl, sym, ap, ◌∙◌, ◌≢◌, Bool, true,
  false, not, Option, none, some, List, [], ◌∷◌, arith, or_default, ◌==◌, nat_eq, string_eq,
  pair_eq, Outcome, ok, require,
}
use mathlib.Core.Path.{subst}
use mathlib.Core.Bool.{false≢true}
use neutail.Base.Table.{Table, get}
use neutail.Base.Text.{Unicode, codes, codes_eq, strip, strip-strip, casefold}
use neutail.Auth.Schema.{
  Integer, Settings, Customer, AuthUser, Claims, Jwt, IsJwt, LoginResponse, Revoked, Error, natural,
  negative,
}
use neutail.Auth.{
  login, login_response, authenticate_customer, checked_password, find_user_by_email,
  create_access_token, access_token_ttl, valid_ttl, jwt_secret, get_authenticated_identity,
  with_secret, identified, purge,
}

purge-none : (now : ℕ) (k : List ℕ) (t : Revoked) → get k t ≡ none → get k (purge now t) ≡ none
unfolding purge get
purge-none now k [] h = refl
purge-none now k ((i, e) ∷ t) h = ground (arith, h, purge-none now k t)

-- The password was the configured one, and the user has the email.
pub record HasPassword ⦃u : Unicode⦄ (settings : Settings) (email password : List ℕ)
    (customers : Table (List ℕ) Customer) (user : AuthUser) : Type 0 where
  pub configured : settings.demo_password ≡ some password
  pub not_empty : password ≢ []
  pub found : find_user_by_email email customers ≡ some user

module _ ⦃u : Unicode⦄ where
  valid_ttl_inv : (o : Option Integer) (ttl : ℕ) → valid_ttl o ≡ ok ttl → (1 ≤ ttl) × (ttl ≤ 86_400)
  unfolding valid_ttl
  valid_ttl_inv none ttl h = cc
  valid_ttl_inv (some (negative n)) ttl h = cc
  valid_ttl_inv (some (natural n)) ttl h = ground (arith, h)

  authenticate_customer_inv :
      (settings : Settings) (email password : List ℕ) (customers : Table (List ℕ) Customer)
      (user : AuthUser)
      → authenticate_customer settings email password customers ≡ ok (some user)
      → HasPassword settings email password customers user
  unfolding authenticate_customer checked_password
  authenticate_customer_inv settings email password customers user h =
      go settings.demo_password refl
    where
      go :
          (o : Option (List ℕ))
          → settings.demo_password ≡ o
          → HasPassword settings email password customers user
      go none e = cc (rw e at h)
      go (some configured) e =
          given (configured == []) (password == configured) refl refl (rw e at h)
        where
          given :
              (b c : Bool)
              → (configured == []) ≡ b
              → (password == configured) ≡ c
              → checked_password password (some configured) (find_user_by_email email customers)
                ≡ ok (some user)
              → HasPassword settings email password customers user
          given true c p q k = cc (rw p at k)
          given false false p q k = cc (rw (p, q) at k)
          given false true p q k =
              let same : password ≡ configured = (codes_eq.beq_iff password configured).0 q in
              record {
                configured = e ∙ ap some (sym same);
                not_empty =
                    λ z. false≢true (sym p ∙ (codes_eq.beq_iff configured []).1 (sym same ∙ z));
                found = ok-injective _ _ (rw (p, q) at k);
              }

  module _ ⦃jwt : Jwt⦄ where
    -- The claims of a token that was issued at a moment.
    abbrev claims_of : ℕ → ℕ → List ℕ → List ℕ → Claims
    claims_of now ttl jti customer = record {
      sub = some (strip customer);
      iat = now / 1_000_000;
      exp = (now + ttl * 1_000_000) / 1_000_000;
      jti = jti;
    }

    record IsIssued (settings : Settings) (now : ℕ) (jti customer token : List ℕ) (ttl : ℕ)
        : Type 0 where
      pub present : (strip customer == []) ≡ false
      pub secret : List ℕ
      pub has_secret : jwt_secret settings ≡ ok secret
      pub bounds : (1 ≤ ttl) × (ttl ≤ 86_400)
      pub encoded : token ≡ jwt.encode (claims_of now ttl jti customer) secret

    create_access_token_inv :
        (settings : Settings) (now : ℕ) (jti customer token : List ℕ) (ttl : ℕ)
        → create_access_token settings now jti customer ≡ ok (token, ttl)
        → IsIssued settings now jti customer token ttl
    unfolding create_access_token access_token_ttl
    create_access_token_inv settings now jti customer token ttl h =
        let (_, e₁, h₁) = >>=_inv (require (not (strip customer == [])) Error.blank) _ _ h in
        let (n, e₂, h₂) = >>=_inv (access_token_ttl settings) _ _ h₁ in
        let (secret, e₃, h₃) = >>=_inv (jwt_secret settings) _ _ h₂ in
        let pair = ok-injective _ _ h₃ in
        let same : n ≡ ttl = ap (λ p. p.1) pair in
        record {
          present = ground (arith, e₁);
          secret = secret;
          has_secret = e₃;
          bounds =
              valid_ttl_inv (or_default (some (natural 3600)) settings.ttl_seconds) ttl
                (e₂ ∙ ap ok same);
          encoded =
              sym (ap (λ p. p.0) pair)
              ∙ ap (λ k. jwt.encode (claims_of now k jti customer) secret) same;
        }

    response-injective :
        (a b : LoginResponse)
        → ◌≡◌ {A = Outcome Error (Option LoginResponse)} (ok (some a)) (ok (some b))
        → a ≡ b
    response-injective a b h = cc

    identified-ok :
        (fingerprint : List ℕ → List ℕ) (now : ℕ) (token : List ℕ) (c : Claims) (customer : List ℕ)
        (revoked : Revoked)
        → strip (or_default [] c.sub) ≡ customer
        → (customer == []) ≡ false
        → get (fingerprint token) (purge now revoked) ≡ none
        → (identified fingerprint now token (some c) revoked).1
          ≡ ok (record { customer_id = customer; token = token; expires_at = c.exp * 1_000_000 })
    unfolding identified
    identified-ok fingerprint now token c customer revoked e p q = rw (e, p, q) refl

    -- The token that was issued is accepted until it expires.
    IsIssued-accepted :
        IsJwt
        → (fingerprint : List ℕ → List ℕ) (settings : Settings) (now now' checked ttl : ℕ)
          (jti customer token scheme : List ℕ) (revoked : Revoked)
        → IsIssued settings now jti customer token ttl
        → (casefold scheme == codes "bearer") ≡ true
        → now ≤ now'
        → now' < (now / 1_000_000 + ttl) * 1_000_000
        → get (fingerprint token) revoked ≡ none
        → (get_authenticated_identity fingerprint settings now' checked
            (some (record { scheme = scheme; token = token }))
            revoked).1
          ≡ ok (record {
            customer_id = strip customer;
            token = token;
            expires_at = (now / 1_000_000 + ttl) * 1_000_000;
          })
    unfolding get_authenticated_identity with_secret identified
    IsIssued-accepted laws fingerprint settings now now' checked ttl jti customer token scheme
          revoked issued bearer later fresh kept =
        let expiry : (now + ttl * 1_000_000) / 1_000_000 ≡ now / 1_000_000 + ttl = omega arith in
        let c = claims_of now ttl jti customer in
        let reads : jwt.decode now' token issued.secret ≡ some c =
          ap (λ t. jwt.decode now' t issued.secret) issued.encoded
          ∙ laws.decode-encode now' c issued.secret (omega (arith, later)) (rw expiry (fresh)) in
        let answer =
          identified-ok fingerprint checked token c (strip customer) revoked (strip-strip customer)
            issued.present (purge-none checked (fingerprint token) revoked kept) in
        rw (bearer, issued.has_secret, reads)
          (answer
            ∙ ap
                (λ n. ok (record {
                  customer_id = strip customer;
                  token = token;
                  expires_at = n * 1_000_000;
                }))
                expiry)

    -- Who signs in has given the configured password, which is not empty, and the email of the customer that the token is for. The token lasts from one second to a day, and
    -- until then it is accepted, as that customer's, if it was not revoked.
    pub login-authenticates :
        IsJwt
        → (fingerprint : List ℕ → List ℕ) (settings : Settings) (now now' checked : ℕ)
          (jti email password scheme : List ℕ) (customers : Table (List ℕ) Customer)
          (revoked : Revoked) (r : LoginResponse)
        → login settings now jti email password customers ≡ ok (some r)
        → (casefold scheme == codes "bearer") ≡ true
        → now ≤ now'
        → now' < (now / 1_000_000 + r.expires_in) * 1_000_000
        → get (fingerprint r.access_token) revoked ≡ none
        → HasPassword settings email password customers r.user
          × (1 ≤ r.expires_in)
          × (r.expires_in ≤ 86_400)
          × ((get_authenticated_identity fingerprint settings now' checked
                (some (record { scheme = scheme; token = r.access_token }))
                revoked).1
              ≡ ok (record {
                customer_id = strip r.user.customer_id;
                token = r.access_token;
                expires_at = (now / 1_000_000 + r.expires_in) * 1_000_000;
              }))
    unfolding login login_response get_authenticated_identity with_secret identified
    login-authenticates laws fingerprint settings now now' checked jti email password scheme
          customers revoked r h bearer later fresh kept =
        let (user, e₁, h₁) =
          >>=_inv (authenticate_customer settings email password customers) _ _ h in
        go user e₁ h₁
      where
        go :
            (o : Option AuthUser)
            → authenticate_customer settings email password customers ≡ ok o
            → login_response settings now jti o ≡ ok (some r)
            → HasPassword settings email password customers r.user
              × (1 ≤ r.expires_in)
              × (r.expires_in ≤ 86_400)
              × ((get_authenticated_identity fingerprint settings now' checked
                    (some (record { scheme = scheme; token = r.access_token }))
                    revoked).1
                  ≡ ok (record {
                    customer_id = strip r.user.customer_id;
                    token = r.access_token;
                    expires_at = (now / 1_000_000 + r.expires_in) * 1_000_000;
                  }))
        go none e h' = cc
        go (some user) e h' =
            let ((token, ttl), e₂, h₂) =
              >>=_inv (create_access_token settings now jti user.customer_id) _ _ h' in
            let same = response-injective _ _ h₂ in
            let issued = create_access_token_inv settings now jti user.customer_id token ttl e₂ in
            let who : user ≡ r.user = ap (λ (x : LoginResponse). x.user) same in
            let for : ttl ≡ r.expires_in = ap (λ (x : LoginResponse). x.expires_in) same in
            let text : token ≡ r.access_token = ap (λ (x : LoginResponse). x.access_token) same in
            let fresh' : now' < (now / 1_000_000 + ttl) * 1_000_000 = rw for fresh in
            let kept' : get (fingerprint token) revoked ≡ none = rw text kept in
            let accepted =
              IsIssued-accepted laws fingerprint settings now now' checked ttl jti user.customer_id
                token scheme revoked issued bearer later fresh' kept' in
            (
              subst (HasPassword settings email password customers) who
                  (authenticate_customer_inv settings email password customers user e),
              subst (λ n. 1 ≤ n) for issued.bounds.0,
              subst (λ n. n ≤ 86_400) for issued.bounds.1,
              subst
                  (λ (x : LoginResponse).
                    (get_authenticated_identity fingerprint settings now' checked
                      (some (record { scheme = scheme; token = x.access_token })) revoked).1
                    ≡ ok (record {
                      customer_id = strip x.user.customer_id;
                      token = x.access_token;
                      expires_at = (now / 1_000_000 + x.expires_in) * 1_000_000;
                    }))
                  same accepted,
            )
