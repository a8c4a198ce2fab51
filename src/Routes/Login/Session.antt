-- ===== src/Routes/Login/Session.antt =====
-- What becomes of the refresh cookie of app/routes/auth.py when it is sent again.
use nexus_inventory_platform.Base.{
  ℕ, String, none, some, Bool, false, str_eq, ◌≡◌, refl, ap, ◌∙◌, arith,
}
use nexus_inventory_platform.Auth.{
  Claims, Outcome, http, key_error, Library, Redis, Tokens, Settings, Store, decode_token,
  refresh_tokens,
}
use nexus_inventory_platform.Auth as Service
use nexus_inventory_platform.Auth.Rotation.{IsRedis, refresh_tokens_once, refresh_tokens-logout}
use nexus_inventory_platform.Routes.Login.{
  TokenResponse, Answer, given, answered, answer_tokens, refresh, refresh_given, cleared, logout,
  logout_given,
}

module _ (lib : Library) (settings : Settings) (secure : Bool) {R : Type 0} (redis : Redis R)
    (laws : IsRedis redis) where
  answered-store : (x : Outcome Tokens × Store R) → (answered lib settings secure redis x).1 ≡ x.1
  unfolding answered
  answered-store (o, w) = refl

  cleared-store : (x : Outcome (Unit {0}) × Store R) → (cleared lib settings secure redis x).1 ≡ x.1
  unfolding cleared
  cleared-store (Outcome.ok u, w) = refl
  cleared-store (http c d, w) = refl
  cleared-store (key_error, w) = refl

  -- Refused with 401, and no cookie is set.
  abbrev pub IsRevoked : Answer TokenResponse × Store R → Type 0
  IsRevoked x = (x.0.body ≡ http 401 "Refresh token revoked or expired") × (x.0.cookie ≡ none)

  answered-IsRevoked :
      (x : Outcome Tokens × Store R)
      → x.0 ≡ http 401 "Refresh token revoked or expired"
      → IsRevoked (answered lib settings secure redis x)
  unfolding answered answer_tokens
  answered-IsRevoked (Outcome.ok t, w) h = cc
  answered-IsRevoked (http c d, w) h = (ground arith, refl)
  answered-IsRevoked (key_error, w) h = cc

  given-text : (token : String) → str_eq token "" ≡ false → given (some token) ≡ some token
  unfolding given
  given-text token h = rw h refl

  refresh-given :
      (now : ℕ) (jti token : String) (w : Store R)
      → str_eq token "" ≡ false
      → refresh lib settings secure redis now jti (some token) w
        ≡ answered lib settings secure redis (refresh_tokens lib settings redis now jti token w)
  unfolding refresh refresh_given
  refresh-given now jti token w h = rw (given-text token h) refl

  logout-given :
      (token : String) (w : Store R)
      → str_eq token "" ≡ false
      → logout lib settings secure redis (some token) w
        ≡ cleared lib settings secure redis (Service.logout lib settings redis token w)
  unfolding logout logout_given
  logout-given token w h = rw (given-text token h) refl

  refresh-IsRevoked :
      (now : ℕ) (jti token : String) (w w' : Store R)
      → str_eq token "" ≡ false
      → w ≡ w'
      → (refresh_tokens lib settings redis now jti token w').0
        ≡ http 401 "Refresh token revoked or expired"
      → IsRevoked (refresh lib settings secure redis now jti (some token) w)
  refresh-IsRevoked now jti token w w' h e r =
      rw (refresh-given now jti token w h, e)
        (answered-IsRevoked (refresh_tokens lib settings redis now jti token w') r)

  -- A refresh cookie, of a token that decodes with the id `old`, is refused with 401 and no new cookie
  -- when it is sent again after a refresh with it, if the token issued there has another key, and when it
  -- is sent after a logout with it.
  pub refresh_replayed :
      (now later : ℕ) (jti next old token : String) (payload : Claims) (w : Store R)
      → decode_token lib settings token "refresh" ≡ some payload
      → payload.jti ≡ some old
      → str_eq (lib.refresh_key jti) (lib.refresh_key old) ≡ false
      → str_eq token "" ≡ false
      → IsRevoked (
          refresh lib settings secure redis later next
            (some token)
            (refresh lib settings secure redis now jti (some token) w).1)
        × IsRevoked (
            refresh lib settings secure redis later next
              (some token)
              (logout lib settings secure redis (some token) w).1)
  refresh_replayed now later jti next old token payload w d i f h = (
    refresh-IsRevoked later next token _ (refresh_tokens lib settings redis now jti token w).1 h
        (ap (λ (x : Answer TokenResponse × Store R). x.1) (refresh-given now jti token w h)
          ∙ answered-store (refresh_tokens lib settings redis now jti token w))
        (refresh_tokens_once lib settings redis laws now later jti next old token payload w d i f),
    refresh-IsRevoked later next token _ (Service.logout lib settings redis token w).1 h
        (ap (λ (x : Answer (Unit {0}) × Store R). x.1) (logout-given token w h)
          ∙ cleared-store (Service.logout lib settings redis token w))
        (refresh_tokens-logout lib settings redis laws later next old token payload w d i),
  )
