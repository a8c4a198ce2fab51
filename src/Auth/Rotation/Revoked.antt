-- ===== src/Auth/Rotation/Revoked.antt =====
-- A refresh token of app/services/auth.py that has been presented, or logged out with, stays refused whatever
-- is asked for afterwards.
use nexus_inventory_platform.Base.{
  ℕ, String, List, [], ◌∷◌, Option, none, some, Bool, true, false, not, str_eq, if◌then◌else◌, ◌≡◌,
  refl, ◌∙◌, All, if-cases,
}
use nexus_inventory_platform.Text.{lower}
use nexus_inventory_platform.Auth.{
  User, Claims, Outcome, Library, Redis, Settings, Store, Tokens, get_user_by_email, set_last_login,
  decode_token, issued, exchange, rotate, refresh_tokens, revoke, revoke_id, logout, authenticate,
}
use nexus_inventory_platform.Auth.Rotation.{
  IsRedis, issued_absent, redeem_absent, refresh_refused, presented_absent, deleted_absent,
}

-- What clients ask for: a rotation and a login at a time, with the id of the token that is issued, and a
-- logout.
pub data Request : Type 0 where
  rotation : ℕ → String → String → Request
  sign_in : ℕ → String → String → String → Request
  sign_out : String → Request

module _ (lib : Library) (settings : Settings) {R : Type 0} (redis : Redis R)
    (laws : IsRedis redis) where
  abbrev pub serve : Request → Store R → Store R
  serve (rotation now jti token) w = (refresh_tokens lib settings redis now jti token w).1
  serve (sign_in now jti name password) w =
      (authenticate lib settings redis now jti name password w).1
  serve (sign_out token) w = (logout lib settings redis token w).1

  abbrev pub serve_all : List Request → Store R → Store R
  serve_all [] w = w
  serve_all (r ∷ rs) w = serve_all rs (serve r w)

  -- A token that the request issues has another key than `k`.
  abbrev pub Spares : String → Request → Type 0
  Spares k (rotation now jti token) = str_eq (lib.refresh_key jti) k ≡ false
  Spares k (sign_in now jti name password) = str_eq (lib.refresh_key jti) k ≡ false
  Spares k (sign_out token) = Unit

  if-none : (b : Bool) (o : Option String) → o ≡ none → (if b then none else o) ≡ none
  if-none true o h = refl
  if-none false o h = h

  rotate_absent :
      (now : ℕ) (jti k : String) (o : Option Claims) (w : Store R)
      → str_eq (lib.refresh_key jti) k ≡ false
      → laws.get k w.redis ≡ none
      → laws.get k (rotate lib settings redis now jti o w).1.redis ≡ none
  unfolding rotate
  rotate_absent now jti k none w f h = h
  rotate_absent now jti k (some payload) w f h = exchange_absent payload.jti
    where
      exchange_absent :
          (id : Option String)
          → laws.get k (exchange lib settings redis now jti payload id w).1.redis ≡ none
      exchange_absent none = h
      exchange_absent (some old) =
          redeem_absent lib settings redis laws now jti k payload _ w f
            (laws.after_getdel (lib.refresh_key old) k w.redis ∙ if-none _ _ h)

  revoke_absent :
      (k : String) (o : Option Claims) (w : Store R)
      → laws.get k w.redis ≡ none
      → laws.get k (revoke lib settings redis o w).1.redis ≡ none
  unfolding revoke
  revoke_absent k none w h = h
  revoke_absent k (some payload) w h = id_absent payload.jti
    where
      id_absent :
          (id : Option String) → laws.get k (revoke_id lib settings redis id w).1.redis ≡ none
      id_absent none = h
      id_absent (some jti) = laws.after_delete (lib.refresh_key jti) k w.redis ∙ if-none _ _ h

  authenticate_absent :
      (now : ℕ) (jti k name password : String) (w : Store R)
      → str_eq (lib.refresh_key jti) k ≡ false
      → laws.get k w.redis ≡ none
      → laws.get k (authenticate lib settings redis now jti name password w).1.redis ≡ none
  unfolding authenticate
  authenticate_absent now jti k name password w f h =
      found_absent (get_user_by_email w.users (lower name))
    where
      found_absent :
          (o : Option User)
          → laws.get k
              (elim o as (λ _. Outcome Tokens × Store R) [
                | none ↦ (Outcome.http 401 "Incorrect username or password", w)
                | some user ↦
                    if not (lib.verify password user.hashed_password)
                    then (Outcome.http 401 "Incorrect username or password", w)
                    else if not user.is_active
                    then (Outcome.http 401 "Incorrect username or password", w)
                    else issued lib settings redis now jti user
                        (record w { users = set_last_login now user.id w.users })
              ]).1.redis
            ≡ none
      found_absent none = h
      found_absent (some user) =
          if-cases (λ (x : Outcome Tokens × Store R). laws.get k x.1.redis ≡ none)
            (not (lib.verify password user.hashed_password)) h
            (if-cases (λ (x : Outcome Tokens × Store R). laws.get k x.1.redis ≡ none)
              (not user.is_active) h
              (issued_absent lib settings redis laws now jti k user
                (record w { users = set_last_login now user.id w.users }) f h))

  serve_absent :
      (k : String) (r : Request) (w : Store R)
      → Spares k r
      → laws.get k w.redis ≡ none
      → laws.get k (serve r w).redis ≡ none
  unfolding refresh_tokens logout
  serve_absent k (rotation now jti token) w f h = rotate_absent now jti k _ w f h
  serve_absent k (sign_in now jti name password) w f h =
      authenticate_absent now jti k name password w f h
  serve_absent k (sign_out token) w f h = revoke_absent k _ w h

  serve_all_absent :
      (k : String) (rs : List Request) (w : Store R)
      → All (Spares k) rs
      → laws.get k w.redis ≡ none
      → laws.get k (serve_all rs w).redis ≡ none
  serve_all_absent k [] w f h = h
  serve_all_absent k (r ∷ rs) w f h =
      serve_all_absent k rs (serve r w) f.1 (serve_absent k r w f.0 h)

  -- A refresh token that decodes, with the id `old`, is good for at most one rotation: once it has been
  -- presented, whatever came of it, or logged out with, it is refused with 401, whatever rotations, logins
  -- and logouts come before, in any order and number, if no token issued from the presentation on has its
  -- key.
  pub refresh_tokens_revoked :
      (now later : ℕ) (jti next old token : String) (payload : Claims) (rs : List Request)
      (w : Store R)
      → decode_token lib settings token "refresh" ≡ some payload
      → payload.jti ≡ some old
      → str_eq (lib.refresh_key jti) (lib.refresh_key old) ≡ false
      → All (Spares (lib.refresh_key old)) rs
      → ((refresh_tokens lib settings redis later next token
            (serve_all rs (refresh_tokens lib settings redis now jti token w).1)).0
          ≡ Outcome.http 401 "Refresh token revoked or expired")
        × ((refresh_tokens lib settings redis later next token
              (serve_all rs (logout lib settings redis token w).1)).0
            ≡ Outcome.http 401 "Refresh token revoked or expired")
  refresh_tokens_revoked now later jti next old token payload rs w d i f spared = (
    refresh_refused lib settings redis laws later next old token payload _ d i (
        serve_all_absent (lib.refresh_key old) rs _ spared
          (presented_absent lib settings redis laws now jti old token payload w d i f)),
    refresh_refused lib settings redis laws later next old token payload _ d i (
        serve_all_absent (lib.refresh_key old) rs _ spared
          (deleted_absent lib settings redis laws old token payload w d i)),
  )
