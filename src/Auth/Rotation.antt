-- ===== src/Auth/Rotation.antt =====
-- The life of a refresh token of app/services/auth.py: it is good for one rotation, for none after a
-- logout, and never stands in for an access token.
pub mod Revoked
use nexus_inventory_platform.Base.{
  ℕ, String, List, Option, none, some, true, false, str_eq, if◌then◌else◌, ◌≡◌, refl, ap, ◌∙◌, sym,
  subst, eq_refl, if-cases,
}
use nexus_inventory_platform.Models.{role_value}
use nexus_inventory_platform.Auth.{
  User, Claims, Outcome, Library, Redis, Tokens, Settings, Store, get_user_by_id, refresh_claims,
  create_refresh_token, decode_token, checked, issue_tokens, issued, let_in, by_id, reissue, redeem,
  exchange, rotate, refresh_tokens, revoke, revoke_id, logout, current_user,
  get_current_user_from_token, required,
}

-- What Redis documents of the commands, with `get` the value of a key.
pub record IsRedis {R : Type 0} (redis : Redis R) : Type 0 where
  pub get : String → R → Option String
  pub on_getdel : (k : String) (s : R) → (redis.getdel k s).0 ≡ get k s
  pub after_getdel :
      (k j : String) (s : R) → get j (redis.getdel k s).1 ≡ (if str_eq k j then none else get j s)
  pub after_set :
      (k v : String) (ttl : ℕ) (j : String) (s : R)
      → get j (redis.set k v ttl s) ≡ (if str_eq k j then some v else get j s)
  pub after_delete :
      (k j : String) (s : R) → get j (redis.delete k s) ≡ (if str_eq k j then none else get j s)

module _ (lib : Library) (settings : Settings) {R : Type 0} (redis : Redis R)
    (laws : IsRedis redis) where
  issued_absent :
      (now : ℕ) (jti k : String) (u : User) (w : Store R)
      → str_eq (lib.refresh_key jti) k ≡ false
      → laws.get k w.redis ≡ none
      → laws.get k (issued lib settings redis now jti u w).1.redis ≡ none
  unfolding issued issue_tokens create_refresh_token
  issued_absent now jti k u w f h = laws.after_set (lib.refresh_key jti) _ _ k w.redis ∙ rw f h

  -- A key that is absent stays absent while another token is issued.
  let_in_absent :
      (now : ℕ) (jti k : String) (o : Option User) (w : Store R)
      → str_eq (lib.refresh_key jti) k ≡ false
      → laws.get k w.redis ≡ none
      → laws.get k (let_in lib settings redis now jti o w).1.redis ≡ none
  unfolding let_in
  let_in_absent now jti k none w f h = h
  let_in_absent now jti k (some u) w f h =
      if-cases (λ (x : Outcome Tokens × Store R). laws.get k x.1.redis ≡ none) u.is_active
        (issued_absent now jti k u w f h) h

  by_id_absent :
      (now : ℕ) (jti k : String) (o : Option ℕ) (w : Store R)
      → str_eq (lib.refresh_key jti) k ≡ false
      → laws.get k w.redis ≡ none
      → laws.get k (by_id lib settings redis now jti o w).1.redis ≡ none
  unfolding by_id
  by_id_absent now jti k none w f h = h
  by_id_absent now jti k (some id) w f h = let_in_absent now jti k _ w f h

  reissue_absent :
      (now : ℕ) (jti k : String) (o : Option String) (w : Store R)
      → str_eq (lib.refresh_key jti) k ≡ false
      → laws.get k w.redis ≡ none
      → laws.get k (reissue lib settings redis now jti o w).1.redis ≡ none
  unfolding reissue
  reissue_absent now jti k none w f h = h
  reissue_absent now jti k (some user_id) w f h = by_id_absent now jti k _ w f h

  redeem_absent :
      (now : ℕ) (jti k : String) (payload : Claims) (x : Option String × R) (w : Store R)
      → str_eq (lib.refresh_key jti) k ≡ false
      → laws.get k x.1 ≡ none
      → laws.get k (redeem lib settings redis now jti payload x w).1.redis ≡ none
  unfolding redeem
  redeem_absent now jti k payload (none, s) w f h = h
  redeem_absent now jti k payload (some v, s) w f h = reissue_absent now jti k payload.sub _ f h

  redeem_refused :
      (now : ℕ) (jti : String) (payload : Claims) (x : Option String × R) (w : Store R)
      → x.0 ≡ none
      → (redeem lib settings redis now jti payload x w).0
        ≡ Outcome.http 401 "Refresh token revoked or expired"
  unfolding redeem
  redeem_refused now jti payload (none, s) w h = refl
  redeem_refused now jti payload (some v, s) w h = cc

  -- A token whose key is absent is refused.
  refresh_refused :
      (now : ℕ) (jti old token : String) (payload : Claims) (w : Store R)
      → decode_token lib settings token "refresh" ≡ some payload
      → payload.jti ≡ some old
      → laws.get (lib.refresh_key old) w.redis ≡ none
      → (refresh_tokens lib settings redis now jti token w).0
        ≡ Outcome.http 401 "Refresh token revoked or expired"
  unfolding refresh_tokens rotate exchange
  refresh_refused now jti old token payload w d i h =
      rw (d, rotate, i, exchange)
        (redeem_refused now jti payload _ w (laws.on_getdel (lib.refresh_key old) w.redis ∙ h))

  gone : (k : String) (s : R) → laws.get k (redis.getdel k s).1 ≡ none
  gone k s = laws.after_getdel k k s ∙ rw (eq_refl k) refl

  presented_absent :
      (now : ℕ) (jti old token : String) (payload : Claims) (w : Store R)
      → decode_token lib settings token "refresh" ≡ some payload
      → payload.jti ≡ some old
      → str_eq (lib.refresh_key jti) (lib.refresh_key old) ≡ false
      → laws.get (lib.refresh_key old) (refresh_tokens lib settings redis now jti token w).1.redis
        ≡ none
  unfolding refresh_tokens rotate exchange
  presented_absent now jti old token payload w d i f =
      rw (d, rotate, i, exchange)
        (redeem_absent now jti (lib.refresh_key old) payload _ w f
          (gone (lib.refresh_key old) w.redis))

  -- A refresh token with the id `old` that is presented twice in a row is refused with 401 the second time,
  -- whatever came of the first, if the token issued there has another key.
  pub refresh_tokens_once :
      (now later : ℕ) (jti next old token : String) (payload : Claims) (w : Store R)
      → decode_token lib settings token "refresh" ≡ some payload
      → payload.jti ≡ some old
      → str_eq (lib.refresh_key jti) (lib.refresh_key old) ≡ false
      → (refresh_tokens lib settings redis later next token
          (refresh_tokens lib settings redis now jti token w).1).0
        ≡ Outcome.http 401 "Refresh token revoked or expired"
  refresh_tokens_once now later jti next old token payload w d i f =
      refresh_refused later next old token payload _ d i
        (presented_absent now jti old token payload w d i f)

  deleted_absent :
      (old token : String) (payload : Claims) (w : Store R)
      → decode_token lib settings token "refresh" ≡ some payload
      → payload.jti ≡ some old
      → laws.get (lib.refresh_key old) (logout lib settings redis token w).1.redis ≡ none
  unfolding logout revoke revoke_id
  deleted_absent old token payload w d i =
      rw (d, revoke, i, revoke_id)
        (laws.after_delete (lib.refresh_key old) (lib.refresh_key old) w.redis
          ∙ rw (eq_refl (lib.refresh_key old)) refl)

  -- After a logout with a refresh token that decodes, a rotation with it is refused with 401.
  pub refresh_tokens-logout :
      (now : ℕ) (jti old token : String) (payload : Claims) (w : Store R)
      → decode_token lib settings token "refresh" ≡ some payload
      → payload.jti ≡ some old
      → (refresh_tokens lib settings redis now jti token (logout lib settings redis token w).1).0
        ≡ Outcome.http 401 "Refresh token revoked or expired"
  refresh_tokens-logout now jti old token payload w d i =
      refresh_refused now jti old token payload _ d i (deleted_absent old token payload w d i)

  let_in-issued :
      (now : ℕ) (jti : String) (u : User) (w : Store R)
      → u.is_active ≡ true
      → let_in lib settings redis now jti (some u) w ≡ issued lib settings redis now jti u w
  unfolding let_in
  let_in-issued now jti u w h = rw h refl

  redeem-issued :
      (now : ℕ) (jti : String) (payload : Claims) (x : Option String × R) (v : String) (u : User)
      (w : Store R)
      → x.0 ≡ some v
      → payload.sub ≡ some (lib.show_id u.id)
      → lib.parse_id (lib.show_id u.id) ≡ some u.id
      → get_user_by_id w.users u.id ≡ some u
      → u.is_active ≡ true
      → redeem lib settings redis now jti payload x w
        ≡ issued lib settings redis now jti u (record w { redis = x.1 })
  unfolding redeem reissue by_id
  redeem-issued now jti payload (none, s) v u w e sub parse found active = cc
  redeem-issued now jti payload (some y, s) v u w e sub parse found active =
      rw (sub, reissue, parse, by_id, found)
        (let_in-issued now jti u (record w { redis = s }) active)

  -- The refresh token that is issued to an active user can be exchanged, while it is valid, for the
  -- next pair of tokens of that user.
  pub refresh_tokens-issue_tokens :
      (now later : ℕ) (jti next : String) (u : User) (w : Store R)
      → lib.decode
          (issue_tokens lib settings redis now jti u w.redis).0.refresh_token
          (required lib settings "refresh")
        ≡ some (
            refresh_claims lib settings now jti
              (lib.show_id u.id)
              (lib.show_id u.tenant_id)
              (role_value u.role))
      → lib.parse_id (lib.show_id u.id) ≡ some u.id
      → get_user_by_id w.users u.id ≡ some u
      → u.is_active ≡ true
      → (refresh_tokens lib settings redis later next
          (issue_tokens lib settings redis now jti u w.redis).0.refresh_token
          (record w { redis = (issue_tokens lib settings redis now jti u w.redis).1 })).0
        ≡ Outcome.ok (issue_tokens lib settings redis later next u w.redis).0
  unfolding refresh_tokens decode_token checked rotate exchange issue_tokens issued refresh_claims
      create_refresh_token
  refresh_tokens-issue_tokens now later jti next u w d parse found active =
      rw (d, checked, rotate, exchange)
        (ap (λ (x : Outcome Tokens × Store R). x.0)
          (redeem-issued later next
            (refresh_claims lib settings now jti (lib.show_id u.id) (lib.show_id u.tenant_id)
              (role_value u.role))
            _ (lib.show_id u.id) u _
            (laws.on_getdel _ _
              ∙ laws.after_set _ _ _ _ w.redis
              ∙ rw (eq_refl (lib.refresh_key jti)) refl)
            refl parse found active))

module _ (lib : Library) (settings : Settings) where
  -- A token issued as a refresh token is refused as an access token with 401, if a token decodes to
  -- nothing but the claims that it was made of.
  pub get_current_user_from_token-refresh :
      (now : ℕ) (jti subject tenant_id role : String) (users : List User)
      → ((payload : Claims)
          → lib.decode
              (create_refresh_token lib settings now jti subject tenant_id role).0
              (required lib settings "access")
            ≡ some payload
          → payload ≡ refresh_claims lib settings now jti subject tenant_id role)
      → get_current_user_from_token lib settings users
          (create_refresh_token lib settings now jti subject tenant_id role).0
        ≡ Outcome.http 401 "Could not validate credentials"
  unfolding get_current_user_from_token decode_token checked refresh_claims
  get_current_user_from_token-refresh now jti subject tenant_id role users h = refused _ h
    where
      refused :
          (o : Option Claims)
          → ((payload : Claims)
              → o ≡ some payload
              → payload ≡ refresh_claims lib settings now jti subject tenant_id role)
          → current_user lib settings users (checked lib settings "access" o)
            ≡ Outcome.http 401 "Could not validate credentials"
      refused none k = refl
      refused (some payload) k =
          subst
            (λ p.
              current_user lib settings users (checked lib settings "access" (some p))
              ≡ Outcome.http 401 "Could not validate credentials")
            (sym (k payload refl)) refl
