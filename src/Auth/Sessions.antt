-- ===== src/Auth/Sessions.antt =====
-- app/auth/routes.py and app/auth/decorators.py: login, refresh, logout and the guards of handlers.
use retail_iq.Base.{
  ℕ, suc, ◌+◌, Bool, true, false, not, ◌&&◌, Option, none, some, List, [], ◌∷◌, ◌==◌, leb,
  if◌then◌else◌,
}
use retail_iq.Auth.Models.{
  Role, User, Db, Key, KeyStore, Secrets, Env, AccessToken, Problem, Reply, tokens, done,
  mfa_required, failure,
}
use retail_iq.Auth.Codes.{generate_otp, generate_refresh_token, generate_access_token, or_else}
use retail_iq.Auth.Accounts.{has_mobile, has_email, has_id, find_user, update_user, verify_mfa_code}

-- After a wrong password: from the fifth on the account is locked for 15 minutes.
abbrev pub count_failure : ℕ → User → User
count_failure now u = record u {
  failed_login_attempts = suc u.failed_login_attempts;
  locked_until = if leb 5 (suc u.failed_login_attempts) then some (now + 900) else u.locked_until;
}

abbrev pub record_login : ℕ → User → User
record_login now u = record u { last_login_at = some now; failed_login_attempts = 0 }

-- The column keeps a time without a zone, so to compare it with the current time, which has one,
-- raises a `TypeError`, whichever is later: the answer `ACCOUNT_LOCKED` is never given.
abbrev pub lock_raises : User → Bool
lock_raises u = elim u.locked_until [ none ↦ false | some t ↦ true ]

module _ (keys : KeyStore) (secrets : Secrets) where
  open keys use {State, get, delete}
  open secrets use {checkpw}

  -- `login` with an email: a code is sent.
  unfoldable pub login_by_email : Env → ℕ → Db → State → Reply × Db × State
  unfolding generate_otp
  login_by_email env e db s = elim (find_user (has_email e) db) [
    | none ↦ (failure Problem.user_not_found 404, db, s)
    | some u ↦
        let (sent, s') =
          generate_otp keys env (or_else u.email e) (some (or_else u.email e)) true s in
        if sent then (done 200, db, s') else (failure Problem.otp_delivery_failed 503, db, s')
  ]

  -- The two tokens of a user; `f` is what the request writes to the user's row.
  abbrev pub issue : Env → (User → Bool) → (User → User) → User → Db → State → Reply × Db × State
  issue env test f u db s = (
    tokens (generate_access_token u db) env.token,
    update_user test f db,
    generate_refresh_token keys env u.user_id s,
  )

  -- The second factor of a login.
  abbrev pub second_factor : Env → ℕ → Option ℕ → User → Db → State → Reply × Db × State
  second_factor env mobile none u db s =
      if u.mfa_enabled
      then (mfa_required, db, s)
      else issue env (has_mobile mobile) (record_login env.now) u db s
  second_factor env mobile (some code) u db s =
      if u.mfa_enabled && not (verify_mfa_code keys secrets u.mfa_secret code)
      then (failure Problem.invalid_mfa 401, db, s)
      else issue env (has_mobile mobile) (record_login env.now) u db s

  -- `login` with a mobile number and a password.
  unfoldable pub login_by_password : Env → ℕ → ℕ → Option ℕ → Db → State → Reply × Db × State
  unfolding generate_refresh_token
  login_by_password env mobile password code db s = elim (find_user (has_mobile mobile) db) [
    | none ↦ (failure Problem.email_required 422, db, s)
    | some u ↦ elim u.password_hash [
      | none ↦ (failure Problem.email_required 422, db, s)
      | some h ↦
          if lock_raises u
          then (failure Problem.server_error 500, db, s)
          else if not (checkpw password h)
          then (
            failure Problem.invalid_credentials 401,
            update_user (has_mobile mobile) (count_failure env.now) db,
            s,
          )
          else if not u.is_active
          then (failure Problem.inactive_account 403, db, s)
          else second_factor env mobile code u db s
    ]
  ]

  -- A deletion that fails is caught: the old token stays, and a new one is drawn all the same.
  abbrev pub rotate : Env → ℕ → State → State
  rotate env token s = if env.rotation_works then delete (Key.refresh token) s else s

  -- The token is deleted, and a new one is drawn.
  unfoldable pub refresh : Env → ℕ → Db → State → Reply × Db × State
  unfolding generate_refresh_token
  refresh env token db s =
      if not env.redis_up
      then (failure Problem.redis_unavailable 503, db, s)
      else elim (get (Key.refresh token) s) [
        | none ↦ (failure Problem.invalid_token 401, db, s)
        | some uid ↦ elim (find_user (has_id uid) db) [
          | none ↦ (failure Problem.unauthorized 401, db, s)
          | some u ↦ if not u.is_active then (failure Problem.unauthorized 401, db, s) else (
            tokens (generate_access_token u db) env.token,
            db,
            generate_refresh_token keys env u.user_id (rotate env token s),
          )
        ]
      ]

  -- Deletes the caller's own refresh token, if the body names one.
  abbrev pub drop_token : ℕ → ℕ → State → Option ℕ → State
  drop_token caller token s none = s
  drop_token caller token s (some uid) = if uid == caller then delete (Key.refresh token) s else s

  unfoldable pub logout : Env → ℕ → Option ℕ → Db → State → Reply × Db × State
  logout env caller none db s = (done 200, db, s)
  logout env caller (some token) db s =
      if env.redis_up
      then (done 200, db, drop_token caller token s (get (Key.refresh token) s))
      else (done 200, db, s)

-- `require_auth` and `require_role`: the handler runs only for a token that decodes, with a role of
-- the list. `none` is a header without a bearer token or a token that does not decode.
abbrev pub same_role : Role → Role → Bool
same_role Role.owner Role.owner = true
same_role Role.staff Role.staff = true
same_role _ _ = false

abbrev pub has_role : List Role → Option Role → Bool
has_role [] r = false
has_role (x ∷ xs) none = false
has_role (x ∷ xs) (some r) = if same_role x r then true else has_role xs (some r)

unfoldable pub require_auth {ℓ} :
    {W : Type ℓ}
    → (ℕ → Option AccessToken)
    → (AccessToken → W → Reply × W)
    → Option ℕ
    → W
    → Reply × W
require_auth decode handler none w = (failure Problem.missing_token 401, w)
require_auth decode handler (some token) w = elim (decode token) [
  | none ↦ (failure Problem.invalid_token 401, w)
  | some payload ↦ handler payload w
]

unfoldable pub require_role {ℓ} :
    {W : Type ℓ} → List Role → (AccessToken → W → Reply × W) → Option AccessToken → W → Reply × W
require_role roles handler none w = (failure Problem.unauthorized 401, w)
require_role roles handler (some user) w =
    if has_role roles user.role then handler user w else (failure Problem.forbidden 403, w)
