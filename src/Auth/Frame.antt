-- ===== src/Auth/Frame.antt =====
-- app/auth/routes.py: what the handlers other than registration write to the users' rows.
pub mod Requests
use retail_iq.Base.{
  ℕ, ◌≡◌, refl, Bool, true, false, not, ◌&&◌, Option, none, some, ◌==◌, if◌then◌else◌, Bool-cases,
  Option-cases, inl, inr,
}
use retail_iq.Auth.Models.{
  User, Db, Key, KeyStore, Secrets, Env, Reply, Problem, done, failure, mfa_required, tokens,
}
use retail_iq.Auth.Codes.{
  or_else, generate_otp, verify_otp, verify_reset_token, generate_refresh_token,
  generate_access_token,
}
use retail_iq.Auth.Accounts.{
  has_mobile, has_email, has_id, find_user, Contact, named, identifier_of, update_user, activate,
  set_password, verify_otp_endpoint, resend_otp, forgot_password, reset_password, mfa_setup,
  verify_mfa_code, mfa_verify, set_active, set_hash, set_secret, enable_mfa,
}
use retail_iq.Auth.Sessions.{
  lock_raises, login_by_email, issue, record_login, count_failure, second_factor, login_by_password,
  refresh, logout,
}

-- The columns of a user that only registration sets.
abbrev pub Plain : (User → User) → Type 0
Plain f =
    (u : User)
    → ((f u).user_id ≡ u.user_id)
      × ((f u).mobile_number ≡ u.mobile_number)
      × ((f u).email ≡ u.email)
      × ((f u).role ≡ u.role)
      × ((f u).store_id ≡ u.store_id)

module _ (keys : KeyStore) (secrets : Secrets) (P : Db → Type 0)
    (keep : (test : User → Bool) (f : User → User)
      → Plain f
      → (db : Db) → P db
      → P (update_user test f db)) where
  open keys use {State, get}
  open secrets use {hashpw, checkpw}

  abbrev pub Kept : Reply × Db × State → Type 0
  Kept r = P r.1

  sent-Kept :
      (b : Bool) (x y : Reply) (db : Db) (s : State)
      → P db
      → let r : Reply × Db × State = if b then (x, db, s) else (y, db, s) in Kept r
  sent-Kept true x y db s h = h
  sent-Kept false x y db s h = h

  activate-Kept :
      (env : Env) (c : Contact) (ok : Bool) (db : Db) (s : State)
      → P db
      → Kept (activate keys secrets env c ok db s)
  activate-Kept env c false db s h = h
  activate-Kept env c true db s h = elim (Option-cases (find_user (named c) db)) [
    | inl e ↦ rw (e, activate) h
    | inr (u, e) ↦
        rw (e, activate) (keep (named c) set_active (λ u. (refl, refl, refl, refl, refl)) db h)
  ]

  pub verify-Kept :
      (env : Env) (c : Contact) (code : ℕ) (db : Db) (s : State)
      → P db
      → Kept (verify_otp_endpoint keys secrets env c code db s)
  unfolding verify_otp_endpoint
  verify-Kept env c code db s h =
      let r = verify_otp keys env (identifier_of c) code s in activate-Kept env c r.0 db r.1 h

  pub resend-Kept :
      (env : Env) (c : Contact) (db : Db) (s : State)
      → P db
      → Kept (resend_otp keys secrets env c db s)
  unfolding resend_otp
  resend-Kept env c db s h = elim (Option-cases (find_user (named c) db)) [
    | inl e ↦ rw (e, resend_otp) h
    | inr (u, e) ↦
        let r = generate_otp keys env (or_else u.email u.mobile_number) u.email true s in
        rw (e, resend_otp)
          (sent-Kept r.0 (done 200) (failure Problem.otp_delivery_failed 503) db r.1 h)
  ]

  pub forgot-Kept :
      (env : Env) (c : Contact) (db : Db) (s : State)
      → P db
      → Kept (forgot_password keys secrets env c db s)
  unfolding forgot_password
  forgot-Kept env c db s h = elim (Option-cases (find_user (named c) db)) [
    | inl e ↦ rw (e, forgot_password) h
    | inr (u, e) ↦ rw (e, forgot_password) h
  ]

  set_password-Kept :
      (env : Env) (p : ℕ) (uid : Option ℕ) (db : Db) (s : State)
      → P db
      → Kept (set_password keys secrets env p uid db s)
  set_password-Kept env p none db s h = h
  set_password-Kept env p (some uid) db s h = elim (Option-cases (find_user (has_id uid) db)) [
    | inl e ↦ rw (e, set_password) h
    | inr (u, e) ↦
        rw (e, set_password)
          (keep (has_id uid) (set_hash (hashpw env.salt p)) (λ u. (refl, refl, refl, refl, refl)) db
            h)
  ]

  pub reset-Kept :
      (env : Env) (token p : ℕ) (db : Db) (s : State)
      → P db
      → Kept (reset_password keys secrets env token p db s)
  unfolding reset_password
  reset-Kept env token p db s h =
      let r = verify_reset_token keys env token s in set_password-Kept env p r.0 db r.1 h

  pub setup-Kept :
      (env : Env) (caller : ℕ) (p : Option ℕ) (db : Db) (s : State)
      → P db
      → Kept (mfa_setup keys secrets env caller p db s)
  unfolding mfa_setup
  setup-Kept env caller none db s h = h
  setup-Kept env caller (some p) db s h = elim (Option-cases (find_user (has_id caller) db)) [
    | inl e ↦ rw (e, mfa_setup) h
    | inr (u, e) ↦ elim (Option-cases u.password_hash) [
      | inl f ↦ rw (e, f, mfa_setup) h
      | inr (hash, f) ↦ elim (Bool-cases (checkpw p hash)) [
        | inr t ↦ rw (e, f, t, mfa_setup) h
        | inl t ↦ elim (Bool-cases u.mfa_enabled) [
          | inl g ↦ rw (e, f, t, g, mfa_setup) h
          | inr g ↦
              rw (e, f, t, g, mfa_setup)
                (keep (has_id caller) (set_secret env.token) (λ u. (refl, refl, refl, refl, refl))
                  db h)
        ]
      ]
    ]
  ]

  pub confirm-Kept :
      (caller : ℕ) (code : Option ℕ) (db : Db) (s : State)
      → P db
      → Kept (mfa_verify keys secrets caller code db s)
  unfolding mfa_verify
  confirm-Kept caller none db s h = h
  confirm-Kept caller (some code) db s h = elim (Option-cases (find_user (has_id caller) db)) [
    | inl e ↦ rw (e, mfa_verify) h
    | inr (u, e) ↦ elim (Bool-cases (verify_mfa_code keys secrets u.mfa_secret code)) [
      | inl t ↦
          rw (e, t, mfa_verify)
            (keep (has_id caller) enable_mfa (λ u. (refl, refl, refl, refl, refl)) db h)
      | inr t ↦ rw (e, t, mfa_verify) h
    ]
  ]

  pub login_by_email-Kept :
      (env : Env) (e : ℕ) (db : Db) (s : State)
      → P db
      → Kept (login_by_email keys secrets env e db s)
  unfolding login_by_email
  login_by_email-Kept env e db s h = elim (Option-cases (find_user (has_email e) db)) [
    | inl f ↦ rw (f, login_by_email) h
    | inr (u, f) ↦
        let r = generate_otp keys env (or_else u.email e) (some (or_else u.email e)) true s in
        rw (f, login_by_email)
          (sent-Kept r.0 (done 200) (failure Problem.otp_delivery_failed 503) db r.1 h)
  ]

  logged_in :
      (env : Env) (mobile : ℕ) (db : Db)
      → P db
      → P (update_user (has_mobile mobile) (record_login env.now) db)
  logged_in env mobile db h =
      keep (has_mobile mobile) (record_login env.now) (λ u. (refl, refl, refl, refl, refl)) db h

  second_factor-Kept :
      (env : Env) (mobile : ℕ) (code : Option ℕ) (u : User) (db : Db) (s : State)
      → P db
      → Kept (second_factor keys secrets env mobile code u db s)
  second_factor-Kept env mobile none u db s h = elim (Bool-cases u.mfa_enabled) [
    | inl t ↦ rw t h
    | inr t ↦ rw t (logged_in env mobile db h)
  ]
  second_factor-Kept env mobile (some code) u db s h = elim (Bool-cases u.mfa_enabled) [
    | inr t ↦ rw t (logged_in env mobile db h)
    | inl t ↦ elim (Bool-cases (verify_mfa_code keys secrets u.mfa_secret code)) [
      | inl v ↦ rw (t, v) (logged_in env mobile db h)
      | inr v ↦ rw (t, v) h
    ]
  ]

  pub login_by_password-Kept :
      (env : Env) (mobile p : ℕ) (code : Option ℕ) (db : Db) (s : State)
      → P db
      → Kept (login_by_password keys secrets env mobile p code db s)
  unfolding login_by_password
  login_by_password-Kept env mobile p code db s h =
      elim (Option-cases (find_user (has_mobile mobile) db)) [
        | inl e ↦ rw (e, login_by_password) h
        | inr (u, e) ↦ elim (Option-cases u.password_hash) [
          | inl f ↦ rw (e, f, login_by_password) h
          | inr (hash, f) ↦ elim (Bool-cases (lock_raises u)) [
            | inl l ↦ rw (e, f, l, login_by_password) h
            | inr l ↦ elim (Bool-cases (checkpw p hash)) [
              | inr t ↦
                  rw (e, f, l, t, login_by_password)
                    (keep (has_mobile mobile) (count_failure env.now)
                      (λ u. (refl, refl, refl, refl, refl)) db h)
              | inl t ↦ elim (Bool-cases u.is_active) [
                | inr a ↦ rw (e, f, l, t, a, login_by_password) h
                | inl a ↦
                    rw (e, f, l, t, a, login_by_password)
                      (second_factor-Kept env mobile code (record u { is_active = true }) db s h)
              ]
            ]
          ]
        ]
      ]

  pub refresh-Kept :
      (env : Env) (token : ℕ) (db : Db) (s : State)
      → P db
      → Kept (refresh keys secrets env token db s)
  unfolding refresh
  refresh-Kept env token db s h = elim (Bool-cases env.redis_up) [
    | inr t ↦ rw t h
    | inl t ↦ elim (Option-cases (get (Key.refresh token) s)) [
      | inl e ↦ rw (t, e, refresh) h
      | inr (uid, e) ↦ elim (Option-cases (find_user (has_id uid) db)) [
        | inl f ↦ rw (t, e, f, refresh) h
        | inr (u, f) ↦ elim (Bool-cases u.is_active) [
          | inr a ↦ rw (t, e, f, a, refresh) h
          | inl a ↦ rw (t, e, f, a, refresh) h
        ]
      ]
    ]
  ]

  pub logout-Kept :
      (env : Env) (caller : ℕ) (token : Option ℕ) (db : Db) (s : State)
      → P db
      → Kept (logout keys secrets env caller token db s)
  unfolding logout
  logout-Kept env caller none db s h = h
  logout-Kept env caller (some token) db s h = elim (Bool-cases env.redis_up) [
    | inl t ↦ rw t h
    | inr t ↦ rw t h
  ]
