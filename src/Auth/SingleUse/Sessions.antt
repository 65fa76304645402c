-- ===== src/Auth/SingleUse/Sessions.antt =====
-- app/auth/routes.py: requests of every kind keep an absent key absent.
use retail_iq.Base.{
  ℕ, ◌≡◌, true, false, Option, none, some, List, [], ◌∷◌, ◌==◌, Bool-cases, Option-cases, inl, inr,
  All,
}
use retail_iq.Auth.Models.{User, Db, Key, KeyStore, Secrets, Env, Problem, done, failure}
use retail_iq.Auth.Codes.{or_else, generate_otp, verify_otp, verify_reset_token}
use retail_iq.Auth.Accounts.{
  has_mobile, has_email, has_id, find_user, Contact, identifier_of, verify_otp_endpoint,
  reset_password, mfa_setup, verify_mfa_code, mfa_verify,
}
use retail_iq.Auth.Sessions.{
  lock_raises, login_by_email, second_factor, login_by_password, refresh, rotate, drop_token,
  logout,
}
use retail_iq.Auth.Requests.{Request, serve, run}
use retail_iq.Auth.SingleUse.{
  may_write, Absent, delete-Absent, sent-Absent, otp-Absent, refresh_token-Absent, register-Absent,
  activate-Absent, resend-Absent, forgot-Absent, set_password-Absent, verify_otp-Absent,
  verify_reset-Absent,
}

module _ (keys : KeyStore) (secrets : Secrets) where
  open keys use {State, get}
  open secrets use {checkpw}

  setup-Absent :
      (env : Env) (k : Key) (caller : ℕ) (p : Option ℕ) (db : Db) (s : State)
      → Absent keys secrets k s
      → Absent keys secrets k (mfa_setup keys secrets env caller p db s).2
  unfolding mfa_setup
  setup-Absent env k caller none db s h = h
  setup-Absent env k caller (some p) db s h = elim (Option-cases (find_user (has_id caller) db)) [
    | inl e ↦ rw (e, mfa_setup) h
    | inr (u, e) ↦ elim (Option-cases u.password_hash) [
      | inl f ↦ rw (e, f, mfa_setup) h
      | inr (hash, f) ↦ elim (Bool-cases (checkpw p hash)) [
        | inr t ↦ rw (e, f, t, mfa_setup) h
        | inl t ↦ elim (Bool-cases u.mfa_enabled) [
          | inl g ↦ rw (e, f, t, g, mfa_setup) h
          | inr g ↦ rw (e, f, t, g, mfa_setup) h
        ]
      ]
    ]
  ]

  confirm-Absent :
      (k : Key) (caller : ℕ) (code : Option ℕ) (db : Db) (s : State)
      → Absent keys secrets k s
      → Absent keys secrets k (mfa_verify keys secrets caller code db s).2
  unfolding mfa_verify
  confirm-Absent k caller none db s h = h
  confirm-Absent k caller (some code) db s h = elim (Option-cases (find_user (has_id caller) db)) [
    | inl e ↦ rw (e, mfa_verify) h
    | inr (u, e) ↦ elim (Bool-cases (verify_mfa_code keys secrets u.mfa_secret code)) [
      | inl t ↦ rw (e, t, mfa_verify) h
      | inr t ↦ rw (e, t, mfa_verify) h
    ]
  ]

  module _ (env : Env) (k : Key) (apart : may_write env k ≡ false) where
    verify-Absent :
        (c : Contact) (code : ℕ) (db : Db) (s : State)
        → Absent keys secrets k s
        → Absent keys secrets k (verify_otp_endpoint keys secrets env c code db s).2
    unfolding verify_otp_endpoint
    verify-Absent c code db s h =
        let r = verify_otp keys env (identifier_of c) code s in
        activate-Absent keys secrets env k apart c r.0 db r.1
          (verify_otp-Absent keys secrets env k apart (identifier_of c) code s h)

    reset-Absent :
        (token p : ℕ) (db : Db) (s : State)
        → Absent keys secrets k s
        → Absent keys secrets k (reset_password keys secrets env token p db s).2
    unfolding reset_password
    reset-Absent token p db s h =
        let r = verify_reset_token keys env token s in
        set_password-Absent keys secrets env k apart p r.0 db r.1
          (verify_reset-Absent keys secrets env k apart token s h)

    login_by_email-Absent :
        (e : ℕ) (db : Db) (s : State)
        → Absent keys secrets k s
        → Absent keys secrets k (login_by_email keys secrets env e db s).2
    unfolding login_by_email
    login_by_email-Absent e db s h = elim (Option-cases (find_user (has_email e) db)) [
      | inl f ↦ rw (f, login_by_email) h
      | inr (u, f) ↦
          let r = generate_otp keys env (or_else u.email e) (some (or_else u.email e)) true s in
          rw (f, login_by_email)
            (sent-Absent keys secrets env k apart r.0 (done 200)
              (failure Problem.otp_delivery_failed 503) db db r.1
              (otp-Absent keys secrets env k apart (or_else u.email e) (some (or_else u.email e))
                true s h))
    ]

    second_factor-Absent :
        (mobile : ℕ) (code : Option ℕ) (u : User) (db : Db) (s : State)
        → Absent keys secrets k s
        → Absent keys secrets k (second_factor keys secrets env mobile code u db s).2
    second_factor-Absent mobile none u db s h = elim (Bool-cases u.mfa_enabled) [
      | inl t ↦ rw t h
      | inr t ↦ rw t (refresh_token-Absent keys secrets env k apart u.user_id s h)
    ]
    second_factor-Absent mobile (some code) u db s h = elim (Bool-cases u.mfa_enabled) [
      | inr t ↦ rw t (refresh_token-Absent keys secrets env k apart u.user_id s h)
      | inl t ↦ elim (Bool-cases (verify_mfa_code keys secrets u.mfa_secret code)) [
        | inl v ↦ rw (t, v) (refresh_token-Absent keys secrets env k apart u.user_id s h)
        | inr v ↦ rw (t, v) h
      ]
    ]

    login_by_password-Absent :
        (mobile p : ℕ) (code : Option ℕ) (db : Db) (s : State)
        → Absent keys secrets k s
        → Absent keys secrets k (login_by_password keys secrets env mobile p code db s).2
    unfolding login_by_password
    login_by_password-Absent mobile p code db s h =
        elim (Option-cases (find_user (has_mobile mobile) db)) [
          | inl e ↦ rw (e, login_by_password) h
          | inr (u, e) ↦ elim (Option-cases u.password_hash) [
            | inl f ↦ rw (e, f, login_by_password) h
            | inr (hash, f) ↦ elim (Bool-cases (lock_raises u)) [
              | inl l ↦ rw (e, f, l, login_by_password) h
              | inr l ↦ elim (Bool-cases (checkpw p hash)) [
                | inr t ↦ rw (e, f, l, t, login_by_password) h
                | inl t ↦ elim (Bool-cases u.is_active) [
                  | inr a ↦ rw (e, f, l, t, a, login_by_password) h
                  | inl a ↦
                      rw (e, f, l, t, a, login_by_password)
                        (second_factor-Absent mobile code (record u { is_active = true }) db s h)
                ]
              ]
            ]
          ]
        ]

    rotate-Absent :
        (token : ℕ) (s : State)
        → Absent keys secrets k s
        → Absent keys secrets k (rotate keys secrets env token s)
    rotate-Absent token s h = elim (Bool-cases env.rotation_works) [
      | inl t ↦ rw t (delete-Absent keys secrets (Key.refresh token) k s h)
      | inr t ↦ rw t h
    ]

    refresh-Absent :
        (token : ℕ) (db : Db) (s : State)
        → Absent keys secrets k s
        → Absent keys secrets k (refresh keys secrets env token db s).2
    unfolding refresh
    refresh-Absent token db s h = elim (Bool-cases env.redis_up) [
      | inr t ↦ rw t h
      | inl t ↦ elim (Option-cases (get (Key.refresh token) s)) [
        | inl e ↦ rw (t, e, refresh) h
        | inr (uid, e) ↦ elim (Option-cases (find_user (has_id uid) db)) [
          | inl f ↦ rw (t, e, f, refresh) h
          | inr (u, f) ↦ elim (Bool-cases u.is_active) [
            | inr a ↦ rw (t, e, f, a, refresh) h
            | inl a ↦
                rw (t, e, f, a, refresh)
                  (refresh_token-Absent keys secrets env k apart u.user_id
                    (rotate keys secrets env token s) (rotate-Absent token s h))
          ]
        ]
      ]
    ]

    drop_token-Absent :
        (caller token : ℕ) (s : State) (o : Option ℕ)
        → Absent keys secrets k s
        → Absent keys secrets k (drop_token keys secrets caller token s o)
    drop_token-Absent caller token s none h = h
    drop_token-Absent caller token s (some uid) h = elim (Bool-cases (uid == caller)) [
      | inl t ↦ rw t (delete-Absent keys secrets (Key.refresh token) k s h)
      | inr t ↦ rw t h
    ]

    logout-Absent :
        (caller : ℕ) (token : Option ℕ) (db : Db) (s : State)
        → Absent keys secrets k s
        → Absent keys secrets k (logout keys secrets env caller token db s).2
    unfolding logout
    logout-Absent caller none db s h = h
    logout-Absent caller (some token) db s h = elim (Bool-cases env.redis_up) [
      | inl t ↦ rw t (drop_token-Absent caller token s (get (Key.refresh token) s) h)
      | inr t ↦ rw t h
    ]

    serve-Absent :
        (r : Request) (db : Db) (s : State)
        → Absent keys secrets k s
        → Absent keys secrets k (serve keys secrets env r db s).2
    unfolding serve
    serve-Absent (Request.sign_up r) db s h = register-Absent keys secrets env k apart r db s h
    serve-Absent (Request.verify c code) db s h = verify-Absent c code db s h
    serve-Absent (Request.resend c) db s h = resend-Absent keys secrets env k apart c db s h
    serve-Absent (Request.forgot c) db s h = forgot-Absent keys secrets env k apart c db s h
    serve-Absent (Request.reset token p) db s h = reset-Absent token p db s h
    serve-Absent (Request.setup caller p) db s h = setup-Absent env k caller p db s h
    serve-Absent (Request.confirm caller code) db s h = confirm-Absent k caller code db s h
    serve-Absent (Request.login_email e) db s h = login_by_email-Absent e db s h
    serve-Absent (Request.login_password m p code) db s h = login_by_password-Absent m p code db s h
    serve-Absent (Request.renew token) db s h = refresh-Absent token db s h
    serve-Absent (Request.leave caller token) db s h = logout-Absent caller token db s h
    serve-Absent (Request.expire j) db s h = delete-Absent keys secrets j k s h

  pub run-Absent :
      (k : Key) (rest : List (Env × Request)) (db : Db) (s : State)
      → All (λ p. may_write p.0 k ≡ false) rest
      → Absent keys secrets k s
      → Absent keys secrets k (run keys secrets rest db s).1
  unfolding run
  run-Absent k [] db s apart h = h
  run-Absent k ((env, r) ∷ rest) db s apart h =
      let answer = serve keys secrets env r db s in
      run-Absent k rest answer.1 answer.2 apart.1 (serve-Absent env k apart.0 r db s h)
