-- ===== src/Auth/SingleUse.antt =====
-- app/auth/utils.py and the account handlers of app/auth/routes.py: a key that is absent stays
-- absent.
pub mod Sessions
use retail_iq.Base.{
  ℕ, ◌≡◌, refl, ◌≢◌, Bool, true, false, not, ◌&&◌, Option, none, some, List, [], ◌∷◌, arith, ◌==◌,
  if◌then◌else◌, find_first, All, Bool-cases, Option-cases, inl, inr,
}
use retail_iq.Auth.Models.{
  Role, User, Db, Key, same_key, KeyStore, Secrets, Env, AccessToken, Problem, Reply, tokens, done,
  failure,
}
use retail_iq.Auth.Codes.{
  or_else, is_some, store_key, generate_otp, match_otp, verify_otp, generate_reset_token,
  take_reset, verify_reset_token, generate_refresh_token, generate_access_token,
}
use retail_iq.Auth.Accounts.{
  has_mobile, has_email, has_id, find_user, Contact, named, identifier_of, Registration, with_user,
  send_code, register, activate, verify_otp_endpoint, resend_otp, forgot_password, set_password,
  reset_password, mfa_setup, verify_mfa_code, mfa_verify, update_user, set_hash,
}
use retail_iq.Auth.Sessions.{
  rotate, login_by_email, issue, record_login, second_factor, login_by_password, refresh,
  drop_token, logout,
}
use retail_iq.Auth.Requests.{Request, serve, run}

-- Whether a request in this environment may store something under the key.
abbrev pub may_write : Env → Key → Bool
may_write env (Key.otp i) = true
may_write env (Key.refresh t) = env.token == t
may_write env (Key.reset t) = env.token == t

otp_apart : (env : Env) (i : ℕ) (k : Key) → may_write env k ≡ false → same_key (Key.otp i) k ≡ false
otp_apart env i (Key.otp j) h = cc
otp_apart env i (Key.refresh t) h = refl
otp_apart env i (Key.reset t) h = refl

refresh_apart :
    (env : Env) (k : Key) → may_write env k ≡ false → same_key (Key.refresh env.token) k ≡ false
refresh_apart env (Key.otp j) h = refl
refresh_apart env (Key.refresh t) h = h
refresh_apart env (Key.reset t) h = refl

reset_apart :
    (env : Env) (k : Key) → may_write env k ≡ false → same_key (Key.reset env.token) k ≡ false
reset_apart env (Key.otp j) h = refl
reset_apart env (Key.refresh t) h = refl
reset_apart env (Key.reset t) h = h

module _ (keys : KeyStore) (secrets : Secrets) where
  open keys use {State, get, delete, get-setex, get-delete}

  abbrev pub Absent : Key → State → Type 0
  Absent k s = get k s ≡ none

  pub delete-Absent : (j k : Key) (s : State) → Absent k s → Absent k (delete j s)
  delete-Absent j k s h = elim (Bool-cases (same_key j k)) [
    | inl t ↦ rw (get-delete j k s, t) refl
    | inr t ↦ rw (get-delete j k s, t) h
  ]

  store_key-Absent :
      (env : Env) (j k : Key) (ttl v : ℕ) (s : State)
      → same_key j k ≡ false
      → Absent k s
      → Absent k (store_key keys env j ttl v s)
  store_key-Absent env j k ttl v s apart h = elim (Bool-cases env.redis_up) [
    | inl t ↦ rw (t, get-setex j k ttl v s, apart) h
    | inr t ↦ rw t h
  ]

  module _ (env : Env) (k : Key) (apart : may_write env k ≡ false) where
    pub otp-Absent :
        (i : ℕ) (email : Option ℕ) (b : Bool) (s : State)
        → Absent k s
        → Absent k (generate_otp keys env i email b s).1
    unfolding generate_otp
    otp-Absent i email b s h =
        store_key-Absent env (Key.otp (or_else email i)) k env.otp_ttl env.code s
          (otp_apart env (or_else email i) k apart) h

    pub refresh_token-Absent :
        (uid : ℕ) (s : State) → Absent k s → Absent k (generate_refresh_token keys env uid s)
    unfolding generate_refresh_token
    refresh_token-Absent uid s h =
        store_key-Absent env (Key.refresh env.token) k env.refresh_ttl uid s
          (refresh_apart env k apart) h

    reset_token-Absent :
        (uid : ℕ) (s : State) → Absent k s → Absent k (generate_reset_token keys env uid s)
    unfolding generate_reset_token
    reset_token-Absent uid s h =
        store_key-Absent env (Key.reset env.token) k 900 uid s (reset_apart env k apart) h

    match_otp-Absent :
        (i code : ℕ) (s : State) (o : Option ℕ)
        → Absent k s
        → Absent k (match_otp keys i code s o).1
    match_otp-Absent i code s none h = h
    match_otp-Absent i code s (some v) h = elim (Bool-cases (v == code)) [
      | inl t ↦ rw t (delete-Absent (Key.otp i) k s h)
      | inr t ↦ rw t h
    ]

    pub verify_otp-Absent :
        (i code : ℕ) (s : State) → Absent k s → Absent k (verify_otp keys env i code s).1
    unfolding verify_otp
    verify_otp-Absent i code s h = elim (Bool-cases env.redis_up) [
      | inl t ↦ rw t (match_otp-Absent i code s (get (Key.otp i) s) h)
      | inr t ↦ rw t h
    ]

    take_reset-Absent :
        (token : ℕ) (s : State) (o : Option ℕ) → Absent k s → Absent k (take_reset keys token s o).1
    take_reset-Absent token s none h = h
    take_reset-Absent token s (some uid) h = delete-Absent (Key.reset token) k s h

    pub verify_reset-Absent :
        (token : ℕ) (s : State) → Absent k s → Absent k (verify_reset_token keys env token s).1
    unfolding verify_reset_token
    verify_reset-Absent token s h = elim (Bool-cases env.redis_up) [
      | inl t ↦ rw t (take_reset-Absent token s (get (Key.reset token) s) h)
      | inr t ↦ rw t h
    ]

    pub sent-Absent :
        (b : Bool) (x y : Reply) (d e : Db) (s : State)
        → Absent k s
        → let r : Reply × Db × State = if b then (x, d, s) else (y, e, s) in Absent k r.2
    sent-Absent true x y d e s h = h
    sent-Absent false x y d e s h = h

    pub register-Absent :
        (r : Registration) (db : Db) (s : State)
        → Absent k s
        → Absent k (register keys secrets env r db s).2
    unfolding register
    register-Absent r db s h = elim (Option-cases (find_user (has_mobile r.mobile_number) db)) [
      | inr (u, e) ↦ rw (e, register) h
      | inl e ↦ elim (Option-cases (find_user (has_email r.email) db)) [
        | inr (u, f) ↦ rw (e, f, register) h
        | inl f ↦
            rw (e, f, register)
              (sent-Absent (generate_otp keys env r.email (some r.email) true s).0 (done 201)
                (failure Problem.otp_delivery_failed 503) (with_user secrets env r r.role db) db
                (generate_otp keys env r.email (some r.email) true s).1
                (otp-Absent r.email (some r.email) true s h))
      ]
    ]

    pub activate-Absent :
        (c : Contact) (ok : Bool) (db : Db) (s : State)
        → Absent k s
        → Absent k (activate keys secrets env c ok db s).2
    activate-Absent c false db s h = h
    activate-Absent c true db s h = elim (Option-cases (find_user (named c) db)) [
      | inl e ↦ rw (e, activate) h
      | inr (u, e) ↦ rw (e, activate) (refresh_token-Absent u.user_id s h)
    ]

    pub resend-Absent :
        (c : Contact) (db : Db) (s : State)
        → Absent k s
        → Absent k (resend_otp keys secrets env c db s).2
    unfolding resend_otp
    resend-Absent c db s h = elim (Option-cases (find_user (named c) db)) [
      | inl e ↦ rw (e, resend_otp) h
      | inr (u, e) ↦
          let r = generate_otp keys env (or_else u.email u.mobile_number) u.email true s in
          rw (e, resend_otp)
            (sent-Absent r.0 (done 200) (failure Problem.otp_delivery_failed 503) db db r.1
              (otp-Absent (or_else u.email u.mobile_number) u.email true s h))
    ]

    pub forgot-Absent :
        (c : Contact) (db : Db) (s : State)
        → Absent k s
        → Absent k (forgot_password keys secrets env c db s).2
    unfolding forgot_password
    forgot-Absent c db s h = elim (Option-cases (find_user (named c) db)) [
      | inl e ↦ rw (e, forgot_password) h
      | inr (u, e) ↦ rw (e, forgot_password) (reset_token-Absent u.user_id s h)
    ]

    pub set_password-Absent :
        (p : ℕ) (uid : Option ℕ) (db : Db) (s : State)
        → Absent k s
        → Absent k (set_password keys secrets env p uid db s).2
    set_password-Absent p none db s h = h
    set_password-Absent p (some uid) db s h = elim (Option-cases (find_user (has_id uid) db)) [
      | inl e ↦ rw (e, set_password) h
      | inr (u, e) ↦ rw (e, set_password) h
    ]
