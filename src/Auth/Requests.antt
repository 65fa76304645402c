-- ===== src/Auth/Requests.antt =====
-- The authentication handlers as one function of a request, and runs of requests.
use retail_iq.Base.{ℕ, Option, List, [], ◌∷◌}
use retail_iq.Auth.Models.{Db, Key, KeyStore, Secrets, Env, Reply, done}
use retail_iq.Auth.Accounts.{
  Contact, Registration, register, verify_otp_endpoint, resend_otp, forgot_password, reset_password,
  mfa_setup, mfa_verify,
}
use retail_iq.Auth.Sessions.{login_by_email, login_by_password, refresh, logout}

-- `expire` is a key that reaches the end of its time.
pub data Request : Type 0 where
  sign_up : Registration → Request
  verify : Contact → ℕ → Request
  resend forgot : Contact → Request
  reset : ℕ → ℕ → Request
  setup : ℕ → Option ℕ → Request
  confirm : ℕ → Option ℕ → Request
  login_email : ℕ → Request
  login_password : ℕ → ℕ → Option ℕ → Request
  renew : ℕ → Request
  leave : ℕ → Option ℕ → Request
  expire : Key → Request

module _ (keys : KeyStore) (secrets : Secrets) where
  open keys use {State, delete}

  unfoldable pub serve : Env → Request → Db → State → Reply × Db × State
  serve env (Request.sign_up r) db s = register keys secrets env r db s
  serve env (Request.verify c code) db s = verify_otp_endpoint keys secrets env c code db s
  serve env (Request.resend c) db s = resend_otp keys secrets env c db s
  serve env (Request.forgot c) db s = forgot_password keys secrets env c db s
  serve env (Request.reset token p) db s = reset_password keys secrets env token p db s
  serve env (Request.setup caller p) db s = mfa_setup keys secrets env caller p db s
  serve env (Request.confirm caller code) db s = mfa_verify keys secrets caller code db s
  serve env (Request.login_email e) db s = login_by_email keys secrets env e db s
  serve env (Request.login_password m p code) db s =
      login_by_password keys secrets env m p code db s
  serve env (Request.renew token) db s = refresh keys secrets env token db s
  serve env (Request.leave caller token) db s = logout keys secrets env caller token db s
  serve env (Request.expire k) db s = (done 200, db, delete k s)

  unfoldable pub run : List (Env × Request) → Db → State → Db × State
  run [] db s = (db, s)
  run ((env, r) ∷ rest) db s = let (answer, db', s') = serve env r db s in run rest db' s'
