-- ===== src/Auth/Frame/Requests.antt =====
-- app/auth/routes.py: what every request but a registration writes to the users' rows.
use retail_iq.Base.{◌≡◌, refl, Bool}
use retail_iq.Auth.Models.{User, Db, KeyStore, Secrets, Env}
use retail_iq.Auth.Accounts.{Registration, update_user, register}
use retail_iq.Auth.Requests.{Request, serve}
use retail_iq.Auth.Frame.{
  Plain, verify-Kept, resend-Kept, forgot-Kept, reset-Kept, setup-Kept, confirm-Kept,
  login_by_email-Kept, login_by_password-Kept, refresh-Kept, logout-Kept,
}

module _ (keys : KeyStore) (secrets : Secrets) (P : Db → Type 0)
    (keep : (test : User → Bool) (f : User → User)
      → Plain f
      → (db : Db) → P db
      → P (update_user test f db)) where
  open keys use {State}

  -- A predicate that writes to plain columns keep is kept if registration keeps it.
  pub serve_kept :
      (env : Env) (q : Request) (db : Db) (s : State)
      → ((r : Registration) → q ≡ Request.sign_up r → P db → P (register keys secrets env r db s).1)
      → P db
      → P (serve keys secrets env q db s).1
  unfolding serve
  serve_kept env (Request.sign_up r) db s signs h = signs r refl h
  serve_kept env (Request.verify c code) db s signs h =
      verify-Kept keys secrets P keep env c code db s h
  serve_kept env (Request.resend c) db s signs h = resend-Kept keys secrets P keep env c db s h
  serve_kept env (Request.forgot c) db s signs h = forgot-Kept keys secrets P keep env c db s h
  serve_kept env (Request.reset token p) db s signs h =
      reset-Kept keys secrets P keep env token p db s h
  serve_kept env (Request.setup caller p) db s signs h =
      setup-Kept keys secrets P keep env caller p db s h
  serve_kept env (Request.confirm caller code) db s signs h =
      confirm-Kept keys secrets P keep caller code db s h
  serve_kept env (Request.login_email e) db s signs h =
      login_by_email-Kept keys secrets P keep env e db s h
  serve_kept env (Request.login_password m p code) db s signs h =
      login_by_password-Kept keys secrets P keep env m p code db s h
  serve_kept env (Request.renew token) db s signs h =
      refresh-Kept keys secrets P keep env token db s h
  serve_kept env (Request.leave caller token) db s signs h =
      logout-Kept keys secrets P keep env caller token db s h
  serve_kept env (Request.expire k) db s signs h = h
