-- ===== src/Tests/Auth.antt =====
-- A key-value store as a function of keys, a hash that is the password itself, and one active user.
use retail_iq.Base.{
  ℕ, ◌≡◌, refl, ◌⊎◌, true, false, Option, none, some, List, [], ◌∷◌, arith, ◌==◌, if◌then◌else◌,
  map,
}
use retail_iq.Auth.Models.{
  Role, User, Db, Key, same_key, KeyStore, Secrets, Env, Problem, tokens, done, failure,
}
use retail_iq.Auth.Codes.{generate_access_token, get_user_chain_info}
use retail_iq.Auth.Accounts.{
  has_email, has_mobile, find_user, Contact, Registration, register, verify_otp_endpoint,
  forgot_password, reset_password,
}
use retail_iq.Auth.Sessions.{refresh, login_by_password}
use retail_iq.Auth.Requests.{Request, serve, run}
use retail_iq.Auth.Tokens.{refresh_once, reset_once}
use retail_iq.Auth.Unique.{Unique, serve-Unique}
use retail_iq.Auth.Identity.{SameIdentities, serve-SameIdentities}
use retail_iq.Auth.Lockout.{attempt, five_wrong_lock}
use retail_iq.Auth.Recovery.{own_store, reset_then_login, register_then_verify}

abbrev keys : KeyStore
keys = record {
  State = Key → Option ℕ;
  get = λ k s. s k;
  setex = λ k ttl v s j. if same_key k j then some v else s j;
  delete = λ k s j. if same_key k j then none else s j;
  get-setex = λ k j ttl v s. refl;
  get-delete = λ k j s. refl;
}

same_number : (p : ℕ) → (p == p) ≡ true
same_number p = ground arith

abbrev secrets : Secrets
secrets = record {
  hashpw = λ salt p. p;
  checkpw = λ p h. p == h;
  verify_totp = λ secret code. secret == code;
  check-hash = λ salt p. same_number p;
}

abbrev env : ℕ → ℕ → Env
env now token = record {
  now = now;
  redis_up = true;
  rotation_works = true;
  mail_sent = true;
  code = 1234;
  token = token;
  salt = 1000;
  otp_ttl = 300;
  refresh_ttl = 2592000;
}

abbrev owner : User
owner = record {
  user_id = 1;
  mobile_number = 900;
  email = some 5;
  password_hash = some 77;
  role = some Role.owner;
  store_id = some 1;
  is_active = true;
  mfa_enabled = false;
  mfa_secret = none;
  last_login_at = none;
  failed_login_attempts = 0;
  locked_until = none;
}

abbrev db : Db
db = record {
  users = owner ∷ [];
  stores = record { store_id = 1; owner_user_id = 1 } ∷ [];
  groups = [];
  next_user = 2;
  next_store = 2;
}

abbrev stored : Key → Option ℕ
stored (Key.refresh t) = if t == 50 then some 1 else none
stored (Key.reset t) = if t == 60 then some 1 else none
stored (Key.otp i) = none

abbrev newcomer : Registration
newcomer = record { mobile_number = 901; password = 88; email = 6; role = Role.owner }

refresh_gives_tokens :
    (refresh keys secrets (env 10 51) 50 db stored).0 ≡ tokens (generate_access_token owner db) 51
unfolding refresh
refresh_gives_tokens = refl

reset_is_done : (reset_password keys secrets (env 10 0) 60 99 db stored).0 ≡ done 200
unfolding reset_password
reset_is_done = refl

refresh_once_example :
    let used = refresh keys secrets (env 10 51) 50 db stored in
    let (db', s') = run keys secrets ((env 20 52, Request.renew 51) ∷ []) used.1 used.2 in
    (refresh keys secrets (env 30 53) 50 db' s' ≡ (failure Problem.invalid_token 401, db', s'))
    ⊎ (refresh keys secrets (env 30 53) 50 db' s'
        ≡ (failure Problem.redis_unavailable 503, db', s'))
refresh_once_example =
    refresh_once keys secrets (env 10 51) 50 db stored (generate_access_token owner db) 51
      ((env 20 52, Request.renew 51) ∷ []) (env 30 53) refresh_gives_tokens refl refl (refl, tt)

reset_once_example :
    let used = reset_password keys secrets (env 10 0) 60 99 db stored in
    let (db', s') =
      run keys secrets ((env 20 61, Request.forgot (Contact.email 5)) ∷ []) used.1 used.2 in
    reset_password keys secrets (env 30 0) 60 98 db' s'
    ≡ (failure Problem.invalid_token 422, db', s')
reset_once_example =
    reset_once keys secrets (env 10 0) 60 99 db stored
      ((env 20 61, Request.forgot (Contact.email 5)) ∷ []) (env 30 0) 98 reset_is_done (refl, tt)

db-Unique : Unique db
db-Unique = ((tt, tt), (tt, tt), (tt, tt), (omega arith, tt))

serve-Unique_example : Unique (serve keys secrets (env 10 0) (Request.sign_up newcomer) db stored).1
serve-Unique_example =
    serve-Unique keys secrets (env 10 0) (Request.sign_up newcomer) db stored db-Unique

serve-SameIdentities_example :
    SameIdentities db
      (serve keys secrets (env 10 0) (Request.login_password 900 76 none) db stored).1
serve-SameIdentities_example =
    serve-SameIdentities keys secrets (env 10 0) (Request.login_password 900 76 none) db stored refl

abbrev wrong_tries : List (Env × ℕ × Option ℕ)
wrong_tries =
    (env 1 0, 70, none) ∷ (env 2 0, 71, none) ∷ (env 3 0, 72, none) ∷ (env 4 0, 73, some 1) ∷ []

five_wrong_lock_example :
    let (db4, s4) = run keys secrets (map (attempt keys secrets 900) wrong_tries) db stored in
    let (answer, db5, s5) = login_by_password keys secrets (env 5 0) 900 74 none db4 s4 in
    ((u : User) × (find_user (has_mobile 900) db5 ≡ some u) × (u.locked_until ≡ some 905))
    × (login_by_password keys secrets (env 2000 0) 900 77 none db5 s5
        ≡ (failure Problem.server_error 500, db5, s5))
five_wrong_lock_example =
    five_wrong_lock keys secrets 900 77 wrong_tries (env 5 0) 74 none db stored (env 2000 0) 77 none
      refl (refl, (refl, (refl, (refl, tt)))) refl (owner, refl, refl, refl, refl)

reset_then_login_example :
    let (r1, db1, s1) = forgot_password keys secrets (env 10 65) (Contact.email 5) db stored in
    let (r2, db2, s2) = reset_password keys secrets (env 20 0) 65 99 db1 s1 in
    (login_by_password keys secrets (env 30 70) 900 99 none db2 s2).0
    ≡ tokens (generate_access_token owner db) 70
reset_then_login_example =
    reset_then_login keys secrets (env 10 65) (env 20 0) (env 30 70) (Contact.email 5) 99 db stored
      owner db-Unique refl refl refl refl refl refl

register_then_verify_example :
    let (r1, db1, s1) = register keys secrets (env 10 0) newcomer db stored in
    let (r2, db2, s2) =
      verify_otp_endpoint keys secrets (env 20 80) (Contact.email 6) 1234 db1 s1 in
    (r1 ≡ done 201)
    × (r2
        ≡ tokens
            (record {
              user_id = 2;
              store_id = own_store keys secrets Role.owner db;
              role = some Role.owner;
              chain_group_id = get_user_chain_info 2 db;
            })
            80)
    × ((u : User) × (find_user (has_email 6) db2 ≡ some u) × (u.user_id ≡ 2) × (u.is_active ≡ true))
register_then_verify_example =
    register_then_verify keys secrets (env 10 0) (env 20 80) newcomer db stored refl refl refl refl
      refl
