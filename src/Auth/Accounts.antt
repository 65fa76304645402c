-- ===== src/Auth/Accounts.antt =====
-- app/auth/routes.py: registration, verification, password reset and the second factor.
use retail_iq.Base.{
  ℕ, suc, Bool, true, false, not, Option, none, some, ◌∷◌, ◌==◌, if◌then◌else◌, find_first,
  update_first,
}
use retail_iq.Auth.Models.{
  Role, User, Db, KeyStore, Secrets, Env, Problem, Reply, tokens, done, failure,
}
use retail_iq.Auth.Codes.{
  or_else, generate_otp, verify_otp, generate_reset_token, verify_reset_token,
  generate_refresh_token, generate_access_token,
}

abbrev pub has_mobile : ℕ → User → Bool
has_mobile m u = u.mobile_number == m

abbrev pub has_email : ℕ → User → Bool
has_email e u = elim u.email [ none ↦ false | some f ↦ f == e ]

abbrev pub has_id : ℕ → User → Bool
has_id i u = u.user_id == i

abbrev pub find_user : (User → Bool) → Db → Option User
find_user test db = find_first test db.users

abbrev pub update_user : (User → Bool) → (User → User) → Db → Db
update_user test f db = record db { users = update_first test f db.users }

-- How a request names a user: by email if it gives one.
pub data Contact : Type 0 where
  email mobile : ℕ → Contact

abbrev pub named : Contact → User → Bool
named (Contact.email e) = has_email e
named (Contact.mobile m) = has_mobile m

abbrev pub identifier_of : Contact → ℕ
identifier_of (Contact.email e) = e
identifier_of (Contact.mobile m) = m

pub record Registration : Type 0 where
  pub mobile_number : ℕ
  pub password : ℕ
  pub email : ℕ
  pub role : Role

abbrev pub new_user : Secrets → Env → Registration → Option ℕ → Db → User
new_user secrets env r store db = record {
  user_id = db.next_user;
  mobile_number = r.mobile_number;
  email = some r.email;
  password_hash = some (secrets.hashpw env.salt r.password);
  role = some r.role;
  store_id = store;
  is_active = false;
  mfa_enabled = false;
  mfa_secret = none;
  last_login_at = none;
  failed_login_attempts = 0;
  locked_until = none;
}

-- The user, and for an owner the store.
abbrev pub with_user : Secrets → Env → Registration → Role → Db → Db
with_user secrets env r Role.staff db = record db {
  users = new_user secrets env r none db ∷ db.users;
  next_user = suc db.next_user;
}
with_user secrets env r Role.owner db = record db {
  users = new_user secrets env r (some db.next_store) db ∷ db.users;
  stores = record { store_id = db.next_store; owner_user_id = db.next_user } ∷ db.stores;
  next_user = suc db.next_user;
  next_store = suc db.next_store;
}

abbrev pub set_active : User → User
set_active u = record u { is_active = true }

abbrev pub set_hash : ℕ → User → User
set_hash h u = record u { password_hash = some h }

abbrev pub set_secret : ℕ → User → User
set_secret secret u = record u { mfa_secret = some secret }

abbrev pub enable_mfa : User → User
enable_mfa u = record u { mfa_enabled = true }

module _ (keys : KeyStore) (secrets : Secrets) where
  open keys use {State}
  open secrets use {hashpw, checkpw, verify_totp}

  -- The session is committed, or rolled back when the code could not be sent.
  abbrev pub send_code : Env → Registration → Db → Db → State → Reply × Db × State
  send_code env r before after s =
      let (sent, s') = generate_otp keys env r.email (some r.email) true s in
      if sent then (done 201, after, s') else (failure Problem.otp_delivery_failed 503, before, s')

  unfoldable pub register : Env → Registration → Db → State → Reply × Db × State
  unfolding generate_otp
  register env r db s = elim (find_user (has_mobile r.mobile_number) db) [
    | some u ↦ (failure Problem.duplicate_mobile 422, db, s)
    | none ↦ elim (find_user (has_email r.email) db) [
      | some u ↦ (failure Problem.duplicate_email 422, db, s)
      | none ↦ send_code env r db (with_user secrets env r r.role db) s
    ]
  ]

  -- The answer to a checked code.
  abbrev pub activate : Env → Contact → Bool → Db → State → Reply × Db × State
  activate env c false db s = (failure Problem.invalid_otp 422, db, s)
  activate env c true db s = elim (find_user (named c) db) [
    | none ↦ (failure Problem.user_not_found 404, db, s)
    | some u ↦ (
      tokens (generate_access_token (set_active u) db) env.token,
      update_user (named c) set_active db,
      generate_refresh_token keys env u.user_id s,
    )
  ]

  unfoldable pub verify_otp_endpoint : Env → Contact → ℕ → Db → State → Reply × Db × State
  unfolding verify_otp generate_refresh_token
  verify_otp_endpoint env c code db s =
      let (ok, s') = verify_otp keys env (identifier_of c) code s in activate env c ok db s'

  unfoldable pub resend_otp : Env → Contact → Db → State → Reply × Db × State
  unfolding generate_otp
  resend_otp env c db s = elim (find_user (named c) db) [
    | none ↦ (failure Problem.user_not_found 404, db, s)
    | some u ↦
        let (sent, s') = generate_otp keys env (or_else u.email u.mobile_number) u.email true s in
        if sent then (done 200, db, s') else (failure Problem.otp_delivery_failed 503, db, s')
  ]

  unfoldable pub forgot_password : Env → Contact → Db → State → Reply × Db × State
  unfolding generate_reset_token
  forgot_password env c db s = elim (find_user (named c) db) [
    | none ↦ (done 200, db, s)
    | some u ↦ (done 200, db, generate_reset_token keys env u.user_id s)
  ]

  -- The answer to a token that stands for the user `uid`.
  abbrev pub set_password : Env → ℕ → Option ℕ → Db → State → Reply × Db × State
  set_password env password none db s = (failure Problem.invalid_token 422, db, s)
  set_password env password (some uid) db s = elim (find_user (has_id uid) db) [
    | none ↦ (failure Problem.user_not_found 404, db, s)
    | some u ↦ (done 200, update_user (has_id uid) (set_hash (hashpw env.salt password)) db, s)
  ]

  unfoldable pub reset_password : Env → ℕ → ℕ → Db → State → Reply × Db × State
  unfolding verify_reset_token
  reset_password env token password db s =
      let (uid, s') = verify_reset_token keys env token s in set_password env password uid db s'

  abbrev pub check_password : Option ℕ → Option ℕ → Bool
  check_password (some p) (some h) = checkpw p h
  check_password _ _ = false

  -- A caller without a row, or a password against no hash, fails with an `AttributeError`.
  unfoldable pub mfa_setup : Env → ℕ → Option ℕ → Db → State → Reply × Db × State
  mfa_setup env caller none db s = (failure Problem.invalid_password 401, db, s)
  mfa_setup env caller (some p) db s = elim (find_user (has_id caller) db) [
    | none ↦ (failure Problem.server_error 500, db, s)
    | some u ↦ elim u.password_hash [
      | none ↦ (failure Problem.server_error 500, db, s)
      | some h ↦
          if not (checkpw p h)
          then (failure Problem.invalid_password 401, db, s)
          else if u.mfa_enabled
          then (failure Problem.mfa_already_enabled 422, db, s)
          else (done 200, update_user (has_id caller) (set_secret env.token) db, s)
    ]
  ]

  -- `verify_mfa_code`: no secret fits no code.
  abbrev pub verify_mfa_code : Option ℕ → ℕ → Bool
  verify_mfa_code none code = false
  verify_mfa_code (some secret) code = verify_totp secret code

  unfoldable pub mfa_verify : ℕ → Option ℕ → Db → State → Reply × Db × State
  mfa_verify caller none db s = (failure Problem.missing_code 422, db, s)
  mfa_verify caller (some code) db s = elim (find_user (has_id caller) db) [
    | none ↦ (failure Problem.server_error 500, db, s)
    | some u ↦
        if verify_mfa_code u.mfa_secret code
        then (done 200, update_user (has_id caller) enable_mfa db, s)
        else (failure Problem.invalid_mfa 422, db, s)
  ]
