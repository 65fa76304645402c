-- ===== src/Auth/Recovery.antt =====
-- app/auth: from a forgotten password back to a login, and from a registration to the first tokens.
use retail_iq.Base.{
  ℕ, ◌≡◌, refl, true, false, Option, none, some, arith, ◌==◌, find_first-update_self,
}
use retail_iq.Base.Keys.{find_first-key}
use retail_iq.Auth.Models.{Role, User, Db, Key, KeyStore, Secrets, Env, tokens, done}
use retail_iq.Auth.Codes.{
  generate_otp, match_otp, verify_otp, generate_reset_token, take_reset, verify_reset_token,
  generate_refresh_token, generate_access_token, get_user_chain_info,
}
use retail_iq.Auth.Accounts.{
  has_mobile, has_email, has_id, find_user, update_user, Contact, named, Registration, new_user,
  with_user, register, activate, verify_otp_endpoint, forgot_password, set_password, reset_password,
  set_active, set_hash,
}
use retail_iq.Auth.Sessions.{lock_raises, second_factor, login_by_password}
use retail_iq.Auth.Unique.{Unique, update_user-Unique, mobile_of, id_of}

same_number : (n : ℕ) → (n == n) ≡ true
same_number n = ground arith

module _ (keys : KeyStore) (secrets : Secrets) where
  open keys use {State, get, setex, delete, get-setex}
  open secrets use {hashpw, check-hash}

  forgot_lem :
      (env : Env) (c : Contact) (db : Db) (s : State) (u : User)
      → env.redis_up ≡ true
      → find_user (named c) db ≡ some u
      → forgot_password keys secrets env c db s
        ≡ (done 200, db, setex (Key.reset env.token) 900 u.user_id s)
  unfolding forgot_password generate_reset_token
  forgot_lem env c db s u up found = rw (found, up, forgot_password, generate_reset_token) refl

  reset_lem :
      (env : Env) (token p : ℕ) (db : Db) (s : State) (uid : ℕ) (u : User)
      → env.redis_up ≡ true
      → get (Key.reset token) s ≡ some uid
      → find_user (has_id uid) db ≡ some u
      → reset_password keys secrets env token p db s ≡ (
        done 200,
        update_user (has_id uid) (set_hash (hashpw env.salt p)) db,
        delete (Key.reset token) s,
      )
  unfolding reset_password verify_reset_token
  reset_lem env token p db s uid u up stored found =
      rw (up, stored, found, take_reset, set_password) refl

  login_lem :
      (env : Env) (m p : ℕ) (db : Db) (s : State) (u : User) (salt : ℕ)
      → find_user (has_mobile m) db ≡ some u
      → u.password_hash ≡ some (hashpw salt p)
      → lock_raises u ≡ false
      → u.is_active ≡ true
      → u.mfa_enabled ≡ false
      → (login_by_password keys secrets env m p none db s).0
        ≡ tokens (generate_access_token u db) env.token
  unfolding login_by_password
  login_lem env m p db s u salt found is_hash unlocked active plain =
      simp (
        found,
        is_hash,
        unlocked,
        check-hash salt p,
        active,
        plain,
        login_by_password,
        second_factor,
      )

  -- The row under the mobile number is the row under the id, with the new hash.
  found_by_mobile :
      (h : ℕ) (db : Db) (u : User)
      → Unique db
      → find_user (has_id u.user_id) db ≡ some u
      → find_user (has_mobile u.mobile_number) (update_user (has_id u.user_id) (set_hash h) db)
        ≡ some (set_hash h u)
  found_by_mobile h db u unique found =
      let db' = update_user (has_id u.user_id) (set_hash h) db in
      find_first-key mobile_of (has_id u.user_id) db'.users
        (update_user-Unique (has_id u.user_id) (set_hash h) (λ v. (refl, refl, refl, refl, refl)) db
          unique).0
        (find_first-update_self (has_id u.user_id) (set_hash h) (λ v t. t) db.users found)

  -- A user who forgot the password asks for a reset by email or mobile number, sets a new one with
  -- the drawn token while the key-value store is up, and logs in with it: with a row that is active,
  -- was never locked and has no second factor, in a database with distinct identifiers, the
  -- login answers with that user's tokens.
  pub reset_then_login :
      (env1 env2 env3 : Env) (c : Contact) (p : ℕ) (db : Db) (s : State) (u : User)
      → Unique db
      → find_user (named c) db ≡ some u
      → u.is_active ≡ true
      → u.mfa_enabled ≡ false
      → u.locked_until ≡ none
      → env1.redis_up ≡ true
      → env2.redis_up ≡ true
      → let (r1, db1, s1) = forgot_password keys secrets env1 c db s in
        let (r2, db2, s2) = reset_password keys secrets env2 env1.token p db1 s1 in
        (login_by_password keys secrets env3 u.mobile_number p none db2 s2).0
        ≡ tokens (generate_access_token u db) env3.token
  unfolding get_user_chain_info
  reset_then_login env1 env2 env3 c p db s u unique found active plain unlocked up1 up2 =
      let by_id = find_first-key id_of (named c) db.users unique.1 found in
      let s1 = setex (Key.reset env1.token) 900 u.user_id s in
      let stored : get (Key.reset env1.token) s1 ≡ some u.user_id =
        rw
          (
            get-setex (Key.reset env1.token) (Key.reset env1.token) 900 u.user_id s,
            same_number env1.token,
          )
          refl in
      let h = hashpw env2.salt p in
      rw (forgot_lem env1 c db s u up1 found) (
        rw (reset_lem env2 env1.token p db s1 u.user_id u up2 stored by_id) (
          login_lem env3 u.mobile_number p (update_user (has_id u.user_id) (set_hash h) db)
            (delete (Key.reset env1.token) s1) (set_hash h u) env2.salt
            (found_by_mobile h db u unique by_id) refl (rw unlocked refl) active plain))

  abbrev pub own_store : Role → Db → Option ℕ
  own_store Role.staff db = none
  own_store Role.owner db = some db.next_store

  signed_up :
      (env : Env) (r : Registration) (role : Role) (db : Db)
      → find_user (has_email r.email) (with_user secrets env r role db)
        ≡ some (new_user secrets env r (own_store role db) db)
  signed_up env r Role.staff db = rw (same_number r.email) refl
  signed_up env r Role.owner db = rw (same_number r.email) refl

  same_groups :
      (env : Env) (r : Registration) (role : Role) (db : Db)
      → (with_user secrets env r role db).groups ≡ db.groups
  same_groups env r Role.staff db = refl
  same_groups env r Role.owner db = refl

  register_lem :
      (env : Env) (r : Registration) (db : Db) (s : State)
      → find_user (has_mobile r.mobile_number) db ≡ none
      → find_user (has_email r.email) db ≡ none
      → env.redis_up ≡ true
      → env.mail_sent ≡ true
      → register keys secrets env r db s ≡ (
        done 201,
        with_user secrets env r r.role db,
        setex (Key.otp r.email) env.otp_ttl env.code s,
      )
  unfolding register generate_otp
  register_lem env r db s mobile email up mail = rw (mobile, email, mail, up, register) refl

  stored_refresh :
      (env : Env) (uid : ℕ) (s : State)
      → env.redis_up ≡ true
      → generate_refresh_token keys env uid s ≡ setex (Key.refresh env.token) env.refresh_ttl uid s
  unfolding generate_refresh_token
  stored_refresh env uid s up = rw up refl

  verify_lem :
      (env : Env) (e code : ℕ) (db : Db) (s : State) (u : User)
      → env.redis_up ≡ true
      → get (Key.otp e) s ≡ some code
      → find_user (has_email e) db ≡ some u
      → verify_otp_endpoint keys secrets env (Contact.email e) code db s ≡ (
        tokens (generate_access_token (set_active u) db) env.token,
        update_user (has_email e) set_active db,
        setex (Key.refresh env.token) env.refresh_ttl u.user_id (delete (Key.otp e) s),
      )
  unfolding verify_otp_endpoint verify_otp
  verify_lem env e code db s u up stored found =
      rw
        (
          up,
          stored,
          same_number code,
          found,
          match_otp,
          activate,
          stored_refresh env u.user_id (delete (Key.otp e) s) up,
        )
        refl

  -- A registration under a new mobile number and email, while the key-value store is up and mail
  -- goes out, is answered with 201; the code that was sent then verifies the email, answers with
  -- tokens for the new user, its role and, for an owner, its new store, and leaves the user active.
  pub register_then_verify :
      (env1 env2 : Env) (r : Registration) (db : Db) (s : State)
      → find_user (has_mobile r.mobile_number) db ≡ none
      → find_user (has_email r.email) db ≡ none
      → env1.redis_up ≡ true
      → env1.mail_sent ≡ true
      → env2.redis_up ≡ true
      → let (r1, db1, s1) = register keys secrets env1 r db s in
        let (r2, db2, s2) =
          verify_otp_endpoint keys secrets env2 (Contact.email r.email) env1.code db1 s1 in
        (r1 ≡ done 201)
        × (r2
            ≡ tokens
                (record {
                  user_id = db.next_user;
                  store_id = own_store r.role db;
                  role = some r.role;
                  chain_group_id = get_user_chain_info db.next_user db;
                })
                env2.token)
        × ((u : User) × (find_user (has_email r.email) db2 ≡ some u)
            × (u.user_id ≡ db.next_user)
            × (u.is_active ≡ true))
  unfolding get_user_chain_info
  register_then_verify env1 env2 r db s mobile email up1 mail up2 =
      let s1 = setex (Key.otp r.email) env1.otp_ttl env1.code s in
      let db1 = with_user secrets env1 r r.role db in
      let u = new_user secrets env1 r (own_store r.role db) db in
      let stored : get (Key.otp r.email) s1 ≡ some env1.code =
        rw
          (
            get-setex (Key.otp r.email) (Key.otp r.email) env1.otp_ttl env1.code s,
            same_number r.email,
          )
          refl in
      rw (register_lem env1 r db s mobile email up1 mail) (
        rw (verify_lem env2 r.email env1.code db1 s1 u up2 stored (signed_up env1 r r.role db)) (
          refl,
          rw (same_groups env1 r r.role db, get_user_chain_info) refl,
          (
            set_active u,
            find_first-update_self (has_email r.email) set_active (λ v t. t) db1.users
                (signed_up env1 r r.role db),
            refl,
            refl,
          ),
        ))
