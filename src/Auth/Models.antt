-- ===== src/Auth/Models.antt =====
-- The rows of app/models/__init__.py that app/auth reads and writes, and what it takes from
-- elsewhere: the key-value store, bcrypt and the time-based codes. Mobile numbers, emails, passwords,
-- hashes, codes and tokens are numbers; an email is in the form that registration stores, stripped and
-- in lower case. A time is a number of seconds.
use retail_iq.Base.{ℕ, ◌≡◌, Bool, true, false, Option, none, some, List, ◌==◌, if◌then◌else◌}

pub data Role : Type 0 where
  owner staff : Role

pub record User : Type 0 where
  pub user_id : ℕ
  pub mobile_number : ℕ
  pub email : Option ℕ
  pub password_hash : Option ℕ
  pub role : Option Role
  pub store_id : Option ℕ
  pub is_active : Bool
  pub mfa_enabled : Bool
  pub mfa_secret : Option ℕ
  pub last_login_at : Option ℕ
  pub failed_login_attempts : ℕ
  pub locked_until : Option ℕ

pub record Store : Type 0 where
  pub store_id : ℕ
  pub owner_user_id : ℕ

pub record StoreGroup : Type 0 where
  pub id : ℕ
  pub owner_user_id : ℕ

pub record Db : Type 0 where
  pub users : List User
  pub stores : List Store
  pub groups : List StoreGroup
  pub next_user : ℕ
  pub next_store : ℕ

-- The keys "otp:…", "refresh_token:…" and "reset_token:…".
pub data Key : Type 0 where
  otp refresh reset : ℕ → Key

abbrev pub same_key : Key → Key → Bool
same_key (Key.otp i) (Key.otp j) = i == j
same_key (Key.refresh i) (Key.refresh j) = i == j
same_key (Key.reset i) (Key.reset j) = i == j
same_key _ _ = false

-- The key-value store. A key that reaches the end of its time is a deletion by the environment.
pub record KeyStore : Type 1 where
  pub State : Type 0
  pub get : Key → State → Option ℕ
  pub setex : Key → ℕ → ℕ → State → State
  pub delete : Key → State → State
  pub get-setex :
      (k j : Key) (ttl v : ℕ) (s : State)
      → get j (setex k ttl v s) ≡ (if same_key k j then some v else get j s)
  pub get-delete :
      (k j : Key) (s : State) → get j (delete k s) ≡ (if same_key k j then none else get j s)

-- bcrypt, its salt an argument, and the check of a time-based code.
pub record Secrets : Type 0 where
  pub hashpw : ℕ → ℕ → ℕ
  pub checkpw : ℕ → ℕ → Bool
  pub verify_totp : ℕ → ℕ → Bool
  pub check-hash : (salt p : ℕ) → checkpw p (hashpw salt p) ≡ true

-- What a request meets: the time, whether the key-value store answers and mail goes out, what it
-- draws, and the configured lives of codes and tokens. `rotation_works` tells whether the store, when
-- it is up, deletes a refresh token that is exchanged; elsewhere a failing deletion is a store that is
-- down.
pub record Env : Type 0 where
  pub now : ℕ
  pub redis_up : Bool
  pub rotation_works : Bool
  pub mail_sent : Bool
  pub code : ℕ
  pub token : ℕ
  pub salt : ℕ
  pub otp_ttl : ℕ
  pub refresh_ttl : ℕ

-- What `generate_access_token` signs; `chain_group_id` is there for a "CHAIN_OWNER".
pub record AccessToken : Type 0 where
  pub user_id : ℕ
  pub store_id : Option ℕ
  pub role : Option Role
  pub chain_group_id : Option ℕ

pub data Problem : Type 0 where
  duplicate_mobile duplicate_email otp_delivery_failed user_not_found invalid_otp : Problem
  email_required invalid_credentials inactive_account invalid_mfa : Problem
  invalid_password mfa_already_enabled missing_code redis_unavailable invalid_token : Problem
  unauthorized missing_token forbidden server_error : Problem

pub data Reply : Type 0 where
  tokens : AccessToken → ℕ → Reply
  done : ℕ → Reply
  mfa_required : Reply
  failure : Problem → ℕ → Reply
