-- ===== src/Auth/Codes.antt =====
-- app/auth/utils.py: one-time codes, reset tokens and refresh tokens in the key-value store. One
-- request finds the store up or down throughout.
use retail_iq.Base.{
  ℕ, Bool, true, false, not, ◌&&◌, Option, none, some, ◌==◌, if◌then◌else◌, find_first,
}
use retail_iq.Auth.Models.{User, Db, Key, KeyStore, Env, AccessToken}

-- `email or identifier`
abbrev pub or_else : Option ℕ → ℕ → ℕ
or_else none i = i
or_else (some e) i = e

abbrev pub is_some {ℓ} : {A : Type ℓ} → Option A → Bool
is_some none = false
is_some (some a) = true

module _ (keys : KeyStore) where
  open keys use {State, get, setex, delete}

  abbrev pub store_key : Env → Key → ℕ → ℕ → State → State
  store_key env k ttl v s = if env.redis_up then setex k ttl v s else s

  -- The flag tells whether the call returns: an undelivered code that had to be delivered raises.
  unfoldable pub generate_otp : Env → ℕ → Option ℕ → Bool → State → Bool × State
  generate_otp env identifier email require_delivery s = (
    not (is_some email && require_delivery && not env.mail_sent),
    store_key env (Key.otp (or_else email identifier)) env.otp_ttl env.code s,
  )

  abbrev pub match_otp : ℕ → ℕ → State → Option ℕ → Bool × State
  match_otp identifier code s none = (false, s)
  match_otp identifier code s (some stored) =
      if stored == code then (true, delete (Key.otp identifier) s) else (false, s)

  unfoldable pub verify_otp : Env → ℕ → ℕ → State → Bool × State
  verify_otp env identifier code s =
      if env.redis_up then match_otp identifier code s (get (Key.otp identifier) s) else (false, s)

  -- The token is the one that the request draws.
  unfoldable pub generate_reset_token : Env → ℕ → State → State
  generate_reset_token env user_id s = store_key env (Key.reset env.token) 900 user_id s

  abbrev pub take_reset : ℕ → State → Option ℕ → Option ℕ × State
  take_reset token s none = (none, s)
  take_reset token s (some uid) = (some uid, delete (Key.reset token) s)

  unfoldable pub verify_reset_token : Env → ℕ → State → Option ℕ × State
  verify_reset_token env token s =
      if env.redis_up then take_reset token s (get (Key.reset token) s) else (none, s)

  unfoldable pub generate_refresh_token : Env → ℕ → State → State
  generate_refresh_token env user_id s =
      store_key env (Key.refresh env.token) env.refresh_ttl user_id s

unfoldable pub get_user_chain_info : ℕ → Db → Option ℕ
get_user_chain_info user_id db = elim (find_first (λ g. g.owner_user_id == user_id) db.groups) [
  | none ↦ none
  | some g ↦ some g.id
]

abbrev pub generate_access_token : User → Db → AccessToken
generate_access_token u db = record {
  user_id = u.user_id;
  store_id = u.store_id;
  role = u.role;
  chain_group_id = get_user_chain_info u.user_id db;
}
