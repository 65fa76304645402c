-- ===== src/Auth/Tokens.antt =====
-- app/auth: tokens are accepted once.
use retail_iq.Base.{
  ℕ, ◌≡◌, refl, ◌⊎◌, true, false, Option, none, some, List, arith, ◌==◌, All, Bool-cases,
  Option-cases, inl, inr,
}
use retail_iq.Auth.Models.{
  Db, Key, KeyStore, Secrets, Env, AccessToken, Problem, tokens, done, failure,
}
use retail_iq.Auth.Codes.{take_reset, verify_reset_token}
use retail_iq.Auth.Accounts.{has_id, find_user, set_password, reset_password}
use retail_iq.Auth.Sessions.{refresh}
use retail_iq.Auth.Requests.{Request, run}
use retail_iq.Auth.SingleUse.{Absent, refresh_token-Absent}
use retail_iq.Auth.SingleUse.Sessions.{run-Absent}

same_number : (n : ℕ) → (n == n) ≡ true
same_number n = ground arith

module _ (keys : KeyStore) (secrets : Secrets) where
  open keys use {State, get, delete, get-delete}

  deleted_refresh :
      (token : ℕ) (s : State)
      → Absent keys secrets (Key.refresh token) (delete (Key.refresh token) s)
  deleted_refresh token s =
      rw (get-delete (Key.refresh token) (Key.refresh token) s, same_number token) refl

  deleted_reset :
      (token : ℕ) (s : State) → Absent keys secrets (Key.reset token) (delete (Key.reset token) s)
  deleted_reset token s =
      rw (get-delete (Key.reset token) (Key.reset token) s, same_number token) refl

  -- An accepted token is deleted.
  refresh-used :
      (env : Env) (token : ℕ) (db : Db) (s : State) {a : AccessToken} {n : ℕ}
      → env.rotation_works ≡ true
      → (env.token == token) ≡ false
      → (refresh keys secrets env token db s).0 ≡ tokens a n
      → Absent keys secrets (Key.refresh token) (refresh keys secrets env token db s).2
  unfolding refresh
  refresh-used env token db s works fresh e = elim (Bool-cases env.redis_up) [
    | inr t ↦ cc (rw t at e)
    | inl t ↦ elim (Option-cases (get (Key.refresh token) s)) [
      | inl f ↦ cc (rw (t, f, refresh) at e)
      | inr (uid, f) ↦ elim (Option-cases (find_user (has_id uid) db)) [
        | inl g ↦ cc (rw (t, f, g, refresh) at e)
        | inr (u, g) ↦ elim (Bool-cases u.is_active) [
          | inr a ↦ cc (rw (t, f, g, a, refresh) at e)
          | inl a ↦
              rw (t, f, g, a, works, refresh)
                (refresh_token-Absent keys secrets env (Key.refresh token) fresh u.user_id
                  (delete (Key.refresh token) s) (deleted_refresh token s))
        ]
      ]
    ]
  ]

  refused_refresh :
      (env : Env) (token : ℕ) (db : Db) (s : State)
      → Absent keys secrets (Key.refresh token) s
      → (refresh keys secrets env token db s ≡ (failure Problem.invalid_token 401, db, s))
        ⊎ (refresh keys secrets env token db s ≡ (failure Problem.redis_unavailable 503, db, s))
  unfolding refresh
  refused_refresh env token db s h = elim (Bool-cases env.redis_up) [
    | inl t ↦ inl (rw (t, h, refresh) refl)
    | inr t ↦ inr (rw t refl)
  ]

  taken_reset :
      (env : Env) (token p : ℕ) (db : Db) (s : State) (o : Option ℕ)
      → (set_password keys secrets env p
          (take_reset keys token s o).0
          db
          (take_reset keys token s o).1).0
        ≡ done 200
      → Absent keys secrets
          (Key.reset token)
          (set_password keys secrets env p
            (take_reset keys token s o).0
            db
            (take_reset keys token s o).1).2
  taken_reset env token p db s none e = cc
  taken_reset env token p db s (some uid) e = elim (Option-cases (find_user (has_id uid) db)) [
    | inl f ↦ rw (f, set_password) (deleted_reset token s)
    | inr (u, f) ↦ rw (f, set_password) (deleted_reset token s)
  ]

  reset-used :
      (env : Env) (token p : ℕ) (db : Db) (s : State)
      → (reset_password keys secrets env token p db s).0 ≡ done 200
      → Absent keys secrets (Key.reset token) (reset_password keys secrets env token p db s).2
  unfolding reset_password verify_reset_token
  reset-used env token p db s e = elim (Bool-cases env.redis_up) [
    | inr t ↦ cc (rw t at e)
    | inl t ↦ rw t (taken_reset env token p db s (get (Key.reset token) s) (rw t at e))
  ]

  refused_reset :
      (env : Env) (token p : ℕ) (db : Db) (s : State)
      → Absent keys secrets (Key.reset token) s
      → reset_password keys secrets env token p db s ≡ (failure Problem.invalid_token 422, db, s)
  unfolding reset_password verify_reset_token
  refused_reset env token p db s h = elim (Bool-cases env.redis_up) [
    | inl t ↦ rw (t, h, take_reset) refl
    | inr t ↦ rw t refl
  ]

  -- A refresh token that was exchanged for new tokens, while the store deletes it, is refused ever
  -- after, without an effect: in every run of requests that do not draw the same token again, nor did the exchange.
  pub refresh_once :
      (env : Env) (token : ℕ) (db : Db) (s : State) (a : AccessToken) (n : ℕ)
      (rest : List (Env × Request)) (later : Env)
      → (refresh keys secrets env token db s).0 ≡ tokens a n
      → env.rotation_works ≡ true
      → (env.token == token) ≡ false
      → All (λ p. (p.0.token == token) ≡ false) rest
      → let used = refresh keys secrets env token db s in
        let (db', s') = run keys secrets rest used.1 used.2 in
        (refresh keys secrets later token db' s' ≡ (failure Problem.invalid_token 401, db', s'))
        ⊎ (refresh keys secrets later token db' s'
            ≡ (failure Problem.redis_unavailable 503, db', s'))
  refresh_once env token db s a n rest later e works fresh apart =
      let used = refresh keys secrets env token db s in
      let after = run keys secrets rest used.1 used.2 in
      refused_refresh later token after.0 after.1 (
        run-Absent keys secrets (Key.refresh token) rest used.1 used.2 apart
          (refresh-used env token db s works fresh e))

  -- A reset token that set a password sets no other: it is refused ever after, without an effect,
  -- in every run of requests that do not draw the same token again.
  pub reset_once :
      (env : Env) (token p : ℕ) (db : Db) (s : State) (rest : List (Env × Request)) (later : Env)
      (q : ℕ)
      → (reset_password keys secrets env token p db s).0 ≡ done 200
      → All (λ x. (x.0.token == token) ≡ false) rest
      → let used = reset_password keys secrets env token p db s in
        let (db', s') = run keys secrets rest used.1 used.2 in
        reset_password keys secrets later token q db' s'
        ≡ (failure Problem.invalid_token 422, db', s')
  reset_once env token p db s rest later q e apart =
      let used = reset_password keys secrets env token p db s in
      let after = run keys secrets rest used.1 used.2 in
      refused_reset later token q after.0 after.1 (
        run-Absent keys secrets (Key.reset token) rest used.1 used.2 apart
          (reset-used env token p db s e))
