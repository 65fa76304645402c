-- ===== src/Auth/Lockout.antt =====
-- app/auth/routes.py: the fifth wrong password shuts an account out.
use retail_iq.Base.{
  ℕ, suc, ◌+◌, ◌<◌, ◌≡◌, refl, true, false, Option, none, some, List, [], ◌∷◌, map, length, arith,
  leb, All, find_first-update_self, Bool-cases, inl, inr,
}
use retail_iq.Auth.Models.{User, Db, KeyStore, Secrets, Env, Problem, failure}
use retail_iq.Auth.Accounts.{has_mobile, find_user, update_user}
use retail_iq.Auth.Sessions.{count_failure, login_by_password}
use retail_iq.Auth.Requests.{Request, serve, run}

module _ (keys : KeyStore) (secrets : Secrets) where
  open keys use {State}
  open secrets use {checkpw}

  -- The user's row: no lock, this hash, and so many failures.
  abbrev pub Counted : ℕ → ℕ → ℕ → Db → Type 0
  Counted m hash n db =
      (u : User) × (find_user (has_mobile m) db ≡ some u)
      × (u.password_hash ≡ some hash)
      × (u.locked_until ≡ none)
      × (u.failed_login_attempts ≡ n)

  wrong_password :
      (env : Env) (m p : ℕ) (code : Option ℕ) (db : Db) (s : State) (u : User) (hash : ℕ)
      → find_user (has_mobile m) db ≡ some u
      → u.password_hash ≡ some hash
      → u.locked_until ≡ none
      → checkpw p hash ≡ false
      → login_by_password keys secrets env m p code db s ≡ (
        failure Problem.invalid_credentials 401,
        update_user (has_mobile m) (count_failure env.now) db,
        s,
      )
  unfolding login_by_password
  wrong_password env m p code db s u hash found is_hash open_ wrong =
      rw (found, is_hash, open_, wrong, login_by_password) refl

  found_after :
      (now m : ℕ) (db : Db) (u : User)
      → find_user (has_mobile m) db ≡ some u
      → find_user (has_mobile m) (update_user (has_mobile m) (count_failure now) db)
        ≡ some (count_failure now u)
  found_after now m db u found =
      find_first-update_self (has_mobile m) (count_failure now) (λ v t. t) db.users found

  abbrev pub attempt : ℕ → Env × ℕ × Option ℕ → Env × Request
  attempt m (env, p, code) = (env, Request.login_password m p code)

  wrong-Counted :
      (env : Env) (m p hash n : ℕ) (code : Option ℕ) (db : Db) (s : State)
      → checkpw p hash ≡ false
      → suc n < 5
      → Counted m hash n db
      → Counted m hash (suc n) (login_by_password keys secrets env m p code db s).1
  wrong-Counted env m p hash n code db s wrong few (u, found, is_hash, open_, count) =
      rw (wrong_password env m p code db s u hash found is_hash open_ wrong)
        (count_failure env.now u, found_after env.now m db u found, is_hash, still_open, ap_suc)
    where
      still_open : (count_failure env.now u).locked_until ≡ none
      still_open = elim (Bool-cases (leb 5 (suc u.failed_login_attempts))) [
        | inl t ↦ grind arith
        | inr t ↦ rw t open_
      ]

      ap_suc : suc u.failed_login_attempts ≡ suc n
      ap_suc = omega arith

  few_wrong-Counted :
      (m hash n : ℕ) (xs : List (Env × ℕ × Option ℕ)) (db : Db) (s : State)
      → All (λ x. checkpw x.1 hash ≡ false) xs
      → n + length xs < 5
      → Counted m hash n db
      → Counted m hash (n + length xs) (run keys secrets (map (attempt m) xs) db s).0
  unfolding run serve
  few_wrong-Counted m hash n [] db s wrong few h = rw (right_zero n) h
    where
      right_zero : (n : ℕ) → n + 0 ≡ n
      right_zero n = omega arith
  few_wrong-Counted m hash n ((env, p, code) ∷ xs) db s wrong few h =
      let r = login_by_password keys secrets env m p code db s in
      rw (shift n (length xs)) (
        few_wrong-Counted m hash (suc n) xs r.1 r.2 wrong.1 (omega arith)
          (wrong-Counted env m p hash n code db s wrong.0 (omega arith) h))
    where
      shift : (n k : ℕ) → n + suc k ≡ suc n + k
      shift n k = omega arith

  locked :
      (env : Env) (m p : ℕ) (code : Option ℕ) (db : Db) (s : State) (u : User) (hash until : ℕ)
      → find_user (has_mobile m) db ≡ some u
      → u.password_hash ≡ some hash
      → u.locked_until ≡ some until
      → login_by_password keys secrets env m p code db s ≡ (failure Problem.server_error 500, db, s)
  unfolding login_by_password
  locked env m p code db s u hash until found is_hash is_until =
      rw (found, is_hash, is_until, login_by_password) refl

  -- Four wrong passwords and then a fifth, at whatever times, for a count of none and no lock: the row
  -- is locked until 900 seconds after the fifth, and a login with that mobile number, with the right
  -- password too and at any time after, also when the lock has run out, fails with 500 and changes
  -- nothing.
  pub five_wrong_lock :
      (m hash : ℕ) (xs : List (Env × ℕ × Option ℕ)) (fifth : Env) (p : ℕ) (code : Option ℕ)
      (db : Db) (s : State) (later : Env) (q : ℕ) (other : Option ℕ)
      → length xs ≡ 4
      → All (λ x. checkpw x.1 hash ≡ false) xs
      → checkpw p hash ≡ false
      → Counted m hash 0 db
      → let (db4, s4) = run keys secrets (map (attempt m) xs) db s in
        let (answer, db5, s5) = login_by_password keys secrets fifth m p code db4 s4 in
        ((u : User) × (find_user (has_mobile m) db5 ≡ some u)
          × (u.locked_until ≡ some (fifth.now + 900)))
        × (login_by_password keys secrets later m q other db5 s5
            ≡ (failure Problem.server_error 500, db5, s5))
  five_wrong_lock m hash xs fifth p code db s later q other four wrong wrong5 h =
      let r = run keys secrets (map (attempt m) xs) db s in
      go r.0 r.1 (few_wrong-Counted m hash 0 xs db s wrong (omega (arith, four)) h)
    where
      until :
          (u : User)
          → u.failed_login_attempts ≡ 0 + length xs
          → (count_failure fifth.now u).locked_until ≡ some (fifth.now + 900)
      until u count =
          let full : leb 5 (suc u.failed_login_attempts) ≡ true = ground (arith, count, four) in
          rw full refl

      go :
          (db4 : Db) (s4 : State)
          → Counted m hash (0 + length xs) db4
          → let (answer, db5, s5) = login_by_password keys secrets fifth m p code db4 s4 in
            ((u : User) × (find_user (has_mobile m) db5 ≡ some u)
              × (u.locked_until ≡ some (fifth.now + 900)))
            × (login_by_password keys secrets later m q other db5 s5
                ≡ (failure Problem.server_error 500, db5, s5))
      go db4 s4 (u, found, is_hash, open_, count) =
          rw (wrong_password fifth m p code db4 s4 u hash found is_hash open_ wrong5) (
            (count_failure fifth.now u, found_after fifth.now m db4 u found, until u count),
            locked later m q other (update_user (has_mobile m) (count_failure fifth.now) db4) s4
                (count_failure fifth.now u) hash (fifth.now + 900)
                (found_after fifth.now m db4 u found) is_hash (until u count),
          )
