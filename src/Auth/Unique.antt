-- ===== src/Auth/Unique.antt =====
-- app/auth/routes.py: identifiers of users stay distinct under every request.
use retail_iq.Base.{
  ℕ, suc, ◌<◌, ◌≡◌, ◌≢◌, Bool, true, false, Option, none, some, List, [], ◌∷◌, arith, ◌==◌,
  if◌then◌else◌, All, All-map, update_first, Bool-cases, Option-cases, inl, inr,
}
use mathlib.Core.Option.{some-injective}
use retail_iq.Base.Keys.{find_first-none, DistinctBy, DistinctBy-update_first, All-update_first}
use retail_iq.Auth.Models.{Role, User, Db, KeyStore, Secrets, Env, Reply, Problem, done, failure}
use retail_iq.Auth.Codes.{generate_otp}
use retail_iq.Auth.Accounts.{
  has_mobile, has_email, find_user, update_user, Registration, new_user, with_user, register,
}
use retail_iq.Auth.Requests.{Request, serve}
use retail_iq.Auth.Frame.{Plain}
use retail_iq.Auth.Frame.Requests.{serve_kept}

abbrev pub mobile_of : User → ℕ
mobile_of u = u.mobile_number

abbrev pub id_of : User → ℕ
id_of u = u.user_id

-- No two users have one email.
abbrev pub OtherEmail : Option ℕ → User → Type 0
OtherEmail e u = (n : ℕ) → e ≡ some n → u.email ≢ some n

abbrev pub DistinctEmails : List User → Type 0
DistinctEmails [] = Unit
DistinctEmails (u ∷ us) = All (OtherEmail u.email) us × DistinctEmails us

abbrev pub Unique : Db → Type 0
Unique db =
    DistinctBy mobile_of db.users
    × DistinctBy id_of db.users
    × DistinctEmails db.users
    × All (λ u. u.user_id < db.next_user) db.users

module _ (test : User → Bool) (f : User → User) (plain : Plain f) where
  other_email : (e : Option ℕ) (u : User) → OtherEmail e u → OtherEmail e (f u)
  other_email e u h n is_e same = h n is_e (rw ((plain u).2) at same)

  DistinctEmails-update_first :
      (us : List User) → DistinctEmails us → DistinctEmails (update_first test f us)
  DistinctEmails-update_first [] h = tt
  DistinctEmails-update_first (u ∷ us) h = elim (Bool-cases (test u)) [
    | inl t ↦ rw (t, (plain u).2) h
    | inr t ↦ rw t (
      All-update_first (OtherEmail u.email) test f us (other_email u.email) h.0,
      DistinctEmails-update_first us h.1,
    )
  ]

  pub update_user-Unique : (db : Db) → Unique db → Unique (update_user test f db)
  update_user-Unique db h = (
    DistinctBy-update_first mobile_of test f (λ u. (plain u).1) db.users h.0,
    DistinctBy-update_first id_of test f (λ u. (plain u).0) db.users h.1,
    DistinctEmails-update_first db.users h.2,
    All-update_first (λ u. u.user_id < db.next_user) test f db.users (λ u l. rw ((plain u).0) l)
        h.3,
  )

new_mobile : (m : ℕ) (u : User) → has_mobile m u ≡ false → mobile_of u ≢ m
new_mobile m u h = ground arith

new_email : (e : ℕ) (u : User) → has_email e u ≡ false → OtherEmail (some e) u
new_email e u h n is_n same = go u.email h same
  where
    go : (o : Option ℕ) → elim o [ none ↦ false | some f ↦ f == e ] ≡ false → o ≢ some n
    go none h same = cc
    go (some f) h same = grind (arith, some-injective e n is_n, some-injective f n same)

older : (n : ℕ) (u : User) → u.user_id < n → id_of u ≢ n
older n u l e = omega arith

older_still : (n : ℕ) (u : User) → u.user_id < n → u.user_id < suc n
older_still n u l = omega arith

module _ (secrets : Secrets) (env : Env) (r : Registration) (db : Db)
    (mobile : find_user (has_mobile r.mobile_number) db ≡ none)
    (email : find_user (has_email r.email) db ≡ none) (h : Unique db) where
  new_user-Unique :
      (store : Option ℕ)
      → Unique (record db {
        users = new_user secrets env r store db ∷ db.users;
        next_user = suc db.next_user;
      })
  new_user-Unique store = (
    (
      All-map (λ u. has_mobile r.mobile_number u ≡ false) (λ u. mobile_of u ≢ r.mobile_number)
          db.users (new_mobile r.mobile_number)
          (find_first-none (has_mobile r.mobile_number) db.users mobile),
      h.0,
    ),
    (
      All-map (λ u. u.user_id < db.next_user) (λ u. id_of u ≢ db.next_user) db.users
          (older db.next_user) h.3,
      h.1,
    ),
    (
      All-map (λ u. has_email r.email u ≡ false) (OtherEmail (some r.email)) db.users
          (new_email r.email) (find_first-none (has_email r.email) db.users email),
      h.2,
    ),
    (
      omega arith,
      All-map (λ u. u.user_id < db.next_user) (λ u. u.user_id < suc db.next_user) db.users
          (older_still db.next_user) h.3,
    ),
  )

  with_user-Unique : (role : Role) → Unique (with_user secrets env r role db)
  with_user-Unique Role.staff = new_user-Unique none
  with_user-Unique Role.owner = new_user-Unique (some db.next_store)

module _ (keys : KeyStore) (secrets : Secrets) where
  open keys use {State}

  sent-Unique :
      (b : Bool) (x y : Reply) (after before : Db) (s : State)
      → Unique after
      → Unique before
      → let r : Reply × Db × State = if b then (x, after, s) else (y, before, s) in Unique r.1
  sent-Unique true x y after before s h g = h
  sent-Unique false x y after before s h g = g

  register-Unique :
      (env : Env) (r : Registration) (db : Db) (s : State)
      → Unique db
      → Unique (register keys secrets env r db s).1
  unfolding register
  register-Unique env r db s h = elim (Option-cases (find_user (has_mobile r.mobile_number) db)) [
    | inr (u, e) ↦ rw (e, register) h
    | inl e ↦ elim (Option-cases (find_user (has_email r.email) db)) [
      | inr (u, f) ↦ rw (e, f, register) h
      | inl f ↦
          let sent = generate_otp keys env r.email (some r.email) true s in
          rw (e, f, register)
            (sent-Unique sent.0 (done 201) (failure Problem.otp_delivery_failed 503)
              (with_user secrets env r r.role db) db sent.1
              (with_user-Unique secrets env r db e f h r.role) h)
    ]
  ]

  -- Whatever is requested, and whether or not the key-value store and the mail work, no two users
  -- have one mobile number, one email or one id, and ids stay below the next one.
  pub serve-Unique :
      (env : Env) (q : Request) (db : Db) (s : State)
      → Unique db
      → Unique (serve keys secrets env q db s).1
  serve-Unique env q db s h =
      serve_kept keys secrets Unique update_user-Unique env q db s
        (λ r e g. register-Unique env r db s g) h
