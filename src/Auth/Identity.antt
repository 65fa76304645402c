-- ===== src/Auth/Identity.antt =====
-- app/auth/routes.py: who a user is does not change.
use retail_iq.Base.{
  ℕ, ◌≡◌, refl, ap, ◌∙◌, Bool, true, false, Option, List, [], ◌∷◌, map, update_first, Bool-cases,
  inl, inr,
}
use retail_iq.Auth.Models.{Role, User, Db, KeyStore, Secrets, Env}
use retail_iq.Auth.Accounts.{update_user}
use retail_iq.Auth.Requests.{Request, serve}
use retail_iq.Auth.Frame.{Plain}
use retail_iq.Auth.Frame.Requests.{serve_kept}

-- Id, mobile number, email, role and store.
abbrev pub identity : User → ℕ × ℕ × Option ℕ × Option Role × Option ℕ
identity u = (u.user_id, u.mobile_number, u.email, u.role, u.store_id)

abbrev pub is_sign_up : Request → Bool
is_sign_up (Request.sign_up r) = true
is_sign_up _ = false

abbrev pub SameIdentities : Db → Db → Type 0
SameIdentities before after =
    (map identity after.users ≡ map identity before.users)
    × (after.stores ≡ before.stores)
    × (after.groups ≡ before.groups)

map-update_first :
    (test : User → Bool) (f : User → User) (us : List User)
    → Plain f
    → map identity (update_first test f us) ≡ map identity us
map-update_first test f [] plain = refl
map-update_first test f (u ∷ us) plain = elim (Bool-cases (test u)) [
  | inl t ↦ let (i, m, e, r, s) = plain u in rw (t, i, m, e, r, s) refl
  | inr t ↦ rw (t, map-update_first test f us plain) refl
]

update_user-SameIdentities :
    (db0 : Db) (test : User → Bool) (f : User → User)
    → Plain f
    → (db : Db) → SameIdentities db0 db
    → SameIdentities db0 (update_user test f db)
update_user-SameIdentities db0 test f plain db h =
    (map-update_first test f db.users plain ∙ h.0, h.1, h.2)

module _ (keys : KeyStore) (secrets : Secrets) where
  open keys use {State}

  -- No request but a registration adds or removes a user, or changes a user's id, mobile number,
  -- email, role or store; it changes no store and no store group either.
  pub serve-SameIdentities :
      (env : Env) (q : Request) (db : Db) (s : State)
      → is_sign_up q ≡ false
      → SameIdentities db (serve keys secrets env q db s).1
  serve-SameIdentities env q db s other =
      serve_kept keys secrets (SameIdentities db) (update_user-SameIdentities db) env q db s
        (λ r is_r h. cc (other, ap is_sign_up is_r)) (refl, refl, refl)
