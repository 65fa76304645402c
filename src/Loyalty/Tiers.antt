-- ===== src/Loyalty/Tiers.antt =====
-- app/loyalty/routes.py: the handlers that change programs and tiers. A handler's new UUIDs are
-- arguments. The name of a tier is unique in its program: a row that breaks this raises, and the
-- session is rolled back.
use Prim.Native.String.{String, compare}
use text.Mathlib.Text.{is_eq}
use retail_iq.Base.{
  ℕ, Bool, true, false, not, ◌&&◌, Option, none, some, ◌∷◌, ◌==◌, if◌then◌else◌, find_first,
  update_first, map_where, select,
}
use retail_iq.Loyalty.Models.{
  LoyaltyProgram, LoyaltyTier, CustomerLoyaltyAccount, Db, Problem, Reply, success, failure,
}

abbrev pub find_program : ℕ → Db → Option LoyaltyProgram
find_program sid db = find_first (λ p. p.store_id == sid) db.programs

abbrev pub default_program : ℕ → ℕ → LoyaltyProgram
default_program i sid = record {
  id = i;
  store_id = sid;
  points_per_rupee = 10000;
  redemption_rate = 1000;
  min_redemption_points = 100;
  expiry_days = 365;
  is_active = true;
}

-- The program and the session with it; `i` is the id of a new one.
unfoldable pub ensure_loyalty_program : ℕ → ℕ → Db → LoyaltyProgram × Db
ensure_loyalty_program i sid db = elim (find_program sid db) [
  | some p ↦ (p, db)
  | none ↦ (default_program i sid, record db { programs = default_program i sid ∷ db.programs })
]

abbrev pub is_default_of : ℕ → LoyaltyTier → Bool
is_default_of program t = t.program_id == program && t.is_default

abbrev pub base_tier : ℕ → ℕ → LoyaltyTier
base_tier i program = record {
  id = i;
  program_id = program;
  name = "Base";
  min_points = 0;
  max_points = none;
  multiplier = 100;
  is_default = true;
}

-- Whether another tier than `i` of the program has the name.
abbrev pub has_name : ℕ → ℕ → String → LoyaltyTier → Bool
has_name i program name t =
    t.program_id == program && not (t.id == i) && is_eq (compare t.name name)

abbrev pub is_taken : ℕ → ℕ → String → Db → Bool
is_taken i program name db = elim (find_first (has_name i program name) db.tiers) [
  | none ↦ false
  | some t ↦ true
]

-- `none` if a tier that is no default has the name of the default tier.
unfoldable pub ensure_default_tier : ℕ → LoyaltyProgram → Db → Option (LoyaltyTier × Db)
ensure_default_tier i p db = elim (find_first (is_default_of p.id) db.tiers) [
  | some t ↦ some (t, db)
  | none ↦
      if is_taken i p.id "Base" db
      then none
      else some (base_tier i p.id, record db { tiers = base_tier i p.id ∷ db.tiers })
]

-- The keys that a body may hold.
pub record ProgramPatch : Type 0 where
  pub points_per_rupee : Option ℕ
  pub redemption_rate : Option ℕ
  pub min_redemption_points : Option ℕ
  pub expiry_days : Option ℕ
  pub is_active : Option Bool

-- `setattr(row, key, body[key])` for a key that is there
abbrev pub patched {ℓ} : {A : Type ℓ} → Option A → A → A
patched none old = old
patched (some new) old = new

abbrev pub patch_program : ProgramPatch → LoyaltyProgram → LoyaltyProgram
patch_program b p = record p {
  points_per_rupee = patched b.points_per_rupee p.points_per_rupee;
  redemption_rate = patched b.redemption_rate p.redemption_rate;
  min_redemption_points = patched b.min_redemption_points p.min_redemption_points;
  expiry_days = patched b.expiry_days p.expiry_days;
  is_active = patched b.is_active p.is_active;
}

-- `expiry_days` below 1 is refused; the other fields are naturals.
abbrev pub is_valid_patch : Option ℕ → Bool
is_valid_patch none = true
is_valid_patch (some days) = not (days == 0)

unfoldable pub upsert_loyalty_program : ℕ → ℕ → ℕ → ProgramPatch → Db → Db × Reply
unfolding ensure_loyalty_program ensure_default_tier
upsert_loyalty_program new_program new_tier sid body db =
    if not (is_valid_patch body.expiry_days)
    then (db, failure Problem.validation 400)
    else let (p, db₁) = ensure_loyalty_program new_program sid db in
      let db₂ = record db₁ {
        programs = map_where (λ q. q.id == p.id) (patch_program body) db₁.programs;
      } in
      elim (ensure_default_tier new_tier (patch_program body p) db₂) [
        | none ↦ (db, failure Problem.server_error 500)
        | some r ↦ (r.1, success 200)
      ]

pub record TierBody : Type 0 where
  pub name : Option String
  pub min_points : Option ℕ
  pub max_points : Option (Option ℕ)
  pub multiplier : Option ℕ

abbrev pub new_tier : ℕ → ℕ → String → TierBody → LoyaltyTier
new_tier i program name body = record {
  id = i;
  program_id = program;
  name = name;
  min_points = patched body.min_points 0;
  max_points = patched body.max_points none;
  multiplier = patched body.multiplier 100;
  is_default = false;
}

-- A missing name is refused. (An empty one, which is refused too, is given as `none`.)
unfoldable pub create_loyalty_tier : ℕ → ℕ → ℕ → ℕ → TierBody → Db → Db × Reply
unfolding ensure_loyalty_program ensure_default_tier
create_loyalty_tier new_program new_default i sid body db = elim body.name [
  | none ↦ (db, failure Problem.validation 400)
  | some name ↦
      let (p, db₁) = ensure_loyalty_program new_program sid db in
      elim (ensure_default_tier new_default p db₁) [
        | none ↦ (db, failure Problem.server_error 500)
        | some r ↦
            if is_taken i p.id name r.1
            then (db, failure Problem.server_error 500)
            else (record r.1 { tiers = new_tier i p.id name body ∷ r.1.tiers }, success 201)
      ]
]

abbrev pub is_tier_of : ℕ → ℕ → LoyaltyTier → Bool
is_tier_of i program t = t.id == i && t.program_id == program

abbrev pub patch_tier : TierBody → LoyaltyTier → LoyaltyTier
patch_tier b t = record t {
  name = patched b.name t.name;
  min_points = patched b.min_points t.min_points;
  max_points = patched b.max_points t.max_points;
  multiplier = patched b.multiplier t.multiplier;
}

unfoldable pub update_loyalty_tier : ℕ → ℕ → TierBody → Db → Db × Reply
update_loyalty_tier i sid body db = elim (find_program sid db) [
  | none ↦ (db, failure Problem.no_program 404)
  | some p ↦ elim (find_first (is_tier_of i p.id) db.tiers) [
    | none ↦ (db, failure Problem.no_tier 404)
    | some t ↦
        if is_taken i p.id (patched body.name t.name) db
        then (db, failure Problem.server_error 500)
        else (
          record db { tiers = update_first (is_tier_of i p.id) (patch_tier body) db.tiers },
          success 200,
        )
  ]
]

abbrev pub has_tier : ℕ → CustomerLoyaltyAccount → Bool
has_tier i a = elim a.tier_id [ none ↦ false | some j ↦ j == i ]

abbrev pub set_tier : ℕ → CustomerLoyaltyAccount → CustomerLoyaltyAccount
set_tier i a = record a { tier_id = some i }

-- The accounts of the tier move to the default tier, and the tier is deleted.
abbrev pub drop_tier : ℕ → LoyaltyTier × Db → Db
drop_tier i (fallback, db) = record db {
  accounts = map_where (has_tier i) (set_tier fallback.id) db.accounts;
  tiers = select (λ t. not (t.id == i)) db.tiers;
}

unfoldable pub delete_loyalty_tier : ℕ → ℕ → ℕ → Db → Db × Reply
unfolding ensure_default_tier
delete_loyalty_tier new_default i sid db = elim (find_program sid db) [
  | none ↦ (db, failure Problem.no_program 404)
  | some p ↦ elim (find_first (is_tier_of i p.id) db.tiers) [
    | none ↦ (db, failure Problem.no_tier 404)
    | some t ↦
        if t.is_default
        then (db, failure Problem.default_tier 422)
        else elim (ensure_default_tier new_default p db) [
          | none ↦ (db, failure Problem.server_error 500)
          | some r ↦ (drop_tier t.id r, success 200)
        ]
  ]
]
