-- ===== src/Registry/Seeding/Planted.antt =====
-- Seeds among rows: which are there, and what planting the others gives.
use mathlib.Core.Path.{subst}
use text.Mathlib.TextPositions.{eq_refl}
use feature_store.Common.{
  ◌≡◌, ◌≢◌, refl, arith, String, str_eq, eq_iff, Bool, true, false, ◌||◌, List, [], ◌∷◌, ◌++◌,
  filter, any, All, not, is_empty, if◌then◌else◌, Bool-cases, inl, inr,
}
use feature_store.Common.Exec.{err, http_exception}
use feature_store.Registry.Models.{FeatureDefinition, named}
use feature_store.Registry.Service.{detail_of}
use feature_store.Registry.Seeding.{Seed}

-- whether a row has the name of the seed
abbrev pub is_planted : List FeatureDefinition → Seed → Bool
is_planted rows seed = any (named seed.feature.feature_name) rows

abbrev pub plant : Seed → List FeatureDefinition → List FeatureDefinition
plant seed rows = if is_planted rows seed then rows else rows ++ seed.feature ∷ []

-- The rows with, behind them, the seeds whose names no row before has.
unfoldable pub planted : List Seed → List FeatureDefinition → List FeatureDefinition
planted [] rows = rows
planted (seed ∷ seeds) rows = planted seeds (plant seed rows)

pub any-append :
    {A : Type 0} (p : A → Bool) (xs ys : List A) → any p (xs ++ ys) ≡ (any p xs || any p ys)
any-append p [] ys = refl
any-append p (x ∷ xs) ys = ground (arith, any-append p xs ys)

pub any-filter : {A : Type 0} (p : A → Bool) (xs : List A) → any p xs ≡ not (is_empty (filter p xs))
any-filter p [] = refl
any-filter p (x ∷ xs) = ground (arith, any-filter p xs)

pub plant_keeps :
    (t s : Seed) (rows : List FeatureDefinition)
    → is_planted rows s ≡ true
    → is_planted (plant t rows) s ≡ true
plant_keeps t s rows h =
    ground (arith, h, any-append (named s.feature.feature_name) rows (t.feature ∷ []))

pub plant_self : (s : Seed) (rows : List FeatureDefinition) → is_planted (plant s rows) s ≡ true
plant_self s rows = ground (
  arith,
  any-append (named s.feature.feature_name) rows (s.feature ∷ []),
  eq_refl s.feature.feature_name,
)

pub planted_keeps :
    (seeds : List Seed) (s : Seed) (rows : List FeatureDefinition)
    → is_planted rows s ≡ true
    → is_planted (planted seeds rows) s ≡ true
unfolding planted
planted_keeps [] s rows h = h
planted_keeps (t ∷ seeds) s rows h = planted_keeps seeds s (plant t rows) (plant_keeps t s rows h)

pub every_planted :
    (seeds : List Seed) (rows : List FeatureDefinition)
    → All (λ s. is_planted (planted seeds rows) s ≡ true) seeds
unfolding planted
every_planted [] rows = tt
every_planted (s ∷ seeds) rows =
    (planted_keeps seeds s (plant s rows) (plant_self s rows), every_planted seeds (plant s rows))

pub planted_name :
    (k : String) (seeds : List Seed) (rows : List FeatureDefinition)
    → any (λ t. str_eq t.feature.feature_name k) seeds ≡ true
    → All (λ t. is_planted rows t ≡ true) seeds
    → any (named k) rows ≡ true
planted_name k [] rows h _ = cc
planted_name k (t ∷ seeds) rows h (p, ps) = elim (Bool-cases (str_eq t.feature.feature_name k)) [
  | inl e ↦ subst (λ i. any (named i) rows ≡ true) ((eq_iff t.feature.feature_name k).0 e) p
  | inr e ↦ planted_name k seeds rows (ground (arith, h, e)) ps
]

pub detail-ne-404 :
    (rows : List FeatureDefinition)
    → is_empty rows ≡ false
    → detail_of rows ≢ err (http_exception 404)
detail-ne-404 [] h p = absurd (ground (arith, h))
detail-ne-404 (x ∷ []) h p = absurd (ground (arith, p))
detail-ne-404 (x ∷ y ∷ ys) h p = absurd (ground (arith, p))
