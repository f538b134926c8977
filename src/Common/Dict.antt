-- ===== src/Common/Dict.antt =====
-- A Python dict with text keys, in insertion order.
use Prim.Native.String.{String}
use mathlib.Core.Path.{◌≡◌, refl}
use mathlib.Core.Bool.{Bool, true, false}
use mathlib.Core.Logic.{◌≢◌}
use mathlib.Core.Option
use mathlib.Core.Option.{Option, none, some}
use mathlib.Core.List.{List, [], ◌∷◌}
use native.Mathlib.Omega.{arith}
use text.Mathlib.Text.{◌==◌}
use text.Mathlib.TextEquality.{eq_iff}
use feature_store.Common.Tests.{if◌then◌else◌}

abbrev pub Dict {ℓ} : Type ℓ → Type ℓ
Dict V = List (String × V)

module _ {ℓ} {V : Type ℓ} where
  -- `d.get(k)`, with `None` where the key is missing
  unfoldable pub lookup : String → Dict V → Option V
  lookup k [] = none
  lookup k ((j, v) ∷ d) = if j == k then some v else lookup k d

  -- `d[k] = v`: the place of a key that is there stays
  unfoldable pub insert : String → V → Dict V → Dict V
  insert k v [] = (k, v) ∷ []
  insert k v ((j, w) ∷ d) = if j == k then (k, v) ∷ d else (j, w) ∷ insert k v d

  -- `{**d, **e}`, for dicts whose keys differ, as those of a Python dict do
  unfoldable pub merge : Dict V → Dict V → Dict V
  merge d [] = d
  merge d ((k, v) ∷ e) = insert k v (merge d e)

  -- `k in d`
  abbrev pub contains : String → Dict V → Bool
  contains k d = elim (lookup k d) [ none ↦ false | some _ ↦ true ]

  -- `d.get(k, v)`
  abbrev pub get_or : String → V → Dict V → V
  get_or k v d = elim (lookup k d) [ none ↦ v | some w ↦ w ]

  pub lookup-insert :
      (k j : String) (v : V) (d : Dict V)
      → lookup j (insert k v d) ≡ (if k == j then some v else lookup j d)
  unfolding lookup insert
  lookup-insert k j v [] = refl
  lookup-insert k j v ((i, w) ∷ d) =
      ground (arith, eq_iff k j, eq_iff i k, eq_iff i j, lookup-insert k j v d)

  -- The value that stands first, if there is one.
  abbrev pub or_else : Option V → Option V → Option V
  or_else none o = o
  or_else (some v) o = some v

  pub lookup-merge :
      (j : String) (d e : Dict V) → lookup j (merge d e) ≡ or_else (lookup j e) (lookup j d)
  unfolding lookup merge
  lookup-merge j d [] = refl
  lookup-merge j d ((k, v) ∷ e) =
      ground (arith, lookup-insert k j v (merge d e), lookup-merge j d e)

  -- A dict in which a key is found is not empty.
  pub not-nil_of_lookup : (k : String) {v : V} (d : Dict V) → lookup k d ≡ some v → d ≢ []
  unfolding lookup
  not-nil_of_lookup k [] h = cc
  not-nil_of_lookup k (e ∷ d) h = cc

-- `{k: f(v) for k, v in d.items()}`
unfoldable pub map_values {ℓ κ} : {V : Type ℓ} {U : Type κ} → (V → U) → Dict V → Dict U
map_values f [] = []
map_values f ((k, v) ∷ d) = (k, f v) ∷ map_values f d

pub lookup-map_values {ℓ κ} :
    {V : Type ℓ} {U : Type κ} (f : V → U) (k : String) (d : Dict V)
    → lookup k (map_values f d) ≡ Option.map f (lookup k d)
unfolding lookup map_values
lookup-map_values f k [] = refl
lookup-map_values f k ((j, v) ∷ d) = ground (arith, lookup-map_values f k d)
