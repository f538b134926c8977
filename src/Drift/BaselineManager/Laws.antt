-- ===== src/Drift/BaselineManager/Laws.antt =====
-- Baselines that are stored and loaded again.
use feature_store.Common.{
  String, ◌≡◌, refl, ◌∙◌, arith, Option, none, some, List, [], ◌∷◌, str_eq, eq_iff, is_empty,
  if◌then◌else◌, inl, inr, Bool-cases,
}
use feature_store.Common.Dict.{Dict, lookup, get_or}
use feature_store.Common.Exec.{ok, Exec-cases}
use feature_store.Redis.{Redis, RedisLaws}
use feature_store.OnlineStore.KeySchema.{baseline_key, str_eq-baseline_key}
use feature_store.Drift.BaselineManager.{
  Json, ReadsBack, save_baseline, parse_baseline, load_baseline, refresh_all_baselines,
}

module _ {W F : Type 0} ⦃r : Redis W⦄ ⦃j : Json F⦄ (laws : RedisLaws W) where
  save_baseline_lem :
      (k i : String) (xs : List F) (w w' : W)
      → save_baseline k xs w ≡ (ok tt, w')
      → laws.text w' (baseline_key i)
        ≡ (if str_eq k i then some (j.dumps xs) else laws.text w (baseline_key i))
  unfolding save_baseline
  save_baseline_lem k i xs w w' h = ground (
    arith,
    laws.text-set_ex (baseline_key k) (baseline_key i) (j.dumps xs) 604800 w w' (omega arith) h,
    str_eq-baseline_key k i,
  )

-- What the server has for a feature after `refresh_all_baselines`: the text of the feature's
-- values where it has some, and what was there before otherwise.
abbrev pub refreshed : {F : Type 0} ⦃j : Json F⦄ → Option (List F) → Option String → Option String
refreshed ⦃j⦄ none before = before
refreshed ⦃j⦄ (some xs) before = if is_empty xs then before else some (j.dumps xs)

-- No key stands twice in the dict, as in every Python dict.
unfoldable pub HasDistinctKeys : {V : Type 0} → Dict V → Type 0
HasDistinctKeys [] = Unit
HasDistinctKeys ((k, v) ∷ d) = (lookup k d ≡ none) × HasDistinctKeys d

module _ {W F : Type 0} ⦃r : Redis W⦄ ⦃j : Json F⦄ (laws : RedisLaws W) where
  pub text-refresh_all_baselines :
      (d : Dict (List F)) (k : String) (w w' : W)
      → HasDistinctKeys d
      → refresh_all_baselines d w ≡ (ok tt, w')
      → laws.text w' (baseline_key k) ≡ refreshed (lookup k d) (laws.text w (baseline_key k))
  unfolding lookup refresh_all_baselines HasDistinctKeys
  text-refresh_all_baselines [] k w w' u h = ground arith
  text-refresh_all_baselines ((i, xs) ∷ d) k w w' (new, u) h = elim (Bool-cases (is_empty xs)) [
    | inl e ↦ ground (arith, eq_iff i k, text-refresh_all_baselines d k w w' u)
    | inr e ↦ elim (Exec-cases (save_baseline i xs w)) [
      | inl (a, v, s) ↦ ground (
        arith,
        eq_iff i k,
        save_baseline_lem laws i k xs w v s,
        text-refresh_all_baselines d k v w' u,
      )
      | inr (x, v, s) ↦ absurd (ground arith)
    ]
  ]

  pub load_baseline_lem :
      (k : String) (w w' : W) (o : Option String)
      → r.get (baseline_key k) w ≡ (ok o, w')
      → load_baseline {F = F} k w ≡ parse_baseline (laws.text w (baseline_key k)) w
  unfolding load_baseline
  load_baseline_lem k w w' o h = ground (arith, laws.get_lem (baseline_key k) w w' o h)

  -- A baseline that was saved is loaded again: after a `save_baseline` of values whose text reads
  -- back, a `load_baseline` of the same feature returns those values and changes nothing,
  -- whenever the server answers its `get`.
  pub load_baseline-save_baseline :
      (k : String) (xs : List F) (w w₁ w₂ : W) (o : Option String)
      → ReadsBack xs
      → save_baseline k xs w ≡ (ok tt, w₁)
      → r.get (baseline_key k) w₁ ≡ (ok o, w₂)
      → load_baseline k w₁ ≡ (ok (some xs), w₁)
  unfolding parse_baseline
  load_baseline-save_baseline k xs w w₁ w₂ o (full, back) s g =
      let text : laws.text w₁ (baseline_key k) ≡ some (j.dumps xs) =
        ground (arith, save_baseline_lem laws k k xs w w₁ s, eq_iff k k) in
      load_baseline_lem k w₁ w₂ o g ∙ rw text (rw full (rw back refl))

  -- After a `refresh_all_baselines` of a dict of values, a `load_baseline` of any feature returns
  -- the values that the dict has for it, where it has some; and where it has none, what it
  -- returned before (with no keys twice in the dict, values whose text reads back, and a server that
  -- answers the `get`).
  pub load_baseline-refresh_all_baselines :
      (d : Dict (List F)) (k : String) (w w₁ w₂ : W) (o : Option String)
      → HasDistinctKeys d
      → ReadsBack (get_or k [] d)
      → refresh_all_baselines d w ≡ (ok tt, w₁)
      → r.get (baseline_key k) w₁ ≡ (ok o, w₂)
      → load_baseline {F = F} k w₁ ≡ (
          if is_empty (get_or k [] d)
          then parse_baseline (laws.text w (baseline_key k)) w₁
          else (ok (some (get_or k [] d)), w₁))
  unfolding parse_baseline
  load_baseline-refresh_all_baselines d k w w₁ w₂ o u back s g =
      load_baseline_lem k w₁ w₂ o g
      ∙ rw (text-refresh_all_baselines d k w w₁ u s) (ground (arith, back))
