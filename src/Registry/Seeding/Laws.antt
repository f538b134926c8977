-- ===== src/Registry/Seeding/Laws.antt =====
-- What seeding leaves in the tables.
use mathlib.Core.Path.{subst}
use feature_store.Common.{
  ◌≡◌, ◌≢◌, sym, ap, ◌∙◌, arith, String, str_eq, true, false, none, List, [], ◌∷◌, ◌++◌, filter,
  any, All, is_empty, inl, inr,
}
use feature_store.Common.Exec.{ok, err, Exec-cases, http_exception, ◌>>=◌}
use feature_store.Registry.Models.{FeatureDefinition, FeatureLineage, Session, SessionLaws, named}
use feature_store.Registry.Service.{scalar_one_or_none, get_feature_detail, get_feature_detail_lem}
use feature_store.Registry.Seeding.{Seed, add_steps, add_missing, seed_one, seed_all, seed_features}
use feature_store.Registry.Seeding.Planted.{
  is_planted, plant, planted, any-filter, every_planted, planted_name, detail-ne-404,
}

module _ {W F : Type 0} ⦃s : Session W F⦄ (laws : SessionLaws W F) where
  open laws use {features, lineage}

  add_steps_lem :
      (k : String) (steps : List (String × String)) (w w' : W)
      → add_steps s k steps w ≡ (ok tt, w')
      → features w' ≡ features w
  unfolding add_steps
  add_steps_lem k [] w w' h = ground (arith, h)
  add_steps_lem k ((a, b) ∷ steps) w w' h =
      let line : FeatureLineage = record {
        feature_name = k;
        upstream_source = a;
        transform_step = b;
      } in
      elim (Exec-cases (s.add_lineage line w)) [
        | inr (x, v, e) ↦ absurd (ground arith)
        | inl (x, v, e) ↦ ground (arith, laws.add_lineage_lem line w v, add_steps_lem k steps v w')
      ]

  -- a seed that no row has the name of
  add_missing_lem :
      (seed : Seed) (w w' : W)
      → add_missing s seed none w ≡ (ok tt, w')
      → features w' ≡ features w ++ seed.feature ∷ []
  unfolding add_missing
  add_missing_lem seed w w' h = elim (Exec-cases (s.add_feature seed.feature w)) [
    | inr (x, v, e) ↦ absurd (ground arith)
    | inl (x, v, e) ↦ elim (Exec-cases (s.flush v)) [
      | inr (y, u, e') ↦ absurd (ground arith)
      | inl (y, u, e') ↦ ground (
        arith,
        laws.add_feature_lem seed.feature w v,
        laws.flush_lem v u,
        add_steps_lem seed.feature.feature_name seed.lineage u w',
      )
    ]
  ]

  -- after the query: the additions if it found nothing, and nothing otherwise
  after_select :
      (seed : Seed) (found : List FeatureDefinition) (v w' : W)
      → (scalar_one_or_none found >>= add_missing s seed) v ≡ (ok tt, w')
      → (is_empty found ≡ true → features w' ≡ features v ++ seed.feature ∷ [])
        × (is_empty found ≡ false → w' ≡ v)
  unfolding scalar_one_or_none add_missing
  after_select seed [] v w' h = (λ _. add_missing_lem seed v w' h, λ p. cc)
  after_select seed (x ∷ []) v w' h = (λ p. cc, λ _. ground (arith, h))
  after_select seed (x ∷ y ∷ ys) v w' h = absurd (ground (arith, h))

  -- What one seed does, by the rows that have its name.
  seed_one_lem :
      (seed : Seed) (w w' : W)
      → seed_one s seed w ≡ (ok tt, w')
      → (features w' ≡ plant seed (features w))
        × (is_planted (features w) seed ≡ true → lineage w' ≡ lineage w)
  unfolding seed_one
  seed_one_lem seed w w' h =
      let k = seed.feature.feature_name in
      elim (Exec-cases (s.select_named k w)) [
        | inr (x, v, e) ↦ absurd (ground arith)
        | inl (found, v, e) ↦
            let (q, same, kept) = laws.select_named_lem k w v found e in
            let done : (scalar_one_or_none found >>= add_missing s seed) v ≡ (ok tt, w') =
              ground arith in
            let (added, skipped) = after_select seed found v w' done in
            ground (arith, q, same, kept, added, skipped, any-filter (named k) (features w))
      ]

  seed_all_lem :
      (seeds : List Seed) (w w' : W)
      → seed_all s seeds w ≡ (ok tt, w')
      → features w' ≡ planted seeds (features w)
  unfolding seed_all planted
  seed_all_lem [] w w' h = ground (arith, h)
  seed_all_lem (seed ∷ seeds) w w' h = elim (Exec-cases (seed_one s seed w)) [
    | inr (x, v, e) ↦ absurd (ground arith)
    | inl (x, v, e) ↦
        let (one, _) = seed_one_lem seed w v e in
        let rest : features w' ≡ planted seeds (features v) =
          ground (arith, seed_all_lem seeds v w') in
        rest ∙ ap (planted seeds) one
  ]

  -- seeds that are all there already
  seed_all_idle :
      (seeds : List Seed) (w w' : W)
      → All (λ t. is_planted (features w) t ≡ true) seeds
      → seed_all s seeds w ≡ (ok tt, w')
      → (features w' ≡ features w) × (lineage w' ≡ lineage w)
  unfolding seed_all
  seed_all_idle [] w w' there h = ground (arith, h)
  seed_all_idle (seed ∷ seeds) w w' (t, ts) h = elim (Exec-cases (seed_one s seed w)) [
    | inr (x, v, e) ↦ absurd (ground arith)
    | inl (x, v, e) ↦
        let (one, line) = seed_one_lem seed w v e in
        let same : features v ≡ features w = one ∙ ground (arith, t) in
        let still : All (λ t. is_planted (features v) t ≡ true) seeds =
          subst (λ rows. All (λ t. is_planted rows t ≡ true) seeds) (sym same) ts in
        ground (arith, same, line t, seed_all_idle seeds v w' still)
  ]

  -- Seeding that returns leaves the rows that were there and behind them, in order, the seeds
  -- whose name no row before has.
  pub seed_features_lem :
      (seeds : List Seed) (w w' : W)
      → seed_features s seeds w ≡ (ok tt, w')
      → features w' ≡ planted seeds (features w)
  unfolding seed_features
  seed_features_lem seeds w w' h = elim (Exec-cases (seed_all s seeds w)) [
    | inr (x, v, e) ↦ absurd (ground arith)
    | inl (x, v, e) ↦ ground (arith, laws.commit_lem v w', seed_all_lem seeds w v e)
  ]

  pub every_seed_planted :
      (seeds : List Seed) (w w' : W)
      → seed_features s seeds w ≡ (ok tt, w')
      → All (λ t. is_planted (features w') t ≡ true) seeds
  every_seed_planted seeds w w' h =
      subst (λ rows. All (λ t. is_planted rows t ≡ true) seeds)
        (sym (seed_features_lem seeds w w' h)) (every_planted seeds (features w))

  -- Seeding that returns where all seeds are planted changes nothing.
  pub seed_features_idle :
      (seeds : List Seed) (w w' : W)
      → All (λ t. is_planted (features w) t ≡ true) seeds
      → seed_features s seeds w ≡ (ok tt, w')
      → (features w' ≡ features w) × (lineage w' ≡ lineage w)
  unfolding seed_features
  seed_features_idle seeds w w' there h = elim (Exec-cases (seed_all s seeds w)) [
    | inr (x, v, e) ↦ absurd (ground arith)
    | inl (x, v, e) ↦ ground (arith, laws.commit_lem v w', seed_all_idle seeds w v there e)
  ]

  -- Seeding is idempotent: when it has returned, a second seeding that returns changes neither
  -- the definitions nor their lineage.
  pub seed_features_idempotent :
      (seeds : List Seed) (w w₁ w₂ : W)
      → seed_features s seeds w ≡ (ok tt, w₁)
      → seed_features s seeds w₁ ≡ (ok tt, w₂)
      → (features w₂ ≡ features w₁) × (lineage w₂ ≡ lineage w₁)
  seed_features_idempotent seeds w w₁ w₂ first =
      seed_features_idle seeds w₁ w₂ (every_seed_planted seeds w w₁ first)

  -- Where all seeds are planted, a request for one of them that the database answers is no 404.
  pub planted_feature_found :
      (seeds : List Seed) (k : String) (w w' : W) (rows : List FeatureDefinition)
      → any (λ t. str_eq t.feature.feature_name k) seeds ≡ true
      → All (λ t. is_planted (features w) t ≡ true) seeds
      → s.select_named k w ≡ (ok rows, w')
      → (get_feature_detail s k w).0 ≢ err (http_exception 404)
  planted_feature_found seeds k w w' rows listed there answer bad =
      let row = planted_name k seeds (features w) listed there in
      detail-ne-404 (filter (named k) (features w))
        (ground (arith, row, any-filter (named k) (features w)))
        (sym (ap (λ x. x.0) (get_feature_detail_lem laws k w w' rows answer)) ∙ bad)
