-- ===== src/Monitoring/Throughput.antt =====
-- monitoring/pages/05_throughput.py: the values by feature.
pub mod Summaries
pub mod Blank
use feature_store.Common.{
  ℕ, ◌≡◌, ◌<◌, refl, arith, String, Bool, true, false, Option, none, some, List, [], ◌∷◌, ◌++◌,
  is_empty, length, if◌then◌else◌, str_eq, eq_iff, any, count, Bool-cases, Option-cases, inl, inr,
}
use feature_store.Common.Dict.{Dict, lookup, insert, get_or, lookup-insert}
use feature_store.Common.Exec.{Exec, Result, ok, err, value_error, pure, ◌>>=◌}
use feature_store.Float.{Float}
use feature_store.Numpy.{Numpy}
use feature_store.Redis.{Redis}
use feature_store.OnlineStore.KeySchema.{feature_key, user_index_key, feature_names}

module _ {F : Type 0} ⦃f : Float F⦄ where
  -- `feature_stats.setdefault(f, []).append(float(data[f]))`: the list is there before the text is
  -- read, so that a text that is no float leaves it as it is, empty where it was made just now.
  abbrev pub append_value : String → String → Dict (List F) → Dict (List F)
  append_value feature text stats =
      let xs = get_or feature [] stats in
      insert feature (elim (f.parse text) [ none ↦ xs | some x ↦ xs ++ x ∷ [] ]) stats

  -- `if f in data`
  abbrev pub add_text : String → Option String → Dict (List F) → Dict (List F)
  add_text feature none stats = stats
  add_text feature (some text) stats = append_value feature text stats

  unfoldable pub add_hash : List String → Dict String → Dict (List F) → Dict (List F)
  add_hash [] features stats = stats
  add_hash (feature ∷ names) features stats =
      add_hash names features (add_text feature (lookup feature features) stats)

  module _ {W : Type 0} ⦃r : Redis W⦄ where
    unfoldable pub read_stats : List String → Dict (List F) → Exec W (Dict (List F))
    read_stats [] stats = pure stats
    read_stats (uid ∷ user_ids) stats = do
      features ← r.hgetall (feature_key uid)
      read_stats user_ids (add_hash feature_names features stats)

    unfoldable pub feature_stats : Exec W (Dict (List F))
    feature_stats = r.srandmember user_index_key 300 >>= λ user_ids. read_stats user_ids []
