-- ===== src/Monitoring/Throughput/Blank.antt =====
-- A feature whose texts are no floats: the page has an empty list for it, and cannot summarize it.
use feature_store.Common.{
  ◌≡◌, refl, ap, arith, String, Bool, true, false, ◌||◌, ◌&&◌, Option, none, some, List, [], ◌∷◌,
  ◌++◌, is_empty, str_eq, eq_iff, any, All, Bool-cases, Option-cases, inl, inr,
}
use feature_store.Common.Dict.{Dict, lookup, get_or, contains, lookup-insert}
use feature_store.Common.Exec.{ok, err, index_error, Exec-cases}
use feature_store.Float.{Float}
use feature_store.Numpy.{Numpy}
use feature_store.Redis.{Redis, RedisLaws}
use feature_store.OnlineStore.KeySchema.{feature_key, user_index_key, feature_names}
use feature_store.Monitoring.Throughput.{
  append_value, add_text, add_hash, read_stats, feature_stats,
}
use feature_store.Monitoring.Throughput.Summaries.{
  Percentiles, PercentileLaws, summary_of, summarize,
}

-- a hash whose text for a feature, if it has one, is no float
abbrev pub unreadable : {F : Type 0} → (String → Option F) → String → Dict String → Bool
unreadable parse k features = elim (lookup k features) [
  | none ↦ true
  | some text ↦ elim (parse text) [ none ↦ true | some x ↦ false ]
]

nil_of_is_empty : {A : Type 0} (xs : List A) → is_empty xs ≡ true → xs ≡ []
nil_of_is_empty [] h = refl
nil_of_is_empty (x ∷ xs) h = cc

module _ {F : Type 0} ⦃f : Float F⦄ (k : String) where
  -- no value of the feature was read so far
  abbrev unread : Dict (List F) → Bool
  unread stats = is_empty (get_or k [] stats)

  append_value-unread :
      (feature text : String) (stats : Dict (List F))
      → (str_eq feature k ≡ true → f.parse text ≡ none)
      → unread stats ≡ true
      → unread (append_value feature text stats) ≡ true
  append_value-unread feature text stats bad h =
      let xs = get_or feature [] stats in
      let found =
        lookup-insert feature k (elim (f.parse text) [ none ↦ xs | some x ↦ xs ++ x ∷ [] ]) stats in
      elim (Bool-cases (str_eq feature k)) [
        | inl e ↦ ground (arith, found, e, bad e, ap (λ j. lookup j stats) ((eq_iff feature k).0 e))
        | inr e ↦ ground (arith, found, e)
      ]

  append_value-contains :
      (feature text : String) (stats : Dict (List F))
      → contains k (append_value feature text stats) ≡ (str_eq feature k || contains k stats)
  append_value-contains feature text stats = ground (
    arith,
    lookup-insert feature k
        (elim (f.parse text) [
          | none ↦ get_or feature [] stats
          | some x ↦ get_or feature [] stats ++ x ∷ []
        ])
        stats,
  )

  add_text-unread :
      (feature : String) (o : Option String) (stats : Dict (List F))
      → ((text : String) → o ≡ some text → str_eq feature k ≡ true → f.parse text ≡ none)
      → unread stats ≡ true
      → unread (add_text feature o stats) ≡ true
  add_text-unread feature none stats bad h = h
  add_text-unread feature (some text) stats bad h =
      append_value-unread feature text stats (bad text refl) h

  add_text-contains :
      (feature : String) (o : Option String) (stats : Dict (List F))
      → contains k (add_text feature o stats)
        ≡ ((str_eq feature k && elim o [ none ↦ false | some _ ↦ true ]) || contains k stats)
  add_text-contains feature none stats = ground arith
  add_text-contains feature (some text) stats =
      ground (arith, append_value-contains feature text stats)

  -- One hash, name by name.
  add_hash-unread :
      (names : List String) (features : Dict String) (stats : Dict (List F))
      → unreadable f.parse k features ≡ true
      → unread stats ≡ true
      → unread (add_hash names features stats) ≡ true
  unfolding add_hash
  add_hash-unread [] features stats bad h = h
  add_hash-unread (name ∷ names) features stats bad h =
      add_hash-unread names features (add_text name (lookup name features) stats) bad (
        add_text-unread name (lookup name features) stats
          (λ text e same. ground (arith, e, ap (λ j. lookup j features) ((eq_iff name k).0 same)))
          h)

  add_hash-contains :
      (names : List String) (features : Dict String) (stats : Dict (List F))
      → ((any (λ j. str_eq j k) names && contains k features) || contains k stats) ≡ true
      → contains k (add_hash names features stats) ≡ true
  unfolding add_hash
  add_hash-contains [] features stats h = ground arith
  add_hash-contains (name ∷ names) features stats h =
      add_hash-contains names features (add_text name (lookup name features) stats)
        (elim (Bool-cases (str_eq name k)) [
          | inl e ↦ ground (
            arith,
            add_text-contains name (lookup name features) stats,
            ap (λ j. lookup j features) ((eq_iff name k).0 e),
          )
          | inr e ↦ ground (arith, add_text-contains name (lookup name features) stats)
        ])

  -- A feature with an empty list makes the summary raise: the median comes before the maximum.
  summarize_raises :
      ⦃n : Numpy F⦄ ⦃q : Percentiles F⦄ (percentiles : PercentileLaws F) (stats : Dict (List F))
      → lookup k stats ≡ some []
      → summarize stats ≡ err index_error
  unfolding lookup summarize summary_of
  summarize_raises percentiles [] h = cc
  summarize_raises percentiles ((j, []) ∷ stats) h = rw (percentiles.percentile_empty 50) refl
  summarize_raises percentiles ((j, x ∷ xs) ∷ stats) h =
      let (p50, e) = percentiles.percentile_some x xs 50 in
      let (p95, e') = percentiles.percentile_some x xs 95 in
      let rest = summarize_raises percentiles stats (ground arith) in rw (e, e', rest) refl

  module _ {W : Type 0} ⦃r : Redis W⦄ (laws : RedisLaws W) where
    read_stats-blank :
        (user_ids : List String) (stats last : Dict (List F)) (w w' : W)
        → any (λ j. str_eq j k) feature_names ≡ true
        → All (λ uid. unreadable f.parse k (laws.hash w (feature_key uid)) ≡ true) user_ids
        → (any (λ uid. contains k (laws.hash w (feature_key uid))) user_ids || contains k stats)
          ≡ true
        → unread stats ≡ true
        → read_stats user_ids stats w ≡ (ok last, w')
        → lookup k last ≡ some []
    unfolding read_stats
    read_stats-blank [] stats last w w' known bad some_user h read =
        elim (Option-cases (lookup k stats)) [
          | inl none_there ↦ absurd (ground arith)
          | inr (xs, e) ↦
              let no_value = nil_of_is_empty xs (ground (arith, e, h)) in
              ground (arith, no_value, e)
        ]
    read_stats-blank (uid ∷ user_ids) stats last w w' known (bad, bads) some_user h read =
        elim (Exec-cases (r.hgetall (feature_key uid) w)) [
          | inl (features, w₁, e) ↦
              let (hash, same) = laws.hgetall_lem (feature_key uid) w w₁ features e in
              let stored = laws.hash w (feature_key uid) in
              let stats' = add_hash feature_names stored stats in
              read_stats-blank user_ids stats' last w w' known bads
                (ground (arith, known, add_hash-contains feature_names stored stats))
                (add_hash-unread feature_names stored stats bad h) (ground (arith, e, hash, same))
          | inr (x, w₁, e) ↦ absurd (ground arith)
        ]

    -- If the page reads the hashes of the sampled users, some of them have a text for one of the
    -- features, and none of those texts is a float, then the summary of the page raises the
    -- IndexError of a percentile of an empty array, whatever the other features have.
    pub summarize-feature_stats_raises :
        ⦃n : Numpy F⦄ ⦃q : Percentiles F⦄ (percentiles : PercentileLaws F) (user_ids : List String)
        (stats : Dict (List F)) (w w₁ w' : W)
        → any (λ j. str_eq j k) feature_names ≡ true
        → r.srandmember user_index_key 300 w ≡ (ok user_ids, w₁)
        → any (λ uid. contains k (laws.hash w₁ (feature_key uid))) user_ids ≡ true
        → All (λ uid. unreadable f.parse k (laws.hash w₁ (feature_key uid)) ≡ true) user_ids
        → feature_stats w ≡ (ok stats, w')
        → summarize stats ≡ err index_error
    unfolding feature_stats lookup
    summarize-feature_stats_raises percentiles user_ids stats w w₁ w' known sample there bad read =
        summarize_raises percentiles stats (
          read_stats-blank user_ids [] stats w₁ w' known bad (ground (arith, there)) refl
            (ground (arith, sample)))
