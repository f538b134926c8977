-- ===== src/Api/Features/Serving.antt =====
-- What the handler serves: the filter, the vector that was written, the age of it, and the errors.
use mathlib.Core.Option
use feature_store.Common.{
  String, ◌≡◌, refl, Bool, false, Option, none, some, List, [], ◌∷◌, arith, str_eq, eq_iff,
  if◌then◌else◌,
}
use feature_store.Common.Dict.{Dict, lookup, get_or, merge, lookup-merge}
use feature_store.Float.{Float, nought}
use feature_store.Redis.{Redis}
use feature_store.Tenacity.{Tenacity}
use feature_store.Api.Vector.{
  FeatureVector, FeatureResponse, model_dump, of_dict, zeros, split_comma, is_in, keep_keys,
  select_features,
}
use feature_store.Api.Features.{metadata_of}

lookup-keep_keys {ℓ} :
    {V : Type ℓ} (names : List String) (k : String) (d : Dict V)
    → lookup k (keep_keys names d) ≡ (if is_in names k then lookup k d else none)
unfolding lookup
lookup-keep_keys names k [] = ground arith
lookup-keep_keys names k ((j, v) ∷ d) = ground (arith, eq_iff j k, lookup-keep_keys names k d)

module _ {F : Type 0} ⦃f : Float F⦄ where
  -- A vector with zero in place of the features that a test refuses.
  abbrev pub mask : (String → Bool) → FeatureVector F → FeatureVector F
  mask p v = record {
    txn_count_5m = if p "txn_count_5m" then v.txn_count_5m else nought;
    avg_spend_1h = if p "avg_spend_1h" then v.avg_spend_1h else nought;
    session_activity_rate = if p "session_activity_rate" then v.session_activity_rate else nought;
    cart_abandon_ratio = if p "cart_abandon_ratio" then v.cart_abandon_ratio else nought;
    product_interaction_freq =
        if p "product_interaction_freq" then v.product_interaction_freq else nought;
    anomaly_score = if p "anomaly_score" then v.anomaly_score else nought;
  }

  get_or-kept :
      (names : List String) (k : String) (x : F) (d e : Dict F)
      → lookup k d ≡ some x
      → lookup k e ≡ some nought
      → get_or k nought (merge e (keep_keys names d)) ≡ (if is_in names k then x else nought)
  get_or-kept names k x d e h z =
      ground (arith, lookup-merge k e (keep_keys names d), lookup-keep_keys names k d)

  -- With a list of names in the query, each feature of the reply is the stored one if its name is
  -- on the list, and zero if not; names that are no feature change nothing.
  pub select_features-eq-mask :
      (features : String) (v : FeatureVector F)
      → str_eq features "" ≡ false
      → select_features (some features) v ≡ mask (is_in (split_comma features)) v
  unfolding select_features of_dict lookup
  select_features-eq-mask features v h =
      let names = split_comma features in
      let kept =
        λ (k : String) (x : F) (p : lookup k (model_dump v) ≡ some x)
            (q : lookup k zeros ≡ some nought).
          get_or-kept names k x (model_dump v) zeros p q in
      ground (
        arith,
        kept "txn_count_5m" v.txn_count_5m refl refl,
        kept "avg_spend_1h" v.avg_spend_1h refl refl,
        kept "session_activity_rate" v.session_activity_rate refl refl,
        kept "cart_abandon_ratio" v.cart_abandon_ratio refl refl,
        kept "product_interaction_freq" v.product_interaction_freq refl refl,
        kept "anomaly_score" v.anomaly_score refl refl,
      )

  -- A hash that holds the texts of a vector.
  pub record HoldsVector (d : Dict String) (v : FeatureVector F) : Type 0 where
    pub txn : lookup "txn_count_5m" d ≡ some (f.str v.txn_count_5m)
    pub spend : lookup "avg_spend_1h" d ≡ some (f.str v.avg_spend_1h)
    pub session : lookup "session_activity_rate" d ≡ some (f.str v.session_activity_rate)
    pub cart : lookup "cart_abandon_ratio" d ≡ some (f.str v.cart_abandon_ratio)
    pub product : lookup "product_interaction_freq" d ≡ some (f.str v.product_interaction_freq)
    pub anomaly : lookup "anomaly_score" d ≡ some (f.str v.anomaly_score)

-- The reply that carries a vector computed at `t`, asked for at `now`.
abbrev pub reply_of :
    {F : Type 0} ⦃f : Float F⦄
    → String
    → Option String
    → Bool
    → FeatureVector F
    → F
    → F
    → FeatureResponse F
reply_of ⦃f⦄ user_id features include_metadata v t now = record {
  user_id = user_id;
  features = select_features features v;
  metadata =
      if include_metadata
      then metadata_of (some (f.str t)) (some (f.round (f.sub now t) 1))
      else metadata_of none none;
}
