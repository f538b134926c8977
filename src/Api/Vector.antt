-- ===== src/Api/Vector.antt =====
-- `FeatureVector` and the other response models of api/schemas.py, and the reading of a vector from
-- the texts of a hash (the inner function `_f` of api/routers/features.py).
use feature_store.Common.{
  String, Bool, Option, none, some, List, [], ◌∷◌, str_eq, if◌then◌else◌, filter, any, ◌==◌,
}
use Prim.Native.Char.{Char, code}
use feature_store.Common.Dict.{Dict, lookup, get_or, merge}
use feature_store.Common.Exec.{Result, ok, err, value_error}
use feature_store.Common.Fallible.{◌>>=◌}
use feature_store.Float.{Float, nought}

pub record FeatureVector (F : Type 0) : Type 0 where
  pub txn_count_5m : F
  pub avg_spend_1h : F
  pub session_activity_rate : F
  pub cart_abandon_ratio : F
  pub product_interaction_freq : F
  pub anomaly_score : F

pub record FeatureMetadata (F : Type 0) : Type 0 where
  pub computed_at : Option String
  pub freshness_seconds : Option F
  pub source : String
  pub schema_version : String

pub record FeatureResponse (F : Type 0) : Type 0 where
  pub user_id : String
  pub features : FeatureVector F
  pub metadata : FeatureMetadata F

-- `vector.model_dump()`
abbrev pub model_dump : {F : Type 0} → FeatureVector F → Dict F
model_dump v =
    ("txn_count_5m", v.txn_count_5m)
    ∷ ("avg_spend_1h", v.avg_spend_1h)
    ∷ ("session_activity_rate", v.session_activity_rate)
    ∷ ("cart_abandon_ratio", v.cart_abandon_ratio)
    ∷ ("product_interaction_freq", v.product_interaction_freq)
    ∷ ("anomaly_score", v.anomaly_score)
    ∷ []

module _ {F : Type 0} ⦃f : Float F⦄ where
  -- `FeatureVector(**d)`, each field with its default
  unfoldable pub of_dict : Dict F → FeatureVector F
  of_dict d = record {
    txn_count_5m = get_or "txn_count_5m" nought d;
    avg_spend_1h = get_or "avg_spend_1h" nought d;
    session_activity_rate = get_or "session_activity_rate" nought d;
    cart_abandon_ratio = get_or "cart_abandon_ratio" nought d;
    product_interaction_freq = get_or "product_interaction_freq" nought d;
    anomaly_score = get_or "anomaly_score" nought d;
  }

  -- `{k: 0.0 for k in FeatureVector.model_fields}`
  abbrev pub zeros : Dict F
  zeros = model_dump (of_dict [])

  -- `float(raw.get(key, 0.0))`
  unfoldable pub read_float : Dict String → String → Result F
  read_float raw key = elim (lookup key raw) [
    | none ↦ ok nought
    | some s ↦ elim (f.parse s) [ none ↦ err value_error | some x ↦ ok x ]
  ]

  unfoldable pub read_vector : Dict String → Result (FeatureVector F)
  read_vector raw = do
    txn ← read_float raw "txn_count_5m"
    spend ← read_float raw "avg_spend_1h"
    session ← read_float raw "session_activity_rate"
    cart ← read_float raw "cart_abandon_ratio"
    product ← read_float raw "product_interaction_freq"
    anomaly ← read_float raw "anomaly_score"
    ok (record {
      txn_count_5m = txn;
      avg_spend_1h = spend;
      session_activity_rate = session;
      cart_abandon_ratio = cart;
      product_interaction_freq = product;
      anomaly_score = anomaly;
    })

-- The first text of a split with one more character in front.
abbrev onto_first : Char → List String → List String
onto_first c [] = String.◌∷◌ c String.[] ∷ []
onto_first c (s ∷ rest) = String.◌∷◌ c s ∷ rest

-- `s.split(",")`
unfoldable pub split_comma : String → List String
split_comma String.[] = String.[] ∷ []
split_comma (String.◌∷◌ c s) =
    let rest = split_comma s in if code c == b',' then String.[] ∷ rest else onto_first c rest

abbrev pub is_in : List String → String → Bool
is_in names k = any (λ n. str_eq n k) names

-- `{k: v for k, v in vector_dict.items() if k in requested}`
abbrev pub keep_keys {ℓ} : {V : Type ℓ} → List String → Dict V → Dict V
keep_keys names d = filter (λ e. is_in names e.0) d

module _ {F : Type 0} ⦃f : Float F⦄ where
  -- the filter of the handler: an empty text asks for everything
  unfoldable pub select_features : Option String → FeatureVector F → FeatureVector F
  select_features none vector = vector
  select_features (some features) vector =
      if str_eq features ""
      then vector
      else of_dict (merge zeros (keep_keys (split_comma features) (model_dump vector)))
