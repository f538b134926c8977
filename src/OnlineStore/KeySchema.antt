-- ===== src/OnlineStore/KeySchema.antt =====
-- online_store/key_schema.py, and the defaults of online_store/config.py
use Prim.Native.Char.{code}
use text.Mathlib.TextLemmas.{append_cancel_left, cons-append}
use feature_store.Common.{
  String, ◌⋅◌, ◌≡◌, ◌≢◌, ap, sym, ◌∙◌, List, [], ◌∷◌, ◌++◌, arith, str_eq, eq_iff, ℕ, ◌↔◌,
}

unfoldable pub feature_key : String → String
feature_key user_id = "features:" ⋅ user_id

abbrev pub feature_meta_key : String → String
feature_meta_key user_id = "features:" ⋅ (user_id ⋅ ":meta")

unfoldable pub baseline_key : String → String
baseline_key feature_name = "baseline:dist:" ⋅ feature_name

abbrev pub user_index_key : String
user_index_key = "index:active_users"

-- `FEATURE_FIELDS[:-1]`
abbrev pub feature_names : List String
feature_names =
    "txn_count_5m" ∷ "avg_spend_1h" ∷ "session_activity_rate" ∷ "cart_abandon_ratio"
    ∷ "product_interaction_freq" ∷ "anomaly_score" ∷ []

abbrev pub feature_fields : List String
feature_fields = feature_names ++ "computed_at" ∷ []

-- Two users have the same key only if they are one user.
pub feature_key_iff : (u v : String) → (feature_key u ≡ feature_key v) ↔ (u ≡ v)
unfolding feature_key
feature_key_iff u v = (append_cancel_left "features:" u v, ap feature_key)

pub str_eq-feature_key : (u v : String) → str_eq (feature_key u) (feature_key v) ≡ str_eq u v
str_eq-feature_key u v =
    ground (arith, eq_iff u v, eq_iff (feature_key u) (feature_key v), feature_key_iff u v)

abbrev head_code : String → ℕ
head_code String.[] = 0
head_code (String.◌∷◌ c s) = code c

-- No user's key is the index of the active users.
pub feature_key-ne-index : (u : String) → feature_key u ≢ user_index_key
unfolding feature_key
feature_key-ne-index u p =
    let e : ◌≡◌ {A = ℕ} b'f' b'i' = ap head_code (sym (cons-append "f" "eatures:" u) ∙ p) in
    absurd (omega arith)

baseline_key_iff : (u v : String) → (baseline_key u ≡ baseline_key v) ↔ (u ≡ v)
unfolding baseline_key
baseline_key_iff u v = (append_cancel_left "baseline:dist:" u v, ap baseline_key)

pub str_eq-baseline_key : (u v : String) → str_eq (baseline_key u) (baseline_key v) ≡ str_eq u v
str_eq-baseline_key u v =
    ground (arith, eq_iff u v, eq_iff (baseline_key u) (baseline_key v), baseline_key_iff u v)
