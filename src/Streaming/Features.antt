-- ===== src/Streaming/Features.antt =====
-- streaming/feature_definitions.py: the five windowed aggregates, and their join into one frame.
use feature_store.Common.{ℕ, String, Bool, ◌||◌, Option, none, some, map, if◌then◌else◌}
use feature_store.Float.{Float, nought, gt, fmax}
use feature_store.Spark.{Spark}
use feature_store.Spark.Rows.{Windowed}
use feature_store.Streaming.Events.{Event, minutes, is_type, windows_of, present}

-- The two counts that the rate of a session, or the ratio of a cart, is made of.
pub record Counts (F : Type 0) : Type 0 where
  pub first : F
  pub second : F

pub record FeatureRow (F : Type 0) : Type 0 where
  pub user_id : String
  pub window_start : ℕ
  pub window_end : ℕ
  pub computed_at : F
  pub txn_count_5m : F
  pub avg_spend_1h : F
  pub session_activity_rate : F
  pub cart_abandon_ratio : F
  pub product_interaction_freq : F

abbrev pub with_value : {V W : Type 0} → (V → W) → Windowed V → Windowed W
with_value g r = record { user_id = r.user_id; window = r.window; value = g r.value }

-- `df.drop("window")`
abbrev pub drop_window : {V : Type 0} → Windowed V → String × V
drop_window r = (r.user_id, r.value)

-- `F.when(test, 1).otherwise(0)`
abbrev pub one_if : Bool → ℕ
one_if b = if b then 1 else 0

-- A row of the base with what each of the four joins brought to it.
abbrev pub Joined : Type 0 → Type 0
Joined F =
    (((Windowed F × Option (String × Option F)) × Option (String × F)) × Option (String × F))
    × Option (String × F)

module _ {F : Type 0} ⦃f : Float F⦄ where
  -- `F.when(F.col("session_count") > 0, event_count / session_count).otherwise(0.0)`
  unfoldable pub session_rate : Counts F → F
  session_rate c = if gt c.second nought then f.div c.first c.second else nought

  -- `F.greatest((adds - purchases) / adds, 0.0)` where anything was added; NaN is the greatest
  unfoldable pub abandon_ratio : Counts F → F
  abandon_ratio c =
      if gt c.first nought then fmax (f.div (f.sub c.first c.second) c.first) nought else nought

  -- `fillna(0.0)`: null and NaN become zero
  abbrev pub fill : Option F → F
  fill none = nought
  fill (some x) = if f.eq x x then x else nought

  -- the value that a left join brought
  abbrev pub joined : Option (String × F) → Option F
  joined none = none
  joined (some (u, v)) = some v

  abbrev pub joined_null : Option (String × Option F) → Option F
  joined_null none = none
  joined_null (some (u, v)) = v

  -- The columns of a joined row, with `current` for the time of the query.
  abbrev pub to_row : F → Joined F → FeatureRow F
  to_row current ((((base, avg_spend), session), cart), product) = record {
    user_id = base.user_id;
    window_start = base.window.start;
    window_end = base.window.end;
    computed_at = fill (some current);
    txn_count_5m = fill (some base.value);
    avg_spend_1h = fill (joined_null avg_spend);
    session_activity_rate = fill (joined session);
    cart_abandon_ratio = fill (joined cart);
    product_interaction_freq = fill (joined product);
  }

  module _ (s : Spark F) where
    unfoldable pub compute_txn_count_5m : s.DataFrame (Event F) → s.DataFrame (Windowed F)
    compute_txn_count_5m df =
        s.group_by (λ e. e.user_id) (windows_of s (minutes 5) (minutes 5))
          (λ es. f.of_nat (s.count_all es)) (s.where_ (is_type "purchase") df)

    unfoldable pub compute_avg_spend_1h : s.DataFrame (Event F) → s.DataFrame (Windowed (Option F))
    compute_avg_spend_1h df =
        s.group_by (λ e. e.user_id) (windows_of s (minutes 60) (minutes 5))
          (λ es. s.avg (present (λ e. e.transaction_amount) es)) (s.where_ (is_type "purchase") df)

    unfoldable pub compute_session_activity_rate : s.DataFrame (Event F) → s.DataFrame (Windowed F)
    compute_session_activity_rate df = s.select (with_value session_rate) (
        s.group_by (λ e. e.user_id) (windows_of s (minutes 5) (minutes 5))
          (λ es. record {
            first = f.of_nat (s.count_all es);
            second = f.of_nat (s.count_distinct (present (λ e. e.session_id) es));
          })
          df)

    unfoldable pub compute_cart_abandon_ratio : s.DataFrame (Event F) → s.DataFrame (Windowed F)
    compute_cart_abandon_ratio df = s.select (with_value abandon_ratio) (
        s.group_by (λ e. e.user_id) (windows_of s (minutes 30) (minutes 30))
          (λ es. record {
            first = f.of_nat (s.sum_of (map (λ e. one_if (is_type "add_to_cart" e)) es));
            second = f.of_nat (s.sum_of (map (λ e. one_if (is_type "purchase" e)) es));
          })
          (s.where_ (λ e. is_type "add_to_cart" e || is_type "purchase" e) df))

    abbrev pub compute_product_interaction_freq : s.DataFrame (Event F) → s.DataFrame (Windowed F)
    compute_product_interaction_freq df =
        s.group_by (λ e. e.user_id) (windows_of s (minutes 60) (minutes 60))
          (λ es. f.of_nat (s.count_all es)) (s.where_ (is_type "page_view") df)

    -- The base of 5-minute windows with the other four joined to it on the user alone.
    unfoldable pub join_features :
        s.DataFrame (Windowed F)
        → s.DataFrame (Windowed (Option F))
        → s.DataFrame (Windowed F)
        → s.DataFrame (Windowed F)
        → s.DataFrame (Windowed F)
        → s.DataFrame (Joined F)
    join_features base avg_spend session_rate cart_abandon product_freq =
        s.left_join (λ r. r.0.0.0.user_id) (λ t. t.0)
          (s.left_join (λ r. r.0.0.user_id) (λ t. t.0)
            (s.left_join (λ r. r.0.user_id) (λ t. t.0)
              (s.left_join (λ r. r.user_id) (λ t. t.0) base (s.select drop_window avg_spend))
              (s.select drop_window session_rate))
            (s.select drop_window cart_abandon))
          (s.select drop_window product_freq)

    unfoldable pub compute_all_features : F → s.DataFrame (Event F) → s.DataFrame (FeatureRow F)
    compute_all_features current df = s.select (to_row current) (
        join_features (compute_txn_count_5m df) (compute_avg_spend_1h df)
          (compute_session_activity_rate df) (compute_cart_abandon_ratio df)
          (compute_product_interaction_freq df))
