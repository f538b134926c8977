-- ===== src/Validation/Skew/Levels.antt =====
-- The severity of a skew: a higher rate is never a lower level, and what a healthy report gets.
use Prim.Native.Nat.{◌^◌}
use feature_store.Common.Exec.{ok}
use feature_store.Common.{ℕ, ◌≤◌, ◌<◌, ◌↔◌, ◌∙◌, ◌≡◌, true, false, some, arith, if◌then◌else◌}
use feature_store.Float.{Float, gt, le, IsNumber, OrderLaws}
use feature_store.Validation.Consistency.{ConsistencyReport, is_healthy}
use feature_store.Validation.Skew.{
  Level, no_skew, low, medium, high, critical, first_above, classify_skew_severity, Producer,
  alert_of, send, emit_skew_alert,
}

abbrev pub rank : Level → ℕ
rank no_skew = 0
rank low = 1
rank medium = 2
rank high = 3
rank critical = 4

module _ {F : Type 0} ⦃f : Float F⦄ (order : OrderLaws F) where
  open order use {lt_irrefl, lt_trans, lt_cotrans, lt_number_right}

  -- A rate that is not below another is above every threshold that the other is above.
  above_too : (a b t : F) → f.lt b a ≡ false → IsNumber b → gt a t ≡ true → gt b t ≡ true
  above_too a b t le_ab number h = ground (arith, lt_cotrans t b a)

  -- A value that is at most one threshold is not above a greater one.
  not_above : (x s t : F) → le x s ≡ true → f.lt s t ≡ true → gt x t ≡ false
  not_above x s t h p =
      ground (arith, lt_trans s t x p, lt_trans s x s, lt_irrefl s, order.eq_not_lt x s)

  zero_lt : (m : ℕ) → 0 < m → m < 10 ^ 15 → f.lt (f.lit 0 1) (f.lit m 2) ≡ true
  zero_lt m h k =
      rw (order.lit_shift 0 1 (omega arith))
        (order.lt_lit 0 m 2 (omega arith) k (omega arith) ∙ ground arith)

  -- A report whose rate is not NaN and not below that of another has at least its severity.
  pub classify_skew_severity_mono :
      (a b : ConsistencyReport F)
      → f.lt b.inconsistency_rate a.inconsistency_rate ≡ false
      → IsNumber b.inconsistency_rate
      → rank (classify_skew_severity a) ≤ rank (classify_skew_severity b)
  unfolding classify_skew_severity first_above
  classify_skew_severity_mono a b h n =
      let x = a.inconsistency_rate in
      let y = b.inconsistency_rate in
      ground (
        arith,
        above_too x y (f.lit 10 2) h n,
        above_too x y (f.lit 5 2) h n,
        above_too x y (f.lit 2 2) h n,
        above_too x y (f.lit 0 1) h n,
      )

  -- At the default threshold of 1% a healthy report has severity low, if its rate is above zero,
  -- and none otherwise: never more.
  pub classify_skew_severity_healthy :
      (report : ConsistencyReport F)
      → is_healthy (f.lit 1 2) report ≡ true
      → classify_skew_severity report
        ≡ (if gt report.inconsistency_rate (f.lit 0 1) then low else no_skew)
  unfolding classify_skew_severity first_above is_healthy
  classify_skew_severity_healthy report h =
      let x = report.inconsistency_rate in
      let two = order.lt_lit 1 2 2 (omega arith) (omega arith) (omega arith) in
      let five = order.lt_lit 1 5 2 (omega arith) (omega arith) (omega arith) in
      let ten = order.lt_lit 1 10 2 (omega arith) (omega arith) (omega arith) in
      ground (
        arith,
        not_above x (f.lit 1 2) (f.lit 2 2) h two,
        not_above x (f.lit 1 2) (f.lit 5 2) h five,
        not_above x (f.lit 1 2) (f.lit 10 2) h ten,
      )

  -- The detector is silent exactly when the rate is not above zero.
  no_skew_iff :
      (report : ConsistencyReport F)
      → (classify_skew_severity report ≡ no_skew)
        ↔ (gt report.inconsistency_rate (f.lit 0 1) ≡ false)
  unfolding classify_skew_severity first_above
  no_skew_iff report =
      let x = report.inconsistency_rate in
      let above =
        λ (m : ℕ) (p : f.lt (f.lit 0 1) (f.lit m 2) ≡ true). lt_trans (f.lit 0 1) (f.lit m 2) x p in
      (
        ground arith,
        λ h. ground (
          arith,
          above 2 (zero_lt 2 (omega arith) (omega arith)),
          above 5 (zero_lt 5 (omega arith) (omega arith)),
          above 10 (zero_lt 10 (omega arith) (omega arith)),
        ),
      )

  module _ {W : Type 0} (p : Producer W F) where
    -- With a producer, `emit_skew_alert` sends one alert, flushed, with the severity of the report
    -- if the rate is above zero, and does nothing if not.
    pub emit_skew_alert_lem :
        (report : ConsistencyReport F) (w : W)
        → emit_skew_alert report (some p) w ≡ (
            if gt report.inconsistency_rate (f.lit 0 1)
            then send p (alert_of (classify_skew_severity report) report) w
            else (ok tt, w))
    unfolding emit_skew_alert
    emit_skew_alert_lem report w = ground (arith, no_skew_iff report)
