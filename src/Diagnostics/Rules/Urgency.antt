-- ===== src/Diagnostics/Rules/Urgency.antt =====
-- What the rules say of a report, by its figures.
use feature_store.Common.{ℕ, ◌≤◌, ◌≡◌, arith, false, str_eq, if◌then◌else◌}
use feature_store.Float.{Float, IsNumber, OrderLaws}
use feature_store.Tenacity.{Clock}
use feature_store.Diagnostics.Schemas.{Value, text, Format, DriftReport}
use feature_store.Diagnostics.Rules.{conclude, rule_based_fallback}

abbrev pub urgency_rank : {F : Type 0} → Value F → ℕ
urgency_rank (text s) = if str_eq s "high" then 2 else if str_eq s "medium" then 1 else 0
urgency_rank _ = 0

module _ {F : Type 0} ⦃f : Float F⦄ ⦃p : Format F⦄ (order : OrderLaws F) where
  -- Of two reports that differ in their PSI only, neither of them NaN, the one with the greater
  -- PSI does not get the lower urgency.
  pub rule_urgency_mono :
      {W : Type 0} ⦃c : Clock W F⦄ (report : DriftReport F) (psi : F) (w : W)
      → f.lt psi report.psi_score ≡ false
      → IsNumber report.psi_score
      → IsNumber psi
      → urgency_rank (rule_based_fallback report w).urgency
        ≤ urgency_rank (rule_based_fallback (record report { psi_score = psi }) w).urgency
  unfolding rule_based_fallback conclude
  rule_urgency_mono report psi w h n k = ground (
    arith,
    order.lt_cotrans (f.lit 2 1) psi report.psi_score,
    order.lt_cotrans (f.lit 1 1) psi report.psi_score,
    order.lt_lit 1 2 1,
  )
