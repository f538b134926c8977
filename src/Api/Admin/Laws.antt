-- ===== src/Api/Admin/Laws.antt =====
-- What the admin endpoints answer and do.
use feature_store.Common.{
  ◌∷◌, [], ◌≡◌, ◌≢◌, refl, ap, ◌∙◌, arith, String, ◌⋅◌, List, Option, none, Bool, true, false,
  str_eq, eq_iff, if◌then◌else◌, Bool-cases, inl, inr, ◌&&◌,
}
use feature_store.Common.Exec.{ok}
use feature_store.Float.{Float, gt, OrderLaws}
use feature_store.Float.Int.{pos, negsuc}
use feature_store.Float.Literals.{lit_pos}
use feature_store.Redis.{Redis, RedisLaws, expire}
use feature_store.Tenacity.{Clock, Tenacity, TenacityLaws}
use feature_store.OnlineStore.KeySchema.{feature_key, feature_key_iff}
use feature_store.Diagnostics.Schemas.{
  Value, text, text_items, Format, DiagnosticsConfig, DriftReport, RcaDiagnosis,
}
use feature_store.Diagnostics.Rules.{conclude, rule_based_fallback}
use feature_store.Diagnostics.PromptTemplates.Conformance.{rules_name}
use feature_store.Diagnostics.RcaEngine.{Messages, Engine}
use feature_store.Diagnostics.RcaEngine.Analysis.{analyze_no_key}
use feature_store.Api.Admin.{
  RcaRequest, RcaResponse, as_text, as_texts, as_list, rca_response, drift_report_of, run_rca,
  do_refresh, refresh_feature,
}

module _ {W : Type 0} ⦃r : Redis W⦄ (laws : RedisLaws W) where
  open laws use {hash, ttl_of}

  -- The task behind a refresh, when it returns for a user whose features are there, leaves them
  -- 300 seconds to live, whatever features the request names; the features of every user stay
  -- as they were, and so do the lifetimes of the others.
  pub refresh_feature_effect :
      (u v : String) (names : Option (List String)) (w w' : W)
      → ttl_of w (feature_key u) ≢ negsuc 1
      → (refresh_feature u names).1 w ≡ (ok tt, w')
      → (ttl_of w' (feature_key v) ≡ (if str_eq u v then pos 300 else ttl_of w (feature_key v)))
        × (hash w' (feature_key v) ≡ hash w (feature_key v))
  unfolding refresh_feature do_refresh
  refresh_feature_effect u v names w w' there h =
      rw (laws.run_lem (expire (feature_key u) 300) w w' h) (
        ground (
          arith,
          eq_iff u v,
          feature_key_iff u v,
          laws.ttl-expire (feature_key u) 300 w,
          laws.ttl-expire_ne (feature_key u) (feature_key v) 300 w,
          laws.hash-expire (feature_key u) (feature_key v) 300 w,
        ))

abbrev pub is_unknown : {F : Type 0} → Value F → Bool
is_unknown (text s) = str_eq s "unknown"
is_unknown _ = false

module _ {F W : Type 0} ⦃f : Float F⦄ ⦃p : Format F⦄ ⦃c : Clock W F⦄ (order : OrderLaws F) where
  -- The rules give no report of the endpoint the category "unknown".
  known_category :
      (body : RcaRequest F) (now : F) (w : W)
      → is_unknown (rule_based_fallback (drift_report_of body now) w).cause_category ≡ false
  unfolding rule_based_fallback conclude drift_report_of
  known_category body now w = ground (arith, lit_pos order 4 2 (omega arith) (omega arith))

as_texts-text_items : (F : Type 0) (ss : List String) → as_texts {F = F} (text_items ss) ≡ ok ss
unfolding as_texts text_items
as_texts-text_items F [] = refl
as_texts-text_items F (s ∷ ss) = rw (as_texts-text_items F ss) refl

-- A diagnosis whose texts are texts, and the response that it makes.
abbrev Answers : {F W : Type 0} → RcaDiagnosis F → W → Type 0
Answers {F} {W} d w =
    (x : RcaResponse F) × (rca_response d w ≡ (ok x, w))
    × (text x.cause_category ≡ d.cause_category)
    × (x.feature_name ≡ d.feature_name)

module _ {F : Type 0} where
  conclude-Answers :
      {W : Type 0} (report : DriftReport F) (now : F) (cause probable : String) (confidence : F)
      (steps : List String) (urgency : String) (w : W)
      → Answers (conclude report now cause probable confidence steps urgency) w
  unfolding conclude rca_response as_text as_list
  conclude-Answers report now cause probable confidence steps urgency w = (
    record {
      feature_name = report.feature_name;
      probable_cause = probable;
      cause_category = cause;
      confidence = confidence;
      affected_features = report.feature_name ∷ [];
      remediation_steps = steps;
      urgency = urgency;
      estimated_impact =
          "Potential model accuracy degradation for features depending on "
          ⋅ (report.feature_name ⋅ ".");
      model_used = "rule_based_fallback";
    },
    rw (as_texts-text_items F (report.feature_name ∷ []), as_texts-text_items F steps) refl,
    refl,
    refl,
  )

module _ {F W : Type 0} ⦃f : Float F⦄ ⦃p : Format F⦄ ⦃c : Clock W F⦄ where
  rules_answer :
      {V : Type 0} (report : DriftReport F) (w : W) (v : V)
      → Answers (rule_based_fallback report w) v
  unfolding rule_based_fallback
  rules_answer report w v =
      elim (Bool-cases
        (gt report.psi_score (f.lit 2 1) && gt (f.magnitude report.z_score) (f.lit 30 1))) [
          | inl a ↦ rw a (conclude-Answers report (c.time w) _ _ _ _ _ v)
          | inr a ↦ elim (Bool-cases (gt report.psi_score (f.lit 1 1))) [
            | inl b ↦ rw (a, b) (conclude-Answers report (c.time w) _ _ _ _ _ v)
            | inr b ↦ elim (Bool-cases (f.lt report.ks_p_value (f.lit 5 2))) [
              | inl d ↦ rw (a, b, d) (conclude-Answers report (c.time w) _ _ _ _ _ v)
              | inr d ↦ rw (a, b, d) (conclude-Answers report (c.time w) _ _ _ _ _ v)
            ]
          ]
        ]

module _ {W F : Type 0} ⦃f : Float F⦄ ⦃p : Format F⦄ ⦃c : Clock W F⦄ ⦃m : Messages W F⦄
    ⦃t : Tenacity (Engine W)⦄ (order : OrderLaws F) (laws : TenacityLaws (Engine W)) where
  -- Without a client and without a key for one, the endpoint still answers, about the feature of
  -- the request, and never with the category "unknown", however small the drift: it hands the
  -- rules a p-value of zero.
  pub run_rca_no_key :
      (cfg : DiagnosticsConfig) (body : RcaRequest F) (e : Engine W)
      → e.has_client ≡ false
      → str_eq cfg.anthropic_api_key "" ≡ true
      → (x : RcaResponse F) × (run_rca cfg body e ≡ (ok x, e))
        × (x.feature_name ≡ body.feature_name)
        × (str_eq x.cause_category "unknown" ≡ false)
  unfolding run_rca drift_report_of
  run_rca_no_key cfg body e h k =
      let now = c.time e.world in
      let report = drift_report_of body now in
      let (x, made, category, name) = rules_answer report e.world e in
      (
        x,
        rw (analyze_no_key laws cfg report none e h k) made,
        name ∙ rules_name report e.world,
        ap is_unknown category ∙ known_category order body now e.world,
      )
