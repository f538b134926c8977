-- ===== src/Diagnostics/PromptTemplates/Conformance.antt =====
-- What the engine makes of an answer that conforms to the schema of the tool, and what the rules
-- that stand in give beside it.
use feature_store.Common.{
  ◌<◌, ◌≡◌, refl, arith, String, Bool, true, false, ◌&&◌, some, none, List, [], ◌∷◌, any, All,
  str_eq, Option-cases, Bool-cases, inl, inr, ◌∙◌, suc, ℕ,
}
use feature_store.Common.Dict.{Dict, contains, lookup}
use feature_store.Common.Exec.{ok}
use feature_store.Float.{Float, OrderLaws, nought, gt}
use feature_store.Float.Literals.{lit_pos}
use feature_store.Tenacity.{Clock}
use feature_store.Diagnostics.Schemas.{
  Value, null, boolean, integer, number, text, object, text_items, array, Format, DiagnosticsConfig,
  DriftReport, RcaDiagnosis,
}
use feature_store.Diagnostics.Rules.{conclude, rule_based_fallback}
use feature_store.Diagnostics.PromptTemplates.{
  Kind, Property, string, string_enum, number_between, array_of, cause_categories, urgencies,
  rca_tool_definition, all_items, between, is_valid, has_all, fits, conforms,
}
use feature_store.Diagnostics.RcaEngine.{Engine, to_float, read_diagnosis}

module _ {F : Type 0} ⦃f : Float F⦄ where
  -- A diagnosis with the types, the texts and the range that the schema asks for.
  pub record IsSubmittable (d : RcaDiagnosis F) : Type 0 where
    pub probable_cause : is_valid string d.probable_cause ≡ true
    pub cause_category : is_valid (string_enum cause_categories) d.cause_category ≡ true
    pub confidence : between nought (f.lit 1 0) d.confidence ≡ true
    pub affected_features : is_valid (array_of string) d.affected_features ≡ true
    pub remediation_steps : is_valid (array_of string) d.remediation_steps ≡ true
    pub urgency : is_valid (string_enum urgencies) d.urgency ≡ true
    pub estimated_impact : is_valid string d.estimated_impact ≡ true

  -- A required property of an input is there, and is as its schema has it.
  abbrev Given : Kind F → String → Dict (Value F) → Type 0
  Given k name d = (v : Value F) × (lookup name d ≡ some v) × (is_valid k v ≡ true)

  given :
      (k : Kind F) (name : String) (d : Dict (Value F))
      → contains name d ≡ true
      → (elim (lookup name d) [ none ↦ true | some v ↦ is_valid k v ]) ≡ true
      → Given k name d
  given k name d there valid = elim (Option-cases (lookup name d)) [
    | inl e ↦ absurd (ground (arith, e))
    | inr (v, e) ↦ (v, e, rw e at valid)
  ]

  abbrev fitting : Kind F → String → Dict (Value F) → Bool
  fitting k name d = elim (lookup name d) [ none ↦ true | some v ↦ is_valid k v ]

  has_all-All :
      (ks : List String) (d : Dict (Value F))
      → has_all ks d ≡ true
      → All (λ k. contains k d ≡ true) ks
  has_all-All [] d h = tt
  has_all-All (k ∷ ks) d h = (ground arith, has_all-All ks d (ground arith))

  fits-All :
      (ps : List (Property F)) (d : Dict (Value F))
      → fits ps d ≡ true
      → All (λ p. fitting p.kind p.name d ≡ true) ps
  fits-All [] d h = tt
  fits-All (p ∷ ps) d h = (ground arith, fits-All ps d (ground arith))

  number_read :
      (v : Value F)
      → is_valid (number_between nought (f.lit 1 0)) v ≡ true
      → (x : F) × (to_float v ≡ ok x) × (between nought (f.lit 1 0) x ≡ true)
  number_read null h = cc
  number_read (boolean b) h = cc
  number_read (integer n) h = (f.of_nat n, refl, h)
  number_read (number x) h = (x, refl, h)
  number_read (text s) h = cc
  number_read (array items) h = cc
  number_read (object items) h = cc

  -- The diagnosis that is made of the seven fields.
  abbrev diagnosis :
      {W : Type 0} ⦃c : Clock W F⦄
      → DiagnosticsConfig
      → DriftReport F
      → ℕ
      → Engine W
      → F
      → (Value F × Value F × Value F × Value F × Value F × Value F)
      → RcaDiagnosis F
  diagnosis ⦃c = c⦄ cfg report n e confidence (cause, category, features, steps, urgency, impact) =
      record {
        feature_name = report.feature_name;
        probable_cause = cause;
        cause_category = category;
        confidence = confidence;
        affected_features = features;
        remediation_steps = steps;
        urgency = urgency;
        estimated_impact = impact;
        model_used = cfg.anthropic_model;
        tokens_used = n;
        computed_at = c.time e.world;
        fallback_used = false;
      }

  read_fields :
      {W : Type 0} ⦃c : Clock W F⦄ (cfg : DiagnosticsConfig) (report : DriftReport F) (n : ℕ)
      (d : Dict (Value F)) (e : Engine W) (confidence : F)
      (cause category raw features steps urgency impact : Value F)
      → lookup "probable_cause" d ≡ some cause
      → lookup "cause_category" d ≡ some category
      → lookup "confidence" d ≡ some raw
      → to_float raw ≡ ok confidence
      → lookup "affected_features" d ≡ some features
      → lookup "remediation_steps" d ≡ some steps
      → lookup "urgency" d ≡ some urgency
      → lookup "estimated_impact" d ≡ some impact
      → read_diagnosis cfg report n d e ≡ (
        ok (
            diagnosis cfg report n e confidence
              (cause, category, features, steps, urgency, impact)),
        e,
      )
  unfolding read_diagnosis
  read_fields cfg report n d e x _ _ _ _ _ _ _ h₁ h₂ h₃ h₄ h₅ h₆ h₇ h₈ = ground arith

  -- An input that conforms is read without an exception, into a diagnosis of the model's.
  pub read_diagnosis-conforms :
      {W : Type 0} ⦃c : Clock W F⦄ (cfg : DiagnosticsConfig) (report : DriftReport F) (n : ℕ)
      (d : Dict (Value F)) (e : Engine W)
      → conforms rca_tool_definition d ≡ true
      → (x : RcaDiagnosis F) × (read_diagnosis cfg report n d e ≡ (ok x, e)) × IsSubmittable x
  unfolding conforms
  read_diagnosis-conforms ⦃c⦄ cfg report n d e h =
      let there = has_all-All (rca_tool_definition {F = F}).required d (ground arith) in
      let valid = fits-All (rca_tool_definition {F = F}).properties d (ground arith) in
      let (cause, a, a') = given string "probable_cause" d there.0 valid.0 in
      let (category, b, b') =
        given (string_enum cause_categories) "cause_category" d there.1.0 valid.1.0 in
      let (raw, q, q') =
        given (number_between nought (f.lit 1 0)) "confidence" d there.1.1.0 valid.1.1.0 in
      let (confidence, r, r') = number_read raw q' in
      let (features, s, s') =
        given (array_of string) "affected_features" d there.1.1.1.0 valid.1.1.1.0 in
      let (steps, t, t') =
        given (array_of string) "remediation_steps" d there.1.1.1.1.0 valid.1.1.1.1.0 in
      let (urgency, u, u') =
        given (string_enum urgencies) "urgency" d there.1.1.1.1.1.0 valid.1.1.1.1.1.0 in
      let (impact, v, v') =
        given string "estimated_impact" d there.1.1.1.1.1.1.0 valid.1.1.1.1.1.1.0 in
      (
        diagnosis cfg report n e confidence (cause, category, features, steps, urgency, impact),
        read_fields cfg report n d e confidence cause category raw features steps urgency impact a b
            q r s t u v,
        record {
          probable_cause = a';
          cause_category = b';
          confidence = r';
          affected_features = s';
          remediation_steps = t';
          urgency = u';
          estimated_impact = v';
        },
      )

module _ {F : Type 0} ⦃f : Float F⦄ (order : OrderLaws F) where
  -- The confidences of the rules, in hundredths.
  hundredths : (n : ℕ) → suc n < 100 → between nought (f.lit 1 0) (f.lit (suc n) 2) ≡ true
  hundredths n h =
      let below : f.lt (f.lit (suc n) 2) (f.lit 1 0) ≡ true =
        rw (order.lit_shift 1 0 (omega arith)) (
          rw (order.lit_shift 10 1 (omega arith)) (
            order.lt_lit (suc n) 100 2 (omega arith) (omega arith) (omega arith) ∙ ground arith)) in
      ground (arith, lit_pos order n 2 (omega arith) (omega arith))

  text_items-all : (ss : List String) → all_items (is_valid {F = F} string) (text_items ss) ≡ true
  unfolding text_items
  text_items-all [] = refl
  text_items-all (s ∷ ss) = text_items-all ss

  conclude-IsSubmittable :
      (report : DriftReport F) (now : F) (cause probable : String) (n : ℕ) (steps : List String)
      (urgency : String)
      → suc n < 100
      → any (str_eq cause) cause_categories ≡ true
      → any (str_eq urgency) urgencies ≡ true
      → IsSubmittable (conclude report now cause probable (f.lit (suc n) 2) steps urgency)
  unfolding conclude
  conclude-IsSubmittable report now cause probable n steps urgency h c u = record {
    probable_cause = refl;
    cause_category = c;
    confidence = hundredths n h;
    affected_features = text_items-all (report.feature_name ∷ []);
    remediation_steps = text_items-all steps;
    urgency = u;
    estimated_impact = refl;
  }

  module _ ⦃p : Format F⦄ {W : Type 0} ⦃c : Clock W F⦄ where
    -- The rules give what the tool would let the model submit.
    pub rules-IsSubmittable :
        (report : DriftReport F) (w : W) → IsSubmittable (rule_based_fallback report w)
    unfolding rule_based_fallback
    rules-IsSubmittable report w =
        elim (Bool-cases
          (gt report.psi_score (f.lit 2 1) && gt (f.magnitude report.z_score) (f.lit 30 1))) [
            | inl a ↦
                rw a (conclude-IsSubmittable report (c.time w) _ _ 71 _ _ (omega arith) refl refl)
            | inr a ↦ elim (Bool-cases (gt report.psi_score (f.lit 1 1))) [
              | inl b ↦
                  rw (a, b)
                    (conclude-IsSubmittable report (c.time w) _ _ 54 _ _ (omega arith) refl refl)
              | inr b ↦ elim (Bool-cases (f.lt report.ks_p_value (f.lit 5 2))) [
                | inl d ↦
                    rw (a, b, d)
                      (conclude-IsSubmittable report (c.time w) _ _ 44 _ _ (omega arith) refl refl)
                | inr d ↦
                    rw (a, b, d)
                      (conclude-IsSubmittable report (c.time w) _ _ 29 _ _ (omega arith) refl refl)
              ]
            ]
          ]

module _ {F W : Type 0} ⦃f : Float F⦄ ⦃p : Format F⦄ ⦃c : Clock W F⦄ where
  pub rules_name :
      (report : DriftReport F) (w : W)
      → (rule_based_fallback report w).feature_name ≡ report.feature_name
  unfolding rule_based_fallback conclude
  rules_name report w = ground arith
