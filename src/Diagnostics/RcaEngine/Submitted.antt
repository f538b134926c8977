-- ===== src/Diagnostics/RcaEngine/Submitted.antt =====
-- A language model whose answers conform to the schema of the tool.
use mathlib.Core.Path.{subst, sym, refl}
use feature_store.Common.{
  ℕ, String, ◌+◌, ◌≡◌, ap, ◌∙◌, arith, inl, inr, is_empty, Bool-cases, Option-cases, true, some,
  Option,
}
use feature_store.Common.Dict.{Dict}
use feature_store.Common.Exec.{ok, Exec-cases}
use feature_store.Float.{Float, OrderLaws}
use feature_store.Tenacity.{Clock, Tenacity, TenacityLaws}
use feature_store.Diagnostics.Schemas.{Value, Format, DiagnosticsConfig, DriftReport, RcaDiagnosis}
use feature_store.Diagnostics.PromptTemplates.{rca_tool_definition, conforms}
use feature_store.Diagnostics.PromptTemplates.Conformance.{
  IsSubmittable, read_diagnosis-conforms, rules-IsSubmittable, rules_name,
}
use feature_store.Diagnostics.RcaEngine.{
  Messages, Engine, Response, get_client, read_diagnosis, diagnosis_of, ask_llm, tool_result,
  prompt, analyze,
}
use feature_store.Diagnostics.RcaEngine.Analysis.{analyze_either}

module _ {W F : Type 0} ⦃f : Float F⦄ ⦃p : Format F⦄ ⦃c : Clock W F⦄ ⦃m : Messages W F⦄
    (conforming : (model : String) (n : ℕ) (message : String) (w w' : W) (x : Response F)
        (d : Dict (Value F))
      → m.create model n message w ≡ (ok x, w')
      → tool_result x.content ≡ some d
      → conforms rca_tool_definition d ≡ true) where
  read-IsSubmittable :
      (cfg : DiagnosticsConfig) (report : DriftReport F) (n : ℕ) (input : Dict (Value F))
      (e e' : Engine W) (d : RcaDiagnosis F)
      → conforms rca_tool_definition input ≡ true
      → read_diagnosis cfg report n input e ≡ (ok d, e')
      → IsSubmittable d
  read-IsSubmittable cfg report n input e e' d valid h =
      let (x, made, good) = read_diagnosis-conforms cfg report n input e valid in
      let same : x ≡ d = cc (made, h) in subst IsSubmittable same good

  diagnosis_of-IsSubmittable :
      (cfg : DiagnosticsConfig) (report : DriftReport F) (x : Response F) (e e' : Engine W)
      (d : RcaDiagnosis F)
      → ((input : Dict (Value F))
          → tool_result x.content ≡ some input
          → conforms rca_tool_definition input ≡ true)
      → diagnosis_of cfg report x e ≡ (ok d, e')
      → IsSubmittable d
  unfolding diagnosis_of
  diagnosis_of-IsSubmittable cfg report x e e' d valid h =
      elim (Option-cases (tool_result x.content)) [
        | inl none_found ↦ absurd (ground arith)
        | inr (input, found) ↦ elim (Bool-cases (is_empty input)) [
          | inl b ↦ absurd (ground arith)
          | inr b ↦
              read-IsSubmittable cfg report (x.input_tokens + x.output_tokens) input e e' d
                (valid input found) (ground arith)
        ]
      ]

  ask_llm-IsSubmittable :
      (cfg : DiagnosticsConfig) (report : DriftReport F) (meta : Option (Dict (Value F)))
      (e e' : Engine W) (d : RcaDiagnosis F)
      → ask_llm cfg report meta e ≡ (ok d, e')
      → IsSubmittable d
  unfolding ask_llm
  ask_llm-IsSubmittable cfg report meta e e' d h = elim (Exec-cases (get_client cfg e)) [
    | inr (x, v, s) ↦ absurd (ground arith)
    | inl (a, v, s) ↦
        elim (Exec-cases
          (m.create cfg.anthropic_model cfg.rca_max_tokens (prompt report meta) v.world)) [
            | inr (x, u, q) ↦ absurd (ground arith)
            | inl (x, u, q) ↦
                diagnosis_of-IsSubmittable cfg report x (record v { world = u }) e' d
                  (λ input found. conforming _ _ _ _ _ x input q found) (ground arith)
          ]
  ]

  module _ ⦃t : Tenacity (Engine W)⦄ (order : OrderLaws F) (laws : TenacityLaws (Engine W)) where
    -- Whoever makes it, a diagnosis has the types, the texts and the range that the tool asks for.
    pub analyze-IsSubmittable :
        (cfg : DiagnosticsConfig) (report : DriftReport F) (meta : Option (Dict (Value F)))
        (e : Engine W)
        → IsSubmittable (analyze cfg report meta e).0
    analyze-IsSubmittable cfg report meta e =
        let (d, e') = analyze cfg report meta e in
        elim (analyze_either laws cfg report meta e e' d refl) [
          | inl rules ↦ subst IsSubmittable (sym rules) (rules-IsSubmittable order report e'.world)
          | inr (models, (v, returned)) ↦ ask_llm-IsSubmittable cfg report meta v e' d returned
        ]

    pub analyze_name :
        (cfg : DiagnosticsConfig) (report : DriftReport F) (meta : Option (Dict (Value F)))
        (e : Engine W)
        → (analyze cfg report meta e).0.feature_name ≡ report.feature_name
    analyze_name cfg report meta e =
        let (d, e') = analyze cfg report meta e in
        elim (analyze_either laws cfg report meta e e' d refl) [
          | inl rules ↦ ap (λ x. x.feature_name) rules ∙ rules_name report e'.world
          | inr ((name, own), attempt) ↦ name
        ]
