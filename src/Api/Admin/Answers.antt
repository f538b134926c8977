-- ===== src/Api/Admin/Answers.antt =====
-- That the endpoint of the root-cause analysis answers.
use mathlib.Core.Path.{subst}
use feature_store.Common.{◌≡◌, refl, arith, ℕ, String, List, [], ◌∷◌, none, true, any, str_eq, some}
use feature_store.Common.Dict.{Dict}
use feature_store.Common.Exec.{ok}
use feature_store.Float.{Float, OrderLaws, nought}
use feature_store.Tenacity.{Clock, Tenacity, TenacityLaws}
use feature_store.Diagnostics.Schemas.{
  Value, Items, null, boolean, integer, number, text, array, object, item, done, member, Format,
  DiagnosticsConfig, RcaDiagnosis,
}
use feature_store.Diagnostics.PromptTemplates.{
  string, string_enum, array_of, cause_categories, urgencies, rca_tool_definition, all_items,
  between, is_valid, conforms,
}
use feature_store.Diagnostics.PromptTemplates.Conformance.{IsSubmittable}
use feature_store.Diagnostics.RcaEngine.{Messages, Engine, Response, tool_result, analyze}
use feature_store.Diagnostics.RcaEngine.Submitted.{analyze-IsSubmittable, analyze_name}
use feature_store.Api.Admin.{
  RcaRequest, RcaResponse, as_text, as_texts, as_list, rca_response, drift_report_of, run_rca,
}

module _ {F : Type 0} ⦃f : Float F⦄ where
  text_read : (v : Value F) → is_valid string v ≡ true → (s : String) × (as_text v ≡ ok s)
  unfolding as_text
  text_read null h = cc
  text_read (boolean b) h = cc
  text_read (integer n) h = cc
  text_read (number x) h = cc
  text_read (text s) h = (s, refl)
  text_read (array items) h = cc
  text_read (object items) h = cc

  enum_read :
      (ss : List String) (v : Value F)
      → is_valid (string_enum ss) v ≡ true
      → (s : String) × (as_text v ≡ ok s) × (any (str_eq s) ss ≡ true)
  unfolding as_text
  enum_read ss null h = cc
  enum_read ss (boolean b) h = cc
  enum_read ss (integer n) h = cc
  enum_read ss (number x) h = cc
  enum_read ss (text s) h = (s, refl, h)
  enum_read ss (array items) h = cc
  enum_read ss (object items) h = cc

  texts_read :
      (items : Items F)
      → all_items (is_valid string) items ≡ true
      → (ss : List String) × (as_texts items ≡ ok ss)
  unfolding as_texts
  texts_read done h = ([], refl)
  texts_read (item (text s) rest) h = let (ss, e) = texts_read rest h in (s ∷ ss, rw e refl)
  texts_read (item null rest) h = cc
  texts_read (item (boolean b) rest) h = cc
  texts_read (item (integer n) rest) h = cc
  texts_read (item (number x) rest) h = cc
  texts_read (item (array items) rest) h = cc
  texts_read (item (object items) rest) h = cc
  texts_read (member k v rest) h = cc

  list_read :
      (v : Value F) → is_valid (array_of string) v ≡ true → (ss : List String) × (as_list v ≡ ok ss)
  unfolding as_list
  list_read null h = cc
  list_read (boolean b) h = cc
  list_read (integer n) h = cc
  list_read (number x) h = cc
  list_read (text s) h = cc
  list_read (array items) h = texts_read items h
  list_read (object items) h = cc

  -- A response about the report's feature, with a category and an urgency of the tool's, and a
  -- confidence from zero to one.
  pub record IsWellFormed (feature : String) (x : RcaResponse F) : Type 0 where
    pub feature_name : x.feature_name ≡ feature
    pub cause_category : any (str_eq x.cause_category) cause_categories ≡ true
    pub urgency : any (str_eq x.urgency) urgencies ≡ true
    pub confidence : between nought (f.lit 1 0) x.confidence ≡ true

  respond_fields :
      {W : Type 0} (d : RcaDiagnosis F) (w : W) (cause category urgency impact : String)
      (features steps : List String)
      → as_text d.probable_cause ≡ ok cause
      → as_text d.cause_category ≡ ok category
      → as_list d.affected_features ≡ ok features
      → as_list d.remediation_steps ≡ ok steps
      → as_text d.urgency ≡ ok urgency
      → as_text d.estimated_impact ≡ ok impact
      → rca_response d w ≡ (
        ok (record {
          feature_name = d.feature_name;
          probable_cause = cause;
          cause_category = category;
          confidence = d.confidence;
          affected_features = features;
          remediation_steps = steps;
          urgency = urgency;
          estimated_impact = impact;
          model_used = d.model_used;
        }),
        w,
      )
  unfolding rca_response
  respond_fields d w _ _ _ _ _ _ h₁ h₂ h₃ h₄ h₅ h₆ = ground arith

  response-IsWellFormed :
      {W : Type 0} (d : RcaDiagnosis F) (w : W)
      → IsSubmittable d
      → (x : RcaResponse F) × (rca_response d w ≡ (ok x, w)) × IsWellFormed d.feature_name x
  response-IsWellFormed d w good =
      let (cause, a) = text_read d.probable_cause good.probable_cause in
      let (category, b, b') = enum_read cause_categories d.cause_category good.cause_category in
      let (features, q) = list_read d.affected_features good.affected_features in
      let (steps, r) = list_read d.remediation_steps good.remediation_steps in
      let (urgency, s, s') = enum_read urgencies d.urgency good.urgency in
      let (impact, t) = text_read d.estimated_impact good.estimated_impact in
      (
        record {
          feature_name = d.feature_name;
          probable_cause = cause;
          cause_category = category;
          confidence = d.confidence;
          affected_features = features;
          remediation_steps = steps;
          urgency = urgency;
          estimated_impact = impact;
          model_used = d.model_used;
        },
        respond_fields d w cause category urgency impact features steps a b q r s t,
        record {
          feature_name = refl;
          cause_category = b';
          urgency = s';
          confidence = good.confidence;
        },
      )

module _ {W F : Type 0} ⦃f : Float F⦄ ⦃p : Format F⦄ ⦃c : Clock W F⦄ ⦃m : Messages W F⦄
    ⦃t : Tenacity (Engine W)⦄ (order : OrderLaws F) (laws : TenacityLaws (Engine W)) where
  -- If every input that the language model gives to the tool conforms to the tool's schema, then
  -- the endpoint answers every request, whether the model is reached or not: about the feature of
  -- the request, with a category and an urgency of the schema and a confidence from zero to one.
  pub run_rca_answers :
      (cfg : DiagnosticsConfig) (body : RcaRequest F) (e : Engine W)
      → ((model : String) (n : ℕ) (message : String) (w w' : W) (x : Response F)
            (d : Dict (Value F))
          → m.create model n message w ≡ (ok x, w')
          → tool_result x.content ≡ some d
          → conforms rca_tool_definition d ≡ true)
      → (x : RcaResponse F) × (e' : Engine W) × (run_rca cfg body e ≡ (ok x, e'))
        × IsWellFormed body.feature_name x
  unfolding run_rca drift_report_of
  run_rca_answers cfg body e conforming =
      let report = drift_report_of body (c.time e.world) in
      let (d, e') = analyze cfg report none e in
      let good = analyze-IsSubmittable conforming order laws cfg report none e in
      let (x, made, fine) = response-IsWellFormed d e' good in
      let name = analyze_name conforming order laws cfg report none e in
      (x, e', made, subst (λ k. IsWellFormed k x) name fine)
