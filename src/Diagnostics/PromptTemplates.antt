-- ===== src/Diagnostics/PromptTemplates.antt =====
-- diagnostics/prompt_templates.py: the tool that the language model is made to use, with the JSON
-- schema of its input. The system prompt is a text that only the remote model reads.
pub mod Conformance
use feature_store.Common.{
  String, Bool, true, false, ◌&&◌, Option, none, some, List, [], ◌∷◌, any, str_eq,
}
use feature_store.Common.Dict.{Dict, contains, lookup}
use feature_store.Float.{Float, le}
use feature_store.Diagnostics.Schemas.{
  Value, Items, integer, number, text, array, done, item, member,
}

-- the value of "type", with the keywords beside it
pub data Kind (F : Type 0) : Type 0 where
  string : Kind F
  string_enum : List String → Kind F
  -- with "minimum" and "maximum"
  number_between : F → F → Kind F
  -- with "items"
  array_of : Kind F → Kind F

pub record Property (F : Type 0) : Type 0 where
  pub name : String
  pub kind : Kind F
  pub description : Option String

pub record ToolDefinition (F : Type 0) : Type 0 where
  pub name : String
  pub description : String
  pub properties : List (Property F)
  pub required : List String

abbrev pub cause_categories : List String
cause_categories =
    "data_pipeline_delay" ∷ "schema_change" ∷ "upstream_data_quality" ∷ "seasonal_pattern"
    ∷ "model_drift" ∷ "infrastructure_issue" ∷ "unknown" ∷ []

abbrev pub urgencies : List String
urgencies = "low" ∷ "medium" ∷ "high" ∷ "critical" ∷ []

abbrev pub rca_tool_definition : {F : Type 0} ⦃f : Float F⦄ → ToolDefinition F
rca_tool_definition ⦃f⦄ = record {
  name = "submit_rca_diagnosis";
  description =
      "Submit the root cause analysis diagnosis for a feature drift or consistency issue.";
  properties =
      record {
        name = "probable_cause";
        kind = string;
        description = some "1-2 sentence explanation of the most likely root cause.";
      }
      ∷ record { name = "cause_category"; kind = string_enum cause_categories; description = none }
      ∷ record {
        name = "confidence";
        kind = number_between (f.lit 0 0) (f.lit 1 0);
        description = some "Confidence in this diagnosis (0–1).";
      }
      ∷ record {
        name = "affected_features";
        kind = array_of string;
        description = some "Feature names likely affected by this root cause.";
      }
      ∷ record {
        name = "remediation_steps";
        kind = array_of string;
        description = some "Ordered list of concrete remediation actions.";
      }
      ∷ record { name = "urgency"; kind = string_enum urgencies; description = none }
      ∷ record {
        name = "estimated_impact";
        kind = string;
        description = some "Brief description of potential ML model impact if not addressed.";
      }
      ∷ [];
  required =
      "probable_cause" ∷ "cause_category" ∷ "confidence" ∷ "affected_features" ∷ "remediation_steps"
      ∷ "urgency" ∷ "estimated_impact" ∷ [];
}

-- What JSON Schema says of a value.
module _ {F : Type 0} where
  abbrev pub all_items : (Value F → Bool) → Items F → Bool
  all_items p done = true
  all_items p (item v rest) = p v && all_items p rest
  all_items p (member k v rest) = false

  abbrev pub between : ⦃f : Float F⦄ → F → F → F → Bool
  between lo hi x = le lo x && le x hi

module _ {F : Type 0} ⦃f : Float F⦄ where
  abbrev pub is_valid : Kind F → Value F → Bool
  is_valid string v = elim v [ text s ↦ true | _ ↦ false ]
  is_valid (string_enum ss) v = elim v [ text s ↦ any (str_eq s) ss | _ ↦ false ]
  is_valid (number_between lo hi) v = elim v [
    | integer n ↦ between lo hi (f.of_nat n)
    | number x ↦ between lo hi x
    | _ ↦ false
  ]
  is_valid (array_of k) v = elim v [ array items ↦ all_items (is_valid k) items | _ ↦ false ]

  abbrev pub has_all : List String → Dict (Value F) → Bool
  has_all [] d = true
  has_all (k ∷ ks) d = contains k d && has_all ks d

  abbrev pub fits : List (Property F) → Dict (Value F) → Bool
  fits [] d = true
  fits (p ∷ ps) d =
      (elim (lookup p.name d) [ none ↦ true | some v ↦ is_valid p.kind v ]) && fits ps d

  -- the input of a tool as its schema has it
  unfoldable pub conforms : ToolDefinition F → Dict (Value F) → Bool
  conforms tool d = has_all tool.required d && fits tool.properties d
