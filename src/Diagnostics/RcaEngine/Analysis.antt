-- ===== src/Diagnostics/RcaEngine/Analysis.antt =====
-- Where a diagnosis comes from.
use feature_store.Common.{
  ℕ, zero, suc, ◌≤◌, ◌≡◌, ◌⊎◌, inl, inr, refl, ap, sym, ◌∙◌, ◌+◌, is_empty, Bool-cases,
  Option-cases, arith, true, false, Option, str_eq,
}
use feature_store.Common.Dict.{Dict}
use feature_store.Common.Exec.{
  Exec, Exn, ok, err, value_error, key_error, connection_error, api_connection_error, retry_error,
  index_error, other_error, http_exception, Exec-cases,
}
use feature_store.Float.{Float}
use feature_store.Tenacity.{Clock, Tenacity, TenacityLaws}
use feature_store.Diagnostics.Schemas.{Value, Format, DiagnosticsConfig, DriftReport, RcaDiagnosis}
use feature_store.Diagnostics.Rules.{rule_based_fallback}
use feature_store.Diagnostics.RcaEngine.{
  Messages, Engine, Response, is_connection_error, get_client, read_diagnosis, diagnosis_of,
  ask_llm, analyze_with_llm, or_fallback, tool_result, prompt, analyze,
}

-- A diagnosis of the language model, about the report's feature.
abbrev pub IsModels : {F : Type 0} → DriftReport F → RcaDiagnosis F → Type 0
IsModels report d = (d.feature_name ≡ report.feature_name) × (d.fallback_used ≡ false)

-- How an analysis comes to a try: `Tries ask wait n e v` if n tries from `e` on, each followed by a
-- wait, ended in connection errors and left `v`.
pub data Tries {E A : Type 0} (ask : Exec E A) (wait : E → E) : ℕ → E → E → Type 0 where
  no_tries : (e : E) → Tries ask wait 0 e e
  one_more :
      (n : ℕ) (e v v' : E)
      → Tries ask wait n e v
      → ask v ≡ (err api_connection_error, v')
      → Tries ask wait (suc n) e (wait v')

module _ {W F : Type 0} ⦃f : Float F⦄ ⦃c : Clock W F⦄ where
  read_diagnosis_lem :
      (cfg : DiagnosticsConfig) (report : DriftReport F) (n : ℕ) (m : Dict (Value F))
      (e e' : Engine W) (d : RcaDiagnosis F)
      → read_diagnosis cfg report n m e ≡ (ok d, e')
      → IsModels report d
  unfolding read_diagnosis
  read_diagnosis_lem cfg report n m e e' d h = ground arith

module _ {W : Type 0} where
  get_client_no_key :
      (cfg : DiagnosticsConfig) (e : Engine W)
      → e.has_client ≡ false
      → str_eq cfg.anthropic_api_key "" ≡ true
      → get_client cfg e ≡ (err value_error, e)
  unfolding get_client
  get_client_no_key cfg e h k = rw h (rw k refl)

connection_error_only : (x : Exn) → is_connection_error x ≡ true → x ≡ api_connection_error
connection_error_only api_connection_error h = refl
connection_error_only value_error h = cc
connection_error_only key_error h = cc
connection_error_only connection_error h = cc
connection_error_only retry_error h = cc
connection_error_only index_error h = cc
connection_error_only other_error h = cc
connection_error_only (http_exception n) h = cc

module _ {W F : Type 0} ⦃f : Float F⦄ ⦃p : Format F⦄ ⦃c : Clock W F⦄ ⦃m : Messages W F⦄ where
  diagnosis_of_lem :
      (cfg : DiagnosticsConfig) (report : DriftReport F) (x : Response F) (e e' : Engine W)
      (d : RcaDiagnosis F)
      → diagnosis_of cfg report x e ≡ (ok d, e')
      → IsModels report d
  unfolding diagnosis_of
  diagnosis_of_lem cfg report x e e' d h = elim (Option-cases (tool_result x.content)) [
    | inl none_found ↦ absurd (ground arith)
    | inr (input, found) ↦ elim (Bool-cases (is_empty input)) [
      | inl b ↦ absurd (ground arith)
      | inr b ↦
          read_diagnosis_lem cfg report (x.input_tokens + x.output_tokens) input e e' d
            (ground arith)
    ]
  ]

  ask_llm_lem :
      (cfg : DiagnosticsConfig) (report : DriftReport F) (meta : Option (Dict (Value F)))
      (e e' : Engine W) (d : RcaDiagnosis F)
      → ask_llm cfg report meta e ≡ (ok d, e')
      → IsModels report d
  unfolding ask_llm
  ask_llm_lem cfg report meta e e' d h = elim (Exec-cases (get_client cfg e)) [
    | inr (x, v, s) ↦ absurd (ground arith)
    | inl (a, v, s) ↦
        elim (Exec-cases
          (m.create cfg.anthropic_model cfg.rca_max_tokens (prompt report meta) v.world)) [
            | inr (x, u, q) ↦ absurd (ground arith)
            | inl (x, u, q) ↦
                diagnosis_of_lem cfg report x (record v { world = u }) e' d (ground arith)
          ]
  ]

  -- Without a key and a client, an attempt fails at once and changes nothing.
  ask_llm_no_key :
      (cfg : DiagnosticsConfig) (report : DriftReport F) (meta : Option (Dict (Value F)))
      (e : Engine W)
      → e.has_client ≡ false
      → str_eq cfg.anthropic_api_key "" ≡ true
      → ask_llm cfg report meta e ≡ (err value_error, e)
  unfolding ask_llm
  ask_llm_no_key cfg report meta e h k = ground (arith, get_client_no_key cfg e h k)

  module _ ⦃t : Tenacity (Engine W)⦄ (laws : TenacityLaws (Engine W)) where
    -- What the try in the world `v`, after n connection errors, gives: the diagnosis that it
    -- returns, or the rules' if it raises and is the third or the exception is no connection error.
    abbrev pub Decided :
        DiagnosticsConfig
        → DriftReport F
        → Option (Dict (Value F))
        → ℕ
        → Engine W
        → RcaDiagnosis F
        → Engine W
        → Type 0
    Decided cfg report meta n v d e' =
        (IsModels report d × (ask_llm cfg report meta v ≡ (ok d, e')))
        ⊎ ((x : Exn) × (ask_llm cfg report meta v ≡ (err x, e'))
            × ((n ≡ 2) ⊎ (is_connection_error x ≡ false))
            × (d ≡ rule_based_fallback report e'.world))

    -- A try that returns decides, whatever number of tries is left.
    tried_ok :
        (k n : ℕ) (cfg : DiagnosticsConfig) (report : DriftReport F)
        (meta : Option (Dict (Value F))) (v w e' : Engine W) (b d : RcaDiagnosis F)
        → ask_llm cfg report meta v ≡ (ok b, w)
        → or_fallback report (t.retry (suc k) is_connection_error false (ask_llm cfg report meta) v)
          ≡ (d, e')
        → Decided cfg report meta n v d e'
    unfolding or_fallback
    tried_ok k n cfg report meta v w e' b d r h =
        let ask : Exec (Engine W) (RcaDiagnosis F) = ask_llm cfg report meta in
        let back = laws.retry_returns k is_connection_error false ask v w b r in
        let (same, left) : (b ≡ d) × (w ≡ e') = ground (arith, back) in
        let returned : ask v ≡ (ok d, e') = cc (r, same, left) in
        inl (ask_llm_lem cfg report meta v e' d returned, returned)

    tried_err :
        (k n : ℕ) (cfg : DiagnosticsConfig) (report : DriftReport F)
        (meta : Option (Dict (Value F))) (v w e' : Engine W) (x : Exn) (d : RcaDiagnosis F)
        → ask_llm cfg report meta v ≡ (err x, w)
        → is_connection_error x ≡ false
        → or_fallback report (t.retry (suc k) is_connection_error false (ask_llm cfg report meta) v)
          ≡ (d, e')
        → Decided cfg report meta n v d e'
    unfolding or_fallback
    tried_err k n cfg report meta v w e' x d r stop h =
        let ask : Exec (Engine W) (RcaDiagnosis F) = ask_llm cfg report meta in
        let back = laws.retry_raises k is_connection_error false ask v w x r stop in
        let left : w ≡ e' = ground (arith, back) in
        inr (x, cc (r, left), inr stop, rw (← left) (ground (arith, back)))

    -- The tries from one on, with `k` left after it.
    tried_from :
        (k n : ℕ) (cfg : DiagnosticsConfig) (report : DriftReport F)
        (meta : Option (Dict (Value F))) (e v e' : Engine W) (d : RcaDiagnosis F)
        → n + k ≡ 2
        → Tries (ask_llm cfg report meta) t.wait n e v
        → or_fallback report (t.retry (suc k) is_connection_error false (ask_llm cfg report meta) v)
          ≡ (d, e')
        → (j : ℕ) × (u : Engine W) × (j ≤ 2)
          × Tries (ask_llm cfg report meta) t.wait j e u
          × Decided cfg report meta j u d e'
    unfolding or_fallback
    tried_from zero n cfg report meta e v e' d sum tries h =
        let ask : Exec (Engine W) (RcaDiagnosis F) = ask_llm cfg report meta in
        let here : Decided cfg report meta n v d e' = elim (Exec-cases (ask v)) [
          | inl (b, w, r) ↦ tried_ok 0 n cfg report meta v w e' b d r h
          | inr (x, w, r) ↦ elim (Bool-cases (is_connection_error x)) [
            | inr stop ↦ tried_err 0 n cfg report meta v w e' x d r stop h
            | inl again ↦
                let back = laws.retry_gives_up is_connection_error false ask v w x r again in
                let left : w ≡ e' = ground (arith, back) in
                inr (x, cc (r, left), inl (omega (arith, sum)), rw (← left) (ground (arith, back)))
          ]
        ] in
        (n, v, omega (arith, sum), tries, here)
    tried_from (suc k) n cfg report meta e v e' d sum tries h =
        let ask : Exec (Engine W) (RcaDiagnosis F) = ask_llm cfg report meta in
        elim (Exec-cases (ask v)) [
          | inl (b, w, r) ↦
              (n, v, omega (arith, sum), tries, tried_ok (suc k) n cfg report meta v w e' b d r h)
          | inr (x, w, r) ↦ elim (Bool-cases (is_connection_error x)) [
            | inr stop ↦ (
              n,
              v,
              omega (arith, sum),
              tries,
              tried_err (suc k) n cfg report meta v w e' x d r stop h,
            )
            | inl again ↦
                let lost : ask v ≡ (err api_connection_error, w) =
                  r ∙ ap (λ y. (err y, w)) (connection_error_only x again) in
                tried_from k (suc n) cfg report meta e (t.wait w) e' d (omega (arith, sum))
                  (one_more n e v w tries lost)
                  (ap (or_fallback report)
                      (sym (laws.retry_again k is_connection_error false ask v w x r again))
                    ∙ h)
          ]
        ]

    -- An analysis tries three times at most. It goes on after a connection error, after a wait; the
    -- first other result, or the third, decides: a diagnosis of the language model, which is about
    -- the report's feature and not marked as a fallback, is given as it is, and only if that try
    -- raises is it the rules' diagnosis.
    pub analyze_cases :
        (cfg : DiagnosticsConfig) (report : DriftReport F) (meta : Option (Dict (Value F)))
        (e e' : Engine W) (d : RcaDiagnosis F)
        → analyze cfg report meta e ≡ (d, e')
        → (n : ℕ) × (v : Engine W) × (n ≤ 2)
          × Tries (ask_llm cfg report meta) t.wait n e v
          × Decided cfg report meta n v d e'
    unfolding analyze analyze_with_llm
    analyze_cases cfg report meta e e' d h =
        tried_from 2 0 cfg report meta e e e' d refl (no_tries e) h

    -- In either case, the diagnosis is the rules', or one that a try returned.
    pub analyze_either :
        (cfg : DiagnosticsConfig) (report : DriftReport F) (meta : Option (Dict (Value F)))
        (e e' : Engine W) (d : RcaDiagnosis F)
        → analyze cfg report meta e ≡ (d, e')
        → (d ≡ rule_based_fallback report e'.world)
          ⊎ (IsModels report d × ((v : Engine W) × (ask_llm cfg report meta v ≡ (ok d, e'))))
    analyze_either cfg report meta e e' d h =
        let (n, v, few, tries, decided) = analyze_cases cfg report meta e e' d h in
        elim decided [
          | inl (models, returned) ↦ inr (models, (v, returned))
          | inr (x, raised, last, rules) ↦ inl rules
        ]

    -- Without a client and without a key for one, an analysis is the rules' diagnosis, after one
    -- attempt that changes nothing.
    pub analyze_no_key :
        (cfg : DiagnosticsConfig) (report : DriftReport F) (meta : Option (Dict (Value F)))
        (e : Engine W)
        → e.has_client ≡ false
        → str_eq cfg.anthropic_api_key "" ≡ true
        → analyze cfg report meta e ≡ (rule_based_fallback report e.world, e)
    unfolding analyze analyze_with_llm or_fallback
    analyze_no_key cfg report meta e h k =
        let ask : Exec (Engine W) (RcaDiagnosis F) = ask_llm cfg report meta in
        ap (or_fallback report) (
          laws.retry_raises 2 is_connection_error false ask e e value_error
            (ask_llm_no_key cfg report meta e h k) refl)

    -- Three connection errors in a row, with a wait after the first and the second, end in the
    -- rules' diagnosis in the world that the third leaves.
    pub analyze_unreachable :
        (cfg : DiagnosticsConfig) (report : DriftReport F) (meta : Option (Dict (Value F)))
        (e e₁ e₂ e₃ : Engine W)
        → ask_llm cfg report meta e ≡ (err api_connection_error, e₁)
        → ask_llm cfg report meta (t.wait e₁) ≡ (err api_connection_error, e₂)
        → ask_llm cfg report meta (t.wait e₂) ≡ (err api_connection_error, e₃)
        → analyze cfg report meta e ≡ (rule_based_fallback report e₃.world, e₃)
    unfolding analyze analyze_with_llm or_fallback
    analyze_unreachable cfg report meta e e₁ e₂ e₃ first second third =
        let ask : Exec (Engine W) (RcaDiagnosis F) = ask_llm cfg report meta in
        ap (or_fallback report) (
          laws.retry_again 1 is_connection_error false ask e e₁ api_connection_error first refl
          ∙ laws.retry_again 0 is_connection_error false ask (t.wait e₁) e₂ api_connection_error
              second refl
          ∙ laws.retry_gives_up is_connection_error false ask (t.wait e₂) e₃ api_connection_error
              third refl)
