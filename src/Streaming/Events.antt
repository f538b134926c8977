-- ===== src/Streaming/Events.antt =====
-- The events that the jobs read (`EVENT_SCHEMA`), after those with no user are dropped. A column
-- that is null is `none`; the columns that no feature reads are left out.
use feature_store.Common.{ℕ, ◌*◌, String, Bool, false, Option, none, some, List, [], ◌∷◌, str_eq}
use feature_store.Spark.{Spark}
use feature_store.Spark.Rows.{Window}

pub record Event (F : Type 0) : Type 0 where
  pub user_id : String
  pub session_id : Option String
  pub event_type : Option String
  -- in microseconds since the epoch
  pub timestamp : Option ℕ
  pub transaction_amount : Option F

abbrev pub minutes : ℕ → ℕ
minutes n = n * 60000000

module _ {F : Type 0} where
  -- `F.col("event_type") == t`, where null counts as false
  abbrev pub is_type : String → Event F → Bool
  is_type t e = elim e.event_type [ none ↦ false | some u ↦ str_eq u t ]

  -- `F.window(F.col("timestamp"), duration, slide)`; a time that is null is in no window
  abbrev pub windows_of : Spark F → ℕ → ℕ → Event F → List Window
  windows_of s duration slide e = elim e.timestamp [
    | none ↦ []
    | some t ↦ s.window duration slide t
  ]

-- the values of a column that are not null
abbrev pub present : {A B : Type 0} → (A → Option B) → List A → List B
present g [] = []
present g (x ∷ xs) = elim (g x) [ none ↦ present g xs | some b ↦ b ∷ present g xs ]
