-- ===== src/Ingestion/EventGenerator/Amounts.antt =====
-- The amounts and the sessions of a batch.
use feature_store.Common.{
  ◌≡◌, arith, String, Bool, false, true, List, [], ◌∷◌, All, str_eq, eq_iff, Bool-cases, inl, inr,
  if◌then◌else◌,
}
use feature_store.Common.Dict.{Dict, contains, get_or, lookup-insert}
use feature_store.Float.{
  Float, nought, fmin, fmax, IsNumber, IsFinite, OrderLaws, ArithLaws, FiniteLaws,
}
use feature_store.Float.Literals.{lit_pos}
use feature_store.Tenacity.{Clock}
use feature_store.Ingestion.EventGenerator.{
  EcommerceEvent, Draws, Slot, random_amount, wants_session, generate_session_id, session_of,
  event_of, next_batch,
}

module _ {F : Type 0} ⦃f : Float F⦄ where
  -- only a purchase has an amount
  abbrev pub IsPriced : EcommerceEvent F → Type 0
  IsPriced e =
      e.transaction_amount
      ≡ (if str_eq e.event_type "purchase" then e.transaction_amount else nought)

module _ {F : Type 0} ⦃f : Float F⦄ (order : OrderLaws F) (arithmetic : ArithLaws F)
    (finite : FiniteLaws F) where
  -- `max(1.0, min(v, 2000.0))`, also where v is NaN
  abbrev clipped : F → F
  clipped v = fmax (f.lit 10 1) (fmin v (f.lit 20_000 1))

  clipped-IsNumber : (v : F) → IsNumber (clipped v)
  clipped-IsNumber v = ground (
    arith,
    order.lt_number_right (f.lit 10 1) (fmin v (f.lit 20_000 1)),
    order.lit_number 10 1 (omega arith),
  )

  clipped_above : (v : F) → f.lt (clipped v) (f.lit 10 1) ≡ false
  clipped_above v =
      let y = fmin v (f.lit 20_000 1) in
      ground (arith, order.lt_trans (f.lit 10 1) y (f.lit 10 1), order.lt_irrefl (f.lit 10 1))

  clipped_below : (v : F) → f.lt (f.lit 20_000 1) (clipped v) ≡ false
  clipped_below v =
      let wide = order.lt_lit 20_000 10 1 (omega arith) (omega arith) (omega arith) in
      ground (arith, wide, order.lt_irrefl (f.lit 20_000 1))

  amount_finite :
      (v : F) (is_fraud : Bool)
      → let amount = f.round (clipped v) 2 in
        IsFinite (if is_fraud then f.round (f.mul amount (f.lit 100 1)) 2 else amount)
  amount_finite v is_fraud =
      let low = clipped_above v in
      let high = clipped_below v in
      let whole =
        finite.between_finite 10 20_000 1 (clipped v) (omega arith) (omega arith) (omega arith)
          (clipped-IsNumber v) low high in
      let amount = finite.round_finite (clipped v) whole in
      let nonneg : f.lt (clipped v) (f.lit 0 0) ≡ false = ground (
        arith,
        low,
        order.lt_trans (clipped v) (f.lit 0 0) (f.lit 10 1),
        lit_pos order 9 1 (omega arith) (omega arith),
      ) in
      let below = finite.round_below 20_000 (clipped v) (omega arith) nonneg high in
      let at_least = arithmetic.round_nonneg (clipped v) 2 nonneg in
      let product =
        finite.mul_finite 100 20_000 (f.round (clipped v) 2) (omega arith) (omega arith) amount
          at_least below in
      let Finite = λ (k : Bool). IsFinite (
        if k
        then f.round (f.mul (f.round (clipped v) 2) (f.lit 100 1)) 2
        else f.round (clipped v) 2) in
      elim is_fraud as Finite [
        | true ↦ finite.round_finite (f.mul (f.round (clipped v) 2) (f.lit 100 1)) product
        | false ↦ amount
      ]

module _ {W F : Type 0} ⦃f : Float F⦄ (x : Draws W F) ⦃c : Clock W F⦄ where
  pub event_of-IsPriced :
      (slot : Slot) (session : String) (w : W) → IsPriced {F = F} (event_of x slot session w).0
  unfolding event_of random_amount
  event_of-IsPriced slot session w = ground arith

  random_amount_finite :
      (order : OrderLaws F) (arithmetic : ArithLaws F) (finite : FiniteLaws F) (event_type : String)
      (is_fraud : Bool) (w : W)
      → IsFinite (random_amount x event_type is_fraud w).0
  unfolding random_amount
  random_amount_finite order arithmetic finite event_type is_fraud w =
      elim (Bool-cases (str_eq event_type "purchase")) [
        | inl e ↦ rw e (amount_finite order arithmetic finite (x.log_normal w).0 is_fraud)
        | inr e ↦ rw e (order.lit_number 0 0 (omega arith), arithmetic.lit_finite 0 0 (omega arith))
      ]

  pub event_of_finite :
      (order : OrderLaws F) (arithmetic : ArithLaws F) (finite : FiniteLaws F) (slot : Slot)
      (session : String) (w : W)
      → IsFinite (event_of x slot session w).0.transaction_amount
  unfolding event_of
  event_of_finite order arithmetic finite slot session w =
      random_amount_finite order arithmetic finite slot.event_type _ _

  event_of_user :
      (slot : Slot) (session : String) (w : W)
      → (event_of x slot session w).0.user_id ≡ slot.user_id
  unfolding event_of
  event_of_user slot session w = ground arith

  session_of_self :
      (m : Dict String) (u : String) (w : W) → contains u (session_of x m u w).0 ≡ true
  unfolding session_of
  session_of_self m u w = elim (Bool-cases (wants_session x m u w).0) [
    | inl e ↦ ground (
      arith,
      e,
      eq_iff u u,
      lookup-insert u u (generate_session_id x (wants_session x m u w).1).0 m,
    )
    | inr e ↦ ground (arith, e)
  ]

  session_of_keeps :
      (m : Dict String) (u k : String) (w : W)
      → contains k m ≡ true
      → contains k (session_of x m u w).0 ≡ true
  unfolding session_of
  session_of_keeps m u k w h = elim (Bool-cases (wants_session x m u w).0) [
    | inl e ↦
        ground
          (arith, h, e, lookup-insert u k (generate_session_id x (wants_session x m u w).1).0 m)
    | inr e ↦ ground (arith, h, e)
  ]

  next_batch_keeps :
      (slots : List Slot) (m : Dict String) (k : String) (w : W)
      → contains k m ≡ true
      → contains k (next_batch x slots m w).0.1 ≡ true
  unfolding next_batch
  next_batch_keeps [] m k w h = h
  next_batch_keeps (slot ∷ slots) m k w h =
      next_batch_keeps slots _ k _ (session_of_keeps m slot.user_id k w h)

  -- Every event of a batch that is not a purchase has the amount zero, and the user of every
  -- event has a session in the map that the batch leaves.
  pub next_batch_lem :
      (slots : List Slot) (m : Dict String) (w : W)
      → let (events, last) = (next_batch x slots m w).0 in
        All {A = EcommerceEvent F} (λ e. IsPriced e × (contains e.user_id last ≡ true)) events
  unfolding next_batch
  next_batch_lem [] m w = tt
  next_batch_lem (slot ∷ slots) m w =
      let s₁ = session_of x m slot.user_id w in
      let session = get_or slot.user_id "" s₁.0 in
      let e = event_of x slot session s₁.1 in
      (
        (
          event_of-IsPriced slot session s₁.1,
          rw (event_of_user slot session s₁.1)
              (next_batch_keeps slots s₁.0 slot.user_id e.1 (session_of_self m slot.user_id w)),
        ),
        next_batch_lem slots s₁.0 e.1,
      )
