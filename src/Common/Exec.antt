-- ===== src/Common/Exec.antt =====
-- Python exceptions, and calls that read or change the world and may raise.
use Prim.Native.Nat.{ℕ}
use mathlib.Core.Path.{◌≡◌, refl}
use mathlib.Core.Logic.{◌⊎◌, inl, inr}

-- What the code raises, and what the packages that it calls raise into it.
pub data Exn : Type 0 where
  value_error key_error connection_error api_connection_error retry_error index_error other_error :
      Exn
  http_exception : ℕ → Exn

pub data Result {ℓ} (A : Type ℓ) : Type ℓ where
  ok : A → Result A
  err : Exn → Result A

-- A call: what was written before a raise stays written, so the world comes back in both cases.
abbrev pub Exec {ℓ} : Type ℓ → Type ℓ → Type ℓ
Exec W A = W → Result A × W

module _ {ℓ} {W A : Type ℓ} where
  abbrev pub pure : A → Exec W A
  pure a w = (ok a, w)

  abbrev pub raise : Exn → Exec W A
  raise e w = (err e, w)

  abbrev pub lift : Result A → Exec W A
  lift r w = (r, w)

module _ {ℓ} {W A B : Type ℓ} where
  infixl 5 ◌>>=◌ ◌>>◌
  abbrev pub ◌>>=◌ : Exec W A → (A → Exec W B) → Exec W B
  ◌>>=◌ m f w = let (r, w') = m w in elim r [ ok a ↦ f a w' | err e ↦ (err e, w') ]

  abbrev pub ◌>>◌ : Exec W A → Exec W B → Exec W B
  m >> k = m >>= λ _. k

-- A call returns or raises.
pub Exec-cases {ℓ κ} :
    {W : Type ℓ} {A : Type κ} (x : Result A × W)
    → ((a : A) × (w : W) × (x ≡ (ok a, w))) ⊎ ((e : Exn) × (w : W) × (x ≡ (err e, w)))
Exec-cases (ok a, w) = inl (a, w, refl)
Exec-cases (err e, w) = inr (e, w, refl)

pub Result-cases {ℓ} :
    {A : Type ℓ} (x : Result A) → ((a : A) × (x ≡ ok a)) ⊎ ((e : Exn) × (x ≡ err e))
Result-cases (ok a) = inl (a, refl)
Result-cases (err e) = inr (e, refl)
