-- ===== src/Prelude/Outcome.antt =====
-- What a call does: it returns, it panics with a message, or it waits for ever on a channel.
use statsgod.Prelude.{arith, refl, ◌≡◌}
use mathlib.Core.List.{List}
use mathlib.Core.Option.{none, some}
use statsgod.Prelude.Lists.{get_elem?}
use statsgod.Prelude.Tests.{Bytes, codes}
use Prim.Native.Nat.{ℕ}

pub data Outcome {ℓ} (A : Type ℓ) : Type ℓ where
  done : A → Outcome A
  panics : Bytes → Outcome A
  blocked : Outcome A

infixl 5 ◌>>=◌
abbrev pub ◌>>=◌ {ℓ κ} : {A : Type ℓ} {B : Type κ} → Outcome A → (A → Outcome B) → Outcome B
done a >>= f = f a
panics m >>= f = panics m
blocked >>= f = blocked

abbrev pub out_of_range {ℓ} : {A : Type ℓ} → Outcome A
out_of_range = panics (codes "runtime error: index out of range")

-- A read of a slice or an array.
abbrev pub at_index {ℓ} : {A : Type ℓ} → List A → ℕ → Outcome A
at_index xs i = elim (get_elem? xs i) [ none ↦ out_of_range | some x ↦ done x ]

-- A chain that returns, returned at each step.
pub done-inverse {ℓ κ} :
    {A : Type ℓ} {B : Type κ} (m : Outcome A) (g : A → Outcome B) (b : B)
    → (m >>= g) ≡ done b
    → (a : A) × (m ≡ done a) × (g a ≡ done b)
done-inverse (done a) g b h = (a, refl, h)
done-inverse (panics message) g b h = absurd (ground arith)
done-inverse blocked g b h = absurd (ground arith)

pub done-injective {ℓ} : {A : Type ℓ} {a b : A} → done a ≡ done b → a ≡ b
done-injective h = cc
