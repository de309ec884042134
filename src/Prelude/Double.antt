-- ===== src/Prelude/Double.antt =====
-- `double`: the operations and comparisons that the program uses, as an interface. IEEE arithmetic is
-- no code of the program, so its values are a parameter, and what a theorem needs of the order is a
-- record of laws. NaN is the value that is not `<=` itself.
use Prim.Native.Nat.{ℕ, ◌+◌, ◌*◌, ◌/◌}
use mathlib.Core.Path.{◌≡◌}
use mathlib.Core.Logic.{◌⊎◌}
use mathlib.Core.Bool.{Bool, true, false, not}
use mathlib.Core.Option.{Option, none, some}
use native.Mathlib.Omega.{arith}
use pulseport.Prelude.Tests.{ltb, leb, if◌then◌else◌}
use pulseport.Prelude.Int.{ℤ, pos_part}

pub record Double {ℓ} (D : Type ℓ) : Type ℓ where
  -- an integer, or a literal with no fraction, as a `double`
  pub from_int : ℤ → D
  pub add : D → D → D
  pub mul : D → D → D
  pub div : D → D → D
  pub lt : D → D → Bool
  pub le : D → D → Bool

infix 4 ◌≼◌
abbrev pub ◌≼◌ {ℓ} : {D : Type ℓ} ⦃d : Double D⦄ → D → D → Type 0
◌≼◌ ⦃d⦄ x y = d.le x y ≡ true

module _ {ℓ} {D : Type ℓ} ⦃d : Double D⦄ where
  -- std::min and std::max, which return the first argument unless the comparison holds.
  abbrev pub fmin : D → D → D
  fmin a b = if d.lt b a then b else a

  abbrev pub fmax : D → D → D
  fmax a b = if d.lt a b then b else a

pub record IsOrdered {ℓ} (D : Type ℓ) ⦃d : Double D⦄ : Type ℓ where
  pub refl_of_le : (x y : D) → x ≼ y → (x ≼ x) × (y ≼ y)
  pub le_trans : (x y z : D) → x ≼ y → y ≼ z → x ≼ z
  pub le_total : (x y : D) → x ≼ x → y ≼ y → (x ≼ y) ⊎ (y ≼ x)
  pub lt-eq-not-le : (x y : D) → x ≼ x → y ≼ y → d.lt x y ≡ not (d.le y x)

-- Naturals with a value for NaN: a concrete type at which the laws hold and the code runs.
abbrev pub Approx : Type 0
Approx = Option ℕ

abbrev pub on_both {ℓ} : {B : Type ℓ} → B → (ℕ → ℕ → B) → Approx → Approx → B
on_both b f (some x) (some y) = f x y
on_both b f _ _ = b

instance abbrev pub approx_double : Double Approx
approx_double = record {
  from_int = λ k. some (pos_part k);
  add = on_both none λ a b. some (a + b);
  mul = on_both none λ a b. some (a * b);
  div = on_both none λ a b. some (a / b);
  lt = on_both false ltb;
  le = on_both false leb;
}

pub Approx-IsOrdered : IsOrdered Approx
Approx-IsOrdered = ground arith
