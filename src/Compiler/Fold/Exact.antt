-- ===== src/Compiler/Fold/Exact.antt =====
-- Folding an operator on two numbers, with what float64 promises on integers up to 2^53.
use polyloft_bvm.Prelude.{
  ℕ, ◌-◌, ◌*◌, ◌^◌, ◌≤◌, ◌<◌, ◌≡◌, ◌≢◌, ◌⊎◌, inl, inr, refl, sym, ap, ◌∙◌, Bool, true, false, not,
  List, Option, Text, arith,
}
use polyloft_bvm.Value.{Float64, Value}
use polyloft_bvm.Value.FastMethod.{is_neg64, abs64}
use polyloft_bvm.Vm.Jumps.{less64}
use polyloft_bvm.Vm.Arith.{NumOp, num_add, num_sub, num_mul, num_div, num_mod, int_op, rem64}
use polyloft_bvm.Vm.Arith.Power.{power, pow_int64_square_multiply_lem}
use polyloft_bvm.Compiler.Fold.Numbers.{
  Operation, arithmetic, is_power, is_caret, is_less, is_greater, at_most, at_least, is_equal,
  is_different, IsNumber, BothInts, InOrder, Powers, Computes, Holds, number_operators,
}

-- An integer from -2^53 to 2^53, as a 64-bit pattern. float64 has all of them.
abbrev pub IsSmall : ℕ → Type 0
IsSmall a = (a ≤ 2 ^ 53) ⊎ ((2 ^ 64 - 2 ^ 53 ≤ a) × (a < 2 ^ 64))

-- What float64, with the functions of Go's `math`, promises: conversions of integers and the operators on
-- them are exact up to 2^53, and of two floats neither of which is NaN one is at most the other
-- exactly if it is not greater.
pub record FloatLaws (fl : Float64) (fmod pow : fl.F → fl.F → fl.F) (lt le : fl.F → fl.F → Bool)
    : Type 0 where
  pub integer : (a : ℕ) → IsSmall a → fl.to_int (fl.of_int a) ≡ a
  pub sum :
      (a b : ℕ)
      → IsSmall a
      → IsSmall b
      → IsSmall (int_op num_add a b)
      → fl.to_int (fl.add (fl.of_int a) (fl.of_int b)) ≡ int_op num_add a b
  pub difference :
      (a b : ℕ)
      → IsSmall a
      → IsSmall b
      → IsSmall (int_op num_sub a b)
      → fl.to_int (fl.sub (fl.of_int a) (fl.of_int b)) ≡ int_op num_sub a b
  pub product :
      (a b : ℕ)
      → IsSmall a
      → IsSmall b
      → abs64 a * abs64 b ≤ 2 ^ 53
      → fl.to_int (fl.mul (fl.of_int a) (fl.of_int b)) ≡ int_op num_mul a b
  pub remainder :
      (a b : ℕ)
      → IsSmall a
      → IsSmall b
      → b ≢ 0
      → fl.to_int (fmod (fl.of_int a) (fl.of_int b)) ≡ rem64 a b
  pub power_of :
      (a b : ℕ)
      → 0 < a
      → b ≤ 2 ^ 53
      → a ^ b ≤ 2 ^ 53
      → fl.to_int (pow (fl.of_int a) (fl.of_int b)) ≡ a ^ b
  pub less : (a b : ℕ) → IsSmall a → IsSmall b → lt (fl.of_int a) (fl.of_int b) ≡ less64 a b
  pub sign : (a : ℕ) → IsSmall a → le fl.zero_float (fl.of_int a) ≡ not (is_neg64 a)
  pub total : (x y : fl.F) → fl.same x x ≡ true → fl.same y y ≡ true → le x y ≡ not (lt y x)

-- The integer result is in the range too, and an integer divisor is not zero.
abbrev pub Fits : NumOp → ℕ → ℕ → Type 0
Fits num_add a b = IsSmall (int_op num_add a b)
Fits num_sub a b = IsSmall (int_op num_sub a b)
Fits num_mul a b = abs64 a * abs64 b ≤ 2 ^ 53
Fits num_div a b = Unit {0}
Fits num_mod a b = b ≢ 0

-- A positive base; the power of an exponent that is not negative is in the range, or it is no int64.
abbrev pub PowerFits : ℕ → ℕ → Type 0
PowerFits a b = (0 < a) × (a ≤ 2 ^ 53) × (b ≤ 2 ^ 53 → (a ^ b ≤ 2 ^ 53) ⊎ (2 ^ 63 ≤ a ^ b))

small_pos : (a : ℕ) → IsSmall a → is_neg64 a ≡ false → a ≤ 2 ^ 53
small_pos a (inl h) n = h
small_pos a (inr h) n = absurd (ground (arith, h.0))

module _ (fl : Float64) {O : Type 0} (fmod pow : fl.F → fl.F → fl.F) (lt le : fl.F → fl.F → Bool)
    (laws : FloatLaws fl fmod pow lt le) (text : Value fl.F O → Text)
    (same_object : Value fl.F O → Value fl.F O → Bool) (unbox_number : O → Option fl.F)
    (unbox_text : O → Option Text) (unbox_bool : O → Option Bool) where
  abbrev IsNumber_ : Value fl.F O → Type 0
  IsNumber_ = IsNumber fl fmod pow lt le text same_object unbox_number unbox_text unbox_bool

  abbrev BothInts_ : Value fl.F O → Value fl.F O → Type 0
  BothInts_ = BothInts fl fmod pow lt le text same_object unbox_number unbox_text unbox_bool

  abbrev Computes_ : Operation → Value fl.F O → Value fl.F O → Type 0
  Computes_ = Computes fl fmod pow lt le text same_object unbox_number unbox_text unbox_bool

  -- Two integers are in the range.
  abbrev pub InRange : Value fl.F O → Value fl.F O → Type 0
  InRange l r = BothInts_ l r → IsSmall l.int × IsSmall r.int

  -- When folding an operator gives what the machine computes.
  abbrev pub Agrees : Operation → Value fl.F O → Value fl.F O → Type 0
  Agrees (arithmetic num_div) l r = fl.same r.num fl.zero_float ≡ false
  Agrees (arithmetic num_mod) l r =
      InRange l r × (BothInts_ l r → r.int ≢ 0) × (fl.same r.num fl.zero_float ≡ false)
  Agrees (arithmetic o) l r = InRange l r × (BothInts_ l r → Fits o l.int r.int)
  Agrees is_power l r = InRange l r × (BothInts_ l r → PowerFits l.int r.int)
  Agrees is_caret l r = InRange l r × (BothInts_ l r → PowerFits l.int r.int)
  Agrees is_less l r = InRange l r
  Agrees is_greater l r = InRange l r
  Agrees at_most l r = InRange l r × (fl.same l.num l.num ≡ true) × (fl.same r.num r.num ≡ true)
  Agrees at_least l r = InRange l r × (fl.same l.num l.num ≡ true) × (fl.same r.num r.num ≡ true)
  Agrees is_equal l r = Unit {0}
  Agrees is_different l r = Unit {0}

  module _ (l r : Value fl.F O) (hl : IsNumber_ l) (hr : IsNumber_ r) where
    in_order :
        InRange l r
        → InOrder fl fmod pow lt le text same_object unbox_number unbox_text unbox_bool l r
    in_order a i =
        let (s, t) = a i in
        rw (hl.2 i.0, hr.2 i.1, laws.integer l.int s, laws.integer r.int t)
          (laws.less l.int r.int s t, laws.less r.int l.int t s, refl, refl)

    powers :
        InRange l r
        → (BothInts_ l r → PowerFits l.int r.int)
        → Powers fl fmod pow lt le text same_object unbox_number unbox_text unbox_bool l r
    powers a p i =
        let (s, t) = a i in
        let (pos, most, fits) = p i in
        rw (hl.2 i.0, hr.2 i.1, laws.integer l.int s, laws.integer r.int t)
          (
            laws.sign r.int t,
            λ n.
                let few : r.int ≤ 2 ^ 53 = small_pos r.int t n in
                let lem =
                  pow_int64_square_multiply_lem l.int r.int pos (omega (arith, most))
                    (omega (arith, few)) in
                elim (fits few) [
                  | inl small ↦ inl (
                      lem.0 (omega (arith, small))
                      ∙ ap power (sym (laws.power_of l.int r.int pos few small)))
                  | inr big ↦ inr (lem.1 big)
                ],
          )

    computes : (o : Operation) → Agrees o l r → Computes_ o l r
    computes (arithmetic num_add) a =
        λ i. let (s, t) = a.0 i in rw (hl.2 i.0, hr.2 i.1) (laws.sum l.int r.int s t (a.1 i))
    computes (arithmetic num_sub) a =
        λ i. let (s, t) = a.0 i in rw (hl.2 i.0, hr.2 i.1) (laws.difference l.int r.int s t (a.1 i))
    computes (arithmetic num_mul) a =
        λ i. let (s, t) = a.0 i in rw (hl.2 i.0, hr.2 i.1) (laws.product l.int r.int s t (a.1 i))
    computes (arithmetic num_div) a = a
    computes (arithmetic num_mod) a = (
      λ i. let (s, t) = a.0 i in rw (hl.2 i.0, hr.2 i.1) (laws.remainder l.int r.int s t (a.1 i)),
      λ i. ground (arith, a.1 i),
      a.2,
    )
    computes is_power a = powers a.0 a.1
    computes is_caret a = powers a.0 a.1
    computes is_less a = in_order a
    computes is_greater a = in_order a
    computes at_most a = (in_order a.0, laws.total l.num r.num a.1 a.2)
    computes at_least a = (in_order a.0, laws.total r.num l.num a.2 a.1)
    computes is_equal a = tt
    computes is_different a = tt

  -- Folding an arithmetic operator, a power included, or a comparison of two numbers gives what the
  -- machine computes with the instructions that compileBinary emits for it, of the variant for
  -- numbers or not, as far as can be seen of the value. Two integers, and their sum, difference or
  -- product, lie from -2^53 to 2^53, where float64 is exact, except for quotients and for == and !=,
  -- which ask for no range. A divisor is not zero, and of two numbers that <= or >= compares neither
  -- is NaN. The base of a power of integers is positive, and a power of an exponent that is not
  -- negative is in the range too or leaves int64.
  pub fold_binary-run_emitted :
      (l r : Value fl.F O) (below : List (Value fl.F O)) (o : Operation) (numeric : Bool)
      → IsNumber_ l
      → IsNumber_ r
      → Agrees o l r
      → Holds fl fmod pow lt le text same_object unbox_number unbox_text unbox_bool o numeric l r
          below
  fold_binary-run_emitted l r below o numeric hl hr a =
      number_operators fl fmod pow lt le text same_object unbox_number unbox_text unbox_bool l r
        below hl hr o numeric (computes l r hl hr o a)
