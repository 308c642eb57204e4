-- ===== src/Tests/Folds.antt =====
-- Constants that the compiler folds, and the machine on them.
use polyloft_bvm.Prelude.{
  ℕ, ◌^◌, ◌-◌, ◌≡◌, ◌==◌, not, inl, inr, arith, refl, Bool, true, false, [], Option, none, Text,
  ltb, leb, ◌%◌,
}
use polyloft_bvm.Token.{codes}
use polyloft_bvm.Value.{Float64, Value, int_value}
use polyloft_bvm.Vm.Arith.{num_add, num_sub, num_mul, string_value, int_op, rem64}
use polyloft_bvm.Compiler.Fold.Numbers.{arithmetic, is_less, Holds}
use polyloft_bvm.Compiler.Fold.Exact.{IsSmall, FloatLaws, fold_binary-run_emitted}
use polyloft_bvm.Value.FastMethod.{neg64, quot64, is_neg64}
use polyloft_bvm.Vm.Jumps.{less64}
use polyloft_bvm.Compiler.Fold.Texts.{TextHolds, fold_binary-run_emitted_texts}
use polyloft_bvm.Vm.Arith.Power.{PowerOf, pow_int64_square_multiply, pow_int64_square_multiply_lem}
use polyloft_bvm.Tests.Values.{naturals}

abbrev remainder : ℕ → ℕ → ℕ
remainder a b = a % b

abbrev first_of : ℕ → ℕ → ℕ
first_of a b = a

abbrev own_text : Value ℕ ℕ → Text
own_text v = v.str

abbrev never_same : Value ℕ ℕ → Value ℕ ℕ → Bool
never_same l r = false

abbrev no_number : ℕ → Option ℕ
no_number o = none

abbrev no_text : ℕ → Option Text
no_text o = none

abbrev no_bool : ℕ → Option Bool
no_bool o = none

-- An integer of 64 bits in the place of a float64.
abbrev patterns : Float64
patterns = record {
  F = ℕ;
  zero_float = 0;
  of_int = λ n. n;
  to_int = λ n. n;
  add = int_op num_add;
  sub = int_op num_sub;
  mul = int_op num_mul;
  div = quot64;
  neg = neg64;
  same = λ a b. a == b;
}

abbrev power_of : ℕ → ℕ → ℕ
power_of a b = a ^ b

abbrev at_most64 : ℕ → ℕ → Bool
at_most64 a b = not (less64 b a)

patterns-FloatLaws : FloatLaws patterns rem64 power_of less64 at_most64
patterns-FloatLaws = record {
  integer = λ a s. refl;
  sum = λ a b s t u. refl;
  difference = λ a b s t u. refl;
  product = λ a b s t u. refl;
  remainder = λ a b s t u. refl;
  power_of = λ a b s t u. refl;
  less = λ a b s t. refl;
  sign = sign64;
  total = λ x y s t. refl;
}
  where
    sign64 : (a : ℕ) → IsSmall a → at_most64 0 a ≡ not (is_neg64 a)
    sign64 a (inl h) = ground (arith, h)
    sign64 a (inr h) = ground (arith, h.0, h.1)

abbrev int_of : ℕ → Value ℕ ℕ
int_of n = int_value patterns n

-- -6 times 7.
fold_binary-run_emitted_example :
    Holds patterns rem64 power_of less64 at_most64 own_text never_same no_number no_text no_bool
      (arithmetic num_mul)
      true
      (int_of (2 ^ 64 - 6))
      (int_of 7)
      []
fold_binary-run_emitted_example =
    fold_binary-run_emitted patterns rem64 power_of less64 at_most64 patterns-FloatLaws own_text
      never_same no_number no_text no_bool (int_of (2 ^ 64 - 6)) (int_of 7) [] (arithmetic num_mul)
      true (refl, refl, λ i. refl) (refl, refl, λ i. refl)
      (λ i. (inr (omega arith, omega arith), inl (omega arith)), λ i. omega arith)

abbrev apple : Value ℕ ℕ
apple = string_value naturals (codes "apple")

abbrev pear : Value ℕ ℕ
pear = string_value naturals (codes "pear")

fold_binary-run_emitted_texts_example :
    TextHolds naturals remainder first_of ltb leb own_text never_same no_number no_text no_bool
      is_less apple pear []
fold_binary-run_emitted_texts_example =
    fold_binary-run_emitted_texts naturals remainder first_of ltb leb own_text never_same no_number
      no_text no_bool apple pear [] (refl, refl, refl, refl) (refl, refl, refl, refl) is_less tt

pow_int64_square_multiply_lem_example : PowerOf (3 ^ 5) (pow_int64_square_multiply 3 5)
pow_int64_square_multiply_lem_example =
    pow_int64_square_multiply_lem 3 5 (omega arith) (omega arith) (omega arith)
