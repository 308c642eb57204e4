-- ===== src/Vm/Arith.antt =====
-- internal/vm/vm.go: arithmetic, powers, comparisons, equality and negation, of the opcodes OpAdd to
-- OpGreaterNum. The
-- methods of instances, texts joined to other values, and arrays are left to `elsewhere`; the number and
-- the text of an instance (`numericOperand`, `textualOperand`) are arguments.
pub mod Power
use polyloft_bvm.Prelude.{
  ℕ, ◌+◌, ◌-◌, ◌*◌, ◌%◌, ◌^◌, Bool, true, false, not, ◌&&◌, ◌||◌, List, [], ◌∷◌, ◌++◌, Option, none,
  some, Text, same_text, text_le, ◌==◌, if◌then◌else◌,
}
use polyloft_bvm.Value.{
  Float64, nil, number, boolean, char, string, object, number_float, Value, nil_value, int_value,
  float_value, bool_value, is_number, is_int, is_bool,
}
use polyloft_bvm.Value.FastMethod.{neg64, is_neg64, abs64}
use polyloft_bvm.Vm.Arith.Power.{power, overflow, stuck, pow_int64_square_multiply}
use polyloft_bvm.Vm.Jumps.{
  Run, running, raised, refused, panicked, elsewhere, ◌>>=◌, less64, is_truthy,
}

-- The operators of `binaryNumberOp`.
pub data NumOp : Type 0 where
  num_add num_sub num_mul num_div num_mod : NumOp

-- Instructions, with `true` for the variant on numbers.
pub data Instr : Type 0 where
  do_arith : NumOp → Bool → Instr
  do_less do_greater : Bool → Instr
  do_equal do_not do_pow : Instr

-- `%` on int64: the sign is that of the dividend.
abbrev pub rem64 : ℕ → ℕ → ℕ
rem64 a b = if is_neg64 a then neg64 (abs64 a % abs64 b) else abs64 a % abs64 b

-- `<` on strings.
abbrev pub text_lt : Text → Text → Bool
text_lt a b = not (text_le b a)

abbrev pub same_bool : Bool → Bool → Bool
same_bool a b = if a then b else not b

abbrev pub is_nil : {F O : Type 0} → Value F O → Bool
is_nil v = elim v.kind [ nil ↦ true | _ ↦ false ]

abbrev pub is_object : {F O : Type 0} → Value F O → Bool
is_object v = elim v.kind [ object ↦ true | _ ↦ false ]

abbrev pub is_text : {F O : Type 0} → Value F O → Bool
is_text v = elim v.kind [ char ↦ true | string ↦ true | _ ↦ false ]

-- The integer result of an operator that has one.
abbrev pub int_op : NumOp → ℕ → ℕ → ℕ
int_op num_add a b = (a + b) % 2 ^ 64
int_op num_sub a b = (a + (2 ^ 64 - b)) % 2 ^ 64
int_op num_mul a b = (a * b) % 2 ^ 64
int_op num_div a b = 0
int_op num_mod a b = rem64 a b

abbrev pub is_quotient : NumOp → Bool
is_quotient num_div = true
is_quotient _ = false

abbrev pub divides : NumOp → Bool
divides num_div = true
divides num_mod = true
divides _ = false

abbrev pub is_mod : NumOp → Bool
is_mod num_mod = true
is_mod _ = false

abbrev pub both_numbers : {F O : Type 0} → Value F O → Value F O → Bool
both_numbers l r = is_number l && is_number r

abbrev pub both_ints : {F O : Type 0} → Value F O → Value F O → Bool
both_ints l r = both_numbers l r && (is_int l && is_int r)

module _ (fl : Float64) {O : Type 0} where
  abbrev pub string_value : Text → Value fl.F O
  string_value s = record (nil_value fl) { kind = string; str = s }

  -- `Equal` of values that are no objects.
  unfoldable pub plain_equal : Value fl.F O → Value fl.F O → Bool
  plain_equal l r = elim l.kind [
    | nil ↦ is_nil r
    | number ↦ is_number r && (if is_int l && is_int r then l.int == r.int else fl.same l.num r.num)
    | boolean ↦ is_bool r && same_bool l.bool r.bool
    | char ↦ elim r.kind [ char ↦ same_text l.str r.str | _ ↦ false ]
    | string ↦ elim r.kind [ string ↦ same_text l.str r.str | _ ↦ false ]
    | object ↦ false
  ]

-- `math.Mod`, `math.Pow`, `<` and `<=` on float64 are parameters.
module _ (fl : Float64) {O : Type 0} (fmod pow : fl.F → fl.F → fl.F) (lt le : fl.F → fl.F → Bool)
    (unbox_number : O → Option fl.F) (unbox_text : O → Option Text)
    (unbox_bool : O → Option Bool) where
  abbrev pub float_op : NumOp → fl.F → fl.F → fl.F
  float_op num_add a b = fl.add a b
  float_op num_sub a b = fl.sub a b
  float_op num_mul a b = fl.mul a b
  float_op num_div a b = fl.div a b
  float_op num_mod a b = fmod a b

  abbrev pub boxed {ℓ} : {A : Type ℓ} → (O → Option A) → Option O → Option A
  boxed f none = none
  boxed f (some o) = f o

  -- `numericOperand`, `textualOperand` and `booleanOperand`.
  abbrev pub number_of : Value fl.F O → Option fl.F
  number_of v = if is_number v then some v.num else boxed unbox_number v.obj

  abbrev pub text_of : Value fl.F O → Option Text
  text_of v = if is_text v then some v.str else boxed unbox_text v.obj

  abbrev pub truth_of : Value fl.F O → Option Bool
  truth_of v = if is_bool v then some v.bool else boxed unbox_bool v.obj

  abbrev pub both {ℓ} : {A : Type ℓ} {B : Type 0} → Option A → Option A → (A → A → B) → B → B
  both (some a) (some b) f d = f a b
  both _ _ f d = d

  -- `numericResult`, of the operators of `binaryNumberOp`.
  abbrev pub numeric_result : NumOp → Value fl.F O → Value fl.F O → fl.F → Value fl.F O
  numeric_result o l r x =
      if not (is_quotient o) && both_ints l r then int_value fl (fl.to_int x) else float_value fl x

  abbrev pub number_op_slow : NumOp → Value fl.F O → Value fl.F O → fl.F → fl.F → Run (Value fl.F O)
  number_op_slow o l r x y =
      if divides o && fl.same y fl.zero_float
      then raised
      else running (numeric_result o l r (float_op o x y))

  -- `binaryNumberOp`.
  unfoldable pub number_op : NumOp → Value fl.F O → Value fl.F O → Run (Value fl.F O)
  number_op o l r =
      if both_ints l r && not (is_quotient o)
      then (if is_mod o && (r.int == 0)
          then raised
          else running (int_value fl (int_op o l.int r.int)))
      else both (number_of l) (number_of r) (number_op_slow o l r) elsewhere

  -- `numericResult` of OpPow.
  abbrev pub pow_result : Value fl.F O → Value fl.F O → fl.F → Value fl.F O
  pow_result l r x =
      if both_ints l r && le fl.zero_float r.num
      then int_value fl (fl.to_int x)
      else float_value fl x

  abbrev pub pow_op_slow : Value fl.F O → Value fl.F O → Run (Value fl.F O)
  pow_op_slow l r =
      both (number_of l) (number_of r) (λ x y. running (pow_result l r (pow x y))) elsewhere

  -- `binaryPowOp`. The fuel of the integer power does not end, since an exponent of int64 has 63 bits.
  unfoldable pub pow_op : Value fl.F O → Value fl.F O → Run (Value fl.F O)
  pow_op l r =
      if both_ints l r && not (is_neg64 (fl.to_int r.num))
      then (elim (pow_int64_square_multiply (fl.to_int l.num) (fl.to_int r.num)) [
        | power p ↦ running (int_value fl p)
        | overflow ↦ pow_op_slow l r
        | stuck ↦ elsewhere
      ])
      else pow_op_slow l r

  -- The fast paths of OpAdd, OpSub and OpMul.
  abbrev pub fast_op : NumOp → Value fl.F O → Value fl.F O → Value fl.F O
  fast_op o l r =
      if is_int l && is_int r
      then int_value fl (int_op o l.int r.int)
      else float_value fl (float_op o l.num r.num)

  -- The rest of OpAdd.
  abbrev pub join : Value fl.F O → Value fl.F O → Run (Value fl.F O)
  join l r =
      both (number_of l) (number_of r) (λ x y. running (numeric_result num_add l r (fl.add x y)))
        (both (text_of l) (text_of r) (λ s t. running (string_value fl (s ++ t))) elsewhere)

  -- OpAdd, OpSub, OpMul, OpDiv and OpMod.
  unfoldable pub arith_op : NumOp → Value fl.F O → Value fl.F O → Run (Value fl.F O)
  arith_op num_add l r = if both_numbers l r then running (fast_op num_add l r) else join l r
  arith_op num_sub l r =
      if both_numbers l r then running (fast_op num_sub l r) else number_op num_sub l r
  arith_op num_mul l r =
      if both_numbers l r then running (fast_op num_mul l r) else number_op num_mul l r
  arith_op num_div l r =
      if both_numbers l r
      then (if fl.same r.num fl.zero_float
          then refused
          else running (float_value fl (fl.div l.num r.num)))
      else number_op num_div l r
  arith_op num_mod l r = number_op num_mod l r

  -- The result in place of the left operand.
  abbrev pub in_place : NumOp → Value fl.F O → Value fl.F O → Value fl.F O
  in_place o l r =
      if (is_int l && is_int r) && not (is_quotient o)
      then record l { int = int_op o l.int r.int; num = fl.of_int (int_op o l.int r.int) }
      else record l {
        num = float_op o l.num r.num;
        int = fl.to_int (float_op o l.num r.num);
        number_kind = number_float;
      }

  -- OpAddNum, OpSubNum, OpMulNum, OpDivNum and OpModNum.
  unfoldable pub arith_num : NumOp → Value fl.F O → Value fl.F O → Run (Value fl.F O)
  arith_num num_mod l r = number_op num_mod l r
  arith_num num_div l r =
      if both_numbers l r
      then (if fl.same r.num fl.zero_float then raised else running (in_place num_div l r))
      else number_op num_div l r
  arith_num num_add l r =
      if both_numbers l r then running (in_place num_add l r) else number_op num_add l r
  arith_num num_sub l r =
      if both_numbers l r then running (in_place num_sub l r) else number_op num_sub l r
  arith_num num_mul l r =
      if both_numbers l r then running (in_place num_mul l r) else number_op num_mul l r

  -- `binaryCompare` with `<`, or `>` if `greater`, before the methods of instances.
  unfoldable pub compare_op : Bool → Value fl.F O → Value fl.F O → Run (Value fl.F O)
  compare_op greater l r =
      let number_test : fl.F → fl.F → Run (Value fl.F O) =
        λ a b. running (bool_value fl (if greater then lt b a else lt a b)) in
      both (text_of l) (text_of r)
        (λ s t. running (bool_value fl (if greater then text_lt t s else text_lt s t)))
        (if both_ints l r
          then number_test (fl.of_int (fl.to_int l.num)) (fl.of_int (fl.to_int r.num))
          else both (number_of l) (number_of r) number_test elsewhere)

  -- OpLessNum, or OpGreaterNum if `greater`.
  unfoldable pub compare_num : Bool → Value fl.F O → Value fl.F O → Run (Value fl.F O)
  compare_num greater l r =
      if both_numbers l r
      then running (record l {
        kind = boolean;
        bool =
            if is_int l && is_int r
            then (if greater then less64 r.int l.int else less64 l.int r.int)
            else (if greater then lt r.num l.num else lt l.num r.num);
      })
      else both (number_of l) (number_of r)
          (λ a b. running (bool_value fl (if greater then lt b a else lt a b))) refused

  -- OpEqual, before the methods of instances and the objects.
  unfoldable pub equal_op : Value fl.F O → Value fl.F O → Run (Value fl.F O)
  equal_op l r =
      if both_numbers l r
      then running
          (bool_value fl (if is_int l && is_int r then l.int == r.int else fl.same l.num r.num))
      else both (text_of l) (text_of r) (λ s t. running (bool_value fl (same_text s t)))
          (both (number_of l) (number_of r) (λ x y. running (bool_value fl (fl.same x y)))
            (both (truth_of l) (truth_of r) (λ a b. running (bool_value fl (same_bool a b)))
              (if is_object l || is_object r
                then elsewhere
                else running (bool_value fl (plain_equal fl l r)))))

  -- OpNot.
  abbrev pub not_op : Value fl.F O → Value fl.F O
  not_op v = elim (truth_of v) [
    | some b ↦ bool_value fl (not b)
    | none ↦ bool_value fl (not (is_truthy v))
  ]

  abbrev pub run_instr : Instr → List (Value fl.F O) → Run (List (Value fl.F O))
  run_instr do_not (v ∷ stack) = running (not_op v ∷ stack)
  run_instr (do_arith o numbers) (r ∷ l ∷ stack) =
      (if numbers then arith_num o l r else arith_op o l r) >>= λ v. running (v ∷ stack)
  run_instr (do_less numbers) (r ∷ l ∷ stack) =
      (if numbers then compare_num false l r else compare_op false l r) >>= λ v. running (v ∷ stack)
  run_instr (do_greater numbers) (r ∷ l ∷ stack) =
      (if numbers then compare_num true l r else compare_op true l r) >>= λ v. running (v ∷ stack)
  run_instr do_equal (r ∷ l ∷ stack) = equal_op l r >>= λ v. running (v ∷ stack)
  run_instr do_pow (r ∷ l ∷ stack) = pow_op l r >>= λ v. running (v ∷ stack)
  run_instr _ _ = panicked

  unfoldable pub run_instrs : List Instr → List (Value fl.F O) → Run (List (Value fl.F O))
  run_instrs [] stack = running stack
  run_instrs (i ∷ is) stack = run_instr i stack >>= λ rest. run_instrs is rest
