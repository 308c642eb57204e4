-- ===== src/Tests/Values.antt =====
-- Arrays and fast methods on concrete values; a float64 is a number.
use polyloft_bvm.Prelude.{
  ℕ, ◌≤◌, ◌+◌, ◌-◌, ◌*◌, ◌/◌, ◌==◌, true, List, [], ◌∷◌, ◌++◌, none, some, ◌≡◌, refl, length,
  get_elem?, leb, if◌then◌else◌, arith,
}
use polyloft_bvm.Value.{Float64, Value, int_value, bool_value}
use polyloft_bvm.Value.Array.{Array, arr_int, len, at, values, set_at, append}
use polyloft_bvm.Value.Array.Refines.{
  IsArray, contents, stored, len-at, Writes, set_at-Writes, append-Appends, values_lem,
}
use polyloft_bvm.Value.FastMethod.{
  op_add, op_div, FastMethodExpr, expr_field, expr_number, expr_binary, FastMethodOp, push_const,
  push_field, do_binary, failed, checked, checked_binary, build_postfix, combined, division_by_zero,
  eval_expr, eval_ops, fast, use_plan, try_fast_method_call,
}
use polyloft_bvm.Value.FastMethod.Machine.{depth, value_of}
use polyloft_bvm.Value.FastMethod.Depth.{eval_ops-build_postfix}
use polyloft_bvm.Value.FastMethod.Agreement.{
  compiled, try_fast_method_call-eval_expr, division_by_zero_lem,
}

abbrev pub naturals : Float64
naturals = record {
  F = ℕ;
  zero_float = 0;
  of_int = λ n. n;
  to_int = λ n. n;
  add = λ a b. a + b;
  sub = λ a b. a - b;
  mul = λ a b. a * b;
  div = λ a b. a / b;
  neg = λ a. a;
  same = λ a b. a == b;
}

abbrev pub Number : Type 0
Number = Value ℕ ℕ

abbrev pub number_of : ℕ → Number
number_of n = int_value naturals n

abbrev pair : Array ℕ ℕ
pair = record { elems = []; ints = 4 ∷ 5 ∷ []; floats = []; bools = []; a_kind = arr_int }

pair-IsArray : IsArray pair
pair-IsArray = (refl, refl, refl)

len-at_example :
    (len naturals pair ≡ length (contents naturals pair))
    × (at naturals pair 1 ≡ get_elem? (contents naturals pair) 1)
len-at_example = len-at naturals pair 1

-- A Boolean, so the array is promoted.
set_at-Writes_example :
    Writes naturals
      (contents naturals pair)
      1
      (stored naturals arr_int (bool_value naturals true))
      (set_at naturals pair 1 (bool_value naturals true))
set_at-Writes_example = set_at-Writes naturals pair 1 (bool_value naturals true) pair-IsArray

append-Appends_example :
    (contents naturals (append naturals pair (number_of 6))
      ≡ contents naturals pair ++ stored naturals arr_int (number_of 6) ∷ [])
    × IsArray (append naturals pair (number_of 6))
append-Appends_example = append-Appends naturals pair (number_of 6) pair-IsArray

values_lem_example :
    ((values naturals pair).0 ≡ contents naturals pair)
    × (contents naturals ((values naturals pair).1) ≡ contents naturals pair)
    × IsArray ((values naturals pair).1)
values_lem_example = values_lem naturals pair pair-IsArray

-- `this.a + 1`.
abbrev next_expr : FastMethodExpr ℕ ℕ
next_expr = expr_binary op_add (expr_field 0) (expr_number 1)

abbrev next_ops : List (FastMethodOp ℕ ℕ)
next_ops = push_field 0 ∷ push_const (number_of 1) ∷ do_binary op_add ∷ []

next_built : build_postfix naturals next_expr ≡ some next_ops
unfolding build_postfix
next_built = refl

next_value : value_of naturals (number_of 7 ∷ []) next_expr ≡ some (number_of 8)
unfolding value_of combined
next_value = refl

next_evaluated : eval_expr naturals (number_of 7 ∷ []) next_expr ≡ checked (number_of 8)
unfolding eval_expr checked_binary
next_evaluated = refl

next_depth : depth naturals next_expr ≤ 16
unfolding depth
next_depth = omega arith

-- `this.a / 0`.
abbrev divided : FastMethodExpr ℕ ℕ
divided = expr_binary op_div (expr_field 0) (expr_number 0)

dividend : eval_expr naturals (number_of 7 ∷ []) (expr_field 0) ≡ checked (number_of 7)
unfolding eval_expr
dividend = refl

divisor : eval_expr naturals (number_of 7 ∷ []) (expr_number 0) ≡ checked (number_of 0)
unfolding eval_expr
divisor = refl

divided-depth : depth naturals divided ≤ 16
unfolding depth
divided-depth = omega arith

eval_ops-build_postfix_example :
    eval_ops naturals next_ops (number_of 7 ∷ [])
    ≡ (if leb (depth naturals next_expr) 16 then some (number_of 8) else none)
eval_ops-build_postfix_example =
    eval_ops-build_postfix naturals next_expr next_ops (number_of 7 ∷ []) (number_of 8) next_built
      next_value

try_fast_method_call-eval_expr_example :
    try_fast_method_call naturals
      (none ∷ some (compiled naturals next_expr) ∷ [])
      (number_of 7 ∷ [])
      1
    ≡ fast (number_of 8)
try_fast_method_call-eval_expr_example =
    try_fast_method_call-eval_expr naturals next_expr
      (none ∷ some (compiled naturals next_expr) ∷ []) (number_of 7 ∷ []) 1 (number_of 8) refl
      next_evaluated (tt, tt) next_depth

division_by_zero_lem_example :
    (eval_expr naturals (number_of 7 ∷ []) divided ≡ failed division_by_zero)
    × (use_plan naturals (compiled naturals divided) (number_of 7 ∷ []) ≡ fast (number_of 7))
division_by_zero_lem_example =
    division_by_zero_lem naturals (expr_field 0) (expr_number 0) (number_of 7 ∷ []) 7 dividend
      divisor tt tt divided-depth
