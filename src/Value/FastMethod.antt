-- ===== src/Value/FastMethod.antt =====
-- internal/value/value.go and internal/vm/vm.go: methods that return an arithmetic expression over the
-- fields of `this`. Such a method has a plan, an expression that `evalFastMethodExpr` evaluates, and
-- where `CompileOps` succeeds a postfix sequence that `EvalOps` runs on a stack of 16 values. In the
-- stack machine `none` is a panic, an index out of range.
pub mod Machine
pub mod Depth
pub mod Agreement
use polyloft_bvm.Prelude.{
  ℕ, suc, ◌+◌, ◌-◌, ◌*◌, ◌/◌, ◌%◌, ◌^◌, Bool, true, false, ◌&&◌, List, [], ◌∷◌, ◌++◌, Option, none,
  some, length, get_elem?, set, get_or, replicate, ltb, leb, ◌==◌, if◌then◌else◌,
}
use mathlib.Core.Option
use polyloft_bvm.Value.{Float64, Kind, Value, nil_value, int_value, float_value, is_number, is_int}

pub data ArithOp : Type 0 where
  op_add op_sub op_mul op_div : ArithOp

-- `FastMethodExpr`, a constructor for each kind with the fields that the kind uses. No operand is nil.
pub data FastMethodExpr (F O : Type 0) : Type 0 where
  expr_number : F → FastMethodExpr F O
  expr_literal : Value F O → FastMethodExpr F O
  expr_param : ℕ → FastMethodExpr F O
  expr_field : ℕ → FastMethodExpr F O
  expr_negate : FastMethodExpr F O → FastMethodExpr F O
  expr_binary : ArithOp → FastMethodExpr F O → FastMethodExpr F O → FastMethodExpr F O

-- `FastMethodOp`.
pub data FastMethodOp (F O : Type 0) : Type 0 where
  push_const : Value F O → FastMethodOp F O
  push_field : ℕ → FastMethodOp F O
  do_negate : FastMethodOp F O
  do_binary : ArithOp → FastMethodOp F O

pub record FastMethodPlan (F O : Type 0) : Type 0 where
  pub arity : ℕ
  pub expr : Option (FastMethodExpr F O)
  pub ops : Option (List (FastMethodOp F O))

-- The array `stack` and the pointer `sp` of `EvalOps`.
pub record Stack (F O : Type 0) : Type 0 where
  pub slots : List (Value F O)
  pub sp : ℕ

-- The errors of `evalFastMethodExpr`.
pub data FastError : Type 0 where
  invalid_slot negate_expects_number arithmetic_expects_numbers division_by_zero unknown_kind
        invalid_expression :
      FastError

pub data Checked (A : Type 0) : Type 0 where
  checked : A → Checked A
  failed : FastError → Checked A

abbrev pub and_then : {A B : Type 0} → Checked A → (A → Checked B) → Checked B
and_then (checked a) f = f a
and_then (failed e) f = failed e

-- int64 arithmetic on 64-bit patterns; a quotient is truncated towards zero.
abbrev pub neg64 : ℕ → ℕ
neg64 a = (2 ^ 64 - a) % 2 ^ 64

abbrev pub is_neg64 : ℕ → Bool
is_neg64 a = leb (2 ^ 63) a

abbrev pub abs64 : ℕ → ℕ
abs64 a = if is_neg64 a then 2 ^ 64 - a else a

abbrev pub quot64 : ℕ → ℕ → ℕ
quot64 a b =
    let q = abs64 a / abs64 b in
    if is_neg64 a then (if is_neg64 b then q else neg64 q) else (if is_neg64 b then neg64 q else q)

abbrev pub int_arith : ArithOp → ℕ → ℕ → ℕ
int_arith op_add a b = (a + b) % 2 ^ 64
int_arith op_sub a b = (a + (2 ^ 64 - b)) % 2 ^ 64
int_arith op_mul a b = (a * b) % 2 ^ 64
int_arith op_div a b = quot64 a b

abbrev pub is_div : ArithOp → Bool
is_div op_div = true
is_div _ = false

infixl 40 ◌>>=◌
abbrev pub ◌>>=◌ : {A B : Type 0} → Option A → (A → Option B) → Option B
none >>= f = none
some a >>= f = f a

abbrev pub float_arith : (fl : Float64) → ArithOp → fl.F → fl.F → fl.F
float_arith fl op_add a b = fl.add a b
float_arith fl op_sub a b = fl.sub a b
float_arith fl op_mul a b = fl.mul a b
float_arith fl op_div a b = fl.div a b

-- The results of `tryFastMethodCall`: no plan to use, a value, an error, a panic.
pub data FastCall (A : Type 0) : Type 0 where
  not_fast fast_panic : FastCall A
  fast : A → FastCall A
  fast_error : FastError → FastCall A

module _ (fl : Float64) {O : Type 0} where
  abbrev pub number_const : fl.F → Value fl.F O
  number_const n =
      let i = fl.to_int n in if fl.same (fl.of_int i) n then int_value fl i else float_value fl n

  -- `buildPostfix`, which returns the sequence in place of appending to one; `none` is its `false`.
  unfoldable pub build_postfix : FastMethodExpr fl.F O → Option (List (FastMethodOp fl.F O))
  build_postfix (expr_number n) = some (push_const (number_const n) ∷ [])
  build_postfix (expr_literal v) = some (push_const v ∷ [])
  build_postfix (expr_param i) = none
  build_postfix (expr_field i) = some (push_field i ∷ [])
  build_postfix (expr_negate e) = do ops ← build_postfix e; some (ops ++ do_negate ∷ [])
  build_postfix (expr_binary o l r) = do
    left ← build_postfix l
    right ← build_postfix r
    some (left ++ (right ++ do_binary o ∷ []))

  -- `CompileOps`.
  unfoldable pub compile_ops : FastMethodPlan fl.F O → FastMethodPlan fl.F O
  compile_ops p =
      if p.arity == 0
      then elim p.expr [
        | none ↦ p
        | some e ↦ elim (build_postfix e) [ none ↦ p | some ops ↦ record p { ops = some ops } ]
      ]
      else p

  abbrev pub push : Value fl.F O → Stack fl.F O → Option (Stack fl.F O)
  push v s =
      if ltb s.sp (length s.slots)
      then some (record { slots = set s.slots s.sp v; sp = suc s.sp })
      else none

  unfoldable pub negated : Value fl.F O → Value fl.F O
  negated v =
      if is_number v
      then if is_int v then int_value fl (neg64 v.int) else float_value fl (fl.neg v.num)
      else v

  -- What a binary instruction leaves in place of the left operand: without numbers, and on an integer
  -- division by zero, the left operand.
  unfoldable pub combined : ArithOp → Value fl.F O → Value fl.F O → Value fl.F O
  combined o l r =
      if is_number l && is_number r
      then if is_int l && is_int r
        then if is_div o && (r.int == 0) then l else int_value fl (int_arith o l.int r.int)
        else float_value fl (float_arith fl o l.num r.num)
      else l

  unfoldable pub run_op :
      List (Value fl.F O) → FastMethodOp fl.F O → Stack fl.F O → Option (Stack fl.F O)
  run_op fields (push_const v) s = push v s
  run_op fields (push_field i) s = do v ← get_elem? fields i; push v s
  run_op fields do_negate s = do
    v ← if s.sp == 0 then none else get_elem? s.slots (s.sp - 1)
    some (record s { slots = set s.slots (s.sp - 1) (negated v) })
  run_op fields (do_binary o) s = do
    l ← if leb s.sp 1 then none else get_elem? s.slots (s.sp - 2)
    r ← get_elem? s.slots (s.sp - 1)
    some (record { slots = set s.slots (s.sp - 2) (combined o l r); sp = s.sp - 1 })

  unfoldable pub run_ops :
      List (Value fl.F O) → List (FastMethodOp fl.F O) → Stack fl.F O → Option (Stack fl.F O)
  run_ops fields [] s = some s
  run_ops fields (o ∷ os) s = do t ← run_op fields o s; run_ops fields os t

  -- `EvalOps`.
  unfoldable pub eval_ops : List (FastMethodOp fl.F O) → List (Value fl.F O) → Option (Value fl.F O)
  eval_ops ops fields = do
    s ← run_ops fields ops (record { slots = replicate 16 (nil_value fl); sp = 0 })
    some (if s.sp == 0 then nil_value fl else get_or s.slots 0 (nil_value fl))

  unfoldable pub checked_negate : Value fl.F O → Checked (Value fl.F O)
  checked_negate v =
      if is_number v then checked (float_value fl (fl.neg v.num)) else failed negate_expects_number

  unfoldable pub checked_binary : ArithOp → Value fl.F O → Value fl.F O → Checked (Value fl.F O)
  checked_binary o l r =
      if is_number l && is_number r
      then if is_int l && is_int r
        then if is_div o && (r.int == 0)
          then failed division_by_zero
          else checked (int_value fl (int_arith o l.int r.int))
        else checked (float_value fl (float_arith fl o l.num r.num))
      else failed arithmetic_expects_numbers

  -- `evalFastMethodExpr`.
  unfoldable pub eval_expr : List (Value fl.F O) → FastMethodExpr fl.F O → Checked (Value fl.F O)
  eval_expr fields (expr_number n) = checked (number_const n)
  eval_expr fields (expr_literal v) = failed unknown_kind
  eval_expr fields (expr_param i) = failed unknown_kind
  eval_expr fields (expr_field i) = elim (get_elem? fields i) [
    | none ↦ failed invalid_slot
    | some v ↦ checked v
  ]
  eval_expr fields (expr_negate e) = and_then (eval_expr fields e) checked_negate
  eval_expr fields (expr_binary o l r) =
      and_then (eval_expr fields l) (λ a. and_then (eval_expr fields r) (checked_binary o a))

  -- `LookupFastMethodBySlot`, on `FastMethods`.
  unfoldable pub lookup_fast_method_by_slot :
      List (Option (FastMethodPlan fl.F O)) → ℕ → Option (FastMethodPlan fl.F O)
  lookup_fast_method_by_slot plans slot = get_elem? plans slot >>= (λ p. p)

  unfoldable pub use_plan : FastMethodPlan fl.F O → List (Value fl.F O) → FastCall (Value fl.F O)
  use_plan p fields =
      if p.arity == 0
      then elim p.ops [
        | some ops ↦ elim (eval_ops ops fields) [ none ↦ fast_panic | some v ↦ fast v ]
        | none ↦ elim p.expr [
          | none ↦ fast_error invalid_expression
          | some e ↦ elim (eval_expr fields e) [ checked v ↦ fast v | failed e ↦ fast_error e ]
        ]
      ]
      else not_fast

  -- `tryFastMethodCall`.
  unfoldable pub try_fast_method_call :
      List (Option (FastMethodPlan fl.F O)) → List (Value fl.F O) → ℕ → FastCall (Value fl.F O)
  try_fast_method_call plans fields slot = elim (lookup_fast_method_by_slot plans slot) [
    | none ↦ not_fast
    | some p ↦ use_plan p fields
  ]
