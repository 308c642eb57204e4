-- ===== src/Value/FastMethod/Agreement.antt =====
-- The compiled sequence against the evaluator of the virtual machine.
use polyloft_bvm.Prelude.{
  ℕ, ◌≤◌, ◌≡◌, refl, ap, Bool, true, false, ◌&&◌, ◌==◌, leb, List, [], ◌∷◌, ◌++◌, Option, none,
  some, get_elem?, arith, if◌then◌else◌, if_case,
}
use polyloft_bvm.Value.{Float64, Value, int_value, float_value, is_number, is_int}
use polyloft_bvm.Value.FastMethod.{
  ArithOp, op_div, FastMethodExpr, expr_number, expr_literal, expr_param, expr_field, expr_negate,
  expr_binary, FastMethodOp, FastMethodPlan, do_negate, do_binary, Checked, checked, failed,
  FastError, division_by_zero, invalid_slot, push_field, arithmetic_expects_numbers, and_then,
  build_postfix, compile_ops, negated, combined, checked_negate, checked_binary, eval_expr, fast,
  use_plan, try_fast_method_call, lookup_fast_method_by_slot, is_div, int_arith, float_arith,
}
use polyloft_bvm.Value.FastMethod.Machine.{value_of, depth}
use polyloft_bvm.Value.FastMethod.Depth.{eval_ops-build_postfix}

and_then_checked :
    {A B : Type 0} (o : Checked A) (f : A → Checked B) (b : B)
    → and_then o f ≡ checked b
    → (a : A) × (o ≡ checked a) × (f a ≡ checked b)
and_then_checked (checked a) f b e = (a, refl, e)
and_then_checked (failed x) f b e = absurd (cc)

-- Where the branches with a check succeed, those without it give the same.
if-checked :
    {A : Type 0} (n i d : Bool) (a x y v : A) (e f : FastError)
    → (if n then if i then if d then failed e else checked x else checked y else failed f)
      ≡ checked v
    → (if n then if i then if d then a else x else y else a) ≡ v
if-checked true true true a x y v e f h = absurd (cc)
if-checked true true false a x y v e f h = cc
if-checked true false d a x y v e f h = cc
if-checked false i d a x y v e f h = absurd (cc)

module _ (fl : Float64) {O : Type 0} where
  -- No operand of a negation has an integer value.
  abbrev pub FloatNegates : List (Value fl.F O) → FastMethodExpr fl.F O → Type 0
  FloatNegates fields (expr_negate e) =
      FloatNegates fields e
      × ((v : Value fl.F O) → eval_expr fl fields e ≡ checked v → is_int v ≡ false)
  FloatNegates fields (expr_binary o l r) = FloatNegates fields l × FloatNegates fields r
  FloatNegates fields _ = Unit

  field_checked :
      (o : Option (Value fl.F O)) (v : Value fl.F O)
      → elim o [ none ↦ failed invalid_slot | some w ↦ checked w ] ≡ checked v
      → o ≡ some v
  field_checked none v e = absurd (cc)
  field_checked (some w) v e = cc

  checked_negate-negated :
      (a v : Value fl.F O) → is_int a ≡ false → checked_negate fl a ≡ checked v → negated fl a ≡ v
  unfolding checked_negate negated
  checked_negate-negated a v i =
      if_case (λ c. c ≡ checked v → negated fl a ≡ v) (is_number a)
        (λ n e. let w : float_value fl (fl.neg a.num) ≡ v = cc in rw (n, i) w) (λ n e. absurd (cc))

  checked_binary-combined :
      (o : ArithOp) (a b v : Value fl.F O)
      → checked_binary fl o a b ≡ checked v
      → combined fl o a b ≡ v
  unfolding checked_binary combined
  checked_binary-combined o a b v h =
      if-checked (is_number a && is_number b) (is_int a && is_int b) (is_div o && (b.int == 0)) a
        (int_value fl (int_arith o a.int b.int)) (float_value fl (float_arith fl o a.num b.num)) v
        division_by_zero arithmetic_expects_numbers h

  value_of-eval_expr :
      (fields : List (Value fl.F O)) (e : FastMethodExpr fl.F O) (v : Value fl.F O)
      → FloatNegates fields e
      → eval_expr fl fields e ≡ checked v
      → (ops : List (FastMethodOp fl.F O)) × (build_postfix fl e ≡ some ops)
        × (value_of fl fields e ≡ some v)
  unfolding eval_expr value_of build_postfix
  value_of-eval_expr fields (expr_number n) v g h = (_, refl, cc)
  value_of-eval_expr fields (expr_literal w) v g h = absurd (cc)
  value_of-eval_expr fields (expr_param i) v g h = absurd (cc)
  value_of-eval_expr fields (expr_field i) v g h =
      (push_field i ∷ [], refl, field_checked (get_elem? fields i) v h)
  value_of-eval_expr fields (expr_negate e) v g h =
      let (a, p, q) = and_then_checked (eval_expr fl fields e) (checked_negate fl) v h in
      let (ops, b, w) = value_of-eval_expr fields e a g.0 p in
      (ops ++ do_negate ∷ [], rw b refl, rw w (ap some (checked_negate-negated a v (g.1 a p) q)))
  value_of-eval_expr fields (expr_binary o l r) v g h =
      let (a, p, q) =
        and_then_checked (eval_expr fl fields l)
          (λ a. and_then (eval_expr fl fields r) (checked_binary fl o a)) v h in
      let (b, p', q') = and_then_checked (eval_expr fl fields r) (checked_binary fl o a) v q in
      let (ls, bl, wl) = value_of-eval_expr fields l a g.0 p in
      let (rs, br, wr) = value_of-eval_expr fields r b g.1 p' in
      (
        ls ++ (rs ++ do_binary o ∷ []),
        rw (bl, br) refl,
        rw (wl, wr) (ap some (checked_binary-combined o a b v q')),
      )

  -- The plan that the compiler makes of an expression.
  abbrev pub compiled : FastMethodExpr fl.F O → FastMethodPlan fl.F O
  compiled e = compile_ops fl (record { arity = 0; expr = some e; ops = none })

  compiled_use :
      (e : FastMethodExpr fl.F O) (ops : List (FastMethodOp fl.F O)) (fields : List (Value fl.F O))
      (v : Value fl.F O)
      → build_postfix fl e ≡ some ops
      → value_of fl fields e ≡ some v
      → depth fl e ≤ 16
      → use_plan fl (compiled e) fields ≡ fast v
  unfolding use_plan compile_ops
  compiled_use e ops fields v p q d =
      let le : leb (depth fl e) 16 ≡ true = ground arith in
      rw (p, eval_ops-build_postfix fl e ops fields v p q, le) refl

  -- Where `evalFastMethodExpr` evaluates an expression, without a negated integer and in at most 16
  -- slots, calling the method through its compiled plan gives the same value.
  pub try_fast_method_call-eval_expr :
      (e : FastMethodExpr fl.F O) (plans : List (Option (FastMethodPlan fl.F O)))
      (fields : List (Value fl.F O)) (slot : ℕ) (v : Value fl.F O)
      → get_elem? plans slot ≡ some (some (compiled e))
      → eval_expr fl fields e ≡ checked v
      → FloatNegates fields e
      → depth fl e ≤ 16
      → try_fast_method_call fl plans fields slot ≡ fast v
  unfolding try_fast_method_call lookup_fast_method_by_slot
  try_fast_method_call-eval_expr e plans fields slot v s h g d =
      let (ops, b, w) = value_of-eval_expr fields e v g h in
      rw (s, try_fast_method_call) (compiled_use e ops fields v b w d)

  binary_built :
      (l r : FastMethodExpr fl.F O) (ls rs : List (FastMethodOp fl.F O))
      → build_postfix fl l ≡ some ls
      → build_postfix fl r ≡ some rs
      → build_postfix fl (expr_binary op_div l r) ≡ some (ls ++ (rs ++ do_binary op_div ∷ []))
  unfolding build_postfix
  binary_built l r ls rs p q = rw (p, q) refl

  divided :
      (fields : List (Value fl.F O)) (l r : FastMethodExpr fl.F O) (n : ℕ)
      → value_of fl fields l ≡ some (int_value fl n)
      → value_of fl fields r ≡ some (int_value fl 0)
      → value_of fl fields (expr_binary op_div l r) ≡ some (int_value fl n)
  unfolding value_of combined
  divided fields l r n p q = rw (p, q) refl

  -- An integer division by zero is an error of `evalFastMethodExpr`; the compiled plan returns the
  -- dividend.
  pub division_by_zero_lem :
      (l r : FastMethodExpr fl.F O) (fields : List (Value fl.F O)) (n : ℕ)
      → eval_expr fl fields l ≡ checked (int_value fl n)
      → eval_expr fl fields r ≡ checked (int_value fl 0)
      → FloatNegates fields l
      → FloatNegates fields r
      → depth fl (expr_binary op_div l r) ≤ 16
      → (eval_expr fl fields (expr_binary op_div l r) ≡ failed division_by_zero)
        × (use_plan fl (compiled (expr_binary op_div l r)) fields ≡ fast (int_value fl n))
  unfolding eval_expr checked_binary
  division_by_zero_lem l r fields n p q g g' d =
      let (ls, bl, wl) = value_of-eval_expr fields l (int_value fl n) g p in
      let (rs, br, wr) = value_of-eval_expr fields r (int_value fl 0) g' q in
      (
        rw (p, q) refl,
        compiled_use (expr_binary op_div l r) (ls ++ (rs ++ do_binary op_div ∷ [])) fields
            (int_value fl n) (binary_built l r ls rs bl br) (divided fields l r n wl wr) d,
      )
