-- ===== src/Value/FastMethod/Depth.antt =====
-- The stack of 16 values: when it is enough, and the panic when it is not.
use polyloft_bvm.Prelude.{
  ◌+◌, ◌<◌, ◌≡◌, refl, sym, ◌∙◌, ap, false, leb, leb→le, inl, inr, Bool-cases, List, [], ◌∷◌, ◌++◌,
  none, some, length, get_or-some, replicate, arith, ltb, if◌then◌else◌,
}
use mathlib.Core.Path.{subst}
use polyloft_bvm.Value.{Float64, Value, nil_value}
use polyloft_bvm.Value.FastMethod.{
  FastMethodExpr, expr_number, expr_literal, expr_param, expr_field, expr_negate, expr_binary,
  FastMethodOp, push_const, push_field, do_negate, do_binary, Stack, number_const, build_postfix,
  push, negated, run_op, run_ops, eval_ops,
}
use polyloft_bvm.Value.FastMethod.Machine.{
  value_of, depth, bind_some, run_ops-append, Runs, binary_built, binary_valued, compiled-Runs,
}

module _ (fl : Float64) {O : Type 0} where
  run_none-append :
      (fields : List (Value fl.F O)) (xs ys : List (FastMethodOp fl.F O)) (s : Stack fl.F O)
      → run_ops fl fields xs s ≡ none
      → run_ops fl fields (xs ++ ys) s ≡ none
  run_none-append fields xs ys s e = run_ops-append fl fields xs ys s ∙ rw e refl

  push_full :
      (fields : List (Value fl.F O)) (o : FastMethodOp fl.F O) (ops : List (FastMethodOp fl.F O))
      (v : Value fl.F O) (s : Stack fl.F O)
      → some (o ∷ []) ≡ some ops
      → run_op fl fields o s ≡ push fl v s
      → length s.slots < s.sp + 1
      → run_ops fl fields ops s ≡ none
  unfolding run_ops
  push_full fields o ops v s p q h =
      let e : o ∷ [] ≡ ops = cc in
      let z : ltb s.sp (length s.slots) ≡ false = ground arith in
      subst (λ os. run_ops fl fields os s ≡ none) e (rw (q, z) refl)

  compiled_overflow :
      (fields : List (Value fl.F O)) (e : FastMethodExpr fl.F O) (ops : List (FastMethodOp fl.F O))
      (v : Value fl.F O) (s : Stack fl.F O)
      → build_postfix fl e ≡ some ops
      → value_of fl fields e ≡ some v
      → length s.slots < s.sp + depth fl e
      → run_ops fl fields ops s ≡ none
  unfolding build_postfix value_of depth run_op Runs
  compiled_overflow fields (expr_number n) ops v s p q h =
      push_full fields (push_const (number_const fl n)) ops v s p (ap (λ w. push fl w s) (cc)) h
  compiled_overflow fields (expr_literal w) ops v s p q h =
      push_full fields (push_const w) ops v s p (ap (λ x. push fl x s) (cc)) h
  compiled_overflow fields (expr_param i) ops v s p q h = absurd (cc)
  compiled_overflow fields (expr_field i) ops v s p q h =
      push_full fields (push_field i) ops v s p (rw q refl) h
  compiled_overflow fields (expr_negate e) ops v s p q h =
      let (xs, p', p'') =
        bind_some (build_postfix fl e) (λ xs. some (xs ++ do_negate ∷ [])) ops p in
      let (a, q', q'') = bind_some (value_of fl fields e) (λ a. some (negated fl a)) v q in
      let x : xs ++ do_negate ∷ [] ≡ ops = cc in
      rw (sym x)
        (run_none-append fields xs (do_negate ∷ []) s (compiled_overflow fields e xs a s p' q' h))
  compiled_overflow fields (expr_binary o l r) ops v s p q h =
      let (ls, rs, p1, p3, x) = binary_built fl o l r ops p in
      let (a, b, q1, q3, y) = binary_valued fl fields o l r v q in
      rw (sym x) (elim (Bool-cases (leb (s.sp + depth fl l) (length s.slots))) [
        | inl le ↦
            let fits = leb→le (s.sp + depth fl l) (length s.slots) le in
            let (t, f, g) = compiled-Runs fl fields l ls a s p1 q1 fits in
            run_ops-append fl fields ls (rs ++ do_binary o ∷ []) s
            ∙ rw f (
                run_none-append fields rs (do_binary o ∷ []) t
                  (compiled_overflow fields r rs b t p3 q3 (omega (arith, fits, h, g.0, g.1))))
        | inr gt ↦
            let full : length s.slots < s.sp + depth fl l = ground arith in
            run_none-append fields ls (rs ++ do_binary o ∷ []) s
              (compiled_overflow fields l ls a s p1 q1 full)
      ])

  -- `EvalOps` on the sequence that `buildPostfix` makes of an expression computes the value of the
  -- expression when the expression needs at most 16 slots, and panics when it needs more.
  pub eval_ops-build_postfix :
      (e : FastMethodExpr fl.F O) (ops : List (FastMethodOp fl.F O)) (fields : List (Value fl.F O))
      (v : Value fl.F O)
      → build_postfix fl e ≡ some ops
      → value_of fl fields e ≡ some v
      → eval_ops fl ops fields ≡ (if leb (depth fl e) 16 then some v else none)
  unfolding eval_ops Runs
  eval_ops-build_postfix e ops fields v p q =
      let s : Stack fl.F O = record { slots = replicate 16 (nil_value fl); sp = 0 } in
      elim (Bool-cases (leb (depth fl e) 16)) [
        | inl le ↦
            let (t, f, g) =
              compiled-Runs fl fields e ops v s p q (omega (arith, leb→le (depth fl e) 16 le)) in
            rw (le, f, g.0) (ap some (get_or-some t.slots 0 (nil_value fl) v g.2))
        | inr gt ↦
            let more : 16 < depth fl e = ground arith in
            let over : length s.slots < s.sp + depth fl e = omega (arith, more) in
            rw (gt, compiled_overflow fields e ops v s p q over) refl
      ]
