-- ===== src/Value/FastMethod/Machine.antt =====
-- The stack machine against a reading of the expression tree.
use polyloft_bvm.Prelude.{
  ℕ, suc, ◌+◌, ◌≤◌, ◌<◌, ◌≡◌, refl, sym, ◌∙◌, ap, true, false, ◌==◌, leb, ◌-◌, List, [], ◌∷◌, ◌++◌,
  Option, none, some, max, length, get_elem?, get_elem?-set, get_elem?-set_other, set, length-set,
  arith, lt→ltb, ltb,
}
use mathlib.Core.Path.{subst}
use polyloft_bvm.Value.{Float64, Value}
use polyloft_bvm.Value.FastMethod.{
  ArithOp, do_binary, FastMethodExpr, expr_number, expr_literal, expr_param, expr_field,
  expr_negate, expr_binary, FastMethodOp, push_const, push_field, do_negate, do_binary, Stack,
  number_const, build_postfix, push, negated, combined, run_op, run_ops, ◌>>=◌,
}

pub bind_some :
    {A B : Type 0} (o : Option A) (f : A → Option B) (b : B)
    → (o >>= f) ≡ some b
    → (a : A) × (o ≡ some a) × (f a ≡ some b)
bind_some none f b e = absurd (cc)
bind_some (some a) f b e = (a, refl, e)

module _ (fl : Float64) {O : Type 0} where
  -- The value of an expression as the instructions compute it, without a stack.
  unfoldable pub value_of : List (Value fl.F O) → FastMethodExpr fl.F O → Option (Value fl.F O)
  value_of fields (expr_number n) = some (number_const fl n)
  value_of fields (expr_literal v) = some v
  value_of fields (expr_param i) = none
  value_of fields (expr_field i) = get_elem? fields i
  value_of fields (expr_negate e) = do a ← value_of fields e; some (negated fl a)
  value_of fields (expr_binary o l r) = do
    a ← value_of fields l
    b ← value_of fields r
    some (combined fl o a b)

  -- The slots that an expression needs.
  unfoldable pub depth : FastMethodExpr fl.F O → ℕ
  depth (expr_negate e) = depth e
  depth (expr_binary o l r) = max (depth l) (suc (depth r))
  depth _ = 1

  pub depth_pos : (e : FastMethodExpr fl.F O) → 1 ≤ depth e
  unfolding depth
  depth_pos (expr_number n) = omega arith
  depth_pos (expr_literal v) = omega arith
  depth_pos (expr_param i) = omega arith
  depth_pos (expr_field i) = omega arith
  depth_pos (expr_negate e) = depth_pos e
  depth_pos (expr_binary o l r) = omega (arith, depth_pos l)

  -- `t` is `s` with `v` pushed: slots above it do not matter.
  abbrev pub Pushed : Stack fl.F O → Value fl.F O → Stack fl.F O → Type 0
  Pushed s v t =
      (t.sp ≡ suc s.sp)
      × (length t.slots ≡ length s.slots)
      × (get_elem? t.slots s.sp ≡ some v)
      × ((i : ℕ) → i < s.sp → get_elem? t.slots i ≡ get_elem? s.slots i)

  push-Pushed :
      (s : Stack fl.F O) (v : Value fl.F O)
      → s.sp < length s.slots
      → (t : Stack fl.F O) × (push fl v s ≡ some t) × Pushed s v t
  push-Pushed s v h =
      let e : ltb s.sp (length s.slots) ≡ true = lt→ltb s.sp (length s.slots) h in
      (
        record { slots = set s.slots s.sp v; sp = suc s.sp },
        rw e refl,
        (
          refl,
          length-set s.slots s.sp v,
          get_elem?-set s.slots s.sp v h,
          λ i lt. get_elem?-set_other s.slots s.sp i v (λ e. omega (arith, lt, e)),
        ),
      )

  pub run_ops-append :
      (fields : List (Value fl.F O)) (xs ys : List (FastMethodOp fl.F O)) (s : Stack fl.F O)
      → run_ops fl fields (xs ++ ys) s ≡ (run_ops fl fields xs s >>= run_ops fl fields ys)
  unfolding run_ops
  run_ops-append fields [] ys s = refl
  run_ops-append fields (x ∷ xs) ys s =
      elim (run_op fl fields x s)
        as (λ o.
          (o >>= run_ops fl fields (xs ++ ys))
          ≡ (o >>= run_ops fl fields xs >>= run_ops fl fields ys)) [
            | none ↦ refl
            | some t ↦ run_ops-append fields xs ys t
          ]

  unfoldable pub Runs :
      List (Value fl.F O) → List (FastMethodOp fl.F O) → Value fl.F O → Stack fl.F O → Type 0
  Runs fields ops v s = (t : Stack fl.F O) × (run_ops fl fields ops s ≡ some t) × Pushed s v t

  run_one-Runs :
      (fields : List (Value fl.F O)) (o : FastMethodOp fl.F O) (v : Value fl.F O) (s : Stack fl.F O)
      → ((t : Stack fl.F O) × (run_op fl fields o s ≡ some t) × Pushed s v t)
      → Runs fields (o ∷ []) v s
  unfolding Runs run_ops
  run_one-Runs fields o v s (t, e, h) = (t, rw e refl, h)

  -- An instruction that replaces the top of the stack.
  negate-Runs :
      (fields : List (Value fl.F O)) (ops : List (FastMethodOp fl.F O)) (v : Value fl.F O)
      (s : Stack fl.F O)
      → s.sp < length s.slots
      → Runs fields ops v s
      → Runs fields (ops ++ do_negate ∷ []) (negated fl v) s
  unfolding Runs run_ops run_op
  negate-Runs fields ops v s room (t, e, (sp, len, top, below)) =
      let z : (t.sp == 0) ≡ false = ground arith in
      let i : t.sp - 1 ≡ s.sp = omega (arith, sp) in
      (
        record t { slots = set t.slots s.sp (negated fl v) },
        run_ops-append fields ops (do_negate ∷ []) s ∙ rw (e, z, i, top) refl,
        (
          sp,
          length-set t.slots s.sp (negated fl v) ∙ len,
          get_elem?-set t.slots s.sp (negated fl v) (omega (arith, len, room)),
          λ j lt.
              get_elem?-set_other t.slots s.sp j (negated fl v) (λ q. omega (arith, q, lt))
              ∙ below j lt,
        ),
      )

  binary-Runs :
      (fields : List (Value fl.F O)) (o : ArithOp) (ls rs : List (FastMethodOp fl.F O))
      (a b : Value fl.F O) (s : Stack fl.F O)
      → s.sp < length s.slots
      → Runs fields ls a s
      → ((t : Stack fl.F O) → Pushed s a t → Runs fields rs b t)
      → Runs fields (ls ++ (rs ++ do_binary o ∷ [])) (combined fl o a b) s
  unfolding Runs run_ops run_op
  binary-Runs fields o ls rs a b s room (t, e, h) right =
      let (u, e', (sp, len, top, below)) = right t h in
      let c = combined fl o a b in
      let z : leb u.sp 1 ≡ false = ground (arith, sp, h.0) in
      let i : u.sp - 2 ≡ s.sp = omega (arith, sp, h.0) in
      let j : u.sp - 1 ≡ t.sp = omega (arith, sp) in
      let l : get_elem? u.slots s.sp ≡ some a = below s.sp (omega (arith, h.0)) ∙ h.2 in
      (
        record { slots = set u.slots s.sp c; sp = t.sp },
        run_ops-append fields ls (rs ++ do_binary o ∷ []) s
            ∙ rw e (run_ops-append fields rs (do_binary o ∷ []) t ∙ rw (e', z, i, j, l, top) refl),
        (
          h.0,
          length-set u.slots s.sp c ∙ len ∙ h.1,
          get_elem?-set u.slots s.sp c (omega (arith, len, h.1, room)),
          λ k lt.
              get_elem?-set_other u.slots s.sp k c (λ q. omega (arith, q, lt))
              ∙ below k (omega (arith, lt, h.0))
              ∙ h.3 k lt,
        ),
      )

  push-Runs :
      (fields : List (Value fl.F O)) (o : FastMethodOp fl.F O) (ops : List (FastMethodOp fl.F O))
      (v : Value fl.F O) (s : Stack fl.F O)
      → some (o ∷ []) ≡ some ops
      → run_op fl fields o s ≡ push fl v s
      → s.sp + 1 ≤ length s.slots
      → Runs fields ops v s
  push-Runs fields o ops v s p q h =
      let e : o ∷ [] ≡ ops = cc in
      let (t, f, g) = push-Pushed s v (omega (arith, h)) in
      subst (λ os. Runs fields os v s) e (run_one-Runs fields o v s (t, q ∙ f, g))

  pub binary_built :
      (o : ArithOp) (l r : FastMethodExpr fl.F O) (ops : List (FastMethodOp fl.F O))
      → build_postfix fl (expr_binary o l r) ≡ some ops
      → (ls rs : List (FastMethodOp fl.F O)) × (build_postfix fl l ≡ some ls)
        × (build_postfix fl r ≡ some rs)
        × (ls ++ (rs ++ do_binary o ∷ []) ≡ ops)
  unfolding build_postfix
  binary_built o l r ops p =
      let (ls, p1, p2) =
        bind_some (build_postfix fl l)
          (λ ls. build_postfix fl r >>= (λ rs. some (ls ++ (rs ++ do_binary o ∷ [])))) ops p in
      let (rs, p3, p4) =
        bind_some (build_postfix fl r) (λ rs. some (ls ++ (rs ++ do_binary o ∷ []))) ops p2 in
      (ls, rs, p1, p3, cc)

  pub binary_valued :
      (fields : List (Value fl.F O)) (o : ArithOp) (l r : FastMethodExpr fl.F O) (v : Value fl.F O)
      → value_of fields (expr_binary o l r) ≡ some v
      → (a b : Value fl.F O) × (value_of fields l ≡ some a)
        × (value_of fields r ≡ some b)
        × (combined fl o a b ≡ v)
  unfolding value_of
  binary_valued fields o l r v q =
      let (a, q1, q2) =
        bind_some (value_of fields l) (λ a. value_of fields r >>= (λ b. some (combined fl o a b))) v
          q in
      let (b, q3, q4) = bind_some (value_of fields r) (λ b. some (combined fl o a b)) v q2 in
      (a, b, q1, q3, cc)

  pub compiled-Runs :
      (fields : List (Value fl.F O)) (e : FastMethodExpr fl.F O) (ops : List (FastMethodOp fl.F O))
      (v : Value fl.F O) (s : Stack fl.F O)
      → build_postfix fl e ≡ some ops
      → value_of fields e ≡ some v
      → s.sp + depth e ≤ length s.slots
      → Runs fields ops v s
  unfolding build_postfix value_of depth run_op
  compiled-Runs fields (expr_number n) ops v s p q h =
      push-Runs fields (push_const (number_const fl n)) ops v s p (ap (λ w. push fl w s) (cc)) h
  compiled-Runs fields (expr_literal w) ops v s p q h =
      push-Runs fields (push_const w) ops v s p (ap (λ x. push fl x s) (cc)) h
  compiled-Runs fields (expr_param i) ops v s p q h = absurd (cc)
  compiled-Runs fields (expr_field i) ops v s p q h =
      push-Runs fields (push_field i) ops v s p (rw q refl) h
  compiled-Runs fields (expr_negate e) ops v s p q h =
      let (xs, p', p'') =
        bind_some (build_postfix fl e) (λ xs. some (xs ++ do_negate ∷ [])) ops p in
      let (a, q', q'') = bind_some (value_of fields e) (λ a. some (negated fl a)) v q in
      let x : xs ++ do_negate ∷ [] ≡ ops = cc in
      let y : negated fl a ≡ v = cc in
      rw (sym x, sym y)
        (negate-Runs fields xs a s (omega (arith, h, depth_pos e))
          (compiled-Runs fields e xs a s p' q' h))
  compiled-Runs fields (expr_binary o l r) ops v s p q h =
      let (ls, rs, p1, p3, x) = binary_built o l r ops p in
      let (a, b, q1, q3, y) = binary_valued fields o l r v q in
      rw (sym x, sym y)
        (binary-Runs fields o ls rs a b s (omega (arith, h, depth_pos l))
          (compiled-Runs fields l ls a s p1 q1 (omega (arith, h)))
          (λ t g. compiled-Runs fields r rs b t p3 q3 (omega (arith, h, g.0, g.1))))
