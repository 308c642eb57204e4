-- ===== src/Vm/Jumps/Fused.antt =====
-- The fused jumps against the instructions that they replace.
use polyloft_bvm.Prelude.{
  ℕ, suc, ◌+◌, ◌*◌, ◌≡◌, refl, sym, ◌∙◌, if_case, Bool, true, false, not, ◌&&◌, List, [], ◌∷◌,
  Option, some, get_elem?, if◌then◌else◌, arith,
}
use polyloft_bvm.Value.{Float64, Value, boolean, is_number, is_int}
use polyloft_bvm.Bytecode.Opcode.{op_get_local}
use polyloft_bvm.Compiler.Emit.{local_local_op}
use polyloft_bvm.Compiler.Emit.Fusion.{compare_op, jump_op}
use polyloft_bvm.Vm.Jumps.{
  Frame, Run, running, less64, get_local, compared, compare_values, compare_nums, jump_by, jump_pop,
  fused_jump, dispatch, step, steps, local_get, condition,
}

module _ (fl : Float64) {O : Type 0} (lt le : fl.F → fl.F → Bool) (unbox_number : O → Option fl.F)
    (unbox_bool : O → Option Bool) where
  -- Two numbers of which neither is NaN, and integers that float64 orders as int64 does.
  pub record Ordered (x y : Value fl.F O) : Type 0 where
    pub left : is_number x ≡ true
    pub right : is_number y ≡ true
    pub le_is : le x.num y.num ≡ not (lt y.num x.num)
    pub ge_is : le y.num x.num ≡ not (lt x.num y.num)
    pub exact_less : (is_int x && is_int y) ≡ true → less64 x.int y.int ≡ lt x.num y.num
    pub exact_greater : (is_int x && is_int y) ≡ true → less64 y.int x.int ≡ lt y.num x.num

  compared_num :
      (greater : Bool) (x y : Value fl.F O)
      → Ordered x y
      → compared fl lt le unbox_number unbox_bool greater x y
        ≡ (if greater then lt y.num x.num else lt x.num y.num)
  compared_num true x y h =
      if_case (λ c. c ≡ lt y.num x.num) (is_int x && is_int y) (λ t. h.exact_greater t) (λ t. refl)
  compared_num false x y h =
      if_case (λ c. c ≡ lt x.num y.num) (is_int x && is_int y) (λ t. h.exact_less t) (λ t. refl)

  abbrev pub step_ : List ℕ → Frame fl.F O → Run (Frame fl.F O)
  step_ = step fl lt le unbox_number unbox_bool

  -- A local is read as before when the frame has another place in the code and another stack.
  pub local_get_moved :
      (f : Frame fl.F O) (a i : ℕ) (stack : List (Value fl.F O))
      → local_get fl lt le unbox_number unbox_bool (record f { ip = i; stack = stack }) a
        ≡ local_get fl lt le unbox_number unbox_bool f a
  unfolding local_get
  local_get_moved f a i stack = refl

  pub local_get-locals :
      (f : Frame fl.F O) (a : ℕ) (x : Value fl.F O)
      → f.has_cells ≡ false
      → get_elem? f.locals a ≡ some x
      → local_get fl lt le unbox_number unbox_bool f a ≡ running x
  unfolding local_get
  local_get-locals f a x c u = rw (c, u) refl

  -- The instructions one by one, at a frame `f`, with the places of their bytes named.
  get_local_step :
      (code : List ℕ) (f : Frame fl.F O) (a k j : ℕ) (x : Value fl.F O)
      → get_elem? code f.ip ≡ some op_get_local
      → k ≡ f.ip + 1
      → get_elem? code k ≡ some a
      → j ≡ f.ip + 2
      → local_get fl lt le unbox_number unbox_bool f a ≡ running x
      → step_ code f ≡ running (record f { ip = j; stack = x ∷ f.stack })
  unfolding step dispatch get_local
  get_local_step code f a k j x o e b i v =
      let q : k + 1 ≡ j = omega (arith, i, e) in
      let there = local_get_moved f a (k + 1) f.stack in rw (o, sym e, b, there, v, q) refl

  -- The value that the comparison leaves.
  abbrev outcome : Bool → Value fl.F O → Value fl.F O → Value fl.F O
  outcome greater x y = record x {
    kind = boolean;
    bool = (if greater then lt y.num x.num else lt x.num y.num);
  }

  compare_step :
      (greater : Bool) (code : List ℕ) (f : Frame fl.F O) (j : ℕ) (x y : Value fl.F O)
      (below : List (Value fl.F O))
      → get_elem? code f.ip ≡ some (compare_op greater)
      → j ≡ f.ip + 1
      → f.stack ≡ y ∷ x ∷ below
      → Ordered x y
      → step_ code f ≡ running (record f { ip = j; stack = outcome greater x y ∷ below })
  unfolding step dispatch compare_nums compare_values
  compare_step true code f j x y below o e s h =
      rw (o, s, h.left, h.right, compared_num true x y h, sym e) refl
  compare_step false code f j x y below o e s h =
      rw (o, s, h.left, h.right, compared_num false x y h, sym e) refl

  jump_step :
      (want : Bool) (code : List ℕ) (f : Frame fl.F O) (hi lo k i j : ℕ) (v : Value fl.F O)
      (below : List (Value fl.F O))
      → get_elem? code f.ip ≡ some (jump_op want)
      → k ≡ f.ip + 1
      → get_elem? code k ≡ some hi
      → i ≡ k + 1
      → get_elem? code i ≡ some lo
      → j ≡ f.ip + 3
      → f.stack ≡ v ∷ below
      → step_ code f
        ≡ running (
            jump_by
              (if want
                then condition fl lt le unbox_number unbox_bool v
                else not (condition fl lt le unbox_number unbox_bool v))
              (256 * hi + lo)
              (record f { ip = j; stack = below }))
  unfolding step dispatch jump_pop
  jump_step true code f hi lo k i j v below o e b e' b' c s =
      let q : k + 2 ≡ j = omega (arith, c, e) in rw (o, sym e, b, sym e', b', s, q) refl
  jump_step false code f hi lo k i j v below o e b e' b' c s =
      let q : k + 2 ≡ j = omega (arith, c, e) in rw (o, sym e, b, sym e', b', s, q) refl

  -- Whether the comparison of two numbers is what the jump wants.
  abbrev pub taken : Bool → Bool → Value fl.F O → Value fl.F O → Bool
  taken greater want x y =
      let c = if greater then lt y.num x.num else lt x.num y.num in if want then c else not c

  pub fused_step :
      (greater want : Bool) (code : List ℕ) (f : Frame fl.F O) (a b hi lo k l m n j : ℕ)
      (x y : Value fl.F O)
      → get_elem? code f.ip ≡ some (local_local_op (compare_op greater) (jump_op want))
      → k ≡ f.ip + 1
      → get_elem? code k ≡ some a
      → l ≡ k + 1
      → get_elem? code l ≡ some b
      → m ≡ l + 1
      → get_elem? code m ≡ some hi
      → n ≡ m + 1
      → get_elem? code n ≡ some lo
      → j ≡ f.ip + 5
      → get_elem? f.locals a ≡ some x
      → get_elem? f.locals b ≡ some y
      → Ordered x y
      → step_ code f
        ≡ running (jump_by (taken greater want x y) (256 * hi + lo) (record f { ip = j }))
  unfolding step dispatch fused_jump
  fused_step true true code f a b hi lo k l m n j x y o e p e1 p1 e2 p2 e3 p3 c u v h =
      let q : m + 2 ≡ j = omega (arith, c, e, e1, e2) in
      rw (o, sym e, p, sym e1, p1, sym e2, p2, sym e3, p3, u, v, q) refl
  fused_step true false code f a b hi lo k l m n j x y o e p e1 p1 e2 p2 e3 p3 c u v h =
      let q : m + 2 ≡ j = omega (arith, c, e, e1, e2) in
      rw (o, sym e, p, sym e1, p1, sym e2, p2, sym e3, p3, u, v, q, h.le_is) refl
  fused_step false true code f a b hi lo k l m n j x y o e p e1 p1 e2 p2 e3 p3 c u v h =
      let q : m + 2 ≡ j = omega (arith, c, e, e1, e2) in
      rw (o, sym e, p, sym e1, p1, sym e2, p2, sym e3, p3, u, v, q) refl
  fused_step false false code f a b hi lo k l m n j x y o e p e1 p1 e2 p2 e3 p3 c u v h =
      let q : m + 2 ≡ j = omega (arith, c, e, e1, e2) in
      rw (o, sym e, p, sym e1, p1, sym e2, p2, sym e3, p3, u, v, q, h.ge_is) refl

  -- The code `op` at a place: its bytes in order.
  abbrev pub Bytes : List ℕ → ℕ → List ℕ → Type 0
  Bytes code ip [] = Unit {0}
  Bytes code ip (c ∷ cs) = (get_elem? code ip ≡ some c) × Bytes code (ip + 1) cs

  pub steps_next :
      (n : ℕ) (code : List ℕ) (f g : Frame fl.F O)
      → step_ code f ≡ running g
      → steps fl lt le unbox_number unbox_bool (suc n) code f
        ≡ steps fl lt le unbox_number unbox_bool n code g
  unfolding steps
  steps_next n code f g e = rw e refl

  pub four_steps :
      (greater want : Bool) (code : List ℕ) (f : Frame fl.F O) (a b hi lo : ℕ) (x y : Value fl.F O)
      → local_get fl lt le unbox_number unbox_bool f a ≡ running x
      → local_get fl lt le unbox_number unbox_bool f b ≡ running y
      → Ordered x y
      → Bytes code f.ip
          (op_get_local ∷ a ∷ op_get_local ∷ b ∷ compare_op greater ∷ jump_op want ∷ hi ∷ lo ∷ [])
      → steps fl lt le unbox_number unbox_bool 4 code f
        ≡ running (jump_by (taken greater want x y) (256 * hi + lo) (record f { ip = f.ip + 8 }))
  unfolding steps
  four_steps greater want code f a b hi lo x y u v h
        (o, (p, (o', (p', (oc, (oj, (q, (q', z)))))))) =
      let i2 = f.ip + 1 + 1 in
      let i4 = i2 + 1 + 1 in
      let i5 = i4 + 1 in
      let g1 : Frame fl.F O = record f { ip = i2; stack = x ∷ f.stack } in
      let g2 : Frame fl.F O = record f { ip = i4; stack = y ∷ x ∷ f.stack } in
      let g3 : Frame fl.F O = record f { ip = i5; stack = outcome greater x y ∷ f.stack } in
      steps_next 3 code f g1 (get_local_step code f a (f.ip + 1) i2 x o refl p (omega arith) u)
      ∙ steps_next 2 code g1 g2 (
          get_local_step code g1 b (i2 + 1) i4 y o' refl p' (omega arith)
            (local_get_moved f b i2 (x ∷ f.stack) ∙ v))
      ∙ steps_next 1 code g2 g3 (compare_step greater code g2 i5 x y f.stack oc refl refl h)
      ∙ steps_next 0 code g3 _ (
          jump_step want code g3 hi lo (i5 + 1) (i5 + 1 + 1) (f.ip + 8) (outcome greater x y)
            f.stack oj refl q refl q' (omega arith) refl)

  -- Where the local-local rewriting of `emitJump` has put its instruction, the machine does what the four
  -- instructions do that it replaces: both jump or neither does, by their own distances, and the stack and
  -- the locals stay. The frame has no cells, and the locals are numbers, not NaN, of which float64 keeps
  -- the order if both are integers.
  pub fused_jump_lem :
      (greater want : Bool) (code fused : List ℕ) (f : Frame fl.F O) (a b hi lo hi' lo' : ℕ)
      (x y : Value fl.F O)
      → f.has_cells ≡ false
      → get_elem? f.locals a ≡ some x
      → get_elem? f.locals b ≡ some y
      → Ordered x y
      → Bytes code f.ip
          (op_get_local ∷ a ∷ op_get_local ∷ b ∷ compare_op greater ∷ jump_op want ∷ hi ∷ lo ∷ [])
      → Bytes fused f.ip
          (local_local_op (compare_op greater) (jump_op want) ∷ a ∷ b ∷ hi' ∷ lo' ∷ [])
      → (steps fl lt le unbox_number unbox_bool 4 code f
          ≡ running (jump_by (taken greater want x y) (256 * hi + lo) (record f { ip = f.ip + 8 })))
        × (step fl lt le unbox_number unbox_bool fused f
            ≡ running
                (jump_by (taken greater want x y) (256 * hi' + lo') (record f { ip = f.ip + 5 })))
  fused_jump_lem greater want code fused f a b hi lo hi' lo' x y c u v h k
        (o, (p, (q, (r, (s, z))))) =
      (
        four_steps greater want code f a b hi lo x y (local_get-locals f a x c u)
            (local_get-locals f b y c v) h k,
        fused_step greater want fused f a b hi' lo' (f.ip + 1) (f.ip + 1 + 1) (f.ip + 1 + 1 + 1)
            (f.ip + 1 + 1 + 1 + 1) (f.ip + 5) x y o refl p refl q refl r refl s refl u v h,
      )
