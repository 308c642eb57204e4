-- ===== src/Vm/Jumps/Captured.antt =====
-- The fused jumps on a local that a closure has captured, against the instructions that they replace.
use polyloft_bvm.Prelude.{
  ℕ, ◌+◌, ◌*◌, ◌≡◌, ◌∙◌, ap, Bool, true, List, [], ◌∷◌, Option, none, some, get_elem?, arith, ◌≢◌,
  ◌==◌, false, refl,
}
use polyloft_bvm.Value.{Float64, Value}
use polyloft_bvm.Bytecode.Opcode.{op_get_local, op_set_local}
use polyloft_bvm.Compiler.Emit.{local_local_op}
use polyloft_bvm.Compiler.Emit.Fusion.{compare_op, jump_op}
use polyloft_bvm.Vm.Jumps.{
  Frame, running, local_get, local_set, set_local, set_cell, jump_by, dispatch, step, steps,
}
use polyloft_bvm.Vm.Jumps.Fused.{Ordered, Bytes, taken, step_, steps_next, four_steps, fused_step}

module _ (fl : Float64) {O : Type 0} (lt le : fl.F → fl.F → Bool) (unbox_number : O → Option fl.F)
    (unbox_bool : O → Option Bool) where
  -- A frame whose stack is `v` and the rest, and that has a cell for the local `a`.
  pub record Captures (f : Frame fl.F O) (a : ℕ) (v : Value fl.F O) (below : List (Value fl.F O))
      : Type 0 where
    pub cells : f.has_cells ≡ true
    pub held : Value fl.F O
    pub cell : f.local_refs a ≡ some held
    pub top : f.stack ≡ v ∷ below

  -- The frame after OpSetLocal: the cell has the value, and the locals are as before.
  abbrev pub after_set : Frame fl.F O → ℕ → ℕ → Value fl.F O → List (Value fl.F O) → Frame fl.F O
  after_set f ip a v below = record f {
    ip = ip;
    stack = below;
    local_refs = set_cell a v f.local_refs;
  }

  set_local_step :
      (code : List ℕ) (f : Frame fl.F O) (a j : ℕ) (v : Value fl.F O) (below : List (Value fl.F O))
      → Captures f a v below
      → get_elem? code f.ip ≡ some op_set_local
      → get_elem? code (f.ip + 1) ≡ some a
      → j ≡ f.ip + 2
      → step_ fl lt le unbox_number unbox_bool code f ≡ running (after_set f j a v below)
  unfolding step dispatch set_local local_set
  set_local_step code f a j v below h o p e =
      let q : f.ip + 1 + 1 ≡ j = omega (arith, e) in
      rw (o, p, h.top, h.cells, h.cell, q)
        (ap (λ c. running (record (after_set f j a v below) { has_cells = c })) h.cells)

  cell_get :
      (f : Frame fl.F O) (a ip : ℕ) (v : Value fl.F O) (below : List (Value fl.F O))
      → f.has_cells ≡ true
      → local_get fl lt le unbox_number unbox_bool (after_set f ip a v below) a ≡ running v
  unfolding local_get
  cell_get f a ip v below c = rw c (ground arith)

  other_get :
      (f : Frame fl.F O) (a b ip : ℕ) (v y : Value fl.F O) (below : List (Value fl.F O))
      → f.has_cells ≡ true
      → b ≢ a
      → f.local_refs b ≡ none
      → get_elem? f.locals b ≡ some y
      → local_get fl lt le unbox_number unbox_bool (after_set f ip a v below) b ≡ running y
  unfolding local_get
  other_get f a b ip v y below c ne r u =
      let d : (b == a) ≡ false = ground (arith, ne) in rw (c, d, r, u) refl

  -- A local is set and then compared with another one for a jump; the first is captured and the second is
  -- not. The unfused instructions decide by the value `v` that was set. The fused jump, which the
  -- local-local rewriting puts in their place, decides by the value `x` that the frame had for the
  -- local all the time, whatever `v` is, for each of the four fused jumps. The values are numbers, not
  -- NaN, of which float64 keeps the order if they are integers.
  pub fused_jump_stale :
      (greater want : Bool) (code fused : List ℕ) (f : Frame fl.F O) (a b hi lo hi' lo' : ℕ)
      (v x y : Value fl.F O) (below : List (Value fl.F O))
      → Captures f a v below
      → b ≢ a
      → f.local_refs b ≡ none
      → get_elem? f.locals a ≡ some x
      → get_elem? f.locals b ≡ some y
      → Ordered fl lt le unbox_number unbox_bool v y
      → Ordered fl lt le unbox_number unbox_bool x y
      → Bytes fl lt le unbox_number unbox_bool code f.ip (
          op_set_local
          ∷ a
          ∷ op_get_local
          ∷ a
          ∷ op_get_local
          ∷ b
          ∷ compare_op greater
          ∷ jump_op want
          ∷ hi
          ∷ lo
          ∷ [])
      → Bytes fl lt le unbox_number unbox_bool fused f.ip (
          op_set_local
          ∷ a
          ∷ local_local_op (compare_op greater) (jump_op want)
          ∷ a
          ∷ b
          ∷ hi'
          ∷ lo'
          ∷ [])
      → (steps fl lt le unbox_number unbox_bool 5 code f
          ≡ running (
              jump_by
                (taken fl lt le unbox_number unbox_bool greater want v y)
                (256 * hi + lo)
                (after_set f (f.ip + 10) a v below)))
        × (steps fl lt le unbox_number unbox_bool 2 fused f
            ≡ running (
                jump_by
                  (taken fl lt le unbox_number unbox_bool greater want x y)
                  (256 * hi' + lo')
                  (after_set f (f.ip + 7) a v below)))
  unfolding steps
  fused_jump_stale greater want code fused f a b hi lo hi' lo' v x y below h ne r ua ub hv hx k
        (o, (p, q)) =
      let i = f.ip + 1 + 1 in
      let g = after_set f i a v below in
      let ten : i + 8 ≡ f.ip + 10 = omega arith in
      (
        steps_next fl lt le unbox_number unbox_bool 4 code f g
              (set_local_step code f a i v below h k.0 k.1.0 (omega arith))
            ∙ four_steps fl lt le unbox_number unbox_bool greater want code g a b hi lo v y
                (cell_get f a i v below h.cells) (other_get f a b i v y below h.cells ne r ub) hv
                k.1.1
            ∙ ap
                (λ n. running (
                  jump_by (taken fl lt le unbox_number unbox_bool greater want v y) (256 * hi + lo)
                    (after_set f n a v below)))
                ten,
        steps_next fl lt le unbox_number unbox_bool 1 fused f g
              (set_local_step fused f a i v below h o p (omega arith))
            ∙ steps_next fl lt le unbox_number unbox_bool 0 fused g _ (
                fused_step fl lt le unbox_number unbox_bool greater want fused g a b hi' lo' (i + 1)
                  (i + 1 + 1) (i + 1 + 1 + 1) (i + 1 + 1 + 1 + 1) (f.ip + 7) x y q.0 refl q.1.0 refl
                  q.1.1.0 refl q.1.1.1.0 refl q.1.1.1.1.0 (omega arith) ua ub hx),
      )
