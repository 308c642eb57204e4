-- ===== src/Vm/Jumps.antt =====
-- internal/vm/vm.go: the opcodes that read and set locals, compare numbers and jump on the result, and the fused
-- jumps on two locals. The unboxing of instances (`numericOperand` and `booleanOperand` on an object) is
-- an argument, no local has a string buffer, and the recycling of instances (`tryRecycleLocal`) is left
-- out.
pub mod Fused
pub mod Captured
use polyloft_bvm.Prelude.{
  ℕ, zero, suc, ◌+◌, ◌*◌, ◌%◌, ◌^◌, Bool, true, false, not, ◌&&◌, List, [], ◌∷◌, Option, none, some,
  get_elem?, set, ltb, ◌==◌, if◌then◌else◌,
}
use polyloft_bvm.Value.{
  Float64, Kind, nil, number, boolean, char, string, object, Value, bool_value, is_number, is_int,
  is_bool,
}
use polyloft_bvm.Bytecode.Opcode.{
  op_get_local, op_set_local, op_less_num, op_greater_num, op_jump_if_false_pop,
  op_jump_if_true_pop, op_jump_if_local_gt_local_true, op_jump_if_local_lt_local_false,
  op_jump_if_local_gt_local_false, op_jump_if_local_lt_local_true,
}

-- The frame, with the values below the stack pointer, the top first. `local_refs` holds the values of the
-- cells of captured locals.
pub record Frame (F O : Type 0) : Type 0 where
  pub ip : ℕ
  pub locals : List (Value F O)
  pub local_refs : ℕ → Option (Value F O)
  pub has_cells : Bool
  pub stack : List (Value F O)

-- `raised` is the error that `handleRaised` gets, `refused` an error that is returned at once; `panicked`
-- is an index out of range, and `elsewhere` an opcode that is not modelled here.
pub data Run (A : Type 0) : Type 0 where
  running : A → Run A
  raised refused panicked elsewhere : Run A

infixl 40 ◌>>=◌
abbrev pub ◌>>=◌ : {A B : Type 0} → Run A → (A → Run B) → Run B
running a >>= f = f a
raised >>= f = raised
refused >>= f = refused
panicked >>= f = panicked
elsewhere >>= f = elsewhere

abbrev pub in_range : {A : Type 0} → Option A → Run A
in_range none = panicked
in_range (some a) = running a

abbrev pub before_end : {A : Type 0} → Option A → Run A
before_end none = raised
before_end (some a) = running a

-- `<` on int64, on 64-bit patterns.
abbrev pub less64 : ℕ → ℕ → Bool
less64 a b = ltb ((a + 2 ^ 63) % 2 ^ 64) ((b + 2 ^ 63) % 2 ^ 64)

-- `IsTruthy`.
abbrev pub is_truthy : {F O : Type 0} → Value F O → Bool
is_truthy v = elim v.kind [ nil ↦ false | boolean ↦ v.bool | _ ↦ true ]

abbrev pub jump_by : {F O : Type 0} → Bool → ℕ → Frame F O → Frame F O
jump_by taken offset f = if taken then record f { ip = f.ip + offset } else f

-- The cell of a slot gets a value.
abbrev pub set_cell :
    {F O : Type 0} → ℕ → Value F O → (ℕ → Option (Value F O)) → ℕ → Option (Value F O)
set_cell slot v refs n = if n == slot then some v else refs n

-- `lt` and `le` are `<` and `<=` on float64; `a > b` is `b < a`.
module _ (fl : Float64) {O : Type 0} (lt le : fl.F → fl.F → Bool) (unbox_number : O → Option fl.F)
    (unbox_bool : O → Option Bool) where
  abbrev pub unboxed {ℓ} : {A : Type ℓ} → (O → Option A) → Option O → Option A
  unboxed f none = none
  unboxed f (some o) = f o

  abbrev pub numeric_operand : Value fl.F O → Option fl.F
  numeric_operand v = if is_number v then some v.num else unboxed unbox_number v.obj

  abbrev pub boolean_operand : Value fl.F O → Option Bool
  boolean_operand v = if is_bool v then some v.bool else unboxed unbox_bool v.obj

  abbrev pub condition : Value fl.F O → Bool
  condition v = elim (boolean_operand v) [ some b ↦ b | none ↦ is_truthy v ]

  -- `localGet` and `localGetSlow`.
  unfoldable pub local_get : Frame fl.F O → ℕ → Run (Value fl.F O)
  local_get f slot =
      if f.has_cells
      then elim (f.local_refs slot) [
        | some v ↦ running v
        | none ↦ in_range (get_elem? f.locals slot)
      ]
      else in_range (get_elem? f.locals slot)

  abbrev pub read_byte : List ℕ → Frame fl.F O → Run (ℕ × Frame fl.F O)
  read_byte code f = in_range (get_elem? code f.ip) >>= λ b. running (b, record f { ip = f.ip + 1 })

  abbrev pub read_u16 : List ℕ → Frame fl.F O → Run (ℕ × Frame fl.F O)
  read_u16 code f = in_range (get_elem? code f.ip) >>= λ hi.
      in_range (get_elem? code (f.ip + 1)) >>= λ lo.
      running (256 * hi + lo, record f { ip = f.ip + 2 })

  unfoldable pub get_local : List ℕ → Frame fl.F O → Run (Frame fl.F O)
  get_local code f = read_byte code f >>= λ r.
      local_get r.1 r.0 >>= λ v. running (record r.1 { stack = v ∷ r.1.stack })

  abbrev pub set_frame_local : Frame fl.F O → ℕ → Value fl.F O → Run (Frame fl.F O)
  set_frame_local f slot v = in_range (get_elem? f.locals slot) >>= λ w.
      running (record f { locals = set f.locals slot v })

  -- `localSet` and `localSetSlow`.
  unfoldable pub local_set : Frame fl.F O → ℕ → Value fl.F O → Run (Frame fl.F O)
  local_set f slot v =
      if f.has_cells
      then elim (f.local_refs slot) [
        | some w ↦ running (record f { local_refs = set_cell slot v f.local_refs })
        | none ↦ set_frame_local f slot v
      ]
      else set_frame_local f slot v

  unfoldable pub set_local : List ℕ → Frame fl.F O → Run (Frame fl.F O)
  set_local code f = read_byte code f >>= λ r. elim r.1.stack [
    | [] ↦ panicked
    | v ∷ below ↦ local_set (record r.1 { stack = below }) r.0 v
  ]

  -- `<` of two operands, or `>` if `greater`: on int64 if both are integers.
  abbrev pub compared : Bool → Value fl.F O → Value fl.F O → Bool
  compared greater l r =
      if is_int l && is_int r
      then (if greater then less64 r.int l.int else less64 l.int r.int)
      else (if greater then lt r.num l.num else lt l.num r.num)

  -- The rest of `binaryNumericCompareOp`, for operands that are not two numbers.
  abbrev pub compare_slow : Bool → Option fl.F → Option fl.F → Run (Value fl.F O)
  compare_slow greater none r = refused
  compare_slow greater (some l) none = refused
  compare_slow greater (some l) (some r) =
      running (bool_value fl (if greater then lt r l else lt l r))

  -- What OpLessNum and OpGreaterNum leave in place of the operands; two numbers leave the left one as a
  -- Boolean.
  unfoldable pub compare_values : Bool → Value fl.F O → Value fl.F O → Run (Value fl.F O)
  compare_values greater l r =
      if is_number l && is_number r
      then running (record l { kind = boolean; bool = compared greater l r })
      else compare_slow greater (numeric_operand l) (numeric_operand r)

  unfoldable pub compare_nums : Bool → Frame fl.F O → Run (Frame fl.F O)
  compare_nums greater f = elim f.stack [
    | [] ↦ panicked
    | r ∷ rs ↦ elim rs [
      | [] ↦ panicked
      | l ∷ below ↦ compare_values greater l r >>= λ v. running (record f { stack = v ∷ below })
    ]
  ]

  -- OpJumpIfTruePop if `want`, OpJumpIfFalsePop otherwise.
  unfoldable pub jump_pop : Bool → List ℕ → Frame fl.F O → Run (Frame fl.F O)
  jump_pop want code f = read_u16 code f >>= λ r. elim r.1.stack [
    | [] ↦ panicked
    | v ∷ below ↦ running (
        jump_by (if want then condition v else not (condition v)) r.0
          (record r.1 { stack = below }))
  ]

  -- The four fused jumps, with their tests of the two numbers.
  unfoldable pub fused_jump : (fl.F → fl.F → Bool) → List ℕ → Frame fl.F O → Run (Frame fl.F O)
  fused_jump test code f = read_byte code f >>= λ a. read_byte code a.1 >>= λ b.
      read_u16 code b.1 >>= λ r. in_range (get_elem? f.locals a.0) >>= λ x.
      in_range (get_elem? f.locals b.0) >>= λ y. running (jump_by (test x.num y.num) r.0 r.1)

  unfoldable pub dispatch : ℕ → List ℕ → Frame fl.F O → Run (Frame fl.F O)
  dispatch op code f =
      if op == op_get_local
      then get_local code f
      else if op == op_set_local
      then set_local code f
      else if op == op_less_num
      then compare_nums false f
      else if op == op_greater_num
      then compare_nums true f
      else if op == op_jump_if_false_pop
      then jump_pop false code f
      else if op == op_jump_if_true_pop
      then jump_pop true code f
      else if op == op_jump_if_local_gt_local_true
      then fused_jump (λ x y. lt y x) code f
      else if op == op_jump_if_local_lt_local_false
      then fused_jump (λ x y. le y x) code f
      else if op == op_jump_if_local_gt_local_false
      then fused_jump (λ x y. le x y) code f
      else if op == op_jump_if_local_lt_local_true
      then fused_jump (λ x y. lt x y) code f
      else elsewhere

  -- One round of the loop of `executeUntilDepth`, which raises an error at the end of the code.
  unfoldable pub step : List ℕ → Frame fl.F O → Run (Frame fl.F O)
  step code f =
      before_end (get_elem? code f.ip) >>= λ op. dispatch op code (record f { ip = f.ip + 1 })

  unfoldable pub steps : ℕ → List ℕ → Frame fl.F O → Run (Frame fl.F O)
  steps zero code f = running f
  steps (suc n) code f = step code f >>= λ g. steps n code g
