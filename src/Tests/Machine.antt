-- ===== src/Tests/Machine.antt =====
-- Fused jumps, emitted and run; a float64 is a number.
use polyloft_bvm.Prelude.{
  ℕ, ◌+◌, ◌*◌, Bool, true, false, List, [], ◌∷◌, ◌++◌, Option, none, some, ◌≡◌, refl, length, leb,
  ltb, ◌==◌, if◌then◌else◌, arith,
}
use polyloft_bvm.Bytecode.Opcode.{op_get_local, op_set_local, op_less_num, op_jump_if_true_pop}
use polyloft_bvm.Compiler.Emit.{State, local_local_op, peephole_local_local_cmp}
use polyloft_bvm.Compiler.Emit.Fusion.{
  comparison, compare_op, jump_op, peephole_local_local_cmp_lem,
}
use polyloft_bvm.Tests.Values.{naturals, number_of}
use polyloft_bvm.Vm.Jumps.{Frame, running, jump_by, step, steps}
use polyloft_bvm.Vm.Jumps.Fused.{Ordered, taken, fused_jump_lem}
use polyloft_bvm.Vm.Jumps.Captured.{after_set, fused_jump_stale}

abbrev no_number : ℕ → Option ℕ
no_number o = none

abbrev no_bool : ℕ → Option Bool
no_bool o = none

abbrev small-Ordered : Ordered naturals ltb leb no_number no_bool (number_of 3) (number_of 5)
small-Ordered = record {
  left = refl;
  right = refl;
  le_is = refl;
  ge_is = refl;
  exact_less = λ e. refl;
  exact_greater = λ e. refl;
}

abbrev frame : Frame ℕ ℕ
frame = record {
  ip = 0;
  locals = number_of 3 ∷ number_of 5 ∷ [];
  local_refs = λ n. none;
  has_cells = false;
  stack = [];
}

-- A jump if local 0 is less than local 1.
abbrev code : List ℕ
code = op_get_local ∷ 0 ∷ op_get_local ∷ 1 ∷ op_less_num ∷ op_jump_if_true_pop ∷ 0 ∷ 7 ∷ []

abbrev fused : List ℕ
fused = local_local_op op_less_num op_jump_if_true_pop ∷ 0 ∷ 1 ∷ 0 ∷ 9 ∷ []

fused_jump_lem_example :
    (steps naturals ltb leb no_number no_bool 4 code frame
      ≡ running (
          jump_by
            (taken naturals ltb leb no_number no_bool false true (number_of 3) (number_of 5))
            (256 * 0 + 7)
            (record frame { ip = 0 + 8 })))
    × (step naturals ltb leb no_number no_bool fused frame
        ≡ running (
            jump_by
              (taken naturals ltb leb no_number no_bool false true (number_of 3) (number_of 5))
              (256 * 0 + 9)
              (record frame { ip = 0 + 5 })))
fused_jump_lem_example =
    fused_jump_lem naturals ltb leb no_number no_bool false true code fused frame 0 1 0 7 0 9
      (number_of 3) (number_of 5) refl refl refl small-Ordered
      (refl, (refl, (refl, (refl, (refl, (refl, (refl, (refl, tt))))))))
      (refl, (refl, (refl, (refl, (refl, tt)))))

-- Local 0 is captured: the frame still has 3, and the value 8 is to be set.
abbrev captured : Frame ℕ ℕ
captured = record frame {
  has_cells = true;
  local_refs = λ n. if n == 0 then some (number_of 4) else none;
  stack = number_of 8 ∷ [];
}

abbrev set_code : List ℕ
set_code = op_set_local ∷ 0 ∷ code

abbrev set_fused : List ℕ
set_fused = op_set_local ∷ 0 ∷ fused

abbrev large-Ordered : Ordered naturals ltb leb no_number no_bool (number_of 8) (number_of 5)
large-Ordered = record {
  left = refl;
  right = refl;
  le_is = refl;
  ge_is = refl;
  exact_less = λ e. refl;
  exact_greater = λ e. refl;
}

-- 8 is not less than 5, and the fused jump is taken.
fused_jump_stale_example :
    (steps naturals ltb leb no_number no_bool 5 set_code captured
      ≡ running (
          jump_by
            (taken naturals ltb leb no_number no_bool false true (number_of 8) (number_of 5))
            (256 * 0 + 7)
            (after_set naturals ltb leb no_number no_bool captured (0 + 10) 0 (number_of 8) [])))
    × (steps naturals ltb leb no_number no_bool 2 set_fused captured
        ≡ running (
            jump_by
              (taken naturals ltb leb no_number no_bool false true (number_of 3) (number_of 5))
              (256 * 0 + 9)
              (after_set naturals ltb leb no_number no_bool captured (0 + 7) 0 (number_of 8) [])))
fused_jump_stale_example =
    fused_jump_stale naturals ltb leb no_number no_bool false true set_code set_fused captured 0 1 0
      7 0 9 (number_of 8) (number_of 3) (number_of 5) []
      (record { cells = refl; held = number_of 4; cell = refl; top = refl }) (λ e. omega (arith, e))
      refl refl refl large-Ordered small-Ordered
      (refl, (refl, (refl, (refl, (refl, (refl, (refl, (refl, (refl, (refl, tt))))))))))
      (refl, (refl, (refl, (refl, (refl, (refl, (refl, tt)))))))

abbrev emitted : State ℕ
emitted = record {
  chunk = record {
    code = 7 ∷ comparison 0 1 true;
    constants = [];
    lines = 1 ∷ 1 ∷ 1 ∷ 1 ∷ 1 ∷ 1 ∷ [];
  };
  last_opcode_offset = 5;
}

peephole_local_local_cmp_lem_example :
    (t : State ℕ) × (peephole_local_local_cmp emitted (jump_op false) 2
      ≡ some (t, length {A = ℕ} (7 ∷ []) + 3))
    × (t.chunk.code
        ≡ (7 ∷ []) ++ local_local_op (compare_op true) (jump_op false) ∷ 0 ∷ 1 ∷ 0 ∷ 0 ∷ [])
peephole_local_local_cmp_lem_example =
    peephole_local_local_cmp_lem emitted (7 ∷ []) 0 1 2 true false refl
