-- ===== src/Tests/Emitter.antt =====
-- The emitter on concrete code.
use polyloft_bvm.Prelude.{
  ℕ, suc, ◌+◌, [], ◌∷◌, ◌++◌, ◌≡◌, refl, some, length, set, get_elem?, take, replicate,
  length-replicate, arith,
}
use polyloft_bvm.Bytecode.{Chunk}
use polyloft_bvm.Bytecode.Opcode.{
  add_constant, read_uint16, op_get_local, op_less_num, op_jump_if_false_pop,
}
use polyloft_bvm.Bytecode.Opcode.Constants.{add_constant_lem, add_constant_wraps}
use polyloft_bvm.Compiler.Emit.{
  State, emit_jump, emit_loop, emit_iter_next, emit_range_next_fast, patch_jump,
}
use polyloft_bvm.Compiler.Emit.Targets.{patch_jump-emit_jump, emit_loop_lem}
use polyloft_bvm.Compiler.Emit.Lines.{HasLines, HasLines?, emitter-HasLines}

-- `x < y` on the locals 0 and 1.
abbrev compared : State ℕ
compared = record {
  chunk = record {
    code = op_get_local ∷ 0 ∷ op_get_local ∷ 1 ∷ op_less_num ∷ [];
    constants = 9 ∷ [];
    lines = 1 ∷ 1 ∷ 1 ∷ 1 ∷ 1 ∷ [];
  };
  last_opcode_offset = 4;
}

-- The fused jump and one more byte.
abbrev jumped : State ℕ
jumped = record (emit_jump compared op_jump_if_false_pop 1).0 {
  chunk = record (emit_jump compared op_jump_if_false_pop 1).0.chunk {
    code = (emit_jump compared op_jump_if_false_pop 1).0.chunk.code ++ 4 ∷ [];
  };
}

patch_jump-emit_jump_example :
    (u : State ℕ) × (hi lo : ℕ) × (patch_jump jumped ((emit_jump compared op_jump_if_false_pop 1).1)
      ≡ some u)
    × (u.chunk.code
        ≡ set
            (set jumped.chunk.code ((emit_jump compared op_jump_if_false_pop 1).1) hi)
            (suc ((emit_jump compared op_jump_if_false_pop 1).1))
            lo)
    × ((emit_jump compared op_jump_if_false_pop 1).1
          + 2
          + read_uint16 u.chunk.code ((emit_jump compared op_jump_if_false_pop 1).1)
        ≡ length jumped.chunk.code)
patch_jump-emit_jump_example =
    patch_jump-emit_jump compared op_jump_if_false_pop 1 jumped (4 ∷ []) refl (omega arith)

emit_loop_lem_example :
    length (emit_loop compared 2 1).chunk.code
    ≡ 2 + read_uint16 (emit_loop compared 2 1).chunk.code (length compared.chunk.code + 1)
emit_loop_lem_example = emit_loop_lem compared 2 1 (omega arith) (omega arith) (omega arith)

emitter-HasLines_example :
    ((op : ℕ) → HasLines (emit_jump compared op 3).0)
    × ((loop_start : ℕ) → HasLines (emit_loop compared loop_start 3))
    × ((iter v : ℕ) → HasLines (emit_iter_next compared iter v 3).0)
    × ((current last step v : ℕ) → HasLines (emit_range_next_fast compared current last step v 3).0)
    × ((offset : ℕ) → HasLines? (patch_jump compared offset))
emitter-HasLines_example = emitter-HasLines compared 3 refl

add_constant_lem_example :
    (get_elem? (add_constant compared.chunk 8).0.constants ((add_constant compared.chunk 8).1)
      ≡ some 8)
    × (take (length compared.chunk.constants) (add_constant compared.chunk 8).0.constants
        ≡ compared.chunk.constants)
    × ((add_constant compared.chunk 8).0.code ≡ compared.chunk.code)
add_constant_lem_example = add_constant_lem compared.chunk 8 (omega arith)

-- As many constants as 16 bits can number.
abbrev full_chunk : Chunk ℕ
full_chunk = record { code = []; constants = 7 ∷ replicate 65535 1; lines = [] }

add_constant_wraps_example :
    get_elem? (add_constant full_chunk 8).0.constants ((add_constant full_chunk 8).1) ≡ some 7
add_constant_wraps_example =
    add_constant_wraps full_chunk 8 7 (omega (arith, length-replicate {A = ℕ} 65535 1)) refl
