-- ===== src/Bytecode/Opcode.antt =====
-- internal/bytecode/opcode.go and chunk.go: the opcodes that the emitter of the compiler names, by their
-- numbers, and the writing of a chunk.
pub mod Constants
use polyloft_bvm.Prelude.{
  ℕ, suc, ◌+◌, ◌*◌, ◌/◌, ◌%◌, ◌^◌, List, [], ◌∷◌, ◌++◌, Option, none, some, length, get_or, set,
  ltb, if◌then◌else◌,
}
use polyloft_bvm.Bytecode.{Chunk}

abbrev pub op_get_local : ℕ
op_get_local = 7

abbrev pub op_set_local : ℕ
op_set_local = 8

abbrev pub op_not : ℕ
op_not = 26

abbrev pub op_jump_if_false : ℕ
op_jump_if_false = 32

abbrev pub op_jump_if_true : ℕ
op_jump_if_true = 33

abbrev pub op_loop : ℕ
op_loop = 34

abbrev pub op_less_num : ℕ
op_less_num = 41

abbrev pub op_greater_num : ℕ
op_greater_num = 42

abbrev pub op_range_next_fast : ℕ
op_range_next_fast = 60

abbrev pub op_iter_next : ℕ
op_iter_next = 64

abbrev pub op_get_local_array_field : ℕ
op_get_local_array_field = 99

abbrev pub op_jump_if_false_pop : ℕ
op_jump_if_false_pop = 104

abbrev pub op_jump_if_true_pop : ℕ
op_jump_if_true_pop = 105

abbrev pub op_jump_if_local_gt_local_true : ℕ
op_jump_if_local_gt_local_true = 108

abbrev pub op_jump_if_local_lt_local_false : ℕ
op_jump_if_local_lt_local_false = 109

abbrev pub op_jump_if_local_gt_local_false : ℕ
op_jump_if_local_gt_local_false = 110

abbrev pub op_jump_if_local_lt_local_true : ℕ
op_jump_if_local_lt_local_true = 111

abbrev pub op_jump_if_array_field_gte_local_true : ℕ
op_jump_if_array_field_gte_local_true = 112

abbrev pub op_jump_if_array_field_lte_local_true : ℕ
op_jump_if_array_field_lte_local_true = 113

module _ {C : Type 0} where
  -- `EmitByte`, which also returns the offset of the byte.
  unfoldable pub emit_byte : Chunk C → ℕ → ℕ → Chunk C × ℕ
  emit_byte c b line =
      (record c { code = c.code ++ b ∷ []; lines = c.lines ++ line ∷ [] }, length c.code)

  unfoldable pub write_op : Chunk C → ℕ → ℕ → Chunk C × ℕ
  write_op c op line = emit_byte c op line

  unfoldable pub write_uint16 : Chunk C → ℕ → ℕ → Chunk C × ℕ
  write_uint16 c v line = emit_byte ((emit_byte c (v / 256 % 256) line).0) (v % 256) line

  -- `AddConstant`: the constant's index is cut to 16 bits.
  unfoldable pub add_constant : Chunk C → C → Chunk C × ℕ
  add_constant c v = (record c { constants = c.constants ++ v ∷ [] }, length c.constants % 2 ^ 16)

  -- `PatchUint16`; out of range Go panics.
  unfoldable pub patch_uint16 : Chunk C → ℕ → ℕ → Option (Chunk C)
  patch_uint16 c offset v =
      if ltb (suc offset) (length c.code)
      then some (record c { code = set (set c.code offset (v / 256 % 256)) (suc offset) (v % 256) })
      else none

-- `readUint16` at an offset.
unfoldable pub read_uint16 : List ℕ → ℕ → ℕ
read_uint16 code offset = 256 * get_or code offset 0 + get_or code (suc offset) 0
