-- ===== src/Compiler/Emit.antt =====
-- internal/compiler/compiler.go: the emitter, with its peephole rewriting of conditional jumps. Of the
-- compiler's state it changes the chunk and the offset of the last opcode.
pub mod Targets
pub mod Lines
pub mod Fusion
use polyloft_bvm.Prelude.{
  ℕ, ◌+◌, ◌-◌, ◌%◌, ◌^◌, Bool, true, false, not, ◌&&◌, ◌||◌, List, Option, none, some, length,
  get_or, take, leb, ltb, ◌==◌, if◌then◌else◌,
}
use mathlib.Core.Option
use polyloft_bvm.Bytecode.{Chunk}
use polyloft_bvm.Bytecode.Opcode.{
  op_get_local, op_not, op_jump_if_false, op_jump_if_true, op_loop, op_less_num, op_greater_num,
  op_range_next_fast, op_iter_next, op_get_local_array_field, op_jump_if_false_pop,
  op_jump_if_true_pop, op_jump_if_local_gt_local_true, op_jump_if_local_lt_local_false,
  op_jump_if_local_gt_local_false, op_jump_if_local_lt_local_true,
  op_jump_if_array_field_gte_local_true, op_jump_if_array_field_lte_local_true, emit_byte, write_op,
  write_uint16, patch_uint16,
}

pub record State (C : Type 0) : Type 0 where
  pub chunk : Chunk C
  pub last_opcode_offset : ℕ

abbrev pub is_compare : ℕ → Bool
is_compare op = (op == op_less_num) || (op == op_greater_num)

abbrev pub array_field_op : ℕ → ℕ
array_field_op compare_op =
    if compare_op == op_less_num
    then op_jump_if_array_field_gte_local_true
    else op_jump_if_array_field_lte_local_true

abbrev pub local_local_op : ℕ → ℕ → ℕ
local_local_op compare_op op =
    if compare_op == op_less_num
    then (if op == op_jump_if_true_pop
        then op_jump_if_local_lt_local_true
        else op_jump_if_local_lt_local_false)
    else (if op == op_jump_if_true_pop
        then op_jump_if_local_gt_local_true
        else op_jump_if_local_gt_local_false)

module _ {C : Type 0} where
  unfoldable pub emit : State C → ℕ → ℕ → State C
  emit s op line = record {
    chunk = (write_op s.chunk op line).0;
    last_opcode_offset = length s.chunk.code;
  }

  -- `emitByte`.
  unfoldable pub put_byte : State C → ℕ → ℕ → State C
  put_byte s b line = record s { chunk = (emit_byte s.chunk b line).0 }

  unfoldable pub emit_uint16 : State C → ℕ → ℕ → State C
  emit_uint16 s v line = record s { chunk = (write_uint16 s.chunk v line).0 }

  abbrev pub cut : State C → ℕ → State C
  cut s n = record s {
    chunk = record s.chunk { code = take n s.chunk.code; lines = take n s.chunk.lines };
  }

  -- The opcode's placeholder for a distance, and its offset.
  unfoldable pub placeholder : State C → ℕ → State C × ℕ
  placeholder s line = (emit_uint16 s 0 line, length s.chunk.code)

  unfoldable pub peephole_not_fold : State C → ℕ → State C × ℕ
  peephole_not_fold s op =
      if not (op == op_jump_if_false) && not (op == op_jump_if_false_pop)
      then (s, op)
      else if leb (length s.chunk.code) s.last_opcode_offset
          || not (get_or s.chunk.code s.last_opcode_offset 0 == op_not)
      then (s, op)
      else (
        cut s s.last_opcode_offset,
        if op == op_jump_if_false_pop then op_jump_if_true_pop else op_jump_if_true,
      )

  -- The byte `k` places before the end, where there are as many.
  abbrev pub back : State C → ℕ → ℕ
  back s k = get_or s.chunk.code (length s.chunk.code - k) 0

  abbrev pub array_field_pattern : State C → ℕ → Bool
  array_field_pattern s op =
      (op == op_jump_if_false_pop)
      && (leb 7 (length s.chunk.code)
          && (is_compare (back s 1)
              && ((back s 7 == op_get_local_array_field) && (back s 3 == op_get_local))))

  -- GET_LOCAL_ARRAY_FIELD, GET_LOCAL and the comparison replaced by the fused jump.
  unfoldable pub fused_array_field : State C → ℕ → State C × ℕ
  fused_array_field s line =
      let s1 = emit (cut s (length s.chunk.code - 7)) (array_field_op (back s 1)) line in
      let s2 = put_byte (put_byte s1 (back s 6) line) (back s 5) line in
      placeholder (put_byte (put_byte s2 (back s 4) line) (back s 2) line) line

  unfoldable pub peephole_array_field_cmp : State C → ℕ → ℕ → Option (State C × ℕ)
  peephole_array_field_cmp s op line =
      if array_field_pattern s op then some (fused_array_field s line) else none

  abbrev pub local_local_pattern : State C → ℕ → Bool
  local_local_pattern s op =
      ((op == op_jump_if_true_pop) || (op == op_jump_if_false_pop))
      && (leb 5 (length s.chunk.code)
          && (is_compare (back s 1) && ((back s 5 == op_get_local) && (back s 3 == op_get_local))))

  -- GET_LOCAL, GET_LOCAL and the comparison replaced by the fused jump.
  unfoldable pub fused_local_local : State C → ℕ → ℕ → State C × ℕ
  fused_local_local s op line =
      let s1 = emit (cut s (length s.chunk.code - 5)) (local_local_op (back s 1) op) line in
      placeholder (put_byte (put_byte s1 (back s 4) line) (back s 2) line) line

  unfoldable pub peephole_local_local_cmp : State C → ℕ → ℕ → Option (State C × ℕ)
  peephole_local_local_cmp s op line =
      if local_local_pattern s op then some (fused_local_local s op line) else none

  -- `emitJump`, which returns the offset of the placeholder.
  unfoldable pub emit_jump : State C → ℕ → ℕ → State C × ℕ
  emit_jump s op line =
      let (s1, op1) = peephole_not_fold s op in
      elim (peephole_array_field_cmp s1 op1 line) [
        | some r ↦ r
        | none ↦ elim (peephole_local_local_cmp s1 op1 line) [
          | some r ↦ r
          | none ↦ placeholder (emit s1 op1 line) line
        ]
      ]

  unfoldable pub emit_loop : State C → ℕ → ℕ → State C
  emit_loop s loop_start line =
      let s1 = emit s op_loop line in
      emit_uint16 s1 ((length s1.chunk.code + 2 + (2 ^ 64 - loop_start)) % 2 ^ 16) line

  -- The subtractions do not stop at 0 where `PatchUint16` finds the offset in range.
  unfoldable pub patch_jump : State C → ℕ → Option (State C)
  patch_jump s offset =
      Option.map (λ c. record s { chunk = c })
        (patch_uint16 s.chunk offset ((length s.chunk.code - offset - 2) % 2 ^ 16))

  unfoldable pub emit_iter_next : State C → ℕ → ℕ → ℕ → State C × ℕ
  emit_iter_next s iter_slot value_slot line =
      placeholder (put_byte (put_byte (emit s op_iter_next line) iter_slot line) value_slot line)
        line

  unfoldable pub emit_range_next_fast : State C → ℕ → ℕ → ℕ → ℕ → ℕ → State C × ℕ
  emit_range_next_fast s current end_slot step value_slot line =
      let s1 = put_byte (put_byte (emit s op_range_next_fast line) current line) end_slot line in
      placeholder (put_byte (put_byte s1 step line) value_slot line) line
