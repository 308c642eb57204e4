-- ===== src/Compiler/Emit/Lines.antt =====
-- The line table of the chunk that the emitter writes.
use polyloft_bvm.Prelude.{
  ℕ, zero, suc, ◌-◌, ◌/◌, ◌%◌, ◌^◌, ◌≡◌, ◌∙◌, ap, List, [], ◌∷◌, Option, none, some, length,
  length-append, length-set, get_or, set, not, ◌&&◌, ◌||◌, ◌==◌, leb, take, ltb, if_case, arith,
}
use mathlib.Core.Option
use polyloft_bvm.Bytecode.{Chunk}
use polyloft_bvm.Bytecode.Opcode.{
  op_not, op_jump_if_false, op_jump_if_false_pop, op_loop, op_iter_next, op_range_next_fast,
  emit_byte, write_op, write_uint16, patch_uint16,
}
use polyloft_bvm.Compiler.Emit.{
  State, emit, put_byte, emit_uint16, placeholder, cut, fused_array_field, fused_local_local,
  emit_jump, emit_loop, patch_jump, emit_iter_next, emit_range_next_fast, peephole_not_fold, back,
  array_field_op, local_local_op,
}
use polyloft_bvm.Compiler.Emit.Targets.{emit_jump_cases}

length-take_both {ℓ κ} :
    {A : Type ℓ} {B : Type κ} (n : ℕ) (xs : List A) (ys : List B)
    → length xs ≡ length ys
    → length (take n xs) ≡ length (take n ys)
length-take_both zero xs ys h = omega arith
length-take_both (suc n) [] [] h = omega arith
length-take_both (suc n) [] (y ∷ ys) h = absurd (omega arith)
length-take_both (suc n) (x ∷ xs) [] h = absurd (omega arith)
length-take_both (suc n) (x ∷ xs) (y ∷ ys) h = ap suc (length-take_both n xs ys (omega arith))

module _ {C : Type 0} where
  -- One line for each byte of code.
  abbrev pub HasLines : State C → Type 0
  HasLines s = length s.chunk.code ≡ length s.chunk.lines

  byte-lines :
      (c : Chunk C) (b line : ℕ)
      → length c.code ≡ length c.lines
      → length (emit_byte c b line).0.code ≡ length (emit_byte c b line).0.lines
  unfolding emit_byte
  byte-lines c b line h =
      omega (arith, h, length-append c.code (b ∷ []), length-append c.lines (line ∷ []))

  emit-HasLines : (s : State C) (op line : ℕ) → HasLines s → HasLines (emit s op line)
  unfolding emit write_op
  emit-HasLines s op line h = byte-lines s.chunk op line h

  put_byte-HasLines : (s : State C) (b line : ℕ) → HasLines s → HasLines (put_byte s b line)
  unfolding put_byte
  put_byte-HasLines s b line h = byte-lines s.chunk b line h

  uint16-HasLines : (s : State C) (v line : ℕ) → HasLines s → HasLines (emit_uint16 s v line)
  unfolding emit_uint16 write_uint16
  uint16-HasLines s v line h =
      byte-lines ((emit_byte s.chunk (v / 256 % 256) line).0) (v % 256) line
        (byte-lines s.chunk (v / 256 % 256) line h)

  placeholder-HasLines : (s : State C) (line : ℕ) → HasLines s → HasLines (placeholder s line).0
  unfolding placeholder
  placeholder-HasLines s line h = uint16-HasLines s 0 line h

  cut-HasLines : (s : State C) (n : ℕ) → HasLines s → HasLines (cut s n)
  cut-HasLines s n h = length-take_both n s.chunk.code s.chunk.lines h

  fold-HasLines : (s : State C) (op : ℕ) → HasLines s → HasLines (peephole_not_fold s op).0
  unfolding peephole_not_fold
  fold-HasLines s op h =
      if_case (λ (r : State C × ℕ). HasLines r.0)
        (not (op == op_jump_if_false) && not (op == op_jump_if_false_pop)) (λ t. h)
        (λ f.
          if_case (λ (r : State C × ℕ). HasLines r.0)
            (leb (length s.chunk.code) s.last_opcode_offset
              || not (get_or s.chunk.code s.last_opcode_offset 0 == op_not))
            (λ t. h) (λ f. cut-HasLines s s.last_opcode_offset h))

  jump-HasLines : (s : State C) (op line : ℕ) → HasLines s → HasLines (emit_jump s op line).0
  unfolding fused_array_field fused_local_local
  jump-HasLines s op line h =
      emit_jump_cases HasLines (λ r. HasLines r.0) s op line (fold-HasLines s op h)
        (λ t q. placeholder-HasLines _ line (
          put_byte-HasLines _ (back t 2) line (
            put_byte-HasLines _ (back t 4) line (
              put_byte-HasLines _ (back t 5) line (
                put_byte-HasLines _ (back t 6) line
                  (emit-HasLines _ (array_field_op (back t 1)) line (cut-HasLines t _ q)))))))
        (λ t o q. placeholder-HasLines _ line (
          put_byte-HasLines _ (back t 2) line (
            put_byte-HasLines _ (back t 4) line
              (emit-HasLines _ (local_local_op (back t 1) o) line (cut-HasLines t _ q)))))
        (λ t o q. placeholder-HasLines _ line (emit-HasLines t o line q))

  abbrev pub HasLines? : Option (State C) → Type 0
  HasLines? none = Unit
  HasLines? (some s) = HasLines s

  patch-HasLines : (s : State C) (offset : ℕ) → HasLines s → HasLines? (patch_jump s offset)
  unfolding patch_jump patch_uint16
  patch-HasLines s offset h =
      let v = (length s.chunk.code - offset - 2) % 2 ^ 16 in
      let xs = set s.chunk.code offset (v / 256 % 256) in
      if_case (λ o. HasLines? (Option.map (λ c. record s { chunk = c }) o))
        (ltb (suc offset) (length s.chunk.code))
        (λ r.
          length-set xs (suc offset) (v % 256) ∙ length-set s.chunk.code offset (v / 256 % 256) ∙ h)
        (λ r. tt)

  -- Every emission keeps one line for each byte of code: of a jump, whether or not it is fused with the
  -- code before it, of a loop, of the two iteration instructions, and the patching of a jump.
  pub emitter-HasLines :
      (s : State C) (line : ℕ)
      → HasLines s
      → ((op : ℕ) → HasLines (emit_jump s op line).0)
        × ((loop_start : ℕ) → HasLines (emit_loop s loop_start line))
        × ((iter v : ℕ) → HasLines (emit_iter_next s iter v line).0)
        × ((current last step v : ℕ) → HasLines (emit_range_next_fast s current last step v line).0)
        × ((offset : ℕ) → HasLines? (patch_jump s offset))
  unfolding emit_loop emit_iter_next emit_range_next_fast
  emitter-HasLines s line h = (
    λ op. jump-HasLines s op line h,
    λ loop_start. uint16-HasLines _ _ line (emit-HasLines s op_loop line h),
    λ iter v. placeholder-HasLines _ line (
        put_byte-HasLines _ v line
          (put_byte-HasLines _ iter line (emit-HasLines s op_iter_next line h))),
    λ current last step v. placeholder-HasLines _ line (
        put_byte-HasLines _ v line (
          put_byte-HasLines _ step line (
            put_byte-HasLines _ last line
              (put_byte-HasLines _ current line (emit-HasLines s op_range_next_fast line h))))),
    λ offset. patch-HasLines s offset h,
  )
