-- ===== src/Compiler/Emit/Targets.antt =====
-- Where the jumps that the emitter writes land.
use polyloft_bvm.Prelude.{
  ℕ, suc, ◌+◌, ◌-◌, ◌*◌, ◌/◌, ◌%◌, ◌^◌, ◌≤◌, ◌<◌, ◌≡◌, refl, sym, ◌∙◌, ap, true, false, List, [],
  ◌∷◌, ◌++◌, none, some, length, length-append, length-set, get_elem?-set, get_elem?-set_other,
  get_or, get_or-some, get_or-end, get_or-append, set, ltb, lt→ltb, arith, if◌then◌else◌,
}
use polyloft_bvm.Bytecode.Opcode.{
  op_loop, emit_byte, write_op, write_uint16, patch_uint16, read_uint16,
}
use polyloft_bvm.Compiler.Emit.{
  State, emit, emit_uint16, placeholder, peephole_not_fold, peephole_array_field_cmp,
  peephole_local_local_cmp, fused_array_field, fused_local_local, array_field_pattern,
  local_local_pattern, emit_jump, emit_loop, patch_jump,
}

read_uint16-set :
    (xs : List ℕ) (i v : ℕ)
    → suc i < length xs
    → v < 2 ^ 16
    → read_uint16 (set (set xs i (v / 256 % 256)) (suc i) (v % 256)) i ≡ v
unfolding read_uint16
read_uint16-set xs i v h w =
    let ys = set xs i (v / 256 % 256) in
    let zs = set ys (suc i) (v % 256) in
    let hi : get_or zs i 0 ≡ v / 256 % 256 = get_or-some zs i 0 (v / 256 % 256) (
      get_elem?-set_other ys (suc i) i (v % 256) (λ e. omega (arith, e))
      ∙ get_elem?-set xs i (v / 256 % 256) (omega (arith, h))) in
    let lo : get_or zs (suc i) 0 ≡ v % 256 =
      get_or-some zs (suc i) 0 (v % 256)
        (get_elem?-set ys (suc i) (v % 256) (omega (arith, h, length-set xs i (v / 256 % 256)))) in
    omega (arith, hi, lo, w)

read_uint16-end :
    (xs : List ℕ) (hi lo i : ℕ)
    → i ≡ length xs
    → read_uint16 ((xs ++ hi ∷ []) ++ lo ∷ []) i ≡ 256 * hi + lo
unfolding read_uint16
read_uint16-end xs hi lo i e =
    let ys = xs ++ hi ∷ [] in
    let len : length ys ≡ length xs + 1 = length-append xs (hi ∷ []) in
    let l : get_or (ys ++ lo ∷ []) (suc i) 0 ≡ lo =
      get_or-end ys lo 0 (suc i) (omega (arith, len, e)) in
    let h : get_or (ys ++ lo ∷ []) i 0 ≡ hi =
      get_or-append ys (lo ∷ []) 0 i (omega (arith, len, e)) ∙ get_or-end xs hi 0 i e in
    omega (arith, l, h)

module _ {C : Type 0} where
  abbrev code : State C → List ℕ
  code s = s.chunk.code

  -- A result of which the last two bytes are the placeholder at its offset.
  abbrev pub Ends : State C × ℕ → Type 0
  Ends r = r.1 + 2 ≡ length r.0.chunk.code

  placeholder-Ends : (s : State C) (line : ℕ) → Ends (placeholder s line)
  unfolding placeholder emit_uint16 write_uint16 emit_byte
  placeholder-Ends s line =
      omega (
        arith,
        length-append (s.chunk.code ++ 0 ∷ []) (0 ∷ []),
        length-append s.chunk.code (0 ∷ []),
      )

  -- What holds of the three results of `emitJump` holds of its result; `Q` holds of the state after the
  -- folding of NOT.
  pub emit_jump_cases :
      (Q : State C → Type 0) (P : State C × ℕ → Type 0) (s : State C) (op line : ℕ)
      → Q (peephole_not_fold s op).0
      → ((t : State C) → Q t → P (fused_array_field t line))
      → ((t : State C) (o : ℕ) → Q t → P (fused_local_local t o line))
      → ((t : State C) (o : ℕ) → Q t → P (placeholder (emit t o line) line))
      → P (emit_jump s op line)
  unfolding emit_jump peephole_array_field_cmp peephole_local_local_cmp
  emit_jump_cases Q P s op line q f g h =
      let s1 = (peephole_not_fold s op).0 in
      let o = (peephole_not_fold s op).1 in
      elim (array_field_pattern s1 o)
        as (λ b. P (elim (if b then some (fused_array_field s1 line) else none) [
          | some r ↦ r
          | none ↦ elim (peephole_local_local_cmp s1 o line) [
            | some r ↦ r
            | none ↦ placeholder (emit s1 o line) line
          ]
        ])) [
          | true ↦ f s1 q
          | false ↦
              elim (local_local_pattern s1 o)
                as (λ b. P (elim (if b then some (fused_local_local s1 o line) else none) [
                  | some r ↦ r
                  | none ↦ placeholder (emit s1 o line) line
                ])) [ true ↦ g s1 o q | false ↦ h s1 o q ]
        ]

  emit_jump-Ends : (s : State C) (op line : ℕ) → Ends (emit_jump s op line)
  unfolding fused_array_field fused_local_local
  emit_jump-Ends s op line =
      emit_jump_cases (λ t. Unit) Ends s op line tt (λ t q. placeholder-Ends _ line)
        (λ t o q. placeholder-Ends _ line) (λ t o q. placeholder-Ends _ line)

  patched :
      (s : State C) (offset : ℕ)
      → offset + 2 ≤ length s.chunk.code
      → length s.chunk.code - offset - 2 < 2 ^ 16
      → (t : State C) × (hi lo : ℕ) × (patch_jump s offset ≡ some t)
        × (t.chunk.code ≡ set (set s.chunk.code offset hi) (suc offset) lo)
        × (offset + 2 + read_uint16 t.chunk.code offset ≡ length s.chunk.code)
  unfolding patch_jump patch_uint16
  patched s offset h w =
      let v = (length s.chunk.code - offset - 2) % 2 ^ 16 in
      let xs = set s.chunk.code offset (v / 256 % 256) in
      let ys = set xs (suc offset) (v % 256) in
      let room : ltb (suc offset) (length s.chunk.code) ≡ true =
        lt→ltb (suc offset) (length s.chunk.code) (omega (arith, h)) in
      let read : read_uint16 ys offset ≡ v =
        read_uint16-set s.chunk.code offset v (omega (arith, h)) (omega arith) in
      (
        record s { chunk = record s.chunk { code = ys } },
        v / 256 % 256,
        v % 256,
        rw room refl,
        refl,
        omega (arith, read, h, w),
      )

  -- A jump that is patched after more code lands at the end of that code: when `emitJump` and `more`
  -- bytes, fewer than 2^16, have made the code of `t`, `patchJump` succeeds and changes two bytes, the
  -- distance, which leads from the end of the placeholder to the end of the code.
  pub patch_jump-emit_jump :
      (s : State C) (op line : ℕ) (t : State C) (more : List ℕ)
      → t.chunk.code ≡ (emit_jump s op line).0.chunk.code ++ more
      → length more < 2 ^ 16
      → (u : State C) × (hi lo : ℕ) × (patch_jump t ((emit_jump s op line).1) ≡ some u)
        × (u.chunk.code
            ≡ set
                (set t.chunk.code ((emit_jump s op line).1) hi)
                (suc ((emit_jump s op line).1))
                lo)
        × ((emit_jump s op line).1 + 2 + read_uint16 u.chunk.code ((emit_jump s op line).1)
            ≡ length t.chunk.code)
  patch_jump-emit_jump s op line t more e w =
      let r = emit_jump s op line in
      let len : length t.chunk.code ≡ length r.0.chunk.code + length more =
        ap (λ c. length c) e ∙ length-append r.0.chunk.code more in
      let ends : r.1 + 2 ≡ length r.0.chunk.code = emit_jump-Ends s op line in
      patched t r.1 (omega (arith, len, ends)) (omega (arith, len, ends, w))

  -- After `emitLoop` the end of the code less the distance that the instruction holds is `loop_start`, a
  -- place in the code, if the loop with its jump is shorter than 2^16.
  pub emit_loop_lem :
      (s : State C) (loop_start line : ℕ)
      → loop_start ≤ length s.chunk.code
      → length s.chunk.code + 3 - loop_start < 2 ^ 16
      → loop_start < 2 ^ 64
      → length (emit_loop s loop_start line).chunk.code
        ≡ loop_start
          + read_uint16 (emit_loop s loop_start line).chunk.code (length s.chunk.code + 1)
  unfolding emit_loop emit emit_uint16 write_op write_uint16 emit_byte read_uint16
  emit_loop_lem s loop_start line h w b =
      let xs = s.chunk.code ++ op_loop ∷ [] in
      let v = (length xs + 2 + (2 ^ 64 - loop_start)) % 2 ^ 16 in
      let ys = xs ++ (v / 256 % 256) ∷ [] in
      let len : length xs ≡ length s.chunk.code + 1 = length-append s.chunk.code (op_loop ∷ []) in
      let len' : length ys ≡ length xs + 1 = length-append xs ((v / 256 % 256) ∷ []) in
      let total : length (ys ++ (v % 256) ∷ []) ≡ length ys + 1 =
        length-append ys ((v % 256) ∷ []) in
      let read : read_uint16 (ys ++ (v % 256) ∷ []) (length s.chunk.code + 1)
          ≡ 256 * (v / 256 % 256) + v % 256 =
        read_uint16-end xs (v / 256 % 256) (v % 256) (length s.chunk.code + 1) (sym len) in
      omega (arith, len, len', total, read, h, w, b)
