-- ===== src/Compiler/Emit/Fusion.antt =====
-- The code that the local-local rewriting of `emitJump` leaves.
use polyloft_bvm.Prelude.{
  ℕ, suc, ◌+◌, ◌-◌, ◌≡◌, refl, ◌∙◌, ap, Bool, true, false, List, [], ◌∷◌, ◌++◌, some, length,
  length-append, get_or, take_prefix, leb, ◌==◌, ◌&&◌, ◌||◌, arith, if◌then◌else◌,
}
use polyloft_bvm.Bytecode.Opcode.{
  op_get_local, op_less_num, op_greater_num, op_jump_if_false_pop, op_jump_if_true_pop, emit_byte,
  write_op, write_uint16,
}
use polyloft_bvm.Compiler.Emit.{
  State, emit, put_byte, emit_uint16, placeholder, back, cut, local_local_op, fused_local_local,
  peephole_local_local_cmp, local_local_pattern,
}

get_or-append_right {ℓ} :
    {A : Type ℓ} (xs ys : List A) (i : ℕ) (d : A)
    → get_or (xs ++ ys) (length xs + i) d ≡ get_or ys i d
get_or-append_right [] ys i d = let e : 0 + i ≡ i = omega arith in rw e refl
get_or-append_right (x ∷ xs) ys i d =
    let e : suc (length xs) + i ≡ suc (length xs + i) = omega arith in
    rw e (get_or-append_right xs ys i d)

abbrev pub compare_op : Bool → ℕ
compare_op greater = if greater then op_greater_num else op_less_num

abbrev pub jump_op : Bool → ℕ
jump_op want = if want then op_jump_if_true_pop else op_jump_if_false_pop

-- GET_LOCAL, GET_LOCAL and a comparison.
abbrev pub comparison : ℕ → ℕ → Bool → List ℕ
comparison a b greater = op_get_local ∷ a ∷ op_get_local ∷ b ∷ compare_op greater ∷ []

both_jumps :
    (greater want : Bool)
    → (((jump_op want == op_jump_if_true_pop) || (jump_op want == op_jump_if_false_pop))
        && (((compare_op greater == op_less_num) || (compare_op greater == op_greater_num))
            && true))
      ≡ true
both_jumps true true = refl
both_jumps true false = refl
both_jumps false true = refl
both_jumps false false = refl

five_ends :
    (pre : List ℕ) (x y z u v : ℕ)
    → ((((pre ++ x ∷ []) ++ y ∷ []) ++ z ∷ []) ++ u ∷ []) ++ v ∷ [] ≡ pre ++ x ∷ y ∷ z ∷ u ∷ v ∷ []
five_ends [] x y z u v = refl
five_ends (p ∷ pre) x y z u v = ap (◌∷◌ p) (five_ends pre x y z u v)

three_ends :
    (pre : List ℕ) (x y z : ℕ) → length (((pre ++ x ∷ []) ++ y ∷ []) ++ z ∷ []) ≡ length pre + 3
three_ends [] x y z = refl
three_ends (p ∷ pre) x y z = omega (arith, three_ends pre x y z)

module _ {C : Type 0} where
  back_at :
      (s : State C) (pre five : List ℕ) (i k : ℕ)
      → s.chunk.code ≡ pre ++ five
      → length five ≡ i + k
      → back s k ≡ get_or five i 0
  back_at s pre five i k e h =
      let at : length (pre ++ five) - k ≡ length pre + i =
        omega (arith, length-append pre five, h) in
      rw (e, at) (get_or-append_right pre five i 0)

  matched :
      (s : State C) (pre : List ℕ) (a b : ℕ) (greater want : Bool)
      → s.chunk.code ≡ pre ++ comparison a b greater
      → local_local_pattern s (jump_op want) ≡ true
  matched s pre a b greater want e =
      let code = comparison a b greater in
      let one : back s 1 ≡ compare_op greater = back_at s pre code 4 1 e refl in
      let three : back s 3 ≡ op_get_local = back_at s pre code 2 3 e refl in
      let five : back s 5 ≡ op_get_local = back_at s pre code 0 5 e refl in
      let len : length s.chunk.code ≡ length pre + 5 =
        ap (λ c. length c) e ∙ length-append pre code in
      let enough : leb 5 (length s.chunk.code) ≡ true = ground (arith, len) in
      rw (enough, one, three, five) (both_jumps greater want)

  cut_code :
      (s : State C) (pre : List ℕ) (a b : ℕ) (greater : Bool)
      → s.chunk.code ≡ pre ++ comparison a b greater
      → (cut s (length s.chunk.code - 5)).chunk.code ≡ pre
  cut_code s pre a b greater e =
      let len : length s.chunk.code - 5 ≡ length pre =
        omega (arith, ap (λ c. length c) e ∙ length-append pre (comparison a b greater)) in
      rw (len, e) (take_prefix pre (comparison a b greater))

  fused_offset :
      (s : State C) (pre : List ℕ) (a b line : ℕ) (greater want : Bool)
      → s.chunk.code ≡ pre ++ comparison a b greater
      → (fused_local_local s (jump_op want) line).1 ≡ length pre + 3
  unfolding fused_local_local emit put_byte write_op emit_byte placeholder
  fused_offset s pre a b line greater want e =
      ap
        (λ c. length (
          ((c ++ local_local_op (back s 1) (jump_op want) ∷ []) ++ back s 4 ∷ []) ++ back s 2 ∷ []))
        (cut_code s pre a b greater e)
      ∙ three_ends pre (local_local_op (back s 1) (jump_op want)) (back s 4) (back s 2)

  fused_code :
      (s : State C) (pre : List ℕ) (a b line : ℕ) (greater want : Bool)
      → s.chunk.code ≡ pre ++ comparison a b greater
      → (fused_local_local s (jump_op want) line).0.chunk.code
        ≡ pre ++ local_local_op (compare_op greater) (jump_op want) ∷ a ∷ b ∷ 0 ∷ 0 ∷ []
  unfolding fused_local_local emit put_byte write_op emit_byte placeholder emit_uint16 write_uint16
  fused_code s pre a b line greater want e =
      let code = comparison a b greater in
      let one : back s 1 ≡ compare_op greater = back_at s pre code 4 1 e refl in
      let two : back s 2 ≡ b = back_at s pre code 3 2 e refl in
      let four : back s 4 ≡ a = back_at s pre code 1 4 e refl in
      let cut = cut_code s pre a b greater e in
      rw (cut, one, two, four)
        (five_ends pre (local_local_op (compare_op greater) (jump_op want)) a b 0 0)

  -- On code that ends in two locals and their comparison, the rewriting takes place for both jumps and
  -- both comparisons: the three instructions are replaced by the fused one with their slots and an empty
  -- distance, whose offset is returned.
  pub peephole_local_local_cmp_lem :
      (s : State C) (pre : List ℕ) (a b line : ℕ) (greater want : Bool)
      → s.chunk.code ≡ pre ++ comparison a b greater
      → (t : State C) × (peephole_local_local_cmp s (jump_op want) line ≡ some (t, length pre + 3))
        × (t.chunk.code
            ≡ pre ++ local_local_op (compare_op greater) (jump_op want) ∷ a ∷ b ∷ 0 ∷ 0 ∷ [])
  unfolding peephole_local_local_cmp
  peephole_local_local_cmp_lem s pre a b line greater want e =
      let r = fused_local_local s (jump_op want) line in
      (
        r.0,
        rw (matched s pre a b greater want e)
            (ap (λ n. some (r.0, n)) (fused_offset s pre a b line greater want e)),
        fused_code s pre a b line greater want e,
      )
