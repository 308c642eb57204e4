-- ===== src/Bytecode/Opcode/Constants.antt =====
-- The indexes of a chunk's constants.
use polyloft_bvm.Prelude.{
  ℕ, zero, suc, ◌%◌, ◌^◌, ◌<◌, ◌≡◌, refl, ◌∙◌, List, [], ◌∷◌, ◌++◌, some, length, get_elem?,
  get_elem?-end, take, take_prefix, arith,
}
use polyloft_bvm.Bytecode.{Chunk}
use polyloft_bvm.Bytecode.Opcode.{add_constant}

module _ {C : Type 0} where
  get_elem?-append :
      (xs ys : List C) (i : ℕ) → i < length xs → get_elem? (xs ++ ys) i ≡ get_elem? xs i
  get_elem?-append [] ys i h = absurd (omega (arith, h))
  get_elem?-append (x ∷ xs) ys zero h = refl
  get_elem?-append (x ∷ xs) ys (suc i) h = get_elem?-append xs ys i (omega (arith, h))

  -- A chunk of fewer than 2^16 constants: the index that `AddConstant` returns is that of the constant,
  -- and the others keep theirs.
  pub add_constant_lem :
      (c : Chunk C) (v : C)
      → length c.constants < 2 ^ 16
      → (get_elem? (add_constant c v).0.constants ((add_constant c v).1) ≡ some v)
        × (take (length c.constants) (add_constant c v).0.constants ≡ c.constants)
        × ((add_constant c v).0.code ≡ c.code)
  unfolding add_constant
  add_constant_lem c v h =
      let e : length c.constants % 2 ^ 16 ≡ length c.constants = omega (arith, h) in
      (rw e (get_elem?-end c.constants v), take_prefix c.constants (v ∷ []), refl)

  -- The constant after the first 2^16 gets the index 0, which is that of the first.
  pub add_constant_wraps :
      (c : Chunk C) (v w : C)
      → length c.constants ≡ 2 ^ 16
      → get_elem? c.constants 0 ≡ some w
      → get_elem? (add_constant c v).0.constants ((add_constant c v).1) ≡ some w
  unfolding add_constant
  add_constant_wraps c v w h e =
      let z : length c.constants % 2 ^ 16 ≡ 0 = omega (arith, h) in
      rw z (get_elem?-append c.constants (v ∷ []) 0 (omega (arith, h)) ∙ e)
