-- ===== src/Compiler/Fold/Texts.antt =====
-- Folding an operator on two texts, against the instructions that compute it.
use polyloft_bvm.Prelude.{
  ◌≡◌, refl, Bool, true, false, ◌&&◌, List, [], ◌∷◌, Option, none, Text, same_text, text_le, inl,
  inr, Bool-cases, arith,
}
use polyloft_bvm.Value.{Float64, Value, is_number}
use polyloft_bvm.Vm.Arith.{
  num_add, num_sub, num_mul, num_div, num_mod, text_lt, is_text, run_instrs, arith_op, compare_op,
  equal_op,
}
use polyloft_bvm.Compiler.Fold.{
  is_same, is_before, is_after, compare_text, emitted, fold_binary, ordered, equality,
}
use polyloft_bvm.Compiler.Fold.Numbers.{
  Operation, arithmetic, is_power, is_caret, is_less, is_greater, at_most, at_least, is_equal,
  is_different, Holds,
}

text_le_total : (a b : Text) → text_le a b ≡ false → text_le b a ≡ true
unfolding text_le
text_le_total [] b = λ e. absurd (cc)
text_le_total (x ∷ a) [] = λ e. refl
text_le_total (x ∷ a) (y ∷ b) = λ e. ground (arith, text_le_total a b)

-- Texts that are in neither order are the same.
text_le_same : (a b : Text) → (text_le a b && text_le b a) ≡ same_text a b
unfolding text_le same_text
text_le_same [] [] = refl
text_le_same [] (y ∷ b) = refl
text_le_same (x ∷ a) [] = refl
text_le_same (x ∷ a) (y ∷ b) = ground (arith, text_le_same a b)

-- The sign of the comparison of two texts.
Sign : Text → Text → Type 0
Sign a b =
    (is_same (compare_text a b) ≡ same_text a b)
    × (is_before (compare_text a b) ≡ text_lt a b)
    × (is_after (compare_text a b) ≡ text_lt b a)

compare_text-Sign : (a b : Text) → Sign a b
unfolding compare_text Sign
compare_text-Sign a b = rw (← text_le_same a b) (elim (Bool-cases (text_le b a)) [
  | inl e ↦ elim (Bool-cases (text_le a b)) [
    | inl d ↦ rw (e, d) (refl, refl, refl)
    | inr d ↦ rw (e, d) (refl, refl, refl)
  ]
  | inr e ↦ rw (e, text_le_total b a e) (refl, refl, refl)
])

module _ (fl : Float64) {O : Type 0} (fmod pow : fl.F → fl.F → fl.F) (lt le : fl.F → fl.F → Bool)
    (text : Value fl.F O → Text) (same_object : Value fl.F O → Value fl.F O → Bool)
    (unbox_number : O → Option fl.F) (unbox_text : O → Option Text)
    (unbox_bool : O → Option Bool) where
  -- A character or a string, whose text is its own.
  abbrev pub IsText : Value fl.F O → Type 0
  IsText v = (is_text v ≡ true) × (is_number v ≡ false) × (text v ≡ v.str) × (v.obj ≡ none)

  abbrev pub TextHolds : Operation → Value fl.F O → Value fl.F O → List (Value fl.F O) → Type 0
  TextHolds o l r below =
      Holds fl fmod pow lt le text same_object unbox_number unbox_text unbox_bool o false l r below

  -- The operators on texts: joining and comparing.
  abbrev pub OnTexts : Operation → Type 0
  OnTexts (arithmetic num_add) = Unit {0}
  OnTexts (arithmetic _) = ⊥
  OnTexts is_power = ⊥
  OnTexts is_caret = ⊥
  OnTexts _ = Unit {0}

  module _ (l r : Value fl.F O) (below : List (Value fl.F O)) (hl : IsText l) (hr : IsText r) where
    text_operators : (o : Operation) → Sign l.str r.str → OnTexts o → TextHolds o l r below
    unfolding Sign fold_binary emitted run_instrs arith_op compare_op equal_op
    text_operators (arithmetic num_add) s u = rw (hl.0, hl.1, hl.2, hl.3, hr.0, hr.2) (refl, refl)
    text_operators is_less s u = rw (ordered, hl.0, hl.1, hr.0, s.1) (refl, refl)
    text_operators is_greater s u = rw (ordered, hl.0, hl.1, hr.0, s.2) (refl, refl)
    text_operators at_least s u = rw (ordered, hl.0, hl.1, hr.0, s.1) (refl, refl)
    text_operators at_most s u = rw (ordered, hl.0, hl.1, hr.0, s.2) (refl, refl)
    text_operators is_equal s u = rw (equality, hl.0, hl.1, hr.0, s.0) (refl, refl)
    text_operators is_different s u = rw (equality, hl.0, hl.1, hr.0, s.0) (refl, refl)
    text_operators is_power s u = absurd (u)
    text_operators is_caret s u = absurd (u)
    text_operators (arithmetic num_sub) s u = absurd (u)
    text_operators (arithmetic num_mul) s u = absurd (u)
    text_operators (arithmetic num_div) s u = absurd (u)
    text_operators (arithmetic num_mod) s u = absurd (u)

    -- Folding two texts, joined or compared, gives what the machine computes with the instructions that
    -- compileBinary emits for them.
    pub fold_binary-run_emitted_texts : (o : Operation) → OnTexts o → TextHolds o l r below
    fold_binary-run_emitted_texts o u = text_operators o (compare_text-Sign l.str r.str) u
