-- ===== src/Compiler/Fold/Numbers.antt =====
-- Folding an operator on two numbers, against the instructions that compute it.
use polyloft_bvm.Prelude.{
  ◌≡◌, ◌⊎◌, refl, Bool, true, false, not, ◌&&◌, List, ◌∷◌, Option, none, some, Text, ◌==◌, inl, inr,
  Bool-cases,
}
use polyloft_bvm.Token.{
  TokenType, plus, minus, star, star_star, caret, slash, percent, equal_equal, bang_equal, greater,
  greater_equal, less, less_equal,
}
use polyloft_bvm.Value.{
  Float64, nil, number, boolean, char, string, object, NumberKind, number_int, number_float, Value,
  nil_value, bool_value, is_int,
}
use polyloft_bvm.Value.FastMethod.{is_neg64}
use polyloft_bvm.Vm.Arith.Power.{power, overflow, pow_int64_square_multiply}
use polyloft_bvm.Vm.Jumps.{Run, running, refused, less64}
use polyloft_bvm.Vm.Arith.{
  NumOp, num_add, num_sub, num_mul, num_div, num_mod, Instr, string_value, plain_equal, int_op,
  float_op, arith_op, pow_op, arith_num, number_op, compare_op, compare_num, equal_op, run_instrs,
}
use polyloft_bvm.Compiler.Fold.{emitted, fold_numeric_binary, fold_binary}

-- The operators that the theorem is about.
pub data Operation : Type 0 where
  arithmetic : NumOp → Operation
  is_power is_caret : Operation
  is_less is_greater at_most at_least is_equal is_different : Operation

abbrev pub num_token : NumOp → TokenType
num_token num_add = plus
num_token num_sub = minus
num_token num_mul = star
num_token num_div = slash
num_token num_mod = percent

abbrev pub token_of : Operation → TokenType
token_of (arithmetic o) = num_token o
token_of is_power = star_star
token_of is_caret = caret
token_of is_less = less
token_of is_greater = greater
token_of at_most = less_equal
token_of at_least = greater_equal
token_of is_equal = equal_equal
token_of is_different = bang_equal

-- What can be seen of a value: the fields that its kind uses.
abbrev pub seen : (fl : Float64) {O : Type 0} → Value fl.F O → Value fl.F O
seen fl v = elim v.kind [
  | nil ↦ nil_value fl
  | number ↦ record (nil_value fl) {
    kind = number;
    number_kind = v.number_kind;
    num = v.num;
    int = v.int;
  }
  | boolean ↦ bool_value fl v.bool
  | char ↦ record (nil_value fl) { kind = char; str = v.str }
  | string ↦ string_value fl v.str
  | object ↦ record (nil_value fl) { kind = object; obj = v.obj }
]

NumberKind-cases : (k : NumberKind) → (k ≡ number_int) ⊎ (k ≡ number_float)
NumberKind-cases number_int = inl refl
NumberKind-cases number_float = inr refl

module _ (fl : Float64) {O : Type 0} (fmod pow : fl.F → fl.F → fl.F) (lt le : fl.F → fl.F → Bool)
    (text : Value fl.F O → Text) (same_object : Value fl.F O → Value fl.F O → Bool)
    (unbox_number : O → Option fl.F) (unbox_text : O → Option Text)
    (unbox_bool : O → Option Bool) where
  -- A number, as its constructors make it.
  abbrev pub IsNumber : Value fl.F O → Type 0
  IsNumber v =
      (v.kind ≡ number) × (v.obj ≡ none) × (v.number_kind ≡ number_int → v.num ≡ fl.of_int v.int)

  abbrev pub BothInts : Value fl.F O → Value fl.F O → Type 0
  BothInts l r = (l.number_kind ≡ number_int) × (r.number_kind ≡ number_int)

  -- What the operators rest on: float64 computes the integer result if both operands are integers.
  abbrev pub Exact : NumOp → Value fl.F O → Value fl.F O → Type 0
  Exact o l r =
      BothInts l r
      → fl.to_int (float_op fl fmod pow lt le unbox_number unbox_text unbox_bool o l.num r.num)
        ≡ int_op o l.int r.int

  -- float64 keeps the order of two integers, and has the integers themselves.
  abbrev pub InOrder : Value fl.F O → Value fl.F O → Type 0
  InOrder l r =
      BothInts l r
      → (lt l.num r.num ≡ less64 l.int r.int)
        × (lt r.num l.num ≡ less64 r.int l.int)
        × (fl.of_int (fl.to_int l.num) ≡ l.num)
        × (fl.of_int (fl.to_int r.num) ≡ r.num)

  -- The integer power of the machine is that of float64, or it overflows.
  abbrev pub Powers : Value fl.F O → Value fl.F O → Type 0
  Powers l r =
      BothInts l r
      → (le fl.zero_float r.num ≡ not (is_neg64 (fl.to_int r.num)))
        × (is_neg64 (fl.to_int r.num) ≡ false
            → (pow_int64_square_multiply (fl.to_int l.num) (fl.to_int r.num)
                ≡ power (fl.to_int (pow l.num r.num)))
              ⊎ (pow_int64_square_multiply (fl.to_int l.num) (fl.to_int r.num) ≡ overflow))

  abbrev pub Computes : Operation → Value fl.F O → Value fl.F O → Type 0
  Computes (arithmetic num_div) l r = fl.same r.num fl.zero_float ≡ false
  Computes (arithmetic num_mod) l r =
      Exact num_mod l r
      × (BothInts l r → (r.int == 0) ≡ false)
      × (fl.same r.num fl.zero_float ≡ false)
  Computes (arithmetic o) l r = Exact o l r
  Computes is_power l r = Powers l r
  Computes is_caret l r = Powers l r
  Computes is_less l r = InOrder l r
  Computes is_greater l r = InOrder l r
  Computes at_most l r = InOrder l r × (le l.num r.num ≡ not (lt r.num l.num))
  Computes at_least l r = InOrder l r × (le r.num l.num ≡ not (lt l.num r.num))
  Computes is_equal l r = Unit {0}
  Computes is_different l r = Unit {0}

  -- The instructions for an operator, on the stack.
  abbrev pub run_emitted : Option (List Instr) → List (Value fl.F O) → Run (List (Value fl.F O))
  run_emitted none stack = refused
  run_emitted (some code) stack =
      run_instrs fl fmod pow lt le unbox_number unbox_text unbox_bool code stack

  -- A folded operator, and the machine on the same operands: both give a value, and the same one as far as
  -- can be seen.
  abbrev pub Agreement :
      Option (Value fl.F O) → Run (List (Value fl.F O)) → List (Value fl.F O) → Type 0
  Agreement (some v) (running (w ∷ stack)) below = (seen fl w ≡ seen fl v) × (stack ≡ below)
  Agreement _ _ below = ⊥

  -- Two integers, or not.
  by_kinds :
      (P : Type 0) (l r : Value fl.F O)
      → (BothInts l r → P)
      → ((is_int l && is_int r) ≡ false → P)
      → P
  by_kinds P l r both mixed = elim (NumberKind-cases l.number_kind) [
    | inl i ↦ elim (NumberKind-cases r.number_kind) [
      | inl j ↦ both (i, j)
      | inr j ↦ mixed (rw (i, j) refl)
    ]
    | inr i ↦ mixed (rw i refl)
  ]

  -- The same with the kinds of the operands.
  by_three :
      (P : Type 0) (l r : Value fl.F O)
      → (BothInts l r → P)
      → (l.number_kind ≡ number_int → r.number_kind ≡ number_float → P)
      → (l.number_kind ≡ number_float → P)
      → P
  by_three P l r both right left = elim (NumberKind-cases l.number_kind) [
    | inl i ↦ elim (NumberKind-cases r.number_kind) [ inl j ↦ both (i, j) | inr j ↦ right i j ]
    | inr i ↦ left i
  ]

  abbrev pub Holds : Operation → Bool → Value fl.F O → Value fl.F O → List (Value fl.F O) → Type 0
  Holds o numeric l r below =
      Agreement (fold_binary fl fmod pow lt le text same_object (token_of o) l r)
        (run_emitted (emitted (token_of o) numeric) (r ∷ l ∷ below)) below

  module _ (l r : Value fl.F O) (below : List (Value fl.F O)) (hl : IsNumber l)
      (hr : IsNumber r) where
    arithmetic-Agreement :
        (o : NumOp) (numeric : Bool)
        → Computes (arithmetic o) l r
        → Holds (arithmetic o) numeric l r below
    unfolding fold_binary fold_numeric_binary emitted run_instrs arith_op arith_num number_op
    arithmetic-Agreement num_add true a =
        by_kinds (Holds (arithmetic num_add) true l r below) l r
          (λ i. rw (hl.0, hr.0, i.0, i.1, a i) (refl, refl)) (λ m. rw (hl.0, hr.0, m) (refl, refl))
    arithmetic-Agreement num_add false a =
        by_kinds (Holds (arithmetic num_add) false l r below) l r
          (λ i. rw (hl.0, hr.0, i.0, i.1, a i) (refl, refl)) (λ m. rw (hl.0, hr.0, m) (refl, refl))
    arithmetic-Agreement num_sub true a =
        by_kinds (Holds (arithmetic num_sub) true l r below) l r
          (λ i. rw (hl.0, hr.0, i.0, i.1, a i) (refl, refl)) (λ m. rw (hl.0, hr.0, m) (refl, refl))
    arithmetic-Agreement num_sub false a =
        by_kinds (Holds (arithmetic num_sub) false l r below) l r
          (λ i. rw (hl.0, hr.0, i.0, i.1, a i) (refl, refl)) (λ m. rw (hl.0, hr.0, m) (refl, refl))
    arithmetic-Agreement num_mul true a =
        by_kinds (Holds (arithmetic num_mul) true l r below) l r
          (λ i. rw (hl.0, hr.0, i.0, i.1, a i) (refl, refl)) (λ m. rw (hl.0, hr.0, m) (refl, refl))
    arithmetic-Agreement num_mul false a =
        by_kinds (Holds (arithmetic num_mul) false l r below) l r
          (λ i. rw (hl.0, hr.0, i.0, i.1, a i) (refl, refl)) (λ m. rw (hl.0, hr.0, m) (refl, refl))
    arithmetic-Agreement num_div true a =
        by_kinds (Holds (arithmetic num_div) true l r below) l r
          (λ i. rw (hl.0, hr.0, i.0, i.1, a) (refl, refl)) (λ m. rw (hl.0, hr.0, m, a) (refl, refl))
    arithmetic-Agreement num_div false a = rw (hl.0, hr.0, a) (refl, refl)
    arithmetic-Agreement num_mod true a =
        by_kinds (Holds (arithmetic num_mod) true l r below) l r
          (λ i. rw (hl.0, hr.0, i.0, i.1, a.0 i, a.1 i) (refl, refl))
          (λ m. rw (hl.0, hr.0, m, a.2) (refl, refl))
    arithmetic-Agreement num_mod false a =
        by_kinds (Holds (arithmetic num_mod) false l r below) l r
          (λ i. rw (hl.0, hr.0, i.0, i.1, a.0 i, a.1 i) (refl, refl))
          (λ m. rw (hl.0, hr.0, m, a.2) (refl, refl))

    power-Agreement : (numeric : Bool) → Powers l r → Holds is_power numeric l r below
    unfolding fold_binary fold_numeric_binary emitted run_instrs pow_op
    power-Agreement numeric a =
        by_kinds (Holds is_power numeric l r below) l r
          (λ i. elim (Bool-cases (is_neg64 (fl.to_int r.num))) [
            | inl n ↦ rw (hl.0, hr.0, i.0, i.1, (a i).0, n) (refl, refl)
            | inr p ↦ elim ((a i).1 p) [
              | inl e ↦ rw (hl.0, hr.0, i.0, i.1, (a i).0, p, e) (refl, refl)
              | inr e ↦
                  rw (hl.0, hr.0, i.0, i.1, (a i).0, p, e)
                    (rw (hl.0, hr.0, i.0, i.1, (a i).0, p) (refl, refl))
            ]
          ])
          (λ m. rw (hl.0, hr.0, m) (refl, refl))

    -- The operators on numbers, by what float64 computes for them.
    pub number_operators :
        (o : Operation) (numeric : Bool) → Computes o l r → Holds o numeric l r below
    unfolding fold_binary emitted run_instrs compare_op compare_num equal_op plain_equal
    number_operators is_power numeric a = power-Agreement numeric a
    number_operators is_caret numeric a = power-Agreement numeric a
    number_operators (arithmetic o) numeric a = arithmetic-Agreement o numeric a
    number_operators is_less true a =
        by_three (Holds is_less true l r below) l r
          (λ i. rw (hl.0, hr.0, i.0, i.1, (a i).0) (refl, refl))
          (λ i j. rw (hl.0, hr.0, i, j) (refl, refl)) (λ i. rw (hl.0, hr.0, i) (refl, refl))
    number_operators is_greater true a =
        by_three (Holds is_greater true l r below) l r
          (λ i. rw (hl.0, hr.0, i.0, i.1, (a i).1) (refl, refl))
          (λ i j. rw (hl.0, hr.0, i, j) (refl, refl)) (λ i. rw (hl.0, hr.0, i) (refl, refl))
    number_operators at_least true a =
        by_three (Holds at_least true l r below) l r
          (λ i. rw (hl.0, hr.0, i.0, i.1, a.1, (a.0 i).0) (refl, refl))
          (λ i j. rw (hl.0, hr.0, i, j, a.1) (refl, refl))
          (λ i. rw (hl.0, hr.0, i, a.1) (refl, refl))
    number_operators at_most true a =
        by_three (Holds at_most true l r below) l r
          (λ i. rw (hl.0, hr.0, i.0, i.1, a.1, (a.0 i).1) (refl, refl))
          (λ i j. rw (hl.0, hr.0, i, j, a.1) (refl, refl))
          (λ i. rw (hl.0, hr.0, i, a.1) (refl, refl))
    number_operators is_equal true a =
        by_three (Holds is_equal true l r below) l r (λ i. rw (hl.0, hr.0, i.0, i.1) (refl, refl))
          (λ i j. rw (hl.0, hr.0, i, j) (refl, refl)) (λ i. rw (hl.0, hr.0, i) (refl, refl))
    number_operators is_different true a =
        by_three (Holds is_different true l r below) l r
          (λ i. rw (hl.0, hr.0, i.0, i.1) (refl, refl)) (λ i j. rw (hl.0, hr.0, i, j) (refl, refl))
          (λ i. rw (hl.0, hr.0, i) (refl, refl))
    number_operators is_less false a =
        by_three (Holds is_less false l r below) l r
          (λ i. rw (i.0, i.1, hl.0, hr.0, hl.1, (a i).2, (a i).3) (refl, refl))
          (λ i j. rw (i, j, hl.0, hr.0, hl.1) (refl, refl))
          (λ i. rw (i, hl.0, hr.0, hl.1) (refl, refl))
    number_operators is_greater false a =
        by_three (Holds is_greater false l r below) l r
          (λ i. rw (i.0, i.1, hl.0, hr.0, hl.1, (a i).2, (a i).3) (refl, refl))
          (λ i j. rw (i, j, hl.0, hr.0, hl.1) (refl, refl))
          (λ i. rw (i, hl.0, hr.0, hl.1) (refl, refl))
    number_operators at_least false a =
        by_three (Holds at_least false l r below) l r
          (λ i. rw (i.0, i.1, hl.0, hr.0, hl.1, a.1, (a.0 i).2, (a.0 i).3) (refl, refl))
          (λ i j. rw (i, j, hl.0, hr.0, hl.1, a.1) (refl, refl))
          (λ i. rw (i, hl.0, hr.0, hl.1, a.1) (refl, refl))
    number_operators at_most false a =
        by_three (Holds at_most false l r below) l r
          (λ i. rw (i.0, i.1, hl.0, hr.0, hl.1, a.1, (a.0 i).2, (a.0 i).3) (refl, refl))
          (λ i j. rw (i, j, hl.0, hr.0, hl.1, a.1) (refl, refl))
          (λ i. rw (i, hl.0, hr.0, hl.1, a.1) (refl, refl))
    number_operators is_equal false a =
        by_three (Holds is_equal false l r below) l r (λ i. rw (hl.0, hr.0, i.0, i.1) (refl, refl))
          (λ i j. rw (hl.0, hr.0, i, j) (refl, refl)) (λ i. rw (hl.0, hr.0, i) (refl, refl))
    number_operators is_different false a =
        by_three (Holds is_different false l r below) l r
          (λ i. rw (hl.0, hr.0, i.0, i.1) (refl, refl)) (λ i j. rw (hl.0, hr.0, i, j) (refl, refl))
          (λ i. rw (hl.0, hr.0, i) (refl, refl))
