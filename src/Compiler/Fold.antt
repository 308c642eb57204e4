-- ===== src/Compiler/Fold.antt =====
-- internal/compiler/compiler.go: `evalConstExpr`, the folding of constant expressions, and the instructions
-- that `compileBinary` emits for an operator on two values.
pub mod Numbers
pub mod Texts
pub mod Exact
use polyloft_bvm.Prelude.{
  ℕ, Bool, true, false, not, ◌&&◌, ◌||◌, List, [], ◌∷◌, ◌++◌, Option, none, some, Text, ◌==◌,
  same_text, if◌then◌else◌,
}
use polyloft_bvm.Token.{
  TokenType, plus, minus, star, star_star, caret, slash, percent, bang, and_and, or_or, equal_equal,
  bang_equal, greater, greater_equal, less, less_equal,
}
use polyloft_bvm.Value.{
  Float64, Kind, number, char, string, object, Value, nil_value, int_value, float_value, bool_value,
  is_number, is_int,
}
use polyloft_bvm.Value.FastMethod.{neg64, ◌>>=◌}
use polyloft_bvm.Vm.Jumps.{is_truthy}
use polyloft_bvm.Vm.Arith.{
  NumOp, num_add, num_sub, num_mul, num_div, num_mod, Instr, do_arith, do_less, do_greater,
  do_equal, do_not, do_pow, text_lt, is_text, string_value, both_numbers, plain_equal, is_object,
}

-- An expression, as far as it is modelled; arrays and maps are among the `other` ones.
pub data Expr (F O : Type 0) : Type 0 where
  literal : Value F O → Expr F O
  grouping : Expr F O → Expr F O
  variable : Text → Expr F O
  member : Text → Text → Expr F O
  unary : TokenType → Expr F O → Expr F O
  binary : TokenType → Expr F O → Expr F O → Expr F O
  other : Expr F O

-- The instructions for a binary operator but && and ||, with whether both operands have a numeric type:
-- `emitCompoundOp` and the other cases of `compileBinary`. None is an operator that it refuses.
unfoldable pub emitted : TokenType → Bool → Option (List Instr)
emitted t numeric = elim t [
  | plus ↦ some (do_arith num_add numeric ∷ [])
  | minus ↦ some (do_arith num_sub numeric ∷ [])
  | star ↦ some (do_arith num_mul numeric ∷ [])
  | star_star ↦ some (do_pow ∷ [])
  | caret ↦ some (do_pow ∷ [])
  | slash ↦ some (do_arith num_div numeric ∷ [])
  | percent ↦ some (do_arith num_mod numeric ∷ [])
  | equal_equal ↦ some (do_equal ∷ [])
  | bang_equal ↦ some (do_equal ∷ do_not ∷ [])
  | greater ↦ some (do_greater numeric ∷ [])
  | less ↦ some (do_less numeric ∷ [])
  | greater_equal ↦ some (do_less numeric ∷ do_not ∷ [])
  | less_equal ↦ some (do_greater numeric ∷ do_not ∷ [])
  | _ ↦ none
]

-- The sign of a comparison.
pub data Compare : Type 0 where
  before same after : Compare

abbrev pub is_same : Compare → Bool
is_same same = true
is_same _ = false

abbrev pub is_before : Compare → Bool
is_before before = true
is_before _ = false

abbrev pub is_after : Compare → Bool
is_after after = true
is_after _ = false

unfoldable pub compare_text : Text → Text → Compare
compare_text a b = if text_lt a b then before else if text_lt b a then after else same

-- `math.Mod`, `math.Pow`, and `<`, `<=` on float64 are parameters; so are the texts of values
-- (`Value.String`), the equality of values with objects, and the constants that are in scope.
module _ (fl : Float64) {O : Type 0} (fmod pow : fl.F → fl.F → fl.F) (lt le : fl.F → fl.F → Bool)
    (text : Value fl.F O → Text) (same_object : Value fl.F O → Value fl.F O → Bool) where
  -- `compareTextConstants`.
  abbrev pub compare_texts : Value fl.F O → Value fl.F O → Option Compare
  compare_texts l r = if is_text l && is_text r then some (compare_text l.str r.str) else none

  abbrev pub folded : (fl.F → fl.F → fl.F) → Value fl.F O → Value fl.F O → Value fl.F O
  folded f l r =
      if is_int l && is_int r
      then int_value fl (fl.to_int (f l.num r.num))
      else float_value fl (f l.num r.num)

  -- `foldNumericBinary`.
  unfoldable pub fold_numeric_binary : TokenType → Value fl.F O → Value fl.F O → Value fl.F O
  fold_numeric_binary t l r = elim t [
    | plus ↦ folded fl.add l r
    | minus ↦ folded fl.sub l r
    | star ↦ folded fl.mul l r
    | star_star ↦
        if (is_int l && is_int r) && le fl.zero_float r.num
        then int_value fl (fl.to_int (pow l.num r.num))
        else float_value fl (pow l.num r.num)
    | caret ↦
        if (is_int l && is_int r) && le fl.zero_float r.num
        then int_value fl (fl.to_int (pow l.num r.num))
        else float_value fl (pow l.num r.num)
    | percent ↦ folded fmod l r
    | _ ↦ float_value fl l.num
  ]

  abbrev pub on_numbers : Value fl.F O → Value fl.F O → Value fl.F O → Option (Value fl.F O)
  on_numbers l r v = if both_numbers l r then some v else none

  -- A comparison: of texts by its sign, of numbers by a test on float64.
  abbrev pub ordered :
      (Compare → Bool) → (fl.F → fl.F → Bool) → Value fl.F O → Value fl.F O → Option (Value fl.F O)
  ordered sign test l r = elim (compare_texts l r) [
    | some c ↦ some (bool_value fl (sign c))
    | none ↦ on_numbers l r (bool_value fl (test l.num r.num))
  ]

  -- `Equal`.
  abbrev pub equal : Value fl.F O → Value fl.F O → Bool
  equal l r = if is_object l && is_object r then same_object l r else plain_equal fl l r

  abbrev pub equality : Value fl.F O → Value fl.F O → Bool
  equality l r = elim (compare_texts l r) [ some c ↦ is_same c | none ↦ equal l r ]

  -- The cases of `evalConstExpr` on a binary expression.
  unfoldable pub fold_binary : TokenType → Value fl.F O → Value fl.F O → Option (Value fl.F O)
  fold_binary t l r = elim t [
    | plus ↦
        if both_numbers l r
        then some (fold_numeric_binary plus l r)
        else if is_text l || is_text r
        then some (string_value fl (text l ++ text r))
        else none
    | minus ↦ on_numbers l r (fold_numeric_binary minus l r)
    | star ↦ on_numbers l r (fold_numeric_binary star l r)
    | star_star ↦ on_numbers l r (fold_numeric_binary star_star l r)
    | caret ↦ on_numbers l r (fold_numeric_binary star_star l r)
    | slash ↦ on_numbers l r (float_value fl (fl.div l.num r.num))
    | percent ↦ on_numbers l r (fold_numeric_binary percent l r)
    | and_and ↦ some (bool_value fl (is_truthy l && is_truthy r))
    | or_or ↦ some (bool_value fl (is_truthy l || is_truthy r))
    | equal_equal ↦ some (bool_value fl (equality l r))
    | bang_equal ↦ some (bool_value fl (not (equality l r)))
    | greater ↦ ordered is_after (λ a b. lt b a) l r
    | greater_equal ↦ ordered (λ c. not (is_before c)) (λ a b. le b a) l r
    | less ↦ ordered is_before lt l r
    | less_equal ↦ ordered (λ c. not (is_after c)) le l r
    | _ ↦ none
  ]

  -- The cases on a unary expression.
  unfoldable pub fold_unary : TokenType → Value fl.F O → Option (Value fl.F O)
  fold_unary t v = elim t [
    | minus ↦
        if is_number v
        then some (
            if is_int v
            then int_value fl (neg64 (fl.to_int v.num))
            else float_value fl (fl.neg v.num))
        else none
    | bang ↦ some (bool_value fl (not (is_truthy v)))
    | _ ↦ none
  ]

  -- `evalConstExpr`, with the constants in scope (`resolveInlineConst`, then `consts`) and the static
  -- members of classes.
  unfoldable pub eval_const_expr :
      (Text → Option (Value fl.F O))
      → (Text → Text → Option (Value fl.F O))
      → Expr fl.F O
      → Option (Value fl.F O)
  eval_const_expr constants statics (literal v) = some v
  eval_const_expr constants statics (grouping e) = eval_const_expr constants statics e
  eval_const_expr constants statics (variable name) = constants name
  eval_const_expr constants statics (member class name) = statics class name
  eval_const_expr constants statics (unary t e) = do
    v ← eval_const_expr constants statics e
    fold_unary t v
  eval_const_expr constants statics (binary t e d) = do
    l ← eval_const_expr constants statics e
    r ← eval_const_expr constants statics d
    fold_binary t l r
  eval_const_expr constants statics other = none
