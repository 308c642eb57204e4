-- ===== src/Lexer/Scan.antt =====
-- internal/lexer/lexer.go: one round of `scanTokens`, its loop, and `Scan`. The cases of the switch
-- on one character are tables; `//` and `/*` are tried before `/=` and `/`.
use polyloft_bvm.Prelude.{
  ℕ, zero, suc, Bool, ◌&&◌, ◌||◌, List, [], ◌∷◌, Option, none, some, ◌==◌, if◌then◌else◌, length,
}
use polyloft_bvm.Token.{Token, TokenType}
use polyloft_bvm.Lexer.{
  Unicode, Lexer, Problem, Result, ok, err, stuck, ◌>>=◌, is_at_end, peek, peek_next, current,
  advance, matches, consume, push_item, add_token,
}
use polyloft_bvm.Lexer.Literals.{
  skip_line, skip_block, scan_string, scan_char, scan_number, scan_identifier,
}

-- The characters that are a token by themselves.
unfoldable pub single : ℕ → Option TokenType
single c =
    if c == b'('
    then some TokenType.left_paren
    else if c == b')'
    then some TokenType.right_paren
    else if c == b'['
    then some TokenType.left_bracket
    else if c == b']'
    then some TokenType.right_bracket
    else if c == b'{'
    then some TokenType.left_brace
    else if c == b'}'
    then some TokenType.right_brace
    else if c == b','
    then some TokenType.comma
    else if c == b':'
    then some TokenType.colon
    else if c == b'?'
    then some TokenType.question
    else if c == b'@'
    then some TokenType.at_sign
    else if c == b'%'
    then some TokenType.percent
    else if c == b'^'
    then some TokenType.caret
    else none

-- An operator: the second characters that are tried in turn, and the token if none is there.
pub record Operator : Type 0 where
  pub longer : List (ℕ × TokenType)
  pub alone : TokenType

abbrev pub operator_of : ℕ → TokenType → TokenType → Option Operator
operator_of c long short = some (record { longer = (c, long) ∷ []; alone = short })

abbrev pub operator_of₂ : ℕ → TokenType → ℕ → TokenType → TokenType → Option Operator
operator_of₂ c first d second short =
    some (record { longer = (c, first) ∷ (d, second) ∷ []; alone = short })

unfoldable pub operator : ℕ → Option Operator
operator c =
    if c == b'+'
    then operator_of b'=' TokenType.plus_equal TokenType.plus
    else if c == b'-'
    then operator_of₂ b'>' TokenType.arrow b'=' TokenType.minus_equal TokenType.minus
    else if c == b'*'
    then operator_of₂ b'*' TokenType.star_star b'=' TokenType.star_equal TokenType.star
    else if c == b'/'
    then operator_of b'=' TokenType.slash_equal TokenType.slash
    else if c == b'!'
    then operator_of b'=' TokenType.bang_equal TokenType.bang
    else if c == b'&'
    then operator_of b'&' TokenType.and_and TokenType.ampersand
    else if c == b'|'
    then operator_of b'|' TokenType.or_or TokenType.pipe
    else if c == b'='
    then operator_of₂ b'>' TokenType.fat_arrow b'=' TokenType.equal_equal TokenType.equal
    else if c == b'>'
    then operator_of b'=' TokenType.greater_equal TokenType.greater
    else if c == b'<'
    then operator_of b'=' TokenType.less_equal TokenType.less
    else none

unfoldable pub scan_operator : List (ℕ × TokenType) → TokenType → ℕ → ℕ → Lexer → Lexer
scan_operator [] alone line col lx = add_token alone line col lx
scan_operator ((c, kind) ∷ rest) alone line col lx =
    if matches c lx
    then add_token kind line col (consume lx)
    else scan_operator rest alone line col lx

unfoldable pub scan_dot : ℕ → ℕ → Lexer → Lexer
scan_dot line col lx =
    if peek lx == b'.' && peek_next lx == b'.'
    then add_token TokenType.ellipsis line col (advance (advance lx))
    else add_token TokenType.dot line col lx

abbrev pub initial : List ℕ → Lexer
initial source = record { source = source; start = 0; cur = 0; line = 1; col = 1; items = [] }

abbrev pub is_blank : ℕ → Bool
is_blank c = c == b' ' || c == b'\r' || c == b'\t'

module _ (u : Unicode) where
  -- The `default` case.
  unfoldable pub scan_default : ℕ → ℕ → ℕ → ℕ → Lexer → Result Lexer
  scan_default fuel c line col lx =
      if u.is_digit c
      then scan_number u fuel line col lx
      else if u.is_letter c || c == b'_'
      then ok (scan_identifier u fuel line col lx)
      else err line col Problem.unexpected_character

  unfoldable pub scan_table : ℕ → ℕ → ℕ → ℕ → Lexer → Result Lexer
  scan_table fuel c line col lx = elim (single c) [
    | some kind ↦ ok (add_token kind line col lx)
    | none ↦ elim (operator c) [
      | some op ↦ ok (scan_operator op.longer op.alone line col lx)
      | none ↦ scan_default fuel c line col lx
    ]
  ]

  -- The switch on `r`, the character that was just consumed.
  unfoldable pub scan_character : ℕ → ℕ → ℕ → ℕ → Lexer → Result Lexer
  scan_character fuel c line col lx =
      if is_blank c
      then ok lx
      else if c == b'\n'
      then ok (push_item TokenType.newline (b'\\' ∷ b'n' ∷ []) line col lx)
      else if c == b'.'
      then ok (scan_dot line col lx)
      else if c == b'/' && matches b'/' lx
      then ok (skip_line fuel (consume lx))
      else if c == b'/' && matches b'*' lx
      then ok (skip_block fuel (consume lx))
      else if c == 34
      then scan_string fuel line col lx
      else if c == 39
      then scan_char line col lx
      else scan_table fuel c line col lx

  -- One round of the loop of `scanTokens`.
  unfoldable pub scan_token : ℕ → Lexer → Result Lexer
  scan_token fuel lx =
      scan_character fuel (current lx) lx.line lx.col (advance (record lx { start = lx.cur }))

  unfoldable pub scan_tokens : ℕ → ℕ → Lexer → Result Lexer
  scan_tokens fuel zero lx =
      if is_at_end lx then ok (push_item TokenType.eof [] lx.line lx.col lx) else stuck
  scan_tokens fuel (suc rounds) lx =
      let next = (scan_token fuel lx >>= λ lx'. scan_tokens fuel rounds lx') in
      if is_at_end lx then ok (push_item TokenType.eof [] lx.line lx.col lx) else next

  -- `Scan`. Each round of each loop consumes a character.
  unfoldable pub scan : List ℕ → Result (List Token)
  scan source = do
    lx ← scan_tokens (suc (length source)) (length source) (initial source)
    ok lx.items
