-- ===== src/Lexer/Literals.antt =====
-- internal/lexer/lexer.go: `scanString`, `scanChar`, `scanNumber`, `scanIdentifier`, and the loops
-- that skip comments. A loop takes fuel; the source's length is enough, since each round advances.
use polyloft_bvm.Prelude.{
  ℕ, zero, suc, ◌+◌, ◌-◌, Bool, true, false, ◌&&◌, ◌||◌, not, List, [], ◌∷◌, ◌++◌, ◌==◌,
  if◌then◌else◌, get_or,
}
use polyloft_bvm.Token.{TokenType, lookup_identifier}
use polyloft_bvm.Lexer.{
  Unicode, Lexer, Problem, Result, ok, err, stuck, ◌>>=◌, is_at_end, peek, peek_next, current,
  advance, slice, push_item, add_token,
}

-- `for !lx.isAtEnd() && lx.peek() != '\n'`
unfoldable pub skip_line : ℕ → Lexer → Lexer
skip_line zero lx = lx
skip_line (suc f) lx =
    let more = skip_line f (advance lx) in
    if not (is_at_end lx) && not (peek lx == b'\n') then more else lx

-- The loop of a block comment, which also stops at the end of the source.
unfoldable pub skip_block : ℕ → Lexer → Lexer
skip_block zero lx = lx
skip_block (suc f) lx =
    let more = skip_block f (advance lx) in
    if is_at_end lx
    then lx
    else if peek lx == b'*' && peek_next lx == b'/'
    then advance (advance lx)
    else more

-- The first loop of `scanString`: `depth` is `interpDepth`. It stops before the closing quote, or
-- at the end of the source.
unfoldable pub string_body : ℕ → ℕ → ℕ → ℕ → Lexer → Result Lexer
string_body zero depth line col lx = stuck
string_body (suc f) (suc depth) line col lx =
    let next = string_body f in
    if is_at_end lx
    then ok lx
    else if peek lx == b'{'
    then next (suc (suc depth)) line col (advance lx)
    else if peek lx == b'}'
    then next depth line col (advance lx)
    else next (suc depth) line col (advance lx)
string_body (suc f) zero line col lx =
    let next = string_body f in
    if is_at_end lx
    then ok lx
    else if peek lx == b'"'
    then ok lx
    else if peek lx == b'\n'
    then err line col Problem.unterminated_string
    else if peek lx == b'#' && peek_next lx == b'{'
    then next 1 line col (advance (advance lx))
    else if peek lx == b'\\' && peek_next lx == b'"'
    then next 0 line col (advance (advance lx))
    else next 0 line col (advance lx)

-- What `scanString` writes for the byte behind a backslash.
unfoldable pub unescape_one : ℕ → List ℕ
unescape_one c =
    if c == b'n'
    then b'\n' ∷ []
    else if c == b'r'
    then b'\r' ∷ []
    else if c == b't'
    then b'\t' ∷ []
    else if c == b'\\'
    then b'\\' ∷ []
    else if c == b'"'
    then b'"' ∷ []
    else b'\\' ∷ c ∷ []

-- The second loop of `scanString`. It walks bytes; the escapes are ASCII, so code points do.
unfoldable pub unescape : List ℕ → List ℕ
unescape [] = []
unescape (c ∷ []) = c ∷ []
unescape (c ∷ d ∷ rest) =
    let escaped = unescape_one d ++ unescape rest in
    let plain = c ∷ unescape (d ∷ rest) in if c == b'\\' then escaped else plain

-- The closing quote, and the token.
unfoldable pub close_string : ℕ → ℕ → Lexer → Result Lexer
close_string line col lx =
    let closed = advance lx in
    if is_at_end lx
    then err line col Problem.unterminated_string
    else ok (
        push_item TokenType.string
          (unescape (slice closed.source (closed.start + 1) (closed.cur - 1))) line col closed)

unfoldable pub scan_string : ℕ → ℕ → ℕ → Lexer → Result Lexer
scan_string fuel line col lx = do lx' ← string_body fuel 0 line col lx; close_string line col lx'

-- The characters that `scanChar` accepts behind a backslash, with their values.
unfoldable pub char_escape : ℕ → ℕ → ℕ → Result ℕ
char_escape line col c =
    if c == b'n'
    then ok 10
    else if c == b'r'
    then ok 13
    else if c == b't'
    then ok 9
    else if c == b'b'
    then ok 8
    else if c == b'f'
    then ok 12
    else if c == b'\\'
    then ok 92
    else if c == 39
    then ok 39
    else if c == 34
    then ok 34
    else if c == b'0'
    then ok 0
    else err line col Problem.bad_char_escape

-- The character between the quotes and the state behind it.
unfoldable pub char_value : ℕ → ℕ → Lexer → Result (ℕ × Lexer)
char_value line col lx =
    if peek lx == b'\\'
    then if is_at_end (advance lx)
      then err line col Problem.unterminated_char
      else (char_escape line col (current (advance lx)) >>= λ v. ok (v, advance (advance lx)))
    else ok (current lx, advance lx)

unfoldable pub scan_char : ℕ → ℕ → Lexer → Result Lexer
scan_char line col lx =
    if is_at_end lx || peek lx == b'\n'
    then err line col Problem.unterminated_char
    else (char_value line col lx >>= λ p.
        if is_at_end p.1 || not (peek p.1 == 39)
        then err line col Problem.bad_char_length
        else ok (push_item TokenType.char (p.0 ∷ []) line col (advance p.1)))

-- `strings.ReplaceAll(literal, "_", "")`
unfoldable pub normalize_number : List ℕ → List ℕ
normalize_number [] = []
normalize_number (c ∷ cs) = let rest = normalize_number cs in if c == b'_' then rest else c ∷ rest

module _ (u : Unicode) where
  -- The loop of `consumeNumberDigits`.
  unfoldable pub number_digits : ℕ → ℕ → ℕ → Lexer → Result Lexer
  number_digits zero line col lx = stuck
  number_digits (suc f) line col lx =
      let more = number_digits f line col (advance lx) in
      if u.is_digit (peek lx)
      then more
      else if peek lx == b'_'
      then if not (u.is_digit (peek_next lx)) then err line col Problem.bad_number else more
      else ok lx

  -- The first test of the source holds only for a fraction.
  unfoldable pub consume_number_digits : ℕ → Bool → ℕ → ℕ → Lexer → Result Lexer
  consume_number_digits fuel require_leading line col lx =
      if require_leading && not (u.is_digit (peek lx))
      then err line col Problem.bad_number
      else (number_digits fuel line col lx >>= λ lx'.
          if get_or lx'.source (lx'.cur - 1) 0 == b'_'
          then err line col Problem.bad_number
          else ok lx')

  -- The fraction, if there is one, with `isFloat`.
  unfoldable pub number_fraction : ℕ → ℕ → ℕ → Lexer → Result (Bool × Lexer)
  number_fraction fuel line col lx =
      if peek lx == b'.' && u.is_digit (peek_next lx)
      then (consume_number_digits fuel true line col (advance lx) >>= λ lx'. ok (true, lx'))
      else ok (false, lx)

  unfoldable pub number_token : ℕ → ℕ → Bool → Lexer → Result Lexer
  number_token line col is_float lx =
      if not (u.parse_float (normalize_number (slice lx.source lx.start lx.cur)))
      then err line col Problem.bad_number
      else ok (
          add_token (if is_float then TokenType.float_number else TokenType.int_number) line col lx)

  unfoldable pub scan_number : ℕ → ℕ → ℕ → Lexer → Result Lexer
  scan_number fuel line col lx = do
    whole ← consume_number_digits fuel false line col lx
    p ← number_fraction fuel line col whole
    number_token line col p.0 p.1

  abbrev pub is_name : ℕ → Bool
  is_name c = u.is_letter c || u.is_digit c || c == b'_'

  -- The loop of `scanIdentifier`.
  unfoldable pub name_end : ℕ → Lexer → Lexer
  name_end zero lx = lx
  name_end (suc f) lx = let more = name_end f (advance lx) in if is_name (peek lx) then more else lx

  unfoldable pub scan_identifier : ℕ → ℕ → ℕ → Lexer → Lexer
  scan_identifier fuel line col lx =
      let lx' = name_end fuel lx in
      add_token (lookup_identifier (slice lx'.source lx'.start lx'.cur)) line col lx'
