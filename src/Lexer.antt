-- ===== src/Lexer.antt =====
-- internal/lexer/lexer.go: the scanner's state and its primitive moves. The source is the list of
-- code points `[]rune(source)`. `Scan` and the literals stand in the children.
pub mod Literals
pub mod Scan
pub mod Position
pub mod Comments
pub mod Ends
pub mod Emits
pub mod Round
pub mod Layout
pub mod Ahead
pub mod Quoted
pub mod Escapes
use polyloft_bvm.Prelude.{
  ℕ, ◌+◌, ◌-◌, Bool, true, false, ◌&&◌, ◌||◌, not, List, [], ◌∷◌, ◌++◌, ◌==◌, leb, ltb,
  if◌then◌else◌, length, get_or, take, drop,
}
use polyloft_bvm.Token.{Token, TokenType}

-- What the scanner takes from Go's `unicode` and `strconv` packages. `parse_float` tells whether
-- `strconv.ParseFloat` accepts the text. U+0000 is neither a digit nor a letter.
pub record Unicode : Type 0 where
  pub is_digit : ℕ → Bool
  pub is_letter : ℕ → Bool
  pub parse_float : List ℕ → Bool

pub record Lexer : Type 0 where
  pub source : List ℕ
  pub start : ℕ
  pub cur : ℕ
  pub line : ℕ
  pub col : ℕ
  pub items : List Token

pub data Problem : Type 0 where
  unexpected_character unterminated_string unterminated_char bad_char_escape : Problem
  bad_char_length bad_number : Problem

-- An error carries the line and column that its message begins with. `stuck` is no Go value: a loop
-- of the model ran out of fuel.
pub data Result {ℓ} (A : Type ℓ) : Type ℓ where
  ok : A → Result A
  err : ℕ → ℕ → Problem → Result A
  stuck : Result A

infixl 5 ◌>>=◌
abbrev pub ◌>>=◌ {ℓ κ} : {A : Type ℓ} {B : Type κ} → Result A → (A → Result B) → Result B
ok a >>= f = f a
err l c p >>= f = err l c p
stuck >>= f = stuck

unfoldable pub is_at_end : Lexer → Bool
is_at_end lx = leb (length lx.source) lx.cur

unfoldable pub peek : Lexer → ℕ
unfolding is_at_end
peek lx = if is_at_end lx then 0 else get_or lx.source lx.cur 0

unfoldable pub peek_next : Lexer → ℕ
peek_next lx = if leb (length lx.source) (lx.cur + 1) then 0 else get_or lx.source (lx.cur + 1) 0

-- The state after `advance`; the character that it returns is `current`.
unfoldable pub current : Lexer → ℕ
current lx = get_or lx.source lx.cur 0

unfoldable pub advance : Lexer → Lexer
unfolding current
advance lx =
    if current lx == b'\n'
    then record lx { cur = lx.cur + 1; line = lx.line + 1; col = 1 }
    else record lx { cur = lx.cur + 1; col = lx.col + 1 }

-- `match`: the test, and the state when it succeeds.
unfoldable pub matches : ℕ → Lexer → Bool
unfolding is_at_end current
matches expected lx = not (is_at_end lx) && current lx == expected

unfoldable pub consume : Lexer → Lexer
consume lx = record lx { cur = lx.cur + 1; col = lx.col + 1 }

-- `source[lo:hi]`.
abbrev pub slice : List ℕ → ℕ → ℕ → List ℕ
slice src lo hi = take (hi - lo) (drop lo src)

unfoldable pub push_item : TokenType → List ℕ → ℕ → ℕ → Lexer → Lexer
push_item kind text line col lx = record lx {
  items = lx.items ++ (record { type = kind; lexeme = text; line = line; column = col } ∷ []);
}

unfoldable pub add_token : TokenType → ℕ → ℕ → Lexer → Lexer
unfolding push_item
add_token kind line col lx = push_item kind (slice lx.source lx.start lx.cur) line col lx
