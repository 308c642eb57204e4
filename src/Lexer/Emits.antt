-- ===== src/Lexer/Emits.antt =====
-- What a scan appends: at most one token, placed where the round began.
use polyloft_bvm.Prelude.{
  ℕ, ◌≤◌, ◌≡◌, ◌≢◌, refl, ap, true, false, ◌⊎◌, inl, inr, List, [], ◌∷◌, ◌++◌, arith, if_case, All,
  Bool, ◌==◌, Option, none, some,
}
use polyloft_bvm.Token.{Token, TokenType}
use polyloft_bvm.Lexer.{Lexer, Result, ok, err, stuck, ◌>>=◌, slice, push_item, add_token}
use polyloft_bvm.Lexer.Scan.{Operator, operator}
use polyloft_bvm.Lexer.Position.{At, Reaches}
use polyloft_bvm.Lexer.Ends.{Ends}

-- The tokens whose lexeme is the source text itself.
abbrev pub verbatim : TokenType → Bool
verbatim TokenType.eof = false
verbatim TokenType.newline = false
verbatim TokenType.char = false
verbatim TokenType.string = false
verbatim _ = true

-- `t` stands at a line and column, and spells the source from `lo` to `hi`.
pub record Spans (src : List ℕ) (lo hi line col : ℕ) (t : Token) : Type 0 where
  pub line_is : t.line ≡ line
  pub column_is : t.column ≡ col
  pub spelled : verbatim t.type ≡ true → t.lexeme ≡ slice src lo hi

abbrev pub Adds : List ℕ → ℕ → ℕ → ℕ → ℕ → List Token → List Token → Type 0
Adds src lo hi line col old new =
    (new ≡ old) ⊎ ((t : Token) × (new ≡ old ++ t ∷ []) × Spans src lo hi line col t)

pub record Emits (src : List ℕ) (line col : ℕ) (a b : Lexer) : Type 0 where
  pub at : At src b
  pub forward : a.cur ≤ b.cur
  pub adds : Adds src a.start b.cur line col a.items b.items

abbrev pub Emitted : List ℕ → ℕ → ℕ → Lexer → Result Lexer → Type 0
Emitted src line col a (ok b) = Emits src line col a b
Emitted src line col a (err l c p) = (l ≡ line) × (c ≡ col)
Emitted src line col a stuck = ⊥

module _ {src : List ℕ} {line col : ℕ} {a b : Lexer} where
  pub Emits-none : Reaches src a b → Emits src line col a b
  Emits-none r = record { at = r.at; forward = r.forward; adds = inl r.items_are }

  pub push_item-Emits :
      (kind : TokenType) (text : List ℕ)
      → verbatim kind ≡ false
      → Reaches src a b
      → Emits src line col a (push_item kind text line col b)
  unfolding push_item
  push_item-Emits kind text plain r = record {
    at = record { source_is = r.at.source_is; within = r.at.within; placed = r.at.placed };
    forward = r.forward;
    adds = inr (
      record { type = kind; lexeme = text; line = line; column = col },
      ap
          (λ (l : List Token).
            l ++ record { type = kind; lexeme = text; line = line; column = col } ∷ [])
          r.items_are,
      record { line_is = refl; column_is = refl; spelled = λ v. absurd (cc) },
    );
  }

  pub add_token-Emits :
      (kind : TokenType) → Reaches src a b → Emits src line col a (add_token kind line col b)
  unfolding add_token push_item
  add_token-Emits kind r = record {
    at = record { source_is = r.at.source_is; within = r.at.within; placed = r.at.placed };
    forward = r.forward;
    adds = inr (
      record { type = kind; lexeme = slice b.source b.start b.cur; line = line; column = col },
      ap
          (λ (l : List Token).
            l
            ++ record {
              type = kind;
              lexeme = slice b.source b.start b.cur;
              line = line;
              column = col;
            }
              ∷ [])
          r.items_are,
      record { line_is = refl; column_is = refl; spelled = λ v. rw (r.at.source_is, r.start_is) },
    );
  }

module _ {ℓ} {A : Type ℓ} (state : A → Lexer) (src : List ℕ) (line col : ℕ) where
  pub Emitted-bind :
      (a : Lexer) (r : Result A) (f : A → Result Lexer)
      → Ends state src a line col r
      → ((b : A) → Reaches src a (state b) → Emitted src line col a (f b))
      → Emitted src line col a (r >>= f)
  Emitted-bind a (ok b) f h k = k b h
  Emitted-bind a (err l c p) f h k = h
  Emitted-bind a stuck f h k = absurd h

abbrev pub NoNewline : ℕ × TokenType → Type 0
NoNewline e = e.0 ≢ b'\n'

abbrev pub PlainOperator : Option Operator → Type 0
PlainOperator none = Unit
PlainOperator (some op) = All NoNewline op.longer

pub operator-PlainOperator : (c : ℕ) → PlainOperator (operator c)
unfolding operator
operator-PlainOperator c =
    let P = PlainOperator in
    if_case P (c == b'+') (λ _. omega arith)
      λ _.
        if_case P (c == b'-') (λ _. omega arith)
          λ _.
            if_case P (c == b'*') (λ _. omega arith)
              λ _.
                if_case P (c == b'/') (λ _. omega arith)
                  λ _.
                    if_case P (c == b'!') (λ _. omega arith)
                      λ _.
                        if_case P (c == b'&') (λ _. omega arith)
                          λ _.
                            if_case P (c == b'|') (λ _. omega arith)
                              λ _.
                                if_case P (c == b'=') (λ _. omega arith)
                                  λ _.
                                    if_case P (c == b'>') (λ _. omega arith)
                                      λ _. if_case P (c == b'<') (λ _. omega arith) (λ _. tt)
