-- ===== src/Lexer/Layout.antt =====
-- What `Scan` returns: its loop ends, its tokens lie side by side in the source, and an error names a
-- place of the source.
use polyloft_bvm.Prelude.{
  ℕ, zero, suc, ◌+◌, ◌≤◌, ◌<◌, ◌≡◌, refl, true, inl, inr, List, [], ◌∷◌, ◌++◌, length, arith,
  if_case,
}
use polyloft_bvm.Token.{Token, TokenType}
use polyloft_bvm.Lexer.{Unicode, Lexer, Result, ok, err, stuck, ◌>>=◌, is_at_end, push_item}
use polyloft_bvm.Lexer.Scan.{scan_token, scan_tokens, initial, scan}
use polyloft_bvm.Lexer.Position.{At, peek-lt, place, place_zero, first_place}
use polyloft_bvm.Lexer.Ends.{NulIsPlain}
use polyloft_bvm.Lexer.Emits.{Spans, Adds}
use polyloft_bvm.Lexer.Round.{Round, scan_token-Round}

-- The tokens cover disjoint stretches of the source, in order, up to an offset. Each begins at its
-- line and column.
pub data Laid (src : List ℕ) : ℕ → List Token → Type 0 where
  start : {n : ℕ} → Laid src n []
  token :
      {n m : ℕ} {ts us : List Token} (k line col : ℕ) (t : Token)
      → Laid src n ts
      → n ≤ k
      → k < m
      → m ≤ length src
      → place src k first_place ≡ (line, col)
      → Spans src k m line col t
      → us ≡ ts ++ t ∷ []
      → Laid src m us

-- The last token stands at the end of the source and holds no text.
abbrev pub eof_token : ℕ × ℕ → Token
eof_token p = record { type = TokenType.eof; lexeme = []; line = p.0; column = p.1 }

pub record Listed (src : List ℕ) (items : List Token) : Type 0 where
  pub tokens : List Token
  pub last : ℕ
  pub laid : Laid src last tokens
  pub within : last ≤ length src
  pub items_are : items ≡ tokens ++ eof_token (place src (length src) first_place) ∷ []

pub record Fault (src : List ℕ) (line col : ℕ) : Type 0 where
  pub offset : ℕ
  pub within : offset < length src
  pub placed : place src offset first_place ≡ (line, col)

abbrev pub Scanned : List ℕ → Result (List Token) → Type 0
Scanned src (ok items) = Listed src items
Scanned src (err l c p) = Fault src l c
Scanned src stuck = ⊥

abbrev items_of : Result Lexer → Result (List Token)
items_of r = r >>= λ lx. ok lx.items

record Sofar (src : List ℕ) (a : Lexer) : Type 0 where
  at : At src a
  reached : ℕ
  laid : Laid src reached a.items
  behind : reached ≤ a.cur

finish-Listed :
    (src : List ℕ) (a : Lexer)
    → Sofar src a
    → is_at_end a ≡ true
    → Listed src (push_item TokenType.eof [] a.line a.col a).items
unfolding push_item is_at_end
finish-Listed src a s e =
    let end : a.cur ≡ length src = ground (arith, s.at.within, s.at.source_is) in
    record {
      tokens = a.items;
      last = s.reached;
      laid = s.laid;
      within = omega (arith, s.behind);
      items_are = rw (← end, s.at.placed);
    }

extend-Sofar :
    (src : List ℕ) (a b : Lexer)
    → Sofar src a
    → At src b
    → a.cur < b.cur
    → Adds src a.cur b.cur a.line a.col a.items b.items
    → Sofar src b
extend-Sofar src a b s h lt (inl same) = record {
  at = h;
  reached = s.reached;
  laid = rw same s.laid;
  behind = omega (arith, s.behind);
}
extend-Sofar src a b s h lt (inr (t, e, spans)) = record {
  at = h;
  reached = b.cur;
  laid = token a.cur a.line a.col t s.laid s.behind lt h.within s.at.placed spans e;
  behind = omega arith;
}

module _ (u : Unicode) (nul : NulIsPlain u) (src : List ℕ) where
  after-Round :
      (rounds : ℕ) (a : Lexer) (r : Result Lexer)
      → Sofar src a
      → a.cur < length src
      → Round src a r
      → ((b : Lexer)
          → Sofar src b
          → a.cur < b.cur
          → Scanned src (items_of (scan_tokens u (suc (length src)) rounds b)))
      → Scanned src (items_of (r >>= λ b. scan_tokens u (suc (length src)) rounds b))
  after-Round rounds a (ok b) s lt (h, up, adds) next = next b (extend-Sofar src a b s h up adds) up
  after-Round rounds a (err l c p) s lt (e, e') next = record {
    offset = a.cur;
    within = lt;
    placed = rw (e, e') s.at.placed;
  }
  after-Round rounds a stuck s lt r next = r

  scan_tokens-Scanned :
      (rounds : ℕ) (a : Lexer)
      → Sofar src a
      → length src ≤ rounds + a.cur
      → Scanned src (items_of (scan_tokens u (suc (length src)) rounds a))
  unfolding scan_tokens
  scan_tokens-Scanned zero a s enough =
      if_case (λ r. Scanned src (items_of r)) (is_at_end a) (finish-Listed src a s)
        λ more. absurd (omega (arith, peek-lt s.at more))
  scan_tokens-Scanned (suc rounds) a s enough =
      if_case (λ r. Scanned src (items_of r)) (is_at_end a) (finish-Listed src a s)
        λ more.
          let lt = peek-lt s.at more in
          after-Round rounds a (scan_token u (suc (length src)) a) s lt
            (scan_token-Round u src (suc (length src)) a nul (omega arith) s.at lt)
            (λ b sb up. scan_tokens-Scanned rounds b sb (omega arith))

  -- On every source `Scan` ends, if U+0000 is neither a digit nor a letter. If it succeeds, its tokens are stretches of the source, in order and
  -- disjoint, each with the line and column of its first character and, but for newlines, characters
  -- and strings, the text of its stretch; one EOF token at the end of the source comes last. If it
  -- fails, the message names the line and column of a character of the source.
  pub scan-Scanned : Scanned src (scan u src)
  unfolding scan
  scan-Scanned =
      scan_tokens-Scanned (length src) (initial src)
        (record {
          at = record {
            source_is = refl;
            within = omega arith;
            placed = place_zero src first_place;
          };
          reached = 0;
          laid = start;
          behind = omega arith;
        })
        (omega arith)
