-- ===== src/Lexer/Round.antt =====
-- One round of `scanTokens` appends at most one token, placed where the round began.
use polyloft_bvm.Prelude.{
  ℕ, ◌<◌, ◌≡◌, ◌≢◌, refl, true, false, inl, inr, List, [], ◌∷◌, length, arith, if_case, All, Bool,
  ◌&&◌, ◌||◌, not, ◌==◌, if◌then◌else◌, Option-cases,
}
use polyloft_bvm.Token.{TokenType}
use polyloft_bvm.Lexer.{
  Unicode, Lexer, Result, ok, err, stuck, is_at_end, peek, peek_next, current, advance, matches,
  consume, slice,
}
use polyloft_bvm.Lexer.Literals.{
  string_body, close_string, scan_string, char_value, scan_char, number_token,
  consume_number_digits, number_fraction, scan_number, scan_identifier, normalize_number,
}
use polyloft_bvm.Lexer.Scan.{
  single, operator, scan_operator, scan_dot, is_blank, scan_default, scan_table, scan_character,
  scan_token,
}
use polyloft_bvm.Lexer.Position.{
  At, Reaches, Reaches-refl, Reaches-trans, advance-Reaches, advance-cur, consume-Reaches, peek-lt,
}
use polyloft_bvm.Lexer.Comments.{skip_line-Reaches, skip_block-Reaches}
use polyloft_bvm.Lexer.Ends.{
  Ends-trans, same, NulIsPlain, advance_twice, string_body-Ends, char_value-Ends,
  consume_number_digits-Ends, number_fraction-Ends, behind, name_end-Reaches,
}
use polyloft_bvm.Lexer.Emits.{
  Adds, Emits, Emitted, push_item-Emits, add_token-Emits, Emits-none, Emitted-bind, NoNewline,
  operator-PlainOperator,
}

module _ (src : List ℕ) (line col : ℕ) (fuel : ℕ) (enough : length src < fuel) where
  close_string-Emitted :
      (a b : Lexer) → Reaches src a b → Emitted src line col a (close_string line col b)
  unfolding close_string
  close_string-Emitted a b r =
      if_case (Emitted src line col a) (is_at_end b) (λ _. (refl, refl))
        λ more.
          push_item-Emits TokenType.string _ refl
            (Reaches-trans r (advance-Reaches r.at (peek-lt r.at more)))

  scan_string-Emitted :
      (a : Lexer) → At src a → Emitted src line col a (scan_string fuel line col a)
  unfolding scan_string
  scan_string-Emitted a h =
      Emitted-bind same src line col a (string_body fuel 0 line col a) _
        (string_body-Ends src line col fuel 0 a h (omega arith)) (close_string-Emitted a)

  scan_char-Emitted : (a : Lexer) → At src a → Emitted src line col a (scan_char line col a)
  unfolding scan_char
  scan_char-Emitted a h =
      let P = Emitted src line col a in
      if_case P (is_at_end a || peek a == b'\n') (λ _. (refl, refl))
        λ more.
          Emitted-bind behind src line col a (char_value line col a) _
            (char_value-Ends src line col a h (peek-lt h (ground arith)))
            (λ p r.
              if_case P (is_at_end p.1 || not (peek p.1 == 39)) (λ _. (refl, refl))
                λ closed.
                  push_item-Emits TokenType.char _ refl
                    (Reaches-trans r (advance-Reaches r.at (peek-lt r.at (ground arith)))))

  scan_operator-Emits :
      (longer : List (ℕ × TokenType)) (alone : TokenType) (a : Lexer)
      → All NoNewline longer
      → At src a
      → Emits src line col a (scan_operator longer alone line col a)
  unfolding scan_operator
  scan_operator-Emits [] alone a plain h = add_token-Emits alone (Reaches-refl h)
  scan_operator-Emits ((c, kind) ∷ rest) alone a plain h =
      if_case (Emits src line col a) (matches c a)
        (λ m. add_token-Emits kind (consume-Reaches c h plain.0 m))
        (λ _. scan_operator-Emits rest alone a plain.1 h)

  scan_dot-Emits : (a : Lexer) → At src a → Emits src line col a (scan_dot line col a)
  unfolding scan_dot
  scan_dot-Emits a h =
      if_case (Emits src line col a) (peek a == b'.' && peek_next a == b'.')
        (λ e.
          add_token-Emits TokenType.ellipsis
            (advance_twice src line col a b'.' b'.' h (omega arith) e).0)
        (λ _. add_token-Emits TokenType.dot (Reaches-refl h))

  module _ (u : Unicode) (nul : NulIsPlain u) where
    number_token-Emitted :
        (a b : Lexer) (is_float : Bool)
        → Reaches src a b
        → Emitted src line col a (number_token u line col is_float b)
    unfolding number_token
    number_token-Emitted a b is_float r =
        if_case (Emitted src line col a)
          (not (u.parse_float (normalize_number (slice b.source b.start b.cur))))
          (λ _. (refl, refl))
          (λ _.
            add_token-Emits (if is_float then TokenType.float_number else TokenType.int_number) r)

    scan_number-Emitted :
        (a : Lexer) → At src a → Emitted src line col a (scan_number u fuel line col a)
    unfolding scan_number
    scan_number-Emitted a h =
        Emitted-bind same src line col a (consume_number_digits u fuel false line col a) _
          (consume_number_digits-Ends u nul src line col fuel false a h (omega arith))
          λ b r.
            Emitted-bind behind src line col a (number_fraction u fuel line col b) _
              (Ends-trans behind src line col a b _ r
                (number_fraction-Ends u nul src line col fuel b r.at (omega (arith, r.forward))))
              λ p r'. number_token-Emitted a p.1 p.0 r'

    scan_identifier-Emits :
        (a : Lexer) → At src a → Emits src line col a (scan_identifier u fuel line col a)
    unfolding scan_identifier
    scan_identifier-Emits a h = add_token-Emits _ (name_end-Reaches u nul src fuel a h)

    scan_default-Emitted :
        (c : ℕ) (a : Lexer) → At src a → Emitted src line col a (scan_default u fuel c line col a)
    unfolding scan_default
    scan_default-Emitted c a h =
        let P = Emitted src line col a in
        if_case P (u.is_digit c) (λ _. scan_number-Emitted a h)
          λ _.
            if_case P (u.is_letter c || c == b'_') (λ _. scan_identifier-Emits a h)
              (λ _. (refl, refl))

    scan_table-Emitted :
        (c : ℕ) (a : Lexer) → At src a → Emitted src line col a (scan_table u fuel c line col a)
    unfolding scan_table
    scan_table-Emitted c a h = elim (Option-cases (single c)) [
      | inr (kind, e) ↦ rw (e, scan_table) (add_token-Emits kind (Reaches-refl h))
      | inl e ↦ elim (Option-cases (operator c)) [
        | inr (op, e') ↦
            rw (e, scan_table, e', scan_table)
              (scan_operator-Emits op.longer op.alone a (rw e' at (operator-PlainOperator c)) h)
        | inl e' ↦ rw (e, scan_table, e', scan_table) (scan_default-Emitted c a h)
      ]
    ]

    scan_character-Emitted :
        (c : ℕ) (a : Lexer) → At src a → Emitted src line col a (scan_character u fuel c line col a)
    unfolding scan_character
    scan_character-Emitted c a h =
        let P = Emitted src line col a in
        let after : (d : ℕ)
            → d ≢ b'\n'
            → (c == b'/' && matches d a) ≡ true
            → Reaches src a (consume a) =
          λ d ne m. consume-Reaches d h ne (ground arith) in
        if_case P (is_blank c) (λ _. Emits-none (Reaches-refl h))
          λ _.
            if_case P (c == b'\n') (λ _. push_item-Emits TokenType.newline _ refl (Reaches-refl h))
              λ _.
                if_case P (c == b'.') (λ _. scan_dot-Emits a h)
                  λ _.
                    if_case P (c == b'/' && matches b'/' a)
                      (λ m.
                        let r = after b'/' (omega arith) m in
                        Emits-none (Reaches-trans r (skip_line-Reaches fuel (consume a) r.at)))
                      λ _.
                        if_case P (c == b'/' && matches b'*' a)
                          (λ m.
                            let r = after b'*' (omega arith) m in
                            Emits-none (Reaches-trans r (skip_block-Reaches fuel (consume a) r.at)))
                          λ _.
                            if_case P (c == 34) (λ _. scan_string-Emitted a h)
                              λ _.
                                if_case P (c == 39) (λ _. scan_char-Emitted a h)
                                  (λ _. scan_table-Emitted c a h)

-- A round begins at the character `src[a.cur]`, consumes it, and ends.
abbrev pub Round : List ℕ → Lexer → Result Lexer → Type 0
Round src a (ok b) = At src b × (a.cur < b.cur) × Adds src a.cur b.cur a.line a.col a.items b.items
Round src a (err l c p) = (l ≡ a.line) × (c ≡ a.col)
Round src a stuck = ⊥

Emitted-Round :
    (src : List ℕ) (a b : Lexer) (r : Result Lexer)
    → a.cur < b.cur
    → b.start ≡ a.cur
    → b.items ≡ a.items
    → Emitted src a.line a.col b r
    → Round src a r
Emitted-Round src a b (ok c) lt s i e = (e.at, omega (arith, e.forward), rw (s, i) at (e.adds))
Emitted-Round src a b (err l c p) lt s i e = e
Emitted-Round src a b stuck lt s i e = e

pub scan_token-Round :
    (u : Unicode) (src : List ℕ) (fuel : ℕ) (a : Lexer)
    → NulIsPlain u
    → length src < fuel
    → At src a
    → a.cur < length src
    → Round src a (scan_token u fuel a)
unfolding scan_token
scan_token-Round u src fuel a nul enough h lt =
    let begun : Lexer = record a { start = a.cur } in
    let at : At src begun = record {
      source_is = h.source_is;
      within = h.within;
      placed = h.placed;
    } in
    let step = advance-Reaches at lt in
    Emitted-Round src a (advance begun) _ (omega (arith, advance-cur begun)) step.start_is
      step.items_are
      (scan_character-Emitted src a.line a.col fuel enough u nul (current a) (advance begun)
        step.at)
