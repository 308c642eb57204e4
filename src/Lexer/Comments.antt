-- ===== src/Lexer/Comments.antt =====
-- The comment loops stay inside the source, and the token that a line comment is not.
use polyloft_bvm.Prelude.{
  ℕ, zero, suc, ◌+◌, ◌<◌, ◌≡◌, true, false, inl, inr, List, [], ◌∷◌, ◌++◌, length, ◌≢◌, refl, ap,
  ◌∙◌, All, arith, Bool-cases, if_case, Bool, ◌&&◌, not, ◌==◌,
}
use polyloft_bvm.Lexer.{Unicode, Lexer, ok, is_at_end, peek, peek_next, advance, matches, consume}
use polyloft_bvm.Lexer.Ahead.{
  View, View-at_end, View-peek, View-end, View-current, View-ahead, View-twice, ahead, ahead_zero,
  ahead-ahead, advance-ahead,
}
use polyloft_bvm.Lexer.Scan.{scan_character, scan_token}
use polyloft_bvm.Lexer.Literals.{skip_line, skip_block}
use polyloft_bvm.Lexer.Position.{
  At, Reaches, Reaches-refl, Reaches-trans, advance-Reaches, advance-cur, peek-lt,
  peek_next_ne_zero,
}

abbrev pub goes_on : Lexer → Bool
goes_on a = not (is_at_end a) && not (peek a == b'\n')

goes_on-lt : {src : List ℕ} {a : Lexer} → At src a → goes_on a ≡ true → a.cur < length src
unfolding is_at_end peek
goes_on-lt h e = ground arith

skip_line_more :
    (f : ℕ) (a : Lexer) → goes_on a ≡ true → skip_line (suc f) a ≡ skip_line f (advance a)
unfolding skip_line
skip_line_more f a e = rw e

skip_line_stop : (f : ℕ) (a : Lexer) → goes_on a ≡ false → skip_line (suc f) a ≡ a
unfolding skip_line
skip_line_stop f a e = rw e

pub skip_line-Reaches :
    {src : List ℕ} (f : ℕ) (a : Lexer) → At src a → Reaches src a (skip_line f a)
skip_line-Reaches zero a h = unfold skip_line in Reaches-refl h
skip_line-Reaches (suc f) a h = elim (Bool-cases (goes_on a)) [
  | inl e ↦ rw (skip_line_more f a e) (
      let step = advance-Reaches h (goes_on-lt h e) in
      Reaches-trans step (skip_line-Reaches f (advance a) step.at))
  | inr e ↦ rw (skip_line_stop f a e) (Reaches-refl h)
]

-- A line ends here: at the end of the source or at a newline.
abbrev pub IsLineEnd : List ℕ → Type 0
IsLineEnd [] = Unit {0}
IsLineEnd (c ∷ cs) = c ≡ b'\n'

skip_line_at_end :
    (f : ℕ) (rest : List ℕ) (a : Lexer) → View a rest → IsLineEnd rest → skip_line (suc f) a ≡ a
skip_line_at_end f [] a v e = skip_line_stop f a (rw (View-end a v) refl)
skip_line_at_end f (c ∷ cs) a v e =
    skip_line_stop f a (rw (View-at_end a c cs v, View-peek a c cs v, e) refl)

skip_line-ahead :
    (f : ℕ) (line rest : List ℕ) (a : Lexer)
    → View a (line ++ rest)
    → All (λ c. c ≢ b'\n') line
    → IsLineEnd rest
    → length line < f
    → skip_line f a ≡ ahead (length line) a
skip_line-ahead zero line rest a v p e h = absurd (omega arith)
skip_line-ahead (suc f) [] rest a v p e h = rw (ahead_zero a) (skip_line_at_end f rest a v e)
skip_line-ahead (suc f) (c ∷ cs) rest a v p e h =
    let on : goes_on a ≡ true =
      rw (View-at_end a c (cs ++ rest) v, View-peek a c (cs ++ rest) v) (ground (arith, p.0)) in
    rw (skip_line_more f a on, advance-ahead a c (cs ++ rest) v p.0)
      (skip_line-ahead f cs rest (ahead 1 a) (View-ahead a c (cs ++ rest) v) p.1 e (omega arith)
        ∙ ahead-ahead 1 (length cs) a
        ∙ ap (λ n. ahead n a) (omega arith))

-- The scanner reads a line comment, with its two slashes, as nothing: it adds no token and stands at the end
-- of the first line, at the newline or at the end of the source, in the column that counts the characters read. The
-- fuel is more than the length of the comment.
pub scan_token_comment :
    (u : Unicode) (f : ℕ) (line rest : List ℕ) (a : Lexer)
    → View a (b'/' ∷ b'/' ∷ (line ++ rest))
    → All (λ c. c ≢ b'\n') line
    → IsLineEnd rest
    → length line < f
    → scan_token u f a ≡ ok (record (ahead (2 + length line) a) { start = a.cur })
unfolding scan_token scan_character
scan_token_comment u f line rest a v p e h =
    let b : Lexer = record a { start = a.cur } in
    let w = View-ahead b b'/' (b'/' ∷ (line ++ rest)) v in
    let m : matches b'/' (ahead 1 b) ≡ true =
      unfold matches in
      rw
        (
          View-at_end (ahead 1 b) b'/' (line ++ rest) w,
          View-current (ahead 1 b) b'/' (line ++ rest) w,
        )
        refl in
    let c : consume (ahead 1 b) ≡ ahead 2 b = unfold consume in ahead-ahead 1 1 b in
    rw
      (
        View-current a b'/' (b'/' ∷ (line ++ rest)) v,
        advance-ahead b b'/' (b'/' ∷ (line ++ rest)) v (omega arith),
        m,
        c,
        skip_line-ahead f line rest (ahead 2 b) (View-twice b b'/' b'/' (line ++ rest) v) p e h,
        ahead-ahead 2 (length line) b,
      )
      refl

closing-lt :
    {src : List ℕ} {a : Lexer}
    → At src a
    → (peek a == b'*' && peek_next a == b'/') ≡ true
    → (advance a).cur < length src
closing-lt {src} {a} h c =
    let next : peek_next a ≡ b'/' = ground arith in
    omega (arith, advance-cur a, peek_next_ne_zero b'/' h next (omega arith))

pub skip_block-Reaches :
    {src : List ℕ} (f : ℕ) (a : Lexer) → At src a → Reaches src a (skip_block f a)
unfolding skip_block
skip_block-Reaches zero a h = Reaches-refl h
skip_block-Reaches {src} (suc f) a h =
    if_case (Reaches src a) (is_at_end a) (λ e. Reaches-refl h)
      λ e.
        let step = advance-Reaches h (peek-lt h e) in
        if_case (Reaches src a) (peek a == b'*' && peek_next a == b'/')
          (λ c. Reaches-trans step (advance-Reaches step.at (closing-lt h c)))
          (λ c. Reaches-trans step (skip_block-Reaches f (advance a) step.at))
