-- ===== src/ClassFile/Pool/Builder.antt =====
-- What `cpBuilder` hands out, `cpReader` resolves.
use polyloft_bvm.Prelude.{
  ℕ, suc, ◌^◌, ◌<◌, ◌≡◌, refl, ap, ◌∙◌, sym, List, [], ◌∷◌, ◌++◌, append_assoc, append-nil, Option,
  some, Text, same_text, same_text_iff, length, length-append, if◌then◌else◌, ◌==◌, ==_iff,
  Bool-cases, inl, inr, arith,
}
use polyloft_bvm.Binary.{ok}
use polyloft_bvm.ClassFile.Pool.{
  Entry, reserved, is_wide, Pool, new_pool, next_index, added, add, set_text, set_word, entry,
  present,
}
use polyloft_bvm.ClassFile.Pool.Entries.{FitsEntry, Layout, done, narrow, wide, Layout-append}
use polyloft_bvm.ClassFile.Pool.Requests.{
  Request, text, name, string, class, int32, int64, float64, At, At_grows, found, remember,
  present_fits, get_elem?-middle,
}

-- The entries are laid out as the format wants, and each index in the maps leads to its entry.
pub record IsPool (cp : Pool) : Type 0 where
  pub layout : Layout cp.entries
  pub sound : (q : Request) (i : ℕ) → found q cp ≡ some i → At cp.entries q i

pub new_pool-IsPool : IsPool new_pool
new_pool-IsPool = record { layout = done; sound = no_entries }
  where
    no_entries : (q : Request) (i : ℕ) → found q new_pool ≡ some i → At [] q i
    no_entries (text v) i h = absurd (cc)
    no_entries (name v) i h = absurd (cc)
    no_entries (string v) i h = absurd (cc)
    no_entries (class v) i h = absurd (cc)
    no_entries (int32 v) i h = absurd (cc)
    no_entries (int64 v) i h = absurd (cc)
    no_entries (float64 v) i h = absurd (cc)

-- A new index in a map.
set_text_sound :
    (P : Text → ℕ → Type 0) (m : Text → Option ℕ) (v : Text) (i : ℕ)
    → P v i
    → ((w : Text) (k : ℕ) → m w ≡ some k → P w k)
    → (w : Text) (k : ℕ) → set_text v i m w ≡ some k
    → P w k
set_text_sound P m v i p s w k h = elim (Bool-cases (same_text v w)) [
  | inl same ↦
      let e : v ≡ w = (same_text_iff v w).0 same in
      let f : i ≡ k = ground (arith, h) in rw (← e, ← f) p
  | inr other ↦ s w k (rw other at h)
]

set_word_sound :
    (P : ℕ → ℕ → Type 0) (m : ℕ → Option ℕ) (v i : ℕ)
    → P v i
    → ((w k : ℕ) → m w ≡ some k → P w k)
    → (w k : ℕ) → set_word v i m w ≡ some k
    → P w k
set_word_sound P m v i p s w k h = elim (Bool-cases (v == w)) [
  | inl same ↦
      let e : v ≡ w = (==_iff v w).0 same in let f : i ≡ k = ground (arith, h) in rw (← e, ← f) p
  | inr other ↦ s w k (rw other at h)
]

remember_sound :
    (es : List Entry) (q : Request) (i : ℕ) (cp : Pool)
    → At es q i
    → ((r : Request) (k : ℕ) → found r cp ≡ some k → At es r k)
    → (r : Request) (k : ℕ) → found r (remember q i cp) ≡ some k
    → At es r k
remember_sound es (text v) i cp a s (text w) k h =
    set_text_sound (λ w k. At es (text w) k) cp.utf8s v i a (λ w k. s (text w) k) w k h
remember_sound es (name v) i cp a s (name w) k h =
    set_text_sound (λ w k. At es (name w) k) cp.attribute_names v i a (λ w k. s (name w) k) w k h
remember_sound es (string v) i cp a s (string w) k h =
    set_text_sound (λ w k. At es (string w) k) cp.strings v i a (λ w k. s (string w) k) w k h
remember_sound es (class v) i cp a s (class w) k h =
    set_text_sound (λ w k. At es (class w) k) cp.classes v i a (λ w k. s (class w) k) w k h
remember_sound es (int32 v) i cp a s (int32 w) k h =
    set_word_sound (λ w k. At es (int32 w) k) cp.int32s v i a (λ w k. s (int32 w) k) w k h
remember_sound es (int64 v) i cp a s (int64 w) k h =
    set_word_sound (λ w k. At es (int64 w) k) cp.int64s v i a (λ w k. s (int64 w) k) w k h
remember_sound es (float64 v) i cp a s (float64 w) k h =
    set_word_sound (λ w k. At es (float64 w) k) cp.float64s v i a (λ w k. s (float64 w) k) w k h
remember_sound es q i cp a s r k h = s r k h

-- `remember` keeps the entries.
pub same_entries : (q : Request) (i : ℕ) (cp : Pool) → (remember q i cp).entries ≡ cp.entries
same_entries (text v) i cp = refl
same_entries (name v) i cp = refl
same_entries (string v) i cp = refl
same_entries (class v) i cp = refl
same_entries (int32 v) i cp = refl
same_entries (int64 v) i cp = refl
same_entries (float64 v) i cp = refl

pub remember-IsPool :
    (q : Request) (i : ℕ) (cp : Pool) → IsPool cp → At cp.entries q i → IsPool (remember q i cp)
remember-IsPool q i cp p a = record {
  layout = rw (same_entries q i cp) p.layout;
  sound = rw (same_entries q i cp) (remember_sound cp.entries q i cp a p.sound);
}

-- What follows from an answer: the pool has only grown, and the index leads to what was asked for.
pub record Answered (cp : Pool) (q : Request) (r : ℕ × Pool) : Type 0 where
  pub pool : IsPool r.1
  pub at : At r.1.entries q r.0
  pub more : List Entry
  pub grown : r.1.entries ≡ cp.entries ++ more

added-Layout : (e : Entry) → FitsEntry e → Layout (e ∷ (if is_wide e then reserved ∷ [] else []))
added-Layout e h = elim (Bool-cases (is_wide e)) [
  | inl w ↦ rw w (wide e w h done)
  | inr w ↦ rw w (narrow e w h done)
]

found_entries :
    (q : Request) (cp : Pool) (es : List Entry) → found q (record cp { entries = es }) ≡ found q cp
found_entries (text v) cp es = refl
found_entries (name v) cp es = refl
found_entries (string v) cp es = refl
found_entries (class v) cp es = refl
found_entries (int32 v) cp es = refl
found_entries (int64 v) cp es = refl
found_entries (float64 v) cp es = refl

-- The index of a new entry.
entry-added :
    (e : Entry) (es : List Entry)
    → FitsEntry e
    → length (added e es) < 2 ^ 16
    → entry (added e es) (next_index es) ≡ ok e
unfolding added
entry-added e es h b =
    let more = if is_wide e then reserved ∷ [] else [] in
    let i : next_index es ≡ suc (length es) = omega (arith, b, length-append es (e ∷ more)) in
    rw i (
      ap (present (suc (length es))) (get_elem?-middle es more e)
      ∙ present_fits (suc (length es)) e h)

module _ (cp : Pool) (p : IsPool cp) (e : Entry) (h : FitsEntry e) where
  add-IsPool : IsPool (add e cp).1
  unfolding add added
  add-IsPool = record {
    layout = Layout-append p.layout (added-Layout e h);
    sound = λ q i f.
        At_grows cp.entries (e ∷ (if is_wide e then reserved ∷ [] else [])) q i
          (p.sound q i (sym (found_entries q cp (added e cp.entries)) ∙ f));
  }

  -- A new entry for a request, and its index kept.
  pub add-Answered :
      (before : Pool) (q : Request) (more : List Entry)
      → cp.entries ≡ before.entries ++ more
      → length (added e cp.entries) < 2 ^ 16
      → ((es : List Entry) (i : ℕ) → es ≡ added e cp.entries → entry es i ≡ ok e → At es q i)
      → Answered before q ((add e cp).0, remember q (add e cp).0 (add e cp).1)
  unfolding add
  add-Answered before q more g b at =
      let i = next_index cp.entries in
      let after = (add e cp).1 in
      let here = at (added e cp.entries) i refl (entry-added e cp.entries h b) in
      let tail = e ∷ (if is_wide e then reserved ∷ [] else []) in
      let kept = same_entries q i after in
      record {
        pool = remember-IsPool q i after add-IsPool here;
        at = rw kept here;
        more = more ++ tail;
        grown = kept ∙ unfold added in (rw g (append_assoc before.entries more tail));
      }

pub known-Answered :
    (cp : Pool) (q : Request) (i : ℕ) → IsPool cp → found q cp ≡ some i → Answered cp q (i, cp)
known-Answered cp q i p f = record {
  pool = p;
  at = p.sound q i f;
  more = [];
  grown = rw append-nil refl;
}
