-- ===== src/ClassFile/Pool/Answers.antt =====
-- Every request of `cpBuilder`.
use polyloft_bvm.Prelude.{
  ℕ, ◌^◌, ◌<◌, ◌≤◌, ◌≡◌, refl, List, [], ◌∷◌, append-nil, Option, none, some, Text, length,
  length-append, if◌then◌else◌, arith,
}
use polyloft_bvm.Prelude.Word.{IsU16}
use polyloft_bvm.Binary.{ok}
use polyloft_bvm.ClassFile.Wire.Reads.{Short16}
use polyloft_bvm.ClassFile.Pool.{
  Entry, utf8, integer, long, double, class_ref, string_ref, reserved, is_wide, Pool, added, add,
  pool_utf8, attribute_name, pool_string, pool_class, pool_int32, pool_int64, pool_float64, entry,
}
use polyloft_bvm.ClassFile.Pool.Entries.{FitsEntry}
use polyloft_bvm.ClassFile.Pool.Requests.{
  Request, text, name, string, class, int32, int64, float64, request, FitsRequest, At, found,
  remember, entry_bound, entry_grows,
}
use polyloft_bvm.ClassFile.Pool.Builder.{
  IsPool, Answered, remember-IsPool, same_entries, add-Answered, known-Answered,
}

-- What a request does on a miss and on a hit.
abbrev answer : Request → Entry → Pool → Option ℕ → ℕ × Pool
answer q e cp (some i) = (i, cp)
answer q e cp none = ((add e cp).0, remember q (add e cp).0 (add e cp).1)

-- A request that `cp` answers with an entry of its own.
answer-Answered :
    (q : Request) (e : Entry) (cp : Pool) (o : Option ℕ)
    → IsPool cp
    → FitsEntry e
    → ((es : List Entry) (i : ℕ) → entry es i ≡ ok e → At es q i)
    → found q cp ≡ o
    → length (answer q e cp o).1.entries < 2 ^ 16
    → Answered cp q (answer q e cp o)
unfolding add
answer-Answered q e cp (some i) p h at f b = known-Answered cp q i p f
answer-Answered q e cp none p h at f b =
    let kept = same_entries q (add e cp).0 (add e cp).1 in
    add-Answered cp p e h cp q [] (rw append-nil) (rw kept at b) (λ es i _. at es i)

utf8_answer : (v : Text) (cp : Pool) → pool_utf8 v cp ≡ answer (text v) (utf8 v) cp (cp.utf8s v)
unfolding pool_utf8
utf8_answer v cp = ground arith

utf8-Answered :
    (v : Text) (cp : Pool)
    → IsPool cp
    → Short16 v
    → length (pool_utf8 v cp).1.entries < 2 ^ 16
    → Answered cp (text v) (pool_utf8 v cp)
utf8-Answered v cp p h b = rw (utf8_answer v cp) (
    answer-Answered (text v) (utf8 v) cp (cp.utf8s v) p h (λ es i e. e) refl
      (rw (utf8_answer v cp) at b))

-- A request that is answered by the entry of its text.
abbrev name_answer : Text → Pool → Option ℕ → ℕ × Pool
name_answer v cp (some i) = (i, cp)
name_answer v cp none =
    ((pool_utf8 v cp).0, remember (name v) (pool_utf8 v cp).0 (pool_utf8 v cp).1)

name-Answered :
    (v : Text) (cp : Pool) (o : Option ℕ)
    → IsPool cp
    → Short16 v
    → found (name v) cp ≡ o
    → length (name_answer v cp o).1.entries < 2 ^ 16
    → Answered cp (name v) (name_answer v cp o)
name-Answered v cp (some i) p h f b = known-Answered cp (name v) i p f
name-Answered v cp none p h f b =
    let u = utf8-Answered v cp p h b in
    record {
      pool = remember-IsPool (name v) (pool_utf8 v cp).0 (pool_utf8 v cp).1 u.pool u.at;
      at = u.at;
      more = u.more;
      grown = u.grown;
    }

-- A request that is answered by an entry `e` that refers to its text.
abbrev ref_answer : Request → (ℕ → Entry) → Text → Pool → Option ℕ → ℕ × Pool
ref_answer q e v cp (some i) = (i, cp)
ref_answer q e v cp none =
    let u = pool_utf8 v cp in let r = add (e u.0) u.1 in (r.0, remember q r.0 r.1)

ref-Answered :
    (q : Request) (e : ℕ → Entry) (v : Text) (cp : Pool) (o : Option ℕ)
    → IsPool cp
    → Short16 v
    → ((j : ℕ) → IsU16 j → FitsEntry (e j))
    → ((es : List Entry) (i j : ℕ) → entry es i ≡ ok (e j) → entry es j ≡ ok (utf8 v) → At es q i)
    → found q cp ≡ o
    → length (ref_answer q e v cp o).1.entries < 2 ^ 16
    → Answered cp q (ref_answer q e v cp o)
unfolding add added
ref-Answered q e v cp (some i) p h fits at f b = known-Answered cp q i p f
ref-Answered q e v cp none p h fits at f b =
    let j = (pool_utf8 v cp).0 in
    let cp' = (pool_utf8 v cp).1 in
    let tail = e j ∷ (if is_wide (e j) then reserved ∷ [] else []) in
    let b' : length (added (e j) cp'.entries) < 2 ^ 16 =
      rw (same_entries q (add (e j) cp').0 (add (e j) cp').1) at b in
    let inner : length cp'.entries < 2 ^ 16 = omega (arith, b', length-append cp'.entries tail) in
    let u = utf8-Answered v cp p h inner in
    let small : IsU16 j = omega (arith, entry_bound cp'.entries j (utf8 v) u.at) in
    add-Answered cp' u.pool (e j) (fits j small) cp q u.more u.grown b'
      λ es i same here. at es i j here (rw same (entry_grows cp'.entries tail j (utf8 v) u.at))

pub request-Answered :
    (q : Request) (cp : Pool)
    → IsPool cp
    → FitsRequest q
    → length (request q cp).1.entries < 2 ^ 16
    → Answered cp q (request q cp)
request-Answered (text v) cp p h b = utf8-Answered v cp p h b
request-Answered (name v) cp p h b =
    let e : attribute_name v cp ≡ name_answer v cp (cp.attribute_names v) =
      unfold attribute_name in ground arith in
    rw e (name-Answered v cp (cp.attribute_names v) p h refl (rw e at b))
request-Answered (string v) cp p h b =
    let e : pool_string v cp ≡ ref_answer (string v) (λ j. string_ref j) v cp (cp.strings v) =
      unfold pool_string in ground arith in
    rw e (
      ref-Answered (string v) (λ j. string_ref j) v cp (cp.strings v) p h (λ j s. s)
        (λ es i j f g. (j, f, g)) refl (rw e at b))
request-Answered (class v) cp p h b =
    let e : pool_class v cp ≡ ref_answer (class v) (λ j. class_ref j) v cp (cp.classes v) =
      unfold pool_class in ground arith in
    rw e (
      ref-Answered (class v) (λ j. class_ref j) v cp (cp.classes v) p h (λ j s. s)
        (λ es i j f g. (j, f, g)) refl (rw e at b))
request-Answered (int32 v) cp p h b =
    let e : pool_int32 v cp ≡ answer (int32 v) (integer v) cp (cp.int32s v) =
      unfold pool_int32 in ground arith in
    rw e (answer-Answered (int32 v) (integer v) cp (cp.int32s v) p h (λ es i f. f) refl (rw e at b))
request-Answered (int64 v) cp p h b =
    let e : pool_int64 v cp ≡ answer (int64 v) (long v) cp (cp.int64s v) =
      unfold pool_int64 in ground arith in
    rw e (answer-Answered (int64 v) (long v) cp (cp.int64s v) p h (λ es i f. f) refl (rw e at b))
request-Answered (float64 v) cp p h b =
    let e : pool_float64 v cp ≡ answer (float64 v) (double v) cp (cp.float64s v) =
      unfold pool_float64 in ground arith in
    rw e
      (answer-Answered (float64 v) (double v) cp (cp.float64s v) p h (λ es i f. f) refl (rw e at b))

utf8_grows : (v : Text) (cp : Pool) → length cp.entries ≤ length (pool_utf8 v cp).1.entries
unfolding pool_utf8 add added
utf8_grows v cp = ground (arith, length-append cp.entries (utf8 v ∷ []))

-- No request makes the pool shorter.
pub request_grows : (q : Request) (cp : Pool) → length cp.entries ≤ length (request q cp).1.entries
unfolding attribute_name pool_string pool_class pool_int32 pool_int64 pool_float64 add added
request_grows (text v) cp = utf8_grows v cp
request_grows (name v) cp = ground (arith, utf8_grows v cp)
request_grows (string v) cp = ground (
  arith,
  utf8_grows v cp,
  length-append (pool_utf8 v cp).1.entries (string_ref (pool_utf8 v cp).0 ∷ []),
)
request_grows (class v) cp = ground (
  arith,
  utf8_grows v cp,
  length-append (pool_utf8 v cp).1.entries (class_ref (pool_utf8 v cp).0 ∷ []),
)
request_grows (int32 v) cp = ground (arith, length-append cp.entries (integer v ∷ []))
request_grows (int64 v) cp = ground (arith, length-append cp.entries (long v ∷ reserved ∷ []))
request_grows (float64 v) cp = ground (arith, length-append cp.entries (double v ∷ reserved ∷ []))
