-- ===== src/ClassFile/Pool/Entries.antt =====
-- `readCP` reads back what `writeCP` wrote.
use polyloft_bvm.Prelude.{◌+◌, ◌-◌, ◌≡◌, true, false, List, [], ◌∷◌, ◌++◌, length, ◌==◌, arith}
use polyloft_bvm.Prelude.Word.{IsU16, IsU32, IsU64}
use polyloft_bvm.Binary.Reads.{Reads, Reads-seq, Reads-last, Reads-give}
use polyloft_bvm.ClassFile.Wire.Reads.{Short16, Reads-u1, Reads-u2, Reads-u4, Reads-u8, Reads-utf8}
use polyloft_bvm.ClassFile.Pool.{
  Entry, utf8, integer, float, long, double, class_ref, string_ref, reserved, is_wide, write_entry,
  write_entries, write_cp, read_tagged, read_entry, read_entries, read_cp,
}

-- What the format holds of one entry.
abbrev pub FitsEntry : Entry → Type 0
FitsEntry (utf8 v) = Short16 v
FitsEntry (integer v) = IsU32 v
FitsEntry (float v) = IsU32 v
FitsEntry (long v) = IsU64 v
FitsEntry (double v) = IsU64 v
FitsEntry (class_ref i) = IsU16 i
FitsEntry (string_ref i) = IsU16 i
FitsEntry reserved = ⊥

-- Each wide entry is followed by a reserved place, and there are no other reserved places.
pub data Layout : List Entry → Type 0 where
  done : Layout []
  narrow :
      {es : List Entry} (e : Entry) → is_wide e ≡ false → FitsEntry e → Layout es → Layout (e ∷ es)
  wide :
      {es : List Entry} (e : Entry)
      → is_wide e ≡ true
      → FitsEntry e
      → Layout es
      → Layout (e ∷ reserved ∷ es)

pub Layout-append : {es ds : List Entry} → Layout es → Layout ds → Layout (es ++ ds)
Layout-append done k = k
Layout-append (narrow e w f l) k = narrow e w f (Layout-append l k)
Layout-append (wide e w f l) k = wide e w f (Layout-append l k)

module _ {S T : Type 0} (R : S → T → Type 0) where
  Reads-entry : (e : Entry) → FitsEntry e → Reads R (write_entry e) read_entry e
  unfolding write_entry read_entry read_tagged
  Reads-entry (utf8 v) h =
      Reads-seq R _ (Reads-u1 R 1 (omega arith)) (Reads-last R (λ v. utf8 v) (Reads-utf8 R v h))
  Reads-entry (integer v) h =
      Reads-seq R _ (Reads-u1 R 3 (omega arith)) (Reads-last R (λ v. integer v) (Reads-u4 R v h))
  Reads-entry (float v) h =
      Reads-seq R _ (Reads-u1 R 4 (omega arith)) (Reads-last R (λ v. float v) (Reads-u4 R v h))
  Reads-entry (long v) h =
      Reads-seq R _ (Reads-u1 R 5 (omega arith)) (Reads-last R (λ v. long v) (Reads-u8 R v h))
  Reads-entry (double v) h =
      Reads-seq R _ (Reads-u1 R 6 (omega arith)) (Reads-last R (λ v. double v) (Reads-u8 R v h))
  Reads-entry (class_ref i) h =
      Reads-seq R _ (Reads-u1 R 7 (omega arith)) (Reads-last R (λ v. class_ref v) (Reads-u2 R i h))
  Reads-entry (string_ref i) h =
      Reads-seq R _ (Reads-u1 R 8 (omega arith)) (Reads-last R (λ v. string_ref v) (Reads-u2 R i h))
  Reads-entry reserved h = absurd h

  -- A narrow entry and more.
  narrow-Reads :
      (e f : Entry) (es : List Entry)
      → is_wide e ≡ false
      → FitsEntry e
      → Reads R (write_entries (f ∷ es)) (read_entries (length (f ∷ es))) (f ∷ es)
      → Reads R (write_entries (e ∷ f ∷ es)) (read_entries (length (e ∷ f ∷ es))) (e ∷ f ∷ es)
  unfolding write_entries read_entries
  narrow-Reads e f es w h r =
      rw (w, write_entries)
        (Reads-seq R _ (Reads-entry e h) (rw (w, read_entries) (Reads-last R (λ es. e ∷ es) r)))

  pub Reads-entries :
      {es : List Entry} → Layout es → Reads R (write_entries es) (read_entries (length es)) es
  unfolding write_entries read_entries
  Reads-entries done = Reads-give R []
  Reads-entries (narrow e w h done) = Reads-last R (λ e. e ∷ []) (Reads-entry e h)
  Reads-entries (narrow {es = f ∷ es} e w h l) = narrow-Reads e f es w h (Reads-entries l)
  Reads-entries (wide {es = es} e w h l) =
      rw (w, write_entries)
        (Reads-seq R _ (Reads-entry e h)
          (rw (w, read_entries) (Reads-last R (λ es. e ∷ reserved ∷ es) (Reads-entries l))))

  -- A pool of fewer than 2^16 - 1 places is read back.
  pub Reads-cp :
      (es : List Entry) → Layout es → IsU16 (length es + 1) → Reads R (write_cp es) read_cp es
  unfolding write_cp read_cp
  Reads-cp es l h =
      let some_places : (length es + 1 == 0) ≡ false = ground arith in
      let places : length es + 1 - 1 ≡ length es = omega arith in
      Reads-seq R _ (Reads-u2 R (length es + 1) h) (rw (some_places, places) (Reads-entries l))
