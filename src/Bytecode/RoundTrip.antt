-- ===== src/Bytecode/RoundTrip.antt =====
-- `ReadBinaryFunction` reads back what `WriteBinary` wrote.
use polyloft_bvm.Prelude.{
  ℕ, ◌≡◌, ◌≢◌, refl, Bool, true, false, List, [], ◌∷◌, ◌++◌, append-nil, append_assoc, Option, none,
  some, Text, TextMap, put, put_new, Absent, IsMap, length, All, All-map, All-every, sym, ◌==◌,
}
use polyloft_bvm.Prelude.Word.{IsU32, FitsInt32}
use polyloft_bvm.Binary.{Writer, Reader, write_u32, read_i32, write_each}
use polyloft_bvm.Binary.Reads.{
  Outcome, Reads, Reads-seq, Reads-last, Reads-done, Reads-give, Reads-byte, Reads-full, Reads-u32,
  Reads-i32, Reads-each,
}
use polyloft_bvm.Bytecode.{Chunk, UpvalueSpec, InterfaceMethodSpec, InterfaceSpec, Function}
use polyloft_bvm.Bytecode.Serialize.{
  write_string, read_string, write_string_slice, read_string_slice, read_map, write_upvalue,
  read_upvalue, write_method, read_method, write_interface, read_interface, write_chunk,
  write_chunk?, write_function, read_chunk, read_chunk?, read_function,
}

-- The lengths that the format's 32-bit counts can hold.
abbrev pub Short {ℓ} : {A : Type ℓ} → List A → Type 0
Short list = IsU32 (length list)

abbrev pub ShortTexts : List Text → Type 0
ShortTexts list = Short list × All (λ (s : Text). Short s) list

pub record FitsMethod (e : Text × InterfaceMethodSpec) : Type 0 where
  pub key : Short e.0
  pub name : Short e.1.name
  pub params : ShortTexts e.1.params
  pub return_type : Short e.1.return_type

pub record FitsInterface (e : Text × InterfaceSpec) : Type 0 where
  pub key : Short e.0
  pub name : Short e.1.name
  pub functional_method : Short e.1.functional_method
  pub methods : Short e.1.methods
  pub each_method : All FitsMethod e.1.methods
  pub methods_map : IsMap e.1.methods

module _ {C : Type 0} where
  pub record FitsChunk (c : Chunk C) : Type 0 where
    pub code : Short c.code
    pub lines : Short c.lines
    pub each_line : All FitsInt32 c.lines
    pub constants : Short c.constants

  abbrev pub FitsChunk? : Option (Chunk C) → Type 0
  FitsChunk? none = Unit
  FitsChunk? (some c) = FitsChunk c

  abbrev pub constants_of : Option (Chunk C) → List C
  constants_of none = []
  constants_of (some c) = c.constants

  -- What the format can hold: 32-bit counts and integers. Maps repeat no key.
  pub record FitsFunction (f : Function C) : Type 0 where
    pub name : Short f.name
    pub arity : FitsInt32 f.arity
    pub param_types : ShortTexts f.param_types
    pub owner_class_name : Short f.owner_class_name
    pub upvalues : Short f.upvalues
    pub return_type : Short f.return_type
    pub max_locals : FitsInt32 f.max_locals
    pub global_slot_count : FitsInt32 f.global_slot_count
    pub global_slot_names : ShortTexts f.global_slot_names
    pub interfaces : Short f.interfaces
    pub each_interface : All FitsInterface f.interfaces
    pub interfaces_map : IsMap f.interfaces
    pub chunk : FitsChunk? f.chunk

Absent-middle {ℓ} :
    {V : Type ℓ} (j k : Text) (v : V) (m rest : TextMap V) → Absent j (m ++ (k, v) ∷ rest) → j ≢ k
Absent-middle j k v [] rest h = λ e. h.0 (sym e)
Absent-middle j k v ((i, w) ∷ m) rest h = Absent-middle j k v m rest h.1

pub IsMap-Absent {ℓ} :
    {V : Type ℓ} (k : Text) (v : V) (m rest : TextMap V) → IsMap (m ++ (k, v) ∷ rest) → Absent k m
IsMap-Absent k v [] rest h = tt
IsMap-Absent k v ((j, w) ∷ m) rest h = (Absent-middle j k v m rest h.0, IsMap-Absent k v m rest h.1)

module _ {S T : Type 0} (R : S → T → Type 0) where
  pub Reads-string : (s : Text) → Short s → Reads R (write_string s) read_string s
  unfolding write_string read_string
  Reads-string s h = Reads-seq R _ (Reads-u32 R (length s) h) (Reads-full R s)

  pub Reads-string_slice :
      (list : List Text)
      → ShortTexts list
      → Reads R (write_string_slice list) read_string_slice list
  unfolding write_string_slice read_string_slice
  Reads-string_slice list h =
      Reads-seq R _ (Reads-u32 R (length list) h.0)
        (Reads-each R write_string read_string list (All-map Reads-string list h.1))

  module _ {ℓ} {V : Type ℓ} (write : Text × V → Writer S) (read : Reader T (Text × V)) where
    read_map-each :
        (entries m : TextMap V)
        → IsMap (m ++ entries)
        → All (λ e. Reads R (write e) read e) entries
        → Reads R (write_each write entries) (read_map read (length entries) m) (m ++ entries)
    unfolding write_each read_map
    read_map-each [] m h hs = rw append-nil (Reads-give R m)
    read_map-each ((k, v) ∷ entries) m h (e, es) =
        let keep : m ++ (k, v) ∷ entries ≡ put k v m ++ entries =
          rw (put_new k v m (IsMap-Absent k v m entries h), append_assoc) in
        rw keep (
          Reads-seq R (λ e. read_map read (length entries) (put e.0 e.1 m)) e
            (read_map-each entries (put k v m) (rw keep at h) es))

    -- The loop that fills a map from the entries of one.
    pub Reads-map :
        (entries : TextMap V)
        → IsMap entries
        → All (λ e. Reads R (write e) read e) entries
        → Reads R (write_each write entries) (read_map read (length entries) []) entries
    Reads-map entries h hs = read_map-each entries [] h hs

  upvalue-Reads :
      (index : ℕ) (is_local : Bool)
      → Reads R
          (write_upvalue (record { index = index; is_local = is_local }))
          read_upvalue
          (record { index = index; is_local = is_local })
  unfolding write_upvalue read_upvalue
  upvalue-Reads index true =
      Reads-seq R _ (Reads-byte R index)
        (Reads-last R (λ local. record { index = index; is_local = local == 1 }) (Reads-byte R 1))
  upvalue-Reads index false =
      Reads-seq R _ (Reads-byte R index)
        (Reads-last R (λ local. record { index = index; is_local = local == 1 }) (Reads-byte R 0))

  pub Reads-upvalue : (uv : UpvalueSpec) → Reads R (write_upvalue uv) read_upvalue uv
  Reads-upvalue uv = upvalue-Reads uv.index uv.is_local

  Reads-method :
      (e : Text × InterfaceMethodSpec) → FitsMethod e → Reads R (write_method e) read_method e
  unfolding write_method read_method
  Reads-method e h = Reads-seq R _ (Reads-string e.0 h.key) (
      Reads-seq R _ (Reads-string e.1.name h.name) (
        Reads-seq R _ (Reads-string_slice e.1.params h.params) (
          Reads-last R
            (λ return_type.
              (e.0, record { name = e.1.name; params = e.1.params; return_type = return_type }))
            (Reads-string e.1.return_type h.return_type))))

  Reads-interface :
      (e : Text × InterfaceSpec) → FitsInterface e → Reads R (write_interface e) read_interface e
  unfolding write_interface read_interface
  Reads-interface e h = Reads-seq R _ (Reads-string e.0 h.key) (
      Reads-seq R _ (Reads-string e.1.name h.name) (
        Reads-seq R _ (Reads-string e.1.functional_method h.functional_method) (
          Reads-seq R _ (Reads-u32 R (length e.1.methods) h.methods) (
            Reads-last R
              (λ methods. (
                e.0,
                record {
                  name = e.1.name;
                  methods = methods;
                  functional_method = e.1.functional_method;
                },
              ))
              (Reads-map write_method read_method e.1.methods h.methods_map
                (All-map Reads-method e.1.methods h.each_method))))))

  module _ {C : Type 0} (encode : C → Writer S) (decode : Reader T C) where
    -- The constant codec reads back each constant of the function.
    abbrev pub Codable : List C → Type 0
    Codable constants = All (λ c. Reads R (encode c) decode c) constants

    Reads-chunk :
        (c : Chunk C)
        → FitsChunk c
        → Codable c.constants
        → Reads R (write_chunk encode c) (read_chunk decode) c
    unfolding write_chunk read_chunk
    Reads-chunk c h hs = Reads-seq R _ (Reads-u32 R (length c.code) h.code) (
        Reads-seq R _ (Reads-full R c.code) (
          Reads-seq R _ (Reads-u32 R (length c.lines) h.lines) (
            Reads-seq R _
              (Reads-each R write_u32 read_i32 c.lines (All-map (Reads-i32 R) c.lines h.each_line))
              (Reads-seq R _ (Reads-u32 R (length c.constants) h.constants) (
                Reads-last R
                  (λ constants. record { code = c.code; constants = constants; lines = c.lines })
                  (Reads-each R encode decode c.constants hs))))))

    Reads-chunk? :
        (c : Option (Chunk C))
        → FitsChunk? c
        → Codable (constants_of c)
        → Reads R (write_chunk? encode c) (read_chunk? decode) c
    unfolding write_chunk? read_chunk?
    Reads-chunk? none h hs = Reads-done R _ refl (Reads-byte R 0)
    Reads-chunk? (some c) h hs =
        Reads-seq R _ (Reads-byte R 1) (Reads-last R (λ c. some c) (Reads-chunk c h hs))

    pub Reads-function :
        (f : Function C)
        → FitsFunction f
        → Codable (constants_of f.chunk)
        → Reads R (write_function encode f) (read_function decode) f
    unfolding write_function read_function
    Reads-function f h hs = Reads-seq R _ (Reads-string f.name h.name) (
        Reads-seq R _ (Reads-i32 R f.arity h.arity) (
          Reads-seq R _ (Reads-string_slice f.param_types h.param_types) (
            Reads-seq R _ (Reads-string f.owner_class_name h.owner_class_name) (
              Reads-seq R _ (Reads-u32 R (length f.upvalues) h.upvalues) (
                Reads-seq R _
                  (Reads-each R write_upvalue read_upvalue f.upvalues
                    (All-every Reads-upvalue f.upvalues))
                  (Reads-seq R _ (Reads-string f.return_type h.return_type) (
                    Reads-seq R _ (Reads-i32 R f.max_locals h.max_locals) (
                      Reads-seq R _ (Reads-i32 R f.global_slot_count h.global_slot_count) (
                        Reads-seq R _ (Reads-string_slice f.global_slot_names h.global_slot_names) (
                          Reads-seq R _ (Reads-u32 R (length f.interfaces) h.interfaces) (
                            Reads-seq R _
                              (Reads-map write_interface read_interface f.interfaces
                                h.interfaces_map
                                (All-map Reads-interface f.interfaces h.each_interface))
                              (Reads-last R (λ chunk. record f { chunk = chunk })
                                (Reads-chunk? f.chunk h.chunk hs)))))))))))))

    -- From states of the two sides that correspond, and whatever follows in the stream, `WriteBinary`
    -- succeeds on every function that the format can hold and `ReadBinaryFunction` reads it back, taking
    -- exactly the bytes written, if the codec of constants reads back each constant of the function.
    pub read_function-write_function :
        (f : Function C) (s : S) (t : T)
        → FitsFunction f
        → Codable (constants_of f.chunk)
        → R s t
        → Outcome R (write_function encode f) (read_function decode) f s t
    read_function-write_function f s t h hs r = Reads-function f h hs s t r
