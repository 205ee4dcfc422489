-- ===== src/StorageDb/Descriptor.antt =====
-- serializeDescriptor and parseDescriptor of esp-idf/src/storage_db.cpp, and that the second undoes the
-- first.
use spangap_core.Base.{
  ◌>>=◌, ℕ, zero, suc, ◌/◌, ◌%◌, ◌≤◌, ◌<◌, ◌≡◌, refl, ◌∙◌, Option, none, some, List, [], ◌∷◌, ◌++◌,
  append_assoc, arith, ltb, if◌then◌else◌, le→ltb, length, get_or, take, drop, All, length-append,
  take-append, drop-append, take-all,
}
use spangap_core.StorageDb.Words.{wr_u16, rd_u16, rd_u16-wr_u16}
use spangap_core.StorageDb.Schema.{SdbField, SdbSchema, u16}

abbrev pub name_len : List ℕ → ℕ
name_len name = if ltb 255 (length name) then 255 else length name

unfoldable pub serialize_field : SdbField → List ℕ
serialize_field f =
    f.kind % 256
    ∷ (wr_u16 f.off ++ (wr_u16 f.width ++ name_len f.name ∷ take (name_len f.name) f.name))

unfoldable pub serialize_fields : List SdbField → List ℕ
serialize_fields [] = []
serialize_fields (f ∷ fs) = serialize_field f ++ serialize_fields fs

unfoldable pub serialize_descriptor : SdbSchema → List ℕ
serialize_descriptor sc = wr_u16 (u16 (length sc.fields)) ++ serialize_fields sc.fields

-- The name of a field, `tail` being the bytes after the length byte.
unfoldable pub parse_name : List ℕ → ℕ → List ℕ → Option (SdbField × List ℕ)
parse_name rest nl tail =
    if ltb (length tail) nl
    then none
    else some (
      record {
        name = take nl tail;
        kind = get_or rest 0 0;
        off = rd_u16 (drop 1 rest);
        width = rd_u16 (drop 3 rest);
      },
      drop nl tail,
    )

-- One turn of the loop of parseDescriptor, on the bytes that are left.
unfoldable pub parse_field : List ℕ → Option (SdbField × List ℕ)
parse_field rest =
    if ltb (length rest) 6 then none else parse_name rest (get_or rest 5 0) (drop 6 rest)

unfoldable pub parse_fields : ℕ → List ℕ → Option (List SdbField)
parse_fields zero rest = some []
parse_fields (suc n) rest = do (f, left) ← parse_field rest; fs ← parse_fields n left; some (f ∷ fs)

-- none stands for false.
unfoldable pub parse_descriptor : List ℕ → ℕ → ℕ → ℕ → Option SdbSchema
parse_descriptor p id ver hdr = if ltb (length p) 2 then none else do
  fs ← parse_fields (rd_u16 p) (drop 2 p)
  some record { schema_id = id; schema_ver = ver; hdr_size = hdr; fields = fs }

-- A field within the widths of sdb_field, with a name of at most 255 bytes.
abbrev pub IsField : SdbField → Type 0
IsField f = (f.kind < 256) × (f.off < 65536) × (f.width < 65536) × (length f.name ≤ 255)

name_len-length : (name : List ℕ) → length name ≤ 255 → name_len name ≡ length name
name_len-length name h = rw (le→ltb 255 (length name) h)

parse_name-all :
    (k o w : ℕ) (name rest tail : List ℕ)
    → k < 256
    → o < 65536
    → w < 65536
    → parse_name (k % 256 ∷ (wr_u16 o ++ (wr_u16 w ++ tail))) (length name) (name ++ rest)
      ≡ some (record { name = name; kind = k; off = o; width = w }, rest)
unfolding parse_name wr_u16 rd_u16
parse_name-all k o w name rest tail hk ho hw = rw (
  le→ltb (length (name ++ rest)) (length name) fits,
  take-append (length name) name rest refl,
  drop-append (length name) name rest refl,
  kind_back,
  rd_u16-wr_u16 o (w % 256 ∷ w / 256 % 256 ∷ tail) ho,
  rd_u16-wr_u16 w tail hw,
)
  where
    fits : length name ≤ length (name ++ rest)
    fits = rw (length-append name rest) (omega arith)

    kind_back : k % 256 ≡ k
    kind_back = omega (arith, hk)

parse_field-long :
    (rest : List ℕ)
    → 6 ≤ length rest
    → parse_field rest ≡ parse_name rest (get_or rest 5 0) (drop 6 rest)
unfolding parse_field
parse_field-long rest h = rw (le→ltb (length rest) 6 h)

parse_field-serialize_field :
    (f : SdbField) (rest : List ℕ)
    → IsField f
    → parse_field (serialize_field f ++ rest) ≡ some (f, rest)
unfolding serialize_field wr_u16
parse_field-serialize_field f rest h =
    rw (name_len-length f.name h.3, take-all (length f.name) f.name (omega arith))
      (parse_field-long _ (omega arith)
        ∙ parse_name-all f.kind f.off f.width f.name rest (length f.name ∷ (f.name ++ rest)) h.0 h.1
            h.2)

parse_fields-serialize_fields :
    (fs : List SdbField) (rest : List ℕ)
    → All IsField fs
    → parse_fields (length fs) (serialize_fields fs ++ rest) ≡ some fs
unfolding parse_fields serialize_fields
parse_fields-serialize_fields [] rest h = refl
parse_fields-serialize_fields (f ∷ fs) rest h = rw (
  append_assoc (serialize_field f) (serialize_fields fs) rest,
  parse_field-serialize_field f (serialize_fields fs ++ rest) h.0,
  parse_fields-serialize_fields fs rest h.1,
)

parse_descriptor-count :
    (n : ℕ) (body : List ℕ) (fs : List SdbField) (id ver hdr : ℕ)
    → n < 65536
    → parse_fields n body ≡ some fs
    → parse_descriptor (wr_u16 (u16 n) ++ body) id ver hdr
      ≡ some record { schema_id = id; schema_ver = ver; hdr_size = hdr; fields = fs }
unfolding parse_descriptor wr_u16
parse_descriptor-count n body fs id ver hdr h e =
    rw (le→ltb (length (wr_u16 (u16 n) ++ body)) 2 long, count, e)
  where
    long : 2 ≤ length (wr_u16 (u16 n) ++ body)
    long = omega arith

    count : rd_u16 (wr_u16 (u16 n) ++ body) ≡ n
    count = rd_u16-wr_u16 (u16 n) body (omega arith) ∙ omega (arith, h)

-- A descriptor that serializeDescriptor wrote, whatever follows it, is parsed back to the schema with
-- its offsets and widths, when there are fewer than 65536 fields, each within the widths of its
-- struct and with a name of at most 255 bytes.
pub parse_descriptor-serialize_descriptor :
    (sc : SdbSchema) (rest : List ℕ)
    → length sc.fields < 65536
    → All IsField sc.fields
    → parse_descriptor (serialize_descriptor sc ++ rest) sc.schema_id sc.schema_ver sc.hdr_size
      ≡ some sc
unfolding serialize_descriptor
parse_descriptor-serialize_descriptor sc rest n h =
    rw (append_assoc (wr_u16 (u16 (length sc.fields))) (serialize_fields sc.fields) rest) (
      parse_descriptor-count (length sc.fields) (serialize_fields sc.fields ++ rest) sc.fields
        sc.schema_id sc.schema_ver sc.hdr_size n (parse_fields-serialize_fields sc.fields rest h))
