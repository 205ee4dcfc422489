-- ===== src/StorageDb/Schema.antt =====
-- sdb_field and sdb_schema of esp-idf/include/storage_db.h with the builders, find, textCount and
-- schemaLayoutEqual of esp-idf/src/storage_db.cpp.
pub mod Layout
use spangap_core.Base.{
  ℕ, suc, ◌+◌, ◌*◌, ◌/◌, ◌%◌, Bool, true, false, ◌&&◌, Option, none, some, List, [], ◌∷◌, ◌++◌,
  ◌==◌, if◌then◌else◌, eq_bytes,
}

-- enum sdb_kind has one byte of room; a parsed descriptor can hold any.
abbrev pub sdb_u8 : ℕ
sdb_u8 = 1

abbrev pub sdb_u32 : ℕ
sdb_u32 = 2

abbrev pub sdb_fixstr : ℕ
sdb_fixstr = 3

abbrev pub sdb_text : ℕ
sdb_text = 4

abbrev pub sdb_data : ℕ
sdb_data = 5

pub record SdbField : Type 0 where
  pub name : List ℕ
  pub kind : ℕ
  pub off : ℕ
  pub width : ℕ

pub record SdbSchema : Type 0 where
  pub schema_id : ℕ
  pub schema_ver : ℕ
  pub hdr_size : ℕ
  pub fields : List SdbField

abbrev pub u16 : ℕ → ℕ
u16 n = n % 65536

unfoldable pub count_text : List SdbField → ℕ
count_text [] = 0
count_text (f ∷ fs) = if f.kind == sdb_text then suc (count_text fs) else count_text fs

unfoldable pub text_count : SdbSchema → ℕ
text_count s = u16 (count_text s.fields)

unfoldable pub push_field : SdbSchema → SdbField → ℕ → SdbSchema
push_field s f size = record s { fields = s.fields ++ f ∷ []; hdr_size = u16 (s.hdr_size + size) }

unfoldable pub add_u8 : SdbSchema → List ℕ → SdbSchema
add_u8 s name = push_field s record { name = name; kind = sdb_u8; off = s.hdr_size; width = 0 } 1

-- hdr_size rounded up to a multiple of four.
unfoldable pub align : SdbSchema → SdbSchema
align s = if s.hdr_size % 4 == 0 then s else record s { hdr_size = u16 ((s.hdr_size + 3) / 4 * 4) }

unfoldable pub add_u32 : SdbSchema → List ℕ → SdbSchema
add_u32 s name =
    let a = align s in
    push_field a record { name = name; kind = sdb_u32; off = a.hdr_size; width = 0 } 4

unfoldable pub add_fixstr : SdbSchema → List ℕ → ℕ → SdbSchema
add_fixstr s name width =
    push_field s record { name = name; kind = sdb_fixstr; off = s.hdr_size; width = width } width

unfoldable pub add_data : SdbSchema → List ℕ → ℕ → SdbSchema
add_data s name nbytes =
    push_field s record { name = name; kind = sdb_data; off = s.hdr_size; width = nbytes } nbytes

unfoldable pub add_text : SdbSchema → List ℕ → SdbSchema
add_text s name = record s {
  fields = s.fields ++ record { name = name; kind = sdb_text; off = text_count s; width = 0 } ∷ [];
}

unfoldable pub find_field : List SdbField → List ℕ → Option SdbField
find_field [] name = none
find_field (f ∷ fs) name = if eq_bytes f.name name then some f else find_field fs name

unfoldable pub find : SdbSchema → List ℕ → Option SdbField
find s name = find_field s.fields name

unfoldable pub fields_equal : List SdbField → List SdbField → Bool
fields_equal [] [] = true
fields_equal [] (y ∷ ys) = false
fields_equal (x ∷ xs) [] = false
fields_equal (x ∷ xs) (y ∷ ys) =
    x.kind == y.kind
    && x.off == y.off
    && x.width == y.width
    && eq_bytes x.name y.name
    && fields_equal xs ys

unfoldable pub schema_layout_equal : SdbSchema → SdbSchema → Bool
schema_layout_equal a b = a.hdr_size == b.hdr_size && fields_equal a.fields b.fields
