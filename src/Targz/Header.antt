-- ===== src/Targz/Header.antt =====
-- One ustar header block of esp-idf/src/targz.cpp: `ustar_t`, its checksum, and how the writer fills
-- and seals it.
pub mod Laws
use spangap_core.Base.{
  ℕ, ◌+◌, ◌%◌, ◌^◌, ◌≡◌, List, [], ◌∷◌, ◌++◌, ltb, leb, ◌==◌, if◌then◌else◌, ◌&&◌, length, take,
  drop, get_or, replicate, codes,
}
use spangap_core.Targz.Octal.{octal_field}

-- The fields in the order of the struct; their widths are in `HasWidths`. A field is its bytes.
pub record Ustar : Type 0 where
  pub name : List ℕ
  pub mode : List ℕ
  pub uid : List ℕ
  pub gid : List ℕ
  pub size : List ℕ
  pub mtime : List ℕ
  pub chksum : List ℕ
  pub typeflag : ℕ
  pub linkname : List ℕ
  pub magic : List ℕ
  pub version : List ℕ
  pub uname : List ℕ
  pub gname : List ℕ
  pub devmajor : List ℕ
  pub devminor : List ℕ
  pub prefix : List ℕ
  pub pad : List ℕ

abbrev pub tar_block : ℕ
tar_block = 512

-- The block in memory: the fields one after the other, with no gap between arrays of char. The
-- fields before and behind `chksum` are grouped, as the checksum treats them.
unfoldable pub before_chksum : Ustar → List ℕ
before_chksum h = h.name ++ (h.mode ++ (h.uid ++ (h.gid ++ (h.size ++ h.mtime))))

unfoldable pub after_chksum : Ustar → List ℕ
after_chksum h =
    h.typeflag
    ∷ (h.linkname
        ++ (h.magic
            ++ (h.version
                ++ (h.uname ++ (h.gname ++ (h.devmajor ++ (h.devminor ++ (h.prefix ++ h.pad))))))))

unfoldable pub to_bytes : Ustar → List ℕ
to_bytes h = before_chksum h ++ (h.chksum ++ after_chksum h)

-- `*(const ustar_t*)r->hdr`: the fields by their offsets.
abbrev field : ℕ → ℕ → List ℕ → List ℕ
field off width bytes = take width (drop off bytes)

unfoldable pub of_bytes : List ℕ → Ustar
of_bytes b = record {
  name = field 0 100 b;
  mode = field 100 8 b;
  uid = field 108 8 b;
  gid = field 116 8 b;
  size = field 124 12 b;
  mtime = field 136 12 b;
  chksum = field 148 8 b;
  typeflag = get_or b 156 0;
  linkname = field 157 100 b;
  magic = field 257 6 b;
  version = field 263 2 b;
  uname = field 265 32 b;
  gname = field 297 32 b;
  devmajor = field 329 8 b;
  devminor = field 337 8 b;
  prefix = field 345 155 b;
  pad = field 500 12 b;
}

pub record HasWidths (h : Ustar) : Type 0 where
  pub name : length h.name ≡ 100
  pub mode : length h.mode ≡ 8
  pub uid : length h.uid ≡ 8
  pub gid : length h.gid ≡ 8
  pub size : length h.size ≡ 12
  pub mtime : length h.mtime ≡ 12
  pub chksum : length h.chksum ≡ 8
  pub linkname : length h.linkname ≡ 100
  pub magic : length h.magic ≡ 6
  pub version : length h.version ≡ 2
  pub uname : length h.uname ≡ 32
  pub gname : length h.gname ≡ 32
  pub devmajor : length h.devmajor ≡ 8
  pub devminor : length h.devminor ≡ 8
  pub prefix : length h.prefix ≡ 155
  pub pad : length h.pad ≡ 12

-- for (i = 0; i < TAR_BLOCK; i++) sum += (i is in chksum) ? ' ' : p[i], in a uint32_t.
checksum_loop : ℕ → ℕ → List ℕ → ℕ
checksum_loop sum i [] = sum
checksum_loop sum i (c ∷ rest) =
    checksum_loop ((sum + (if leb 148 i && ltb i 156 then 32 else c)) % 2 ^ 32) (i + 1) rest

unfoldable pub header_checksum : Ustar → ℕ
unfolding checksum_loop to_bytes before_chksum after_chksum
header_checksum h = checksum_loop 0 0 (to_bytes h)

-- memcpy into the front of a field: the rest of the field stays.
abbrev pub overwrite : List ℕ → List ℕ → List ℕ
overwrite dst src = src ++ drop (length src) dst

abbrev zeros : ℕ → List ℕ
zeros n = replicate n 0

-- `fillHeader(h, typeflag, size, mtime)`; `size` and `mtime` are uint32_t.
unfoldable pub fill_header : ℕ → ℕ → ℕ → Ustar
fill_header typeflag size mtime = record {
  name = zeros 100;
  mode = (if typeflag == 53 then codes "0000755" else codes "0000644") ++ (0 ∷ []);
  uid = codes "0000000" ++ (0 ∷ []);
  gid = codes "0000000" ++ (0 ∷ []);
  size = octal_field 12 size;
  mtime = octal_field 12 mtime;
  chksum = zeros 8;
  typeflag = typeflag;
  linkname = zeros 100;
  magic = codes "ustar" ++ (0 ∷ []);
  version = codes "00";
  uname = overwrite (zeros 32) (codes "root" ++ (0 ∷ []));
  gname = overwrite (zeros 32) (codes "root" ++ (0 ∷ []));
  devmajor = zeros 8;
  devminor = zeros 8;
  prefix = zeros 155;
  pad = zeros 12;
}

-- `sealHeader`: six octal digits and a NUL, then a space.
unfoldable pub seal_header : Ustar → Ustar
seal_header h = record h { chksum = octal_field 7 (header_checksum h) ++ (32 ∷ []) }
