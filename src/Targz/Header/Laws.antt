-- ===== src/Targz/Header/Laws.antt =====
-- Sealed headers verify: the reader's view of a block is the writer's header, and the checksum that it
-- computes is the one that it reads.
use spangap_core.Base.{
  ℕ, zero, suc, ◌+◌, ◌*◌, ◌%◌, ◌^◌, ◌≤◌, ◌<◌, ◌≡◌, ◌∙◌, refl, ap, sym, List, [], ◌∷◌, ◌++◌, arith,
  ltb, leb, if◌then◌else◌, ◌&&◌, All, All-append, append_assoc, length, length-append, take, drop,
  get_or, take-append, drop-append, get_or-append, append-nil, lt→ltb, le→leb, replicate, codes,
  length-drop, Bool-cases, ◌==◌, inl, inr,
}
use spangap_core.Targz.Octal.{
  octal_field, octal_value, octal_value-octal_field, length-octal_field, All-octal_field,
}
use spangap_core.Targz.Header.{
  Ustar, HasWidths, to_bytes, of_bytes, before_chksum, after_chksum, checksum_loop, header_checksum,
  seal_header, fill_header, overwrite,
}

abbrev pub IsByte : ℕ → Type 0
IsByte c = c < 256

checksum_loop-append :
    (xs ys : List ℕ) (sum i j : ℕ)
    → j ≡ i + length xs
    → checksum_loop sum i (xs ++ ys) ≡ checksum_loop (checksum_loop sum i xs) j ys
unfolding checksum_loop
checksum_loop-append [] ys sum i j h = ap (λ (n : ℕ). checksum_loop sum n ys) (omega arith)
checksum_loop-append (c ∷ xs) ys sum i j h = checksum_loop-append xs ys _ (i + 1) j (omega arith)

-- Inside the field `chksum` only the number of bytes matters.
checksum_loop_blank :
    (xs ys : List ℕ) (sum i : ℕ)
    → length xs ≡ length ys
    → 148 ≤ i
    → i + length xs ≤ 156
    → checksum_loop sum i xs ≡ checksum_loop sum i ys
unfolding checksum_loop
checksum_loop_blank [] [] sum i e lo hi = refl
checksum_loop_blank [] (y ∷ ys) sum i e lo hi = absurd (omega arith)
checksum_loop_blank (x ∷ xs) [] sum i e lo hi = absurd (omega arith)
checksum_loop_blank (x ∷ xs) (y ∷ ys) sum i e lo hi =
    rw (le→leb 148 i lo, lt→ltb i 156 (omega arith))
      (checksum_loop_blank xs ys ((sum + 32) % 2 ^ 32) (i + 1) (omega arith) (omega arith)
        (omega arith))

checksum_loop-le :
    (xs : List ℕ) (sum i : ℕ) → All IsByte xs → checksum_loop sum i xs ≤ sum + 255 * length xs
unfolding checksum_loop
checksum_loop-le [] sum i h = omega arith
checksum_loop-le (x ∷ xs) sum i (h, hs) = omega (
  arith,
  step,
  checksum_loop-le xs ((sum + (if leb 148 i && ltb i 156 then 32 else x)) % 2 ^ 32) (i + 1) hs,
)
  where
    step : (sum + (if leb 148 i && ltb i 156 then 32 else x)) % 2 ^ 32 ≤ sum + 255
    step = ground arith

abbrev flat : List (List ℕ) → List ℕ
flat [] = []
flat (x ∷ xs) = x ++ flat xs

-- The block as its fields in order.
abbrev pub chunks : Ustar → List (List ℕ)
chunks h =
    h.name
    ∷ h.mode
    ∷ h.uid
    ∷ h.gid
    ∷ h.size
    ∷ h.mtime
    ∷ h.chksum
    ∷ (h.typeflag ∷ [])
    ∷ h.linkname
    ∷ h.magic
    ∷ h.version
    ∷ h.uname
    ∷ h.gname
    ∷ h.devmajor
    ∷ h.devminor
    ∷ h.prefix
    ∷ h.pad
    ∷ []

to_bytes-flat : (h : Ustar) → to_bytes h ≡ flat (chunks h)
unfolding to_bytes before_chksum after_chksum
to_bytes-flat h = simp (append_assoc, append-nil)

abbrev flat_length : List (List ℕ) → ℕ
flat_length [] = 0
flat_length (x ∷ xs) = length x + flat_length xs

length-flat : (xs : List (List ℕ)) → length (flat xs) ≡ flat_length xs
length-flat [] = refl
length-flat (x ∷ xs) = omega (arith, length-append x (flat xs), length-flat xs)

flat-append : (xs ys : List (List ℕ)) → flat (xs ++ ys) ≡ flat xs ++ flat ys
flat-append [] ys = refl
flat-append (x ∷ xs) ys = rw (flat-append xs ys) (sym (append_assoc x (flat xs) (flat ys)))

-- A field stands at the sum of the widths before it.
chunk_at :
    (before after : List (List ℕ)) (x : List ℕ) (off w : ℕ)
    → off ≡ flat_length before
    → w ≡ length x
    → take w (drop off (flat (before ++ (x ∷ after)))) ≡ x
chunk_at before after x off w eo ew =
    rw
      (
        flat-append before (x ∷ after),
        drop-append off (flat before) (x ++ flat after) (eo ∙ sym (length-flat before)),
      )
      (take-append w x (flat after) ew)

byte_at :
    (before after : List (List ℕ)) (c off : ℕ)
    → off ≡ flat_length before
    → get_or (flat (before ++ ((c ∷ []) ∷ after))) off 0 ≡ c
byte_at before after c off eo =
    rw (flat-append before ((c ∷ []) ∷ after))
      (get_or-append (flat before) (c ∷ flat after) off 0 (eo ∙ sym (length-flat before)))

module _ (h : Ustar) (v : HasWidths h) where
  open v use {
    name, mode, uid, gid, size, mtime, chksum, linkname, magic, version, uname, gname, devmajor,
    devminor, prefix, pad,
  }

  -- A block is 512 bytes.
  pub length-to_bytes : length (to_bytes h) ≡ 512
  length-to_bytes = rw to_bytes-flat (omega (arith, length-flat (chunks h)))

  -- The cast of a block in memory gives the header that was laid out there.
  pub of_bytes-to_bytes : of_bytes (to_bytes h) ≡ h
  unfolding of_bytes
  of_bytes-to_bytes = rw to_bytes-flat (λ i. record {
    name = chunk_at [] (drop 1 (chunks h)) h.name 0 100 (omega arith) (omega arith) i;
    mode =
        chunk_at (take 1 (chunks h)) (drop 2 (chunks h)) h.mode 100 8 (omega arith) (omega arith) i;
    uid =
        chunk_at (take 2 (chunks h)) (drop 3 (chunks h)) h.uid 108 8 (omega arith) (omega arith) i;
    gid =
        chunk_at (take 3 (chunks h)) (drop 4 (chunks h)) h.gid 116 8 (omega arith) (omega arith) i;
    size =
        chunk_at (take 4 (chunks h)) (drop 5 (chunks h)) h.size 124 12 (omega arith) (omega arith)
          i;
    mtime =
        chunk_at (take 5 (chunks h)) (drop 6 (chunks h)) h.mtime 136 12 (omega arith) (omega arith)
          i;
    chksum =
        chunk_at (take 6 (chunks h)) (drop 7 (chunks h)) h.chksum 148 8 (omega arith) (omega arith)
          i;
    typeflag = byte_at (take 7 (chunks h)) (drop 8 (chunks h)) h.typeflag 156 (omega arith) i;
    linkname =
        chunk_at (take 8 (chunks h)) (drop 9 (chunks h)) h.linkname 157 100 (omega arith)
          (omega arith) i;
    magic =
        chunk_at (take 9 (chunks h)) (drop 10 (chunks h)) h.magic 257 6 (omega arith) (omega arith)
          i;
    version =
        chunk_at (take 10 (chunks h)) (drop 11 (chunks h)) h.version 263 2 (omega arith)
          (omega arith) i;
    uname =
        chunk_at (take 11 (chunks h)) (drop 12 (chunks h)) h.uname 265 32 (omega arith)
          (omega arith) i;
    gname =
        chunk_at (take 12 (chunks h)) (drop 13 (chunks h)) h.gname 297 32 (omega arith)
          (omega arith) i;
    devmajor =
        chunk_at (take 13 (chunks h)) (drop 14 (chunks h)) h.devmajor 329 8 (omega arith)
          (omega arith) i;
    devminor =
        chunk_at (take 14 (chunks h)) (drop 15 (chunks h)) h.devminor 337 8 (omega arith)
          (omega arith) i;
    prefix =
        chunk_at (take 15 (chunks h)) (drop 16 (chunks h)) h.prefix 345 155 (omega arith)
          (omega arith) i;
    pad =
        chunk_at (take 16 (chunks h)) (drop 17 (chunks h)) h.pad 500 12 (omega arith) (omega arith)
          i;
  })

-- Every field holds bytes.
abbrev pub HasBytes : Ustar → Type 0
HasBytes h = All (All IsByte) (chunks h)

All-flat : (xs : List (List ℕ)) → All (All IsByte) xs → All IsByte (flat xs)
All-flat [] h = tt
All-flat (x ∷ xs) (h, hs) = All-append IsByte x (flat xs) h (All-flat xs hs)

to_bytes-IsByte : (h : Ustar) → HasBytes h → All IsByte (to_bytes h)
to_bytes-IsByte h b = rw to_bytes-flat (All-flat (chunks h) b)

header_checksum-le : (h : Ustar) → HasWidths h → HasBytes h → header_checksum h ≤ 255 * 512
unfolding header_checksum
header_checksum-le h v b =
    omega (arith, checksum_loop-le (to_bytes h) 0 0 (to_bytes-IsByte h b), length-to_bytes h v)

-- The checksum does not depend on what stands in its own field.
header_checksum-chksum :
    (h : Ustar) (c : List ℕ)
    → HasWidths h
    → length c ≡ 8
    → header_checksum (record h { chksum = c }) ≡ header_checksum h
unfolding header_checksum to_bytes before_chksum after_chksum
header_checksum-chksum h c v lc =
    checksum_loop-append (before_chksum h) (c ++ after_chksum h) 0 0 148 (omega (arith, at_148))
    ∙ checksum_loop-append c (after_chksum h) _ 148 156 (omega arith)
    ∙ ap (λ s. checksum_loop s 156 (after_chksum h))
        (checksum_loop_blank c h.chksum _ 148 (omega (arith, v.chksum)) (omega arith) (omega arith))
    ∙ sym (
        checksum_loop-append (before_chksum h) (h.chksum ++ after_chksum h) 0 0 148
          (omega (arith, at_148))
        ∙ checksum_loop-append h.chksum (after_chksum h) _ 148 156 (omega (arith, v.chksum)))
  where
    at_148 : length (before_chksum h) ≡ 148
    at_148 = omega (arith, length-append {0}, v.name, v.mode, v.uid, v.gid, v.size, v.mtime)

pub seal_header-HasWidths : (h : Ustar) → HasWidths h → HasWidths (seal_header h)
unfolding seal_header
seal_header-HasWidths h v = record {
  name = v.name;
  mode = v.mode;
  uid = v.uid;
  gid = v.gid;
  size = v.size;
  mtime = v.mtime;
  chksum =
      length-append (octal_field 7 (header_checksum h)) (32 ∷ [])
      ∙ omega (arith, length-octal_field 7 (header_checksum h) (omega arith));
  linkname = v.linkname;
  magic = v.magic;
  version = v.version;
  uname = v.uname;
  gname = v.gname;
  devmajor = v.devmajor;
  devminor = v.devminor;
  prefix = v.prefix;
  pad = v.pad;
}

-- Sealing stores the checksum that a reader of the sealed header computes.
pub seal_header-verifies :
    (h : Ustar)
    → HasWidths h
    → HasBytes h
    → octal_value (seal_header h).chksum ≡ header_checksum (seal_header h)
unfolding seal_header
seal_header-verifies h v b =
    octal_value-octal_field 7 (header_checksum h) (32 ∷ []) (omega (arith, small))
      (omega (arith, small))
    ∙ sym (
        header_checksum-chksum h (octal_field 7 (header_checksum h) ++ (32 ∷ [])) v
          (seal_header-HasWidths h v).chksum)
  where
    small : header_checksum h ≤ 255 * 512
    small = header_checksum-le h v b

All-replicate : (n c : ℕ) → IsByte c → All IsByte (replicate n c)
All-replicate zero c h = tt
All-replicate (suc n) c h = (h, All-replicate n c h)

octal_bytes : (width v : ℕ) → All IsByte (octal_field width v)
octal_bytes width v = All-octal_field IsByte width v (omega arith) (λ d lo hi. omega arith)

-- A fresh header is well formed, whatever its numbers.
module _ (typeflag size mtime : ℕ) where
  pub fill_header-HasWidths : HasWidths (fill_header typeflag size mtime)
  unfolding fill_header
  fill_header-HasWidths = record {
    name = refl;
    mode = elim (Bool-cases (typeflag == 53)) [ inl e ↦ rw e | inr e ↦ rw e ];
    uid = refl;
    gid = refl;
    size = length-octal_field 12 size (omega arith);
    mtime = length-octal_field 12 mtime (omega arith);
    chksum = refl;
    linkname = refl;
    magic = refl;
    version = refl;
    uname = refl;
    gname = refl;
    devmajor = refl;
    devminor = refl;
    prefix = refl;
    pad = refl;
  }

  pub fill_header-HasBytes : typeflag < 256 → HasBytes (fill_header typeflag size mtime)
  unfolding fill_header
  fill_header-HasBytes t = (
    All-replicate 100 0 (omega arith),
    (
      elim (Bool-cases (typeflag == 53)) [
        | inl e ↦ rw e (omega arith)
        | inr e ↦ rw e (omega arith)
      ],
      (
        omega arith,
        (
          omega arith,
          (
            octal_bytes 12 size,
            (
              octal_bytes 12 mtime,
              (
                All-replicate 8 0 (omega arith),
                (
                  (t, tt),
                  (
                    All-replicate 100 0 (omega arith),
                    (
                      omega arith,
                      (
                        omega arith,
                        (
                          root,
                          (
                            root,
                            (
                              All-replicate 8 0 (omega arith),
                              (
                                All-replicate 8 0 (omega arith),
                                (
                                  All-replicate 155 0 (omega arith),
                                  (All-replicate 12 0 (omega arith), tt),
                                ),
                              ),
                            ),
                          ),
                        ),
                      ),
                    ),
                  ),
                ),
              ),
            ),
          ),
        ),
      ),
    ),
  )
    where
      root : All IsByte ((codes "root" ++ (0 ∷ [])) ++ replicate 27 0)
      root =
          All-append IsByte (codes "root" ++ (0 ∷ [])) (replicate 27 0) (omega arith)
            (All-replicate 27 0 (omega arith))

-- A header stays well formed where bytes are copied into its name fields.
pub length-overwrite :
    (n : ℕ) (dst src : List ℕ) → length dst ≡ n → length src ≤ n → length (overwrite dst src) ≡ n
length-overwrite n dst src hd hs =
    omega (arith, length-append src (drop (length src) dst), length-drop (length src) dst)
