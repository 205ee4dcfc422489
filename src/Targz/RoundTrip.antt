-- ===== src/Targz/RoundTrip.antt =====
-- What the writer of esp-idf/src/targz.cpp puts into an archive, its reader announces again.
pub mod Entry
use spangap_core.Base.{
  ℕ, zero, suc, ◌+◌, ◌-◌, ◌*◌, ◌%◌, ◌^◌, ◌≤◌, ◌<◌, ◌≡◌, ◌≢◌, ◌∙◌, refl, ap, sym, subst, inl, inr,
  ◌⊎◌, Option, none, some, List, [], ◌∷◌, ◌++◌, Bool, true, false, not, Bool-cases, arith, ltb, leb,
  ◌==◌, ◌&&◌, ◌||◌, if◌then◌else◌, All, All-append, length, take, drop, get_or, replicate,
  length-append, length-replicate, append_assoc, append-nil, take-append, drop-append, take-all,
  drop-all, lt→ltb, le→ltb, eq→==, ne→==,
}
use spangap_core.Targz.Octal.{octal_value, octal_field, octal_value-octal_field}
use spangap_core.Targz.Header.{
  Ustar, HasWidths, to_bytes, of_bytes, before_chksum, after_chksum, fill_header, seal_header,
  header_checksum,
}
use spangap_core.Targz.Header.Laws.{
  HasBytes, IsByte, length-to_bytes, of_bytes-to_bytes, seal_header-HasWidths, seal_header-verifies,
  fill_header-HasWidths, fill_header-HasBytes,
}
use spangap_core.Targz.Names.{slash, set_entry_name, safe_entry_name, entry_name}
use spangap_core.Targz.Names.RoundTrip.{NoNul, entry_name-set_entry_name}
use spangap_core.Targz.Names.Safe.{safe_entry_name_iff, IsSafe}
use spangap_core.Targz.Names.Keeps.{
  set_entry_name-HasWidths, set_entry_name-HasBytes, set_entry_name-SameBody, SameBody,
}
use spangap_core.Targz.Tar.{
  Err, ok, TarStage, tar_hdr, tar_data, tar_pad, Callbacks, Tar, all_zero, strip_slashes, pad_of,
  tar_header, accept, named_entry, announce, open_entry, end_entry,
}

all_zero-false : (xs ys : List ℕ) → all_zero ys ≡ false → all_zero (xs ++ ys) ≡ false
unfolding all_zero
all_zero-false [] ys h = h
all_zero-false (x ∷ xs) ys h = rw (all_zero-false xs ys h) (ground arith)

-- A block with an entry type is not one of the zero blocks that end an archive.
not_zero_block : (h : Ustar) → h.typeflag ≢ 0 → all_zero (to_bytes h) ≡ false
unfolding to_bytes after_chksum
not_zero_block h t =
    all_zero-false (before_chksum h) _ (all_zero-false h.chksum _ (flag h.typeflag _ t))
  where
    flag : (c : ℕ) (rest : List ℕ) → c ≢ 0 → all_zero (c ∷ rest) ≡ false
    flag c rest ne = unfold all_zero in ground arith

entry_name-seal_header : (h : Ustar) → entry_name (seal_header h) ≡ entry_name h
unfolding entry_name seal_header
entry_name-seal_header h = refl

module _ (cb : Callbacks) (r : Tar cb.Ctx) where
  -- The reader takes a sealed header for what it is.
  tar_header-sealed :
      (h : Ustar) (path : List ℕ)
      → HasWidths h
      → HasBytes h
      → h.typeflag ≢ 0
      → entry_name h ≡ some path
      → tar_header cb r (to_bytes (seal_header h))
        ≡ named_entry cb (record r { zero_blocks = 0 }) (seal_header h) path
  unfolding tar_header accept
  tar_header-sealed h path v b t e = rw (
    not_zero_block (seal_header h) (unfold seal_header in t),
    of_bytes-to_bytes (seal_header h) (seal_header-HasWidths h v),
    eq→== _ _ (seal_header-verifies h v b),
    entry_name-seal_header h,
    e,
  )

  -- A file is announced under its name and with its size.
  named_entry-file :
      (h : Ustar) (name : List ℕ) (size : ℕ)
      → h.typeflag ≡ 48
      → octal_value h.size ≡ size
      → strip_slashes name ≡ name
      → safe_entry_name name ≡ true
      → named_entry cb r h name ≡ announce cb r false name size
  unfolding named_entry
  named_entry-file h name size t s st safe =
      rw (t, st, le→ltb (length name) (length name) (omega arith), safe, s)

  named_entry-dir :
      (h : Ustar) (path name : List ℕ) (size : ℕ)
      → h.typeflag ≡ 53
      → octal_value h.size ≡ size
      → strip_slashes path ≡ name
      → safe_entry_name name ≡ true
      → named_entry cb r h path ≡ announce cb r true name size
  unfolding named_entry
  named_entry-dir h path name size t s st safe = rw (t, st, safe, s)

-- A path that the archive can carry: no NUL in its bytes, safe to write, and named without a slash at
-- its end.
pub record IsEntryName (name : List ℕ) : Type 0 where
  pub no_nul : NoNul name
  pub are_bytes : All IsByte name
  pub is_safe : safe_entry_name name ≡ true
  pub unslashed : strip_slashes name ≡ name

safe-relative : (name : List ℕ) → safe_entry_name name ≡ true → get_or name 0 0 ≢ slash
safe-relative name h = ((safe_entry_name_iff name).0 h).relative

fresh_flag : (t size mtime : ℕ) → (fill_header t size mtime).typeflag ≡ t
unfolding fill_header
fresh_flag t size mtime = refl

fresh_size : (t size mtime : ℕ) → size < 2 ^ 32 → octal_value (fill_header t size mtime).size ≡ size
unfolding fill_header
fresh_size t size mtime h =
    subst (λ x. octal_value x ≡ size) (append-nil (octal_field 12 size))
      (octal_value-octal_field 12 size [] (omega arith) (omega arith))

module _ (cb : Callbacks) (r : Tar cb.Ctx) where
  -- The header block that `targzWriterAddFile` writes for a path that the archive can carry makes the
  -- reader announce a file of that path and size.
  pub tar_header-add_file :
      (name : List ℕ) (size mtime : ℕ) (h : Ustar)
      → IsEntryName name
      → size < 2 ^ 32
      → set_entry_name (fill_header 48 size mtime) name ≡ some h
      → tar_header cb r (to_bytes (seal_header h))
        ≡ announce cb (record r { zero_blocks = 0 }) false name size
  tar_header-add_file name size mtime h n lt e =
      let f = fill_header 48 size mtime in
      let same = set_entry_name-SameBody f h name e in
      tar_header-sealed cb r h name
        (set_entry_name-HasWidths f h name (fill_header-HasWidths 48 size mtime) e)
        (set_entry_name-HasBytes f h name (fill_header-HasBytes 48 size mtime (omega arith))
          n.are_bytes e)
        (λ z. omega (arith, z, same.typeflag, fresh_flag 48 size mtime))
        (entry_name-set_entry_name name f h n.no_nul (unfold fill_header in refl)
          (unfold fill_header in refl) (safe-relative name n.is_safe) e)
      ∙ named_entry-file cb (record r { zero_blocks = 0 }) (seal_header h) name size
          (unfold seal_header in same.typeflag ∙ fresh_flag 48 size mtime)
          (unfold seal_header in ap octal_value same.size ∙ fresh_size 48 size mtime lt) n.unslashed
          n.is_safe

strip_slashes-append : (name : List ℕ) → strip_slashes (name ++ (slash ∷ [])) ≡ strip_slashes name
unfolding strip_slashes
strip_slashes-append [] = refl
strip_slashes-append (c ∷ name) = rw (strip_slashes-append name)

relative-append : (name : List ℕ) → IsSafe name → get_or (name ++ (slash ∷ [])) 0 0 ≢ slash
relative-append [] s = absurd (s.some_bytes refl)
relative-append (c ∷ name) s = s.relative

NoNul-append : (name : List ℕ) → NoNul name → NoNul (name ++ (slash ∷ []))
NoNul-append [] h = (λ e. omega (arith, e), tt)
NoNul-append (c ∷ name) (h, hs) = (h, NoNul-append name hs)

module _ (cb : Callbacks) (r : Tar cb.Ctx) where
  -- The header block that `targzWriterAddDir` writes makes the reader announce a directory of that path.
  pub tar_header-add_dir :
      (name : List ℕ) (mtime : ℕ) (h : Ustar)
      → IsEntryName name
      → set_entry_name (fill_header 53 0 mtime) (name ++ (slash ∷ [])) ≡ some h
      → tar_header cb r (to_bytes (seal_header h))
        ≡ announce cb (record r { zero_blocks = 0 }) true name 0
  tar_header-add_dir name mtime h n e =
      let f = fill_header 53 0 mtime in
      let path = name ++ (slash ∷ []) in
      let same = set_entry_name-SameBody f h path e in
      tar_header-sealed cb r h path
        (set_entry_name-HasWidths f h path (fill_header-HasWidths 53 0 mtime) e)
        (set_entry_name-HasBytes f h path (fill_header-HasBytes 53 0 mtime (omega arith))
          (All-append IsByte name (slash ∷ []) n.are_bytes (omega arith)) e)
        (λ z. omega (arith, z, same.typeflag, fresh_flag 53 0 mtime))
        (entry_name-set_entry_name path f h (NoNul-append name n.no_nul)
          (unfold fill_header in refl) (unfold fill_header in refl)
          (relative-append name ((safe_entry_name_iff name).0 n.is_safe)) e)
      ∙ named_entry-dir cb (record r { zero_blocks = 0 }) (seal_header h) path name 0
          (unfold seal_header in same.typeflag ∙ fresh_flag 53 0 mtime)
          (unfold seal_header in ap octal_value same.size ∙ fresh_size 53 0 mtime (omega arith))
          (strip_slashes-append name ∙ n.unslashed) n.is_safe
