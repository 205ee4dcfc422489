-- ===== src/StorageDb/Record/RoundTrip.antt =====
-- A record image is read back from wherever it stands in a block.
use spangap_core.Base.{
  ℕ, zero, suc, ◌+◌, ◌%◌, ◌≤◌, ◌<◌, ◌≡◌, refl, sym, ap, ◌∙◌, List, [], ◌∷◌, ◌++◌, append_assoc,
  arith, length, set, take, drop, All, length-append, take-append, drop-append, drop-drop,
  drop-append_le, drop-append_ge, length-take, length-drop,
}
use spangap_core.StorageDb.Words.{wr_u16, rd_u16, wr_u32, rd_u32, rd_u16-wr_u16, rd_u32-wr_u32}
use spangap_core.StorageDb.Schema.{u16}
use spangap_core.StorageDb.Record.{
  sdb_flags_off, prefixed, all_prefixed, put_u32, unsized_record, build_record, read_texts,
  read_record_text,
}

abbrev pub IsText : List ℕ → Type 0
IsText t = length t < 65536

pub head_length : (t rest : List ℕ) → IsText t → rd_u16 (prefixed t ++ rest) ≡ length t
unfolding prefixed
head_length t rest h =
    ap rd_u16 (append_assoc (wr_u16 (u16 (length t))) t rest)
    ∙ rd_u16-wr_u16 (u16 (length t)) (t ++ rest) (omega arith)
    ∙ omega (arith, h)

after_length : (t rest : List ℕ) → drop 2 (prefixed t ++ rest) ≡ t ++ rest
unfolding prefixed wr_u16
after_length t rest = refl

head_text :
    (t rest : List ℕ)
    → IsText t
    → take (rd_u16 (prefixed t ++ rest)) (drop 2 (prefixed t ++ rest)) ≡ t
head_text t rest h =
    rw (head_length t rest h, after_length t rest) (take-append (length t) t rest refl)

past_text :
    (t rest : List ℕ)
    → IsText t
    → drop (rd_u16 (prefixed t ++ rest)) (drop 2 (prefixed t ++ rest)) ≡ rest
past_text t rest h =
    rw (head_length t rest h, after_length t rest) (drop-append (length t) t rest refl)

read_texts-all_prefixed :
    (ts : List (List ℕ)) (rest : List ℕ)
    → All IsText ts
    → read_texts (length ts) (all_prefixed ts ++ rest) ≡ ts
unfolding read_texts all_prefixed
read_texts-all_prefixed [] rest h = refl
read_texts-all_prefixed (t ∷ ts) rest h = rw (
  append_assoc (prefixed t) (all_prefixed ts) rest,
  head_text t (all_prefixed ts ++ rest) h.0,
  past_text t (all_prefixed ts ++ rest) h.0,
  read_texts-all_prefixed ts rest h.1,
)

drop-set : (n i v : ℕ) (xs : List ℕ) → i < n → drop n (set xs i v) ≡ drop n xs
drop-set zero i v xs h = absurd (omega arith)
drop-set (suc n) i v [] h = refl
drop-set (suc n) zero v (x ∷ xs) h = refl
drop-set (suc n) (suc i) v (x ∷ xs) h = drop-set n i v xs (omega arith)

length-set : (i v : ℕ) (xs : List ℕ) → length (set xs i v) ≡ length xs
length-set i v [] = refl
length-set zero v (x ∷ xs) = refl
length-set (suc i) v (x ∷ xs) = ap suc (length-set i v xs)

drop-put_u32 : (n v : ℕ) (r : List ℕ) → 4 ≤ n → drop n (put_u32 v r) ≡ drop n r
unfolding put_u32 wr_u32
drop-put_u32 zero v r h = absurd (omega arith)
drop-put_u32 (suc zero) v r h = absurd (omega arith)
drop-put_u32 (suc (suc zero)) v r h = absurd (omega arith)
drop-put_u32 (suc (suc (suc zero))) v r h = absurd (omega arith)
drop-put_u32 (suc (suc (suc (suc n)))) v r h =
    drop-drop n 4 (suc (suc (suc (suc n)))) r (omega arith)

length-put_u32 : (v : ℕ) (r : List ℕ) → 4 ≤ length r → length (put_u32 v r) ≡ length r
unfolding put_u32 wr_u32
length-put_u32 v r h = let e = length-drop 4 r in omega arith

rd_u32-put_u32 :
    (v x : ℕ) (r post : List ℕ)
    → v < 4294967296
    → rd_u32 (set (put_u32 v r) sdb_flags_off x ++ post) ≡ v
unfolding put_u32 wr_u32
rd_u32-put_u32 v x r post h = rd_u32-wr_u32 v (set (drop 4 r) 0 x ++ post) h

-- What a record holds after its fixed header.
abbrev pub texts_of : List ℕ → List (List ℕ) → List ℕ
texts_of key texts = prefixed key ++ all_prefixed texts

module _ (hs : ℕ) (hdr_copy key : List ℕ) (texts : List (List ℕ)) (flags : 5 ≤ hs)
    (fits : hs ≤ length hdr_copy) where
  length-head : length (take hs hdr_copy) ≡ hs
  length-head = length-take hs hdr_copy ∙ omega arith

  pub length-whole : hs ≤ length (unsized_record hs hdr_copy key texts)
  unfolding unsized_record
  length-whole =
      rw (length-append (take hs hdr_copy) (texts_of key texts), length-head) (omega arith)

  pub length-image :
      length (build_record hs hdr_copy key texts) ≡ length (unsized_record hs hdr_copy key texts)
  unfolding build_record
  length-image =
      let h = length-whole in
      length-set sdb_flags_off _ _
      ∙ length-put_u32 _ (unsized_record hs hdr_copy key texts) (omega arith)

  pub drop-image : drop hs (build_record hs hdr_copy key texts) ≡ texts_of key texts
  unfolding build_record unsized_record
  drop-image =
      drop-set hs sdb_flags_off _ _ (omega arith)
      ∙ drop-put_u32 hs _ (unsized_record hs hdr_copy key texts) (omega arith)
      ∙ drop-append hs (take hs hdr_copy) (texts_of key texts) (sym length-head)

  drop-block :
      (pre post : List ℕ)
      → drop (length pre + hs) (pre ++ (build_record hs hdr_copy key texts ++ post))
        ≡ prefixed key ++ (all_prefixed texts ++ post)
  drop-block pre post =
      let l = length-whole in
      let e = length-image in
      drop-append_ge (length pre + hs) pre (build_record hs hdr_copy key texts ++ post)
        (omega arith)
      ∙ ap (λ (n : ℕ). drop n (build_record hs hdr_copy key texts ++ post)) (omega arith)
      ∙ drop-append_le hs (build_record hs hdr_copy key texts) post (omega arith)
      ∙ ap (λ (r : List ℕ). r ++ post) drop-image
      ∙ append_assoc (prefixed key) (all_prefixed texts) post

  read_back :
      (pre post : List ℕ)
      → IsText key
      → All IsText texts
      → read_record_text hs
          (length texts)
          (pre ++ (build_record hs hdr_copy key texts ++ post))
          (length pre)
        ≡ (key, texts)
  unfolding read_record_text
  read_back pre post h hs' = rw (
    drop-block pre post,
    head_text key (all_prefixed texts ++ post) h,
    past_text key (all_prefixed texts ++ post) h,
    read_texts-all_prefixed texts post hs',
  )

  pub rec_len :
      (post : List ℕ)
      → length (build_record hs hdr_copy key texts) < 4294967296
      → rd_u32 (build_record hs hdr_copy key texts ++ post)
        ≡ length (build_record hs hdr_copy key texts)
  unfolding build_record
  rec_len post h =
      let e = length-image in
      rd_u32-put_u32 (length (unsized_record hs hdr_copy key texts) % 4294967296) _
        (unsized_record hs hdr_copy key texts) post (omega arith)
      ∙ omega (arith, e, h)

  -- A record that buildRecord made, wherever it stands in a block, is read back with its key and texts,
  -- and its length field holds its length, when the fixed header covers the flags and fits hdr_copy,
  -- the key and each text have fewer than 65536 bytes and the record fewer than 2^32.
  pub read_record_text-build_record :
      (pre post : List ℕ)
      → IsText key
      → All IsText texts
      → length (build_record hs hdr_copy key texts) < 4294967296
      → (read_record_text hs
            (length texts)
            (pre ++ (build_record hs hdr_copy key texts ++ post))
            (length pre)
          ≡ (key, texts))
        × (rd_u32 (build_record hs hdr_copy key texts ++ post)
            ≡ length (build_record hs hdr_copy key texts))
  read_record_text-build_record pre post h k l = (read_back pre post h k, rec_len post l)
