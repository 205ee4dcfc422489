-- ===== src/StorageDb/Index/Built.antt =====
-- The record images that buildRecord makes are well-formed for rebuildIndex.
use spangap_core.Base.{
  ℕ, ◌+◌, ◌≤◌, ◌<◌, ◌≡◌, ap, ◌∙◌, List, ◌++◌, append_assoc, arith, length, take, drop,
  length-append, drop-append_le, length-take,
}
use spangap_core.StorageDb.Words.{wr_u16, rd_u16}
use spangap_core.StorageDb.Record.{prefixed, all_prefixed, unsized_record, build_record}
use spangap_core.StorageDb.Record.RoundTrip.{
  IsText, head_length, texts_of, length-whole, length-image, drop-image, rec_len,
}
use spangap_core.StorageDb.Index.Rebuild.{IsRecord}

length-prefixed : (t : List ℕ) → length (prefixed t) ≡ 2 + length t
unfolding prefixed wr_u16
length-prefixed t = omega arith

length-unsized :
    (hs : ℕ) (hdr_copy key : List ℕ) (texts : List (List ℕ))
    → hs ≤ length hdr_copy
    → hs + 2 + length key ≤ length (unsized_record hs hdr_copy key texts)
unfolding unsized_record
length-unsized hs hdr_copy key texts h = omega (
  arith,
  h,
  length-append (take hs hdr_copy) (texts_of key texts),
  length-take hs hdr_copy,
  length-append (prefixed key) (all_prefixed texts),
  length-prefixed key,
)

pub build_record-IsRecord :
    (hs : ℕ) (hdr_copy key : List ℕ) (texts : List (List ℕ))
    → 5 ≤ hs
    → hs ≤ length hdr_copy
    → IsText key
    → length (build_record hs hdr_copy key texts) < 4294967296
    → IsRecord hs (build_record hs hdr_copy key texts)
build_record-IsRecord hs hdr_copy key texts flags fits t small post = (
  omega (arith, e, w),
  omega (arith, e, w),
  rec_len hs hdr_copy key texts flags fits post small,
  omega (arith, e, k, length-unsized hs hdr_copy key texts fits),
)
  where
    e : length (build_record hs hdr_copy key texts) ≡ length (unsized_record hs hdr_copy key texts)
    e = length-image hs hdr_copy key texts flags fits

    w : hs ≤ length (unsized_record hs hdr_copy key texts)
    w = length-whole hs hdr_copy key texts flags fits

    k : rd_u16 (drop hs (build_record hs hdr_copy key texts ++ post)) ≡ length key
    k =
        ap rd_u16 (
          drop-append_le hs (build_record hs hdr_copy key texts) post (omega (arith, e, w))
          ∙ ap (λ (r : List ℕ). r ++ post) (drop-image hs hdr_copy key texts flags fits)
          ∙ append_assoc (prefixed key) (all_prefixed texts) post)
        ∙ head_length key (all_prefixed texts ++ post) t
