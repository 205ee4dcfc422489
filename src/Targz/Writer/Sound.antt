-- ===== src/Targz/Writer/Sound.antt =====
-- Every operation of the writer keeps the archive well laid out, and closing it ends it as tar and gzip
-- want it.
use spangap_core.Base.{
  ℕ, suc, ◌+◌, ◌-◌, ◌*◌, ◌%◌, ◌^◌, ◌<◌, ◌≡◌, ◌∙◌, refl, ap, sym, subst, inl, inr, ◌⊎◌, Option, none,
  some, List, [], ◌∷◌, ◌++◌, Bool, true, false, Bool-cases, arith, leb, ◌==◌, if◌then◌else◌, length,
  take, replicate, length-append, length-take, length-replicate, append_assoc, append-nil, ==_iff,
  min, some-inj, ==→ne,
}
use mathlib.Core.Path.{ap₂}
use spangap_core.Targz.Header.{Ustar, HasWidths, fill_header, seal_header, to_bytes, tar_block}
use spangap_core.Targz.Header.Laws.{length-to_bytes, seal_header-HasWidths, fill_header-HasWidths}
use spangap_core.Targz.Names.{slash, set_entry_name}
use spangap_core.Targz.Names.Keeps.{set_entry_name-HasWidths}
use spangap_core.Targz.Tar.{pad_of}
use spangap_core.Targz.Writer.{
  Miniz, W, and_then, close_pad, finish_entry, dir_header, add_dir, add_file, write_data,
  writer_close, send_footer, footer, le32, write_raw, write_zeros, deflate_run, writer_open,
}
use spangap_core.Targz.Writer.Stream.{
  Documented, Succeeds, and_then-inv, ok_guard, deflate_drain-Took,
}
use spangap_core.Targz.Writer.Archive.{write_raw-Wrote, write_zeros-Wrote}
use spangap_core.Targz.Writer.Layout.{
  Adds, Adds-Wrote, Adds-trans, finish_entry-Adds, close_pad-Adds, header_bytes, owed,
  add_file-Adds, add_dir-Adds, zeros_sum,
}

-- A header block has 512 bytes; a skipped entry none.
length-header_bytes :
    (t size mtime : ℕ) (name : List ℕ)
    → length (header_bytes (set_entry_name (fill_header t size mtime) name)) % 512 ≡ 0
length-header_bytes t size mtime name = go (set_entry_name (fill_header t size mtime) name) (λ h e.
    set_entry_name-HasWidths (fill_header t size mtime) h name (fill_header-HasWidths t size mtime)
      e)
  where
    go :
        (o : Option Ustar)
        → ((h : Ustar) → o ≡ some h → HasWidths h)
        → length (header_bytes o) % 512 ≡ 0
    go none v = refl
    go (some h) v =
        omega (arith, length-to_bytes (seal_header h) (seal_header-HasWidths h (v h refl)))

module _ (m : Miniz) (d : Documented m) where
  open m use {crc32}
  open d use {fed}

  -- The length and the CRC of the footer tell of what the compressor has taken, and what an open entry
  -- owes reaches to a block boundary.
  pub record IsLaid (w : W m) : Type 0 where
    pub counted : w.raw_len % 2 ^ 64 ≡ length (fed w.comp) % 2 ^ 64
    pub summed : w.crc ≡ crc32 0 (fed w.comp)
    pub aligned : (length (fed w.comp) + w.pending + w.pad) % 512 ≡ 0

  Adds-IsLaid :
      (w w' : W m) (bytes : List ℕ) (body padding : ℕ)
      → IsLaid w
      → Adds m d w w' bytes body padding
      → (length (fed w.comp) + length bytes + body + padding) % 512 ≡ 0
      → IsLaid w'
  Adds-IsLaid w w' bytes body padding v t h =
      let len : length (fed w'.comp) ≡ length (fed w.comp) + length bytes =
        ap length t.taken ∙ length-append (fed w.comp) bytes in
      record {
        counted = omega (arith, len, v.counted, t.raw_len);
        summed =
            t.crc
            ∙ ap (λ c. crc32 c bytes) v.summed
            ∙ d.crc_append 0 (fed w.comp) bytes
            ∙ sym (ap (crc32 0) t.taken);
        aligned = omega (arith, len, t.pending, t.pad, h);
      }

  -- A new writer is well laid out.
  pub writer_open-IsLaid :
      (memory : Bool) (ctx : m.Ctx) (w : W m) → writer_open m memory ctx ≡ some w → IsLaid w
  unfolding writer_open
  writer_open-IsLaid false ctx w h = cc
  writer_open-IsLaid true ctx w h =
      elim (Bool-cases (m.sink ctx (0x1f ∷ 0x8b ∷ 8 ∷ 0 ∷ 0 ∷ 0 ∷ 0 ∷ 0 ∷ 0 ∷ 0xff ∷ [])).0) [
        | inr refused ↦ cc (rw refused at h)
        | inl sent ↦ subst IsLaid (some-inj (rw sent at h)) (record {
          counted = ap (λ s. length s % 2 ^ 64) (sym d.fed_init);
          summed = sym (ap (crc32 0) d.fed_init ∙ d.crc_nil 0);
          aligned = ap (λ s. (length s + 0 + 0) % 512) d.fed_init;
        })
      ]

  -- A call that adds a file and succeeds keeps the archive well laid out: the running length, the
  -- running CRC and the block alignment are those of what the compressor has taken. So it does when it
  -- skips the file because its name does not fit.
  pub add_file-IsLaid :
      (w w' : W m) (name : List ℕ) (size mtime : ℕ)
      → IsLaid w
      → Succeeds (add_file m w name size mtime) w'
      → IsLaid w'
  add_file-IsLaid w w' name size mtime v h =
      Adds-IsLaid w w' _ _ _ v (add_file-Adds m d w w' name size mtime h) (
        room (set_entry_name (fill_header 48 size mtime) name)
          (length-header_bytes 48 size mtime name))
    where
      room :
          (o : Option Ustar)
          → length (header_bytes o) % 512 ≡ 0
          → (length (fed w.comp)
                + length (replicate (w.pending + w.pad) 0 ++ header_bytes o)
                + owed o size
                + owed o (pad_of size))
              % 512
            ≡ 0
      room none e = omega (
        arith,
        v.aligned,
        length-append {A = ℕ} (replicate (w.pending + w.pad) 0) [],
        length-replicate {A = ℕ} (w.pending + w.pad) 0,
      )
      room (some hd) e = omega (
        arith,
        e,
        v.aligned,
        length-append {A = ℕ} (replicate (w.pending + w.pad) 0) (to_bytes (seal_header hd)),
        length-replicate {A = ℕ} (w.pending + w.pad) 0,
      )

  -- A call that adds a directory and succeeds keeps the archive well laid out, also when it skips it.
  pub add_dir-IsLaid :
      (w w' : W m) (name : List ℕ) (mtime : ℕ)
      → IsLaid w
      → Succeeds (add_dir m w name mtime) w'
      → IsLaid w'
  add_dir-IsLaid w w' name mtime v h =
      Adds-IsLaid w w' _ 0 0 v (add_dir-Adds m d w w' name mtime h) (
        omega (
          arith,
          v.aligned,
          blocks,
          length-append {A = ℕ} (replicate (w.pending + w.pad) 0) header,
          length-replicate {A = ℕ} (w.pending + w.pad) 0,
        ))
    where
      header : List ℕ
      header = header_bytes (dir_header m name mtime)

      blocks : length header % 512 ≡ 0
      blocks = elim (Bool-cases (leb 256 (length name + 1))) [
        | inl long ↦ rw long
        | inr fits ↦ rw fits (length-header_bytes 53 0 mtime (name ++ (slash ∷ [])))
      ]

  -- Body bytes go out as far as the entry owes them, the padding follows the last of them.
  pub write_data-Adds :
      (w w' : W m) (input : List ℕ)
      → Succeeds (write_data m w input) w'
      → let n = min w.pending (length input) in
        (Adds m d w w' (take w.pending input) (w.pending - n) w.pad × (n < w.pending))
        ⊎ (Adds m d w w' (take w.pending input ++ replicate w.pad 0) 0 0 × (n ≡ w.pending))
  unfolding write_data
  write_data-Adds w w' input h =
      let (w1, first, rest) =
        and_then-inv (write_raw m w (take w.pending input))
          (λ x.
            let y = record x { pending = x.pending - length (take w.pending input) } in
            if y.pending == 0 then close_pad m y else (true, y))
          (ok_guard w.is_ok w _ h).1 in
      let t = write_raw-Wrote m d w w1 (take w.pending input) first in
      let left = w1.pending - length (take w.pending input) in
      let same : left ≡ w.pending - min w.pending (length input) =
        omega (arith, t.pending, length-take w.pending input) in
      let w2 = record w1 { pending = left } in
      let s : Adds m d w w2 (take w.pending input) left w.pad = record {
        taken = t.taken;
        crc = t.crc;
        raw_len = t.raw_len;
        pending = refl;
        pad = t.pad;
      } in
      elim (Bool-cases (left == 0)) [
        | inl complete ↦ inr (
          Adds-trans m d w w2 w' (take w.pending input) (replicate w.pad 0) left w.pad 0 0 s (
              subst (λ (k : ℕ). Adds m d w2 w' (replicate w.pad 0) k 0) ((==_iff left 0).0 complete)
                (subst (λ (k : ℕ). Adds m d w2 w' (replicate k 0) left 0) t.pad
                  (close_pad-Adds m d w2 w' (rw complete at rest)))),
          omega (arith, same, (==_iff left 0).0 complete),
        )
        | inr open_body ↦ inl (
          subst (λ (k : ℕ). Adds m d w w' (take w.pending input) k w.pad) same
              (subst (λ x. Adds m d w x (take w.pending input) left w.pad)
                (ap (λ (x : Bool × W m). x.1) (rw open_body at rest)) s),
          omega (arith, same, ==→ne left 0 open_body),
        )
      ]

  -- A call that writes body bytes and succeeds keeps the archive well laid out, whether it gets fewer
  -- bytes than the entry owes, as many, or more.
  pub write_data-IsLaid :
      (w w' : W m) (input : List ℕ) → IsLaid w → Succeeds (write_data m w input) w' → IsLaid w'
  write_data-IsLaid w w' input v h = elim (write_data-Adds w w' input h) [
    | inl (t, short) ↦
        Adds-IsLaid w w' _ _ _ v t (omega (arith, v.aligned, length-take w.pending input, short))
    | inr (t, full) ↦ Adds-IsLaid w w' _ _ _ v t (
        omega (
          arith,
          v.aligned,
          length-take w.pending input,
          full,
          length-append (take w.pending input) (replicate w.pad 0),
          length-replicate {A = ℕ} w.pad 0,
        ))
  ]

  -- How a successful close ends the archive: the open entry is completed, two zero blocks follow, the
  -- whole is a number of blocks, and the last eight bytes that the sink takes are the CRC of the whole
  -- and its length modulo 2 ^ 32.
  pub record Closed (w w' : W m) : Type 0 where
    pub taken : fed w'.comp ≡ fed w.comp ++ replicate (w.pending + w.pad + 1024) 0
    pub blocks : length (fed w'.comp) % 512 ≡ 0
    pub before : m.Ctx
    pub trailer :
        m.sink before (le32 (crc32 0 (fed w'.comp)) ++ le32 (length (fed w'.comp) % 2 ^ 32))
        ≡ (true, w'.ctx)

  pair_eq : (p : Bool × m.Ctx) (c : m.Ctx) → p.0 ≡ true → p.1 ≡ c → p ≡ (true, c)
  pair_eq (b, x) c e h = λ i. (e i, h i)

  send_footer-Closed :
      (w w3 w' : W m)
      → fed w3.comp ≡ fed w.comp ++ replicate (w.pending + w.pad + 1024) 0
      → IsLaid w3
      → w3.pending ≡ 0
      → w3.pad ≡ 0
      → Succeeds (send_footer m w3) w'
      → Closed w w'
  unfolding send_footer
  send_footer-Closed w w3 w' t v e0 e1 h = record {
    taken = subst (λ x. fed x.comp ≡ fed w.comp ++ replicate (w.pending + w.pad + 1024) 0) there t;
    blocks = subst (λ x. length (fed x.comp) % 512 ≡ 0) there (omega (arith, v.aligned, e0, e1));
    before = w3.ctx;
    trailer =
        subst
          (λ x.
            m.sink w3.ctx (le32 (crc32 0 (fed x.comp)) ++ le32 (length (fed x.comp) % 2 ^ 32))
            ≡ (true, x.ctx))
          there
          (ap₂ (λ c (n : ℕ). m.sink w3.ctx (le32 c ++ le32 n)) (sym v.summed) low
            ∙ pair_eq (m.sink w3.ctx (footer m w3)) _ (ap (λ (x : Bool × W m). x.0) h) refl);
  }
    where
      there : record w3 { ctx = (m.sink w3.ctx (footer m w3)).1 } ≡ w'
      there = ap (λ (x : Bool × W m). x.1) h

      low : length (fed w3.comp) % 2 ^ 32 ≡ w3.raw_len % 2 ^ 32
      low = omega (arith, v.counted)

  -- Closing a well laid out archive, when it succeeds, ends it so.
  pub writer_close-Closed : (w w' : W m) → IsLaid w → Succeeds (writer_close m w) w' → Closed w w'
  unfolding writer_close
  writer_close-Closed w w' v h =
      let (w1, first, rest1) =
        and_then-inv (finish_entry m w)
          (λ w1.
            and_then (write_zeros m w1 (2 * tar_block)) (λ w2.
              and_then (deflate_run m (suc (m.rounds w2.comp [])) w2 [] true) (send_footer m)))
          (ok_guard w.is_ok w _ h).1 in
      let (w2, second, rest2) =
        and_then-inv (write_zeros m w1 (2 * tar_block))
          (λ w2. and_then (deflate_run m (suc (m.rounds w2.comp [])) w2 [] true) (send_footer m))
          rest1 in
      let (w3, third, last) =
        and_then-inv (deflate_run m (suc (m.rounds w2.comp [])) w2 [] true) (send_footer m) rest2 in
      let s1 = finish_entry-Adds m d w w1 first in
      let s2 = Adds-Wrote m d w1 w2 _ (write_zeros-Wrote m d w1 w2 1024 second) in
      let s3 = deflate_drain-Took m d _ w2 w3 third in
      let v1 =
        Adds-IsLaid w w1 _ 0 0 v s1
          (omega (arith, v.aligned, length-replicate {A = ℕ} (w.pending + w.pad) 0)) in
      let v2 =
        Adds-IsLaid w1 w2 _ _ _ v1 s2
          (omega (arith, v1.aligned, length-replicate {A = ℕ} 1024 0)) in
      let drained : fed w3.comp ≡ fed w2.comp = s3.taken ∙ append-nil _ in
      send_footer-Closed w w3 w'
        (drained
          ∙ s2.taken
          ∙ ap (λ x. x ++ replicate 1024 0) s1.taken
          ∙ append_assoc (fed w.comp) (replicate (w.pending + w.pad) 0) (replicate 1024 0)
          ∙ ap (λ x. fed w.comp ++ x) (zeros_sum (w.pending + w.pad) 1024))
        (record {
          counted =
              ap (λ (n : ℕ). n % 2 ^ 64) s3.raw_len
              ∙ v2.counted
              ∙ ap (λ x. length x % 2 ^ 64) (sym drained);
          summed = s3.crc ∙ v2.summed ∙ ap (crc32 0) (sym drained);
          aligned = omega (arith, v2.aligned, s3.pending, s3.pad, ap length drained);
        })
        (s3.pending ∙ s2.pending ∙ s1.pending) (s3.pad ∙ s2.pad ∙ s1.pad) last
