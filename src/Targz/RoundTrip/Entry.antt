-- ===== src/Targz/RoundTrip/Entry.antt =====
-- A whole file entry of the archive, from its header to its padding, read back.
use spangap_core.Base.{
  ℕ, ◌+◌, ◌%◌, ◌^◌, ◌<◌, ◌≡◌, ◌∙◌, refl, ap, sym, inl, inr, some, List, [], ◌++◌, Bool, true, false,
  Bool-cases, arith, ◌==◌, ==_iff, ==→ne, if◌then◌else◌, length, replicate, length-append,
  length-replicate, take-append, drop-append, drop-all, ne→==,
}
use spangap_core.Targz.Header.{Ustar, to_bytes, fill_header, seal_header}
use spangap_core.Targz.Header.Laws.{length-to_bytes, seal_header-HasWidths, fill_header-HasWidths}
use spangap_core.Targz.Names.{set_entry_name}
use spangap_core.Targz.Names.Keeps.{set_entry_name-HasWidths}
use spangap_core.Targz.RoundTrip.{IsEntryName, tar_header-add_file}
use spangap_core.Targz.Tar.{
  ok, tar_hdr, tar_data, tar_pad, Callbacks, Tar, pad_of, announce, open_entry, end_entry, hdr_step,
  data_step, pad_step, tar_step, after_round, tar_loop, tar_consume,
}
use spangap_core.Targz.Tar.Rounds.{with_rest, hdr_step-full, data_step-full, pad_step-full}
use spangap_core.Targz.Tar.Cut.{tar_loop_mono, tar_loop-nil, tar_loop-step}

module _ (cb : Callbacks) (r : Tar cb.Ctx) where
  -- The state after a file of `size` bytes, whose receiver ended in `ctx`.
  abbrev pub after_file : ℕ → cb.Ctx → Tar cb.Ctx
  after_file size ctx = record r {
    ctx = ctx;
    stage = tar_hdr;
    hdr = [];
    pending = 0;
    pad = 0;
    zero_blocks = 0;
    entries = (r.entries + 1) % 2 ^ 32;
    bytes = (r.bytes + size) % 2 ^ 64;
    in_file = false;
  }

  module _ (name body : List ℕ) (mtime : ℕ) (h : Ustar) (c1 c2 c3 : cb.Ctx) (n : IsEntryName name)
      (some_body : 0 < length body) (lt : length body < 2 ^ 32)
      (placed : set_entry_name (fill_header 48 (length body) mtime) name ≡ some h)
      (opened : cb.on_file r.ctx name (length body) ≡ (true, c1))
      (taken : cb.on_data c1 body ≡ (true, c2)) (ended : cb.on_file_end c2 ≡ (true, c3)) where
    abbrev in_body : Tar cb.Ctx
    in_body = record r {
      ctx = c1;
      stage = tar_data;
      hdr = [];
      pending = length body;
      pad = pad_of (length body);
      zero_blocks = 0;
      entries = (r.entries + 1) % 2 ^ 32;
      bytes = (r.bytes + length body) % 2 ^ 64;
      in_file = true;
    }

    announced :
        announce cb (record r { hdr = []; zero_blocks = 0 }) false name (length body)
        ≡ (ok, in_body)
    unfolding announce open_entry
    announced = rw (small, opened, ne→== (length body) 0 (λ e. omega (arith, e, some_body)))
      where
        small : length body % 2 ^ 32 ≡ length body
        small = omega (arith, lt)

    finished : end_entry cb (record in_body { ctx = c2; pending = 0 }) ≡ (
      ok,
      record (after_file (length body) c3) {
        stage = if pad_of (length body) == 0 then tar_hdr else tar_pad;
        pad = pad_of (length body);
      },
    )
    unfolding end_entry
    finished = rw ended

    abbrev block : List ℕ
    block = to_bytes (seal_header h)

    abbrev padding : List ℕ
    padding = replicate (pad_of (length body)) 0

    length-block : length block ≡ 512
    length-block = length-to_bytes (seal_header h) (
        seal_header-HasWidths h (
          set_entry_name-HasWidths (fill_header 48 (length body) mtime) h name
            (fill_header-HasWidths 48 (length body) mtime) placed))

    -- The three rounds that the entry takes.
    header_round :
        (rest : List ℕ) → r.hdr ≡ [] → hdr_step cb r (block ++ rest) ≡ (ok, in_body, rest)
    header_round rest empty =
        hdr_step-full cb r (block ++ rest) 512 (omega (arith, ap length empty))
          (omega (arith, length-append block rest, length-block))
        ∙ rw
            (
              empty,
              take-append 512 block rest (sym length-block),
              drop-append 512 block rest (sym length-block),
            )
            (ap (λ x. with_rest x rest)
              (tar_header-add_file cb (record r { hdr = [] }) name (length body) mtime h n lt placed
                ∙ announced))

    data_round :
        (rest : List ℕ)
        → data_step cb in_body (body ++ rest) ≡ (
          ok,
          record (after_file (length body) c3) {
            stage = if pad_of (length body) == 0 then tar_hdr else tar_pad;
            pad = pad_of (length body);
          },
          rest,
        )
    data_round rest =
        data_step-full cb in_body (body ++ rest) (omega (arith, length-append body rest))
          (rw (take-append (length body) body rest refl) (ap (λ (x : Bool × cb.Ctx). x.0) taken))
        ∙ rw
            (
              take-append (length body) body rest refl,
              drop-append (length body) body rest refl,
              taken,
            )
            (ap (λ x. with_rest x rest) finished)

    pad_round :
        0 < pad_of (length body)
        → pad_step cb
            (record (after_file (length body) c3) { stage = tar_pad; pad = pad_of (length body) })
            padding
          ≡ (ok, after_file (length body) c3, [])
    pad_round some_pad =
        pad_step-full cb _ padding
          (omega (arith, length-replicate {A = ℕ} (pad_of (length body)) 0))
        ∙ rw (
            drop-all (pad_of (length body)) padding
              (omega (arith, length-replicate {A = ℕ} (pad_of (length body)) 0)))

    -- The padding, if there is any, brings the parser back to a header.
    after_body :
        tar_loop cb 1
          (record (after_file (length body) c3) {
            stage = if pad_of (length body) == 0 then tar_hdr else tar_pad;
            pad = pad_of (length body);
          })
          padding
        ≡ some (ok, after_file (length body) c3)
    after_body = elim (Bool-cases (pad_of (length body) == 0)) [
      | inl full ↦ rw ((==_iff _ _).0 full) (tar_loop-nil cb 1 (after_file (length body) c3))
      | inr owed ↦ rw owed (
          tar_loop-step cb 0 _ padding tar_pad refl refl
            (omega (arith, length-replicate {A = ℕ} (pad_of (length body)) 0, ==→ne _ _ owed))
          ∙ unfold tar_step in
            (ap (after_round cb (tar_loop cb 0)) (pad_round (omega (arith, ==→ne _ _ owed)))
              ∙ tar_loop-nil cb 0 (after_file (length body) c3)))
    ]

    -- Take a path of bytes that `safeEntryName` accepts, without a NUL and without a slash at its
    -- end, and a body that is not empty and is below 2^32 bytes. If `setEntryName` places the path
    -- in a fresh file header with the length of the body as its size, and the receiver accepts the
    -- file, the body and its end, then `tarConsume`, at a header boundary, reads the sealed header
    -- block, the body and the padding of zeros as exactly one file of that path, size and content:
    -- it ends without an error, at a header boundary again, with one entry more and the body's
    -- length added to the bytes.
    pub tar_consume-entry :
        r.stage ≡ tar_hdr
        → r.hdr ≡ []
        → tar_consume cb r (block ++ (body ++ padding)) ≡ some (ok, after_file (length body) c3)
    unfolding tar_consume
    tar_consume-entry st empty =
        tar_loop_mono cb 3 _ r _ _
          (omega (arith, length-append block (body ++ padding), length-block))
          (tar_loop-step cb 2 r (block ++ (body ++ padding)) tar_hdr st refl
              (omega (arith, length-append block (body ++ padding), length-block))
            ∙ unfold tar_step in
              (ap (after_round cb (tar_loop cb 2)) (header_round (body ++ padding) empty)
                ∙ tar_loop-step cb 1 in_body (body ++ padding) tar_data refl refl
                    (omega (arith, length-append body padding, some_body))
                ∙ ap (after_round cb (tar_loop cb 1)) (data_round padding)
                ∙ after_body))
