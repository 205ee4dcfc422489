-- ===== src/Targz/Tests.antt =====
-- Concrete runs of the archive code, and the theorems at concrete inputs: a recording receiver, and a
-- compressor that stores.
use spangap_core.Base.{
  ℕ, ◌+◌, ◌≡◌, refl, sym, ap, ◌↔◌, true, false, some, List, [], ◌∷◌, ◌++◌, arith, if◌then◌else◌,
  leb, length, take, replicate, codes,
}
use spangap_core.Targz.Gzip.{GzHead, gz_fname, gz_extra, gz_deflate, gz_header}
use spangap_core.Targz.Gzip.Cut.{gz_header-cut, gz_resume}
use spangap_core.Targz.Reader.{
  Tinfl, Reader, wants_more, targz_reader_feed, feed_body, feed_run, hold_next, inflate_some,
  inflate_loop, inflate_turn, take_output, inflate_on, judge,
}
use spangap_core.Targz.Reader.Footer.{feeds, joined, Handed, feeds-Handed}
use spangap_core.Targz.Octal.{octal_field, octal_value}
use spangap_core.Targz.Header.{
  Ustar, fill_header, seal_header, to_bytes, of_bytes, header_checksum, overwrite,
}
use spangap_core.Targz.Header.Laws.{of_bytes-to_bytes, fill_header-HasWidths}
use spangap_core.Targz.Names.{set_entry_name, safe_entry_name, slash}
use spangap_core.Targz.Names.Safe.{safe_entry_name_iff, IsSafe}
use spangap_core.Targz.Tar.{
  Err, ok, tar_hdr, tar_data, Callbacks, Tar, tar_consume, tar_loop, tar_step, data_step,
  strip_slashes, pad_of,
}
use spangap_core.Targz.Tar.Progress.{IsReady, Consumed, tar_consume-Consumed}
use spangap_core.Targz.Tar.Chunks.{Agree}
use spangap_core.Targz.Tar.Bytewise.{ByteReceiver, on_bytes, by_bytes, tar_consume-cut}
use spangap_core.Targz.RoundTrip.{IsEntryName}
use spangap_core.Targz.RoundTrip.Entry.{after_file, tar_consume-entry}
use spangap_core.Targz.Writer.{
  Miniz, okay, done, W, writer_open, add_file, add_dir, write_data, writer_close, finish_entry,
  close_body, close_pad, write_zeros, zeros_loop, write_raw, deflate_run, deflate_turn, send_footer,
  write_header,
}
use spangap_core.Targz.Writer.Stream.{Documented, Succeeds}
use spangap_core.Targz.Writer.Sound.{
  IsLaid, Closed, writer_open-IsLaid, add_file-IsLaid, writer_close-Closed,
}

-- A receiver that records names, bodies and ends one after the other.
abbrev recorder : Callbacks
recorder = record {
  Ctx = List ℕ;
  on_dir = λ c name. (true, c ++ name);
  on_file = λ c name size. (true, c ++ (name ++ (size ∷ [])));
  on_data = λ c bytes. (true, c ++ bytes);
  on_file_end = λ c. (true, c ++ (10 ∷ []));
}

-- The same, taking a body byte by byte and refusing a byte over 250.
abbrev byte_recorder : ByteReceiver
byte_recorder = record {
  Ctx = List ℕ;
  on_dir = λ c name. (true, c ++ name);
  on_file = λ c name size. (true, c ++ (name ++ (size ∷ [])));
  on_byte = λ c x. (leb x 250, c ++ (x ∷ []));
  on_file_end = λ c. (true, c ++ (10 ∷ []));
}

abbrev start : Tar (List ℕ)
start = record {
  ctx = [];
  stage = tar_hdr;
  hdr = [];
  pending = 0;
  pad = 0;
  zero_blocks = 0;
  entries = 0;
  bytes = 0;
  in_file = false;
}

abbrev in_file : Tar (List ℕ)
in_file = record start { stage = tar_data; pending = 5; pad = 507; in_file = true }

start-IsReady : IsReady start
start-IsReady = record { room = omega arith; work = tt }

in_file-IsReady : IsReady in_file
in_file-IsReady = record { room = omega arith; work = omega arith }

-- A compressor that stores its input, and a checksum that adds.
abbrev sum : List ℕ → ℕ
sum [] = 0
sum (x ∷ xs) = x + sum xs

sum-append : (a b : List ℕ) → sum (a ++ b) ≡ sum a + sum b
sum-append [] b = omega arith
sum-append (x ∷ a) b = omega (arith, sum-append a b)

abbrev store : Miniz
store = record {
  Comp = List ℕ;
  Ctx = List ℕ;
  comp_init = [];
  compress = λ c input finish. record {
    status = if finish then done else okay;
    consumed = length input;
    produced = input;
    comp = c ++ input;
  };
  crc32 = λ c bytes. c + sum bytes;
  sink = λ c bytes. (true, c ++ bytes);
  rounds = λ c input. 1;
}

take_all : (s : List ℕ) → take (length s) s ≡ s
take_all [] = refl
take_all (c ∷ s) = ap (λ t. c ∷ t) (take_all s)

store-Documented : Documented store
store-Documented = record {
  fed = λ c. c;
  fed_init = refl;
  fed_compress = λ c input finish. ap (λ t. c ++ t) (sym (take_all input));
  crc_append = λ c a b. omega (arith, sum-append a b);
  crc_nil = λ c. omega arith;
}

octal_644 : octal_value (octal_field 8 420) ≡ 420
unfolding octal_value octal_field
octal_644 = refl

abbrev a_b : List ℕ
a_b = codes "a/b"

abbrev fresh : Ustar
fresh = fill_header 48 3 7

abbrev fresh_named : Ustar
fresh_named = record fresh { name = overwrite fresh.name a_b }

placed : set_entry_name fresh a_b ≡ some fresh_named
unfolding set_entry_name
placed = refl

safe_entry_name_iff_example : (safe_entry_name a_b ≡ true) ↔ IsSafe a_b
safe_entry_name_iff_example = safe_entry_name_iff a_b

a_b-IsEntryName : IsEntryName a_b
unfolding safe_entry_name strip_slashes
a_b-IsEntryName = record {
  no_nul = ((λ e. omega (arith, e)), ((λ e. omega (arith, e)), ((λ e. omega (arith, e)), tt)));
  are_bytes = omega arith;
  is_safe = refl;
  unslashed = refl;
}

climbing : safe_entry_name (codes "a/../b") ≡ false
unfolding safe_entry_name
climbing = refl

of_bytes-to_bytes_example : of_bytes (to_bytes fresh) ≡ fresh
of_bytes-to_bytes_example = of_bytes-to_bytes fresh (fill_header-HasWidths 48 3 7)

tar_consume-Consumed_example : Consumed recorder (tar_consume recorder in_file (1 ∷ 2 ∷ []))
tar_consume-Consumed_example = tar_consume-Consumed recorder in_file (1 ∷ 2 ∷ []) in_file-IsReady

abbrev first_half : Tar (List ℕ)
first_half = record in_file { ctx = 1 ∷ 2 ∷ []; pending = 3 }

abbrev second_half : Tar (List ℕ)
second_half = record in_file { ctx = 1 ∷ 2 ∷ 3 ∷ []; pending = 2 }

first_run : tar_consume (by_bytes byte_recorder) in_file (1 ∷ 2 ∷ []) ≡ some (ok, first_half)
unfolding tar_consume tar_loop tar_step data_step on_bytes
first_run = refl

second_run : tar_consume (by_bytes byte_recorder) first_half (3 ∷ []) ≡ some (ok, second_half)
unfolding tar_consume tar_loop tar_step data_step on_bytes
second_run = refl

tar_consume-cut_example :
    (whole : Err × Tar (List ℕ)) × (tar_consume (by_bytes byte_recorder) in_file (1 ∷ 2 ∷ 3 ∷ [])
      ≡ some whole)
    × Agree whole (ok, second_half)
tar_consume-cut_example =
    tar_consume-cut byte_recorder in_file first_half (1 ∷ 2 ∷ []) (3 ∷ []) (ok, second_half)
      in_file-IsReady (omega arith) first_run second_run

abbrev body3 : List ℕ
body3 = 1 ∷ 2 ∷ 3 ∷ []

tar_consume-entry_example :
    tar_consume recorder start
      (to_bytes (seal_header fresh_named) ++ (body3 ++ replicate (pad_of 3) 0))
    ≡ some (ok, after_file recorder start 3 (a_b ++ (3 ∷ 1 ∷ 2 ∷ 3 ∷ 10 ∷ [])))
tar_consume-entry_example =
    tar_consume-entry recorder start a_b body3 7 fresh_named (a_b ++ (3 ∷ []))
      (a_b ++ (3 ∷ 1 ∷ 2 ∷ 3 ∷ [])) (a_b ++ (3 ∷ 1 ∷ 2 ∷ 3 ∷ 10 ∷ [])) a_b-IsEntryName (omega arith)
      (omega arith) placed refl refl refl refl refl

abbrev dir_named : Ustar
dir_named = record (fill_header 53 0 7) {
  name = overwrite (fill_header 53 0 7).name (a_b ++ (slash ∷ []));
}

abbrev new_writer : W store
new_writer = record {
  ctx = 0x1f ∷ 0x8b ∷ 8 ∷ 0 ∷ 0 ∷ 0 ∷ 0 ∷ 0 ∷ 0 ∷ 0xff ∷ [];
  comp = [];
  crc = 0;
  raw_len = 0;
  pending = 0;
  pad = 0;
  is_ok = true;
}

opens : writer_open store true [] ≡ some new_writer
unfolding writer_open
opens = refl

new_writer-IsLaid : IsLaid store store-Documented new_writer
new_writer-IsLaid = writer_open-IsLaid store store-Documented true [] new_writer opens

abbrev with_file : W store
with_file = (add_file store new_writer a_b 3 7).1

abbrev with_data : W store
with_data = (write_data store with_file (1 ∷ 2 ∷ [])).1

adds_file : Succeeds (add_file store new_writer a_b 3 7) with_file
unfolding add_file finish_entry close_body close_pad write_header write_raw deflate_run deflate_turn
    set_entry_name fill_header seal_header to_bytes octal_field header_checksum
adds_file = refl

adds_data : Succeeds (write_data store with_file (1 ∷ 2 ∷ [])) with_data
unfolding add_file write_data finish_entry close_body close_pad write_header write_raw deflate_run
    deflate_turn set_entry_name fill_header seal_header to_bytes octal_field header_checksum
adds_data = refl

add_file-IsLaid_example : IsLaid store store-Documented with_file
add_file-IsLaid_example =
    add_file-IsLaid store store-Documented new_writer with_file a_b 3 7 new_writer-IsLaid adds_file

adds_dir : Succeeds (add_dir store new_writer a_b 7) (add_dir store new_writer a_b 7).1
unfolding add_dir finish_entry close_body close_pad write_header write_raw deflate_run deflate_turn
    set_entry_name fill_header seal_header to_bytes octal_field header_checksum
adds_dir = refl

writer_close-Closed_example :
    Closed store store-Documented new_writer (writer_close store new_writer).1
unfolding writer_close finish_entry close_body close_pad write_zeros zeros_loop write_raw
    deflate_run deflate_turn send_footer
writer_close-Closed_example =
    writer_close-Closed store store-Documented new_writer (writer_close store new_writer).1
      new_writer-IsLaid refl

-- A head in which a file name is read, and another in its extra field.
abbrev in_name : GzHead
in_name = record { gz = gz_fname; buf = []; have = 0; flags = 8; extra_left = 0 }

abbrev in_extra_field : GzHead
in_extra_field = record { gz = gz_extra; buf = []; have = 0; flags = 12; extra_left = 3 }

gz_header-cut_example :
    gz_header in_extra_field ((1 ∷ 2 ∷ []) ++ (3 ∷ 65 ∷ 0 ∷ 9 ∷ []))
    ≡ gz_resume (gz_header in_extra_field (1 ∷ 2 ∷ [])) (3 ∷ 65 ∷ 0 ∷ 9 ∷ [])
gz_header-cut_example =
    gz_header-cut in_extra_field (1 ∷ 2 ∷ []) (3 ∷ 65 ∷ 0 ∷ 9 ∷ []) (omega arith)

-- A decompressor that takes every run whole and puts nothing out.
abbrev swallow : Tinfl
swallow = record {
  D = ℕ;
  inf_init = 0;
  decompress = λ d input room final. record {
    status = wants_more;
    taken = length input;
    output = [];
    inf = d + length input;
  };
  crc32 = λ crc out. crc;
  rounds = λ d input. 2;
}

abbrev in_body : Reader ℕ (List ℕ)
in_body = record {
  inf = 0;
  dict_ofs = 0;
  head = record in_name { gz = gz_deflate };
  hold = 7 ∷ 7 ∷ [];
  crc = 0;
  raw_len = 0;
  tar = start;
  err = ok;
}

abbrev runs : List (List ℕ)
runs = (1 ∷ 2 ∷ 3 ∷ 4 ∷ 5 ∷ []) ∷ (6 ∷ 7 ∷ 8 ∷ 9 ∷ 10 ∷ []) ∷ []

feeds-Handed_example :
    Handed swallow recorder in_body
      (in_body.hold ++ joined runs)
      (feeds swallow recorder in_body runs)
unfolding feeds targz_reader_feed feed_body feed_run hold_next inflate_some inflate_loop
    inflate_turn take_output inflate_on judge
feeds-Handed_example = feeds-Handed swallow recorder in_body runs (refl, omega arith) refl
