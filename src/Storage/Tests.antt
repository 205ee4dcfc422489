-- ===== src/Storage/Tests.antt =====
-- Runs of the definitions about esp-idf/src/storage.cpp.
use spangap_core.Base.{
  ℕ, ◌≡◌, refl, true, false, not, ◌&&◌, Option, none, some, List, [], ◌∷◌, arith, codes,
}
use spangap_core.StorageDb.Words.{rd_u32, wr_u32}
use spangap_core.Storage.Ops.{
  int, str, TreeOp, set_op, save_op, put_value, op_append, take_key, take_word, until_nul, take_run,
  take_value, take_write, take_op, take_ops, parse_ops, append_all,
}
use spangap_core.Storage.Ops.RoundTrip.{parse_ops-append_all}
use spangap_core.Storage.Subs.{Sub, sub_reap, sub_remove, is_removed, is_dead, sweep_rows, sub_drop}
use spangap_core.Storage.Subs.Sweep.{count, sub_remove-count}

abbrev some_ops : List TreeOp
some_ops =
    set_op (codes "s.a") (int 4294967295) ∷ set_op (codes "b") (str (codes "hi")) ∷ save_op 7 ∷ []

parse_ops-append_all_example : parse_ops (0 ∷ append_all some_ops) ≡ some (false, some_ops)
unfolding append_all op_append put_value wr_u32
parse_ops-append_all_example =
    parse_ops-append_all 0 some_ops
      (
        (
          ((λ h. omega (arith, h)), ((λ h. omega (arith, h)), ((λ h. omega (arith, h)), _))),
          omega arith,
        ),
        (
          (((λ h. omega (arith, h)), _), ((λ h. omega (arith, h)), ((λ h. omega (arith, h)), _))),
          (omega arith, _),
        ),
      )
      (omega arith)

-- A string whose length reaches past the end of the list by almost 4 GB is not rejected.
long_length_accepted :
    parse_ops (0 ∷ 83 ∷ 97 ∷ 0 ∷ 83 ∷ 255 ∷ 255 ∷ 255 ∷ 255 ∷ 120 ∷ [])
    ≡ some (false, set_op (97 ∷ []) (str (120 ∷ [])) ∷ [])
unfolding parse_ops take_ops take_op take_write take_key take_value take_run take_word until_nul
    rd_u32
long_length_accepted = refl

-- One whose length reaches past the end by a byte is.
short_length_rejected : parse_ops (0 ∷ 83 ∷ 97 ∷ 0 ∷ 83 ∷ 2 ∷ 0 ∷ 0 ∷ 0 ∷ 120 ∷ []) ≡ none
unfolding parse_ops take_ops take_op take_write take_key take_value take_run take_word until_nul
    rd_u32
short_length_rejected = refl

abbrev row : ℕ → Option ℕ → Sub
row cb task = record { task = task; cb = some cb; scope = codes "s.x"; direct = false }

abbrev four_rows : List Sub
four_rows = row 1 (some 9) ∷ row 2 none ∷ row 3 (some 9) ∷ row 4 (some 8) ∷ []

sub_remove-count_example :
    (count (λ s. true) (sub_remove four_rows (some 9) none none)
      ≡ count (λ s. true && not (is_removed (some 9) none none s)) four_rows)
    × (count (λ s. true) (sub_reap four_rows) ≡ count (λ s. true && not (is_dead s)) four_rows)
sub_remove-count_example = sub_remove-count four_rows (some 9) none none (λ s. true)

rows_left : sub_remove four_rows (some 9) none none ≡ row 4 (some 8) ∷ row 2 none ∷ []
unfolding sub_remove sweep_rows sub_drop is_removed
rows_left = refl
