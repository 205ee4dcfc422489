-- ===== src/Auth/Tests.antt =====
-- Concrete runs of auth: a tree of two realms, a digest of sevens.
use spangap_core.Base.{
  ◌>>=◌, ℕ, zero, suc, ◌+◌, ◌*◌, ◌<◌, min, ◌≡◌, refl, ◌↔◌, inl, Bool, true, false, Option, none,
  some, List, [], ◌∷◌, arith, ◌==◌, if◌then◌else◌, eq→==, replicate, All, codes, eq_bytes,
}
use spangap_core.StorageDb.Hex.{hex_nib}
use spangap_core.Auth.{
  Env, Key, realm_name, realm_hash, cookie_token, cookie_expires, cookie_realm, enable, nibble,
  verify_password,
}
use spangap_core.Auth.Password.{ScansHex}
use spangap_core.Auth.Realms.{
  auth_ok, wrong_password, is_usable, hash_of, realm_find, find_loop, realm_get, is_named,
  is_shared, shared_loop, auth_force_set_password,
}
use spangap_core.Auth.Realms.Stored.{Documented, auth_force_set_password-verifies}
use spangap_core.Auth.Backoff.{Backoff, delay_sec, delay_loop, is_rate_limited}
use spangap_core.Auth.Backoff.Bounds.{doubled, elapsed, is_rate_limited_iff}
use spangap_core.Auth.Login.{Moment, auth_login}
use spangap_core.Auth.Login.Refused.{Refuses, auth_login-refused}

abbrev same_key : Key → Key → Bool
same_key (realm_name i) (realm_name j) = i == j
same_key (realm_hash i) (realm_hash j) = i == j
same_key (cookie_token i) (cookie_token j) = i == j
same_key (cookie_expires i) (cookie_expires j) = i == j
same_key (cookie_realm i) (cookie_realm j) = i == j
same_key enable enable = true
same_key _ _ = false

same_key_refl : (k : Key) → same_key k k ≡ true
same_key_refl (realm_name i) = eq→== i i refl
same_key_refl (realm_hash i) = eq→== i i refl
same_key_refl (cookie_token i) = eq→== i i refl
same_key_refl (cookie_expires i) = eq→== i i refl
same_key_refl (cookie_realm i) = eq→== i i refl
same_key_refl enable = refl

abbrev scan : List ℕ → Option ℕ
scan [] = none
scan (a ∷ []) = none
scan (a ∷ b ∷ rest) = do x ← hex_nib a; y ← hex_nib b; some (16 * x + y)

abbrev write : (Key → List ℕ) → Key → List ℕ → Key → List ℕ
write t k v j = if same_key k j then v else t j

abbrev board : Env
board = record {
  T = Key → List ℕ;
  get_str = λ t k. t k;
  get_int = λ t k d. d;
  set_str = write;
  unset = λ t k. write t k [];
  realm_count = λ t. 2;
  cookie_count = λ t. 0;
  sha256 = λ x. replicate 32 7;
  scan_hex = scan;
}

hex_nib-nibble : (n : ℕ) → n < 16 → hex_nib (nibble n) ≡ some n
unfolding hex_nib
hex_nib-nibble n h = ground arith

board-ScansHex : ScansHex board
board-ScansHex a b rest ha hb = rw (hex_nib-nibble a ha, hex_nib-nibble b hb) refl

board-Documented : Documented board
board-Documented = record {
  reads_back = λ t k v. rw (same_key_refl k) refl;
  digest_size = λ x. refl;
  scans = board-ScansHex;
}

abbrev salt : List ℕ
salt = replicate 16 9

all_nines : (n : ℕ) → All (λ b. b < 256) (replicate n 9)
all_nines zero = record {}
all_nines (suc n) = (omega arith, all_nines n)

salt_bytes : All (λ b. b < 256) salt
salt_bytes = all_nines 16

-- Realms admin, unset, and guest, locked.
abbrev two_realms : Key → List ℕ
two_realms (realm_name i) = if i == 0 then codes "admin" else codes "guest"
two_realms (realm_hash i) = if i == 0 then [] else codes "--"
two_realms _ = []

auth_force_set_password-verifies_example :
    ((auth_force_set_password board two_realms salt (codes "admin") (codes "pw")).0 ≡ auth_ok)
    × (is_usable (
          hash_of board
            (auth_force_set_password board two_realms salt (codes "admin") (codes "pw")).1
            0)
        ≡ true)
    × (verify_password board (codes "pw") (
          hash_of board
            (auth_force_set_password board two_realms salt (codes "admin") (codes "pw")).1
            0)
        ≡ true)
unfolding realm_find find_loop realm_get is_named is_shared shared_loop eq_bytes
auth_force_set_password-verifies_example =
    auth_force_set_password-verifies board board-Documented two_realms salt (codes "admin")
      (codes "pw") refl 0 salt_bytes refl refl refl

abbrev three_failures : Backoff
three_failures = record { last_fail_ms = 4294967000; fail_count = 3 }

is_rate_limited_iff_example :
    (is_rate_limited three_failures 3000 ≡ true)
    ↔ (elapsed three_failures 3000 < min (doubled 2 1) 300 * 1000)
is_rate_limited_iff_example = is_rate_limited_iff three_failures 3000 2 refl

abbrev later : Moment
later = record { now = 1750000000; millis = 9000; random = salt }

none_opens : (i : ℕ) → i < 2 → Refuses board two_realms (codes "pw") i
unfolding eq_bytes
none_opens zero l = inl refl
none_opens (suc zero) l = inl refl
none_opens (suc (suc i)) l = ground arith

auth_login-refused_example :
    auth_login board later (codes "pw") [] two_realms three_failures ≡ record {
      err = wrong_password;
      tree = two_realms;
      backoff = record { last_fail_ms = 9000; fail_count = 3 + 1 };
      session = none;
    }
unfolding is_rate_limited delay_sec delay_loop
auth_login-refused_example =
    auth_login-refused board two_realms (codes "pw") later [] three_failures refl none_opens
