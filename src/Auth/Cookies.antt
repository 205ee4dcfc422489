-- ===== src/Auth/Cookies.antt =====
-- Cookies in esp-idf/src/auth.cpp: cookieRemove, cookieAdd, the sweep of authInit, authLogout and authCheck.
-- A copy into a buffer is cut to leave a NUL; cookieRemove is called with an index below the count. Times
-- are seconds from 1970 on.
use spangap_core.Base.{
  ℕ, zero, suc, ◌+◌, ◌-◌, min, Bool, true, false, ◌&&◌, ◌||◌, Option, none, some, List, [], ◌∷◌,
  ltb, leb, ◌==◌, if◌then◌else◌, take, eq_bytes,
}
use spangap_core.Base.Int.{ℤ, pos, negsuc, ltb_ℤ}
use spangap_core.Base.Decimal.{atoi, decimal_loop}
use spangap_core.Auth.{Env, Key, cookie_token, cookie_expires, cookie_realm}

abbrev pub max_cookies : ℕ
max_cookies = 16

-- A time that the clock can show once it is set.
abbrev pub valid_time : ℕ
valid_time = 1700000000

-- strtoll(s, nullptr, 10): 64 bits, at the ends of which it stops.
unfoldable pub clamp : ℤ → ℤ
clamp (pos n) = pos (min n 9223372036854775807)
clamp (negsuc n) = negsuc (min n 9223372036854775807)

unfoldable pub strtoll : List ℕ → ℤ
strtoll s = clamp (atoi s)

-- "%lld" of a time, which has at most nineteen digits.
abbrev pub print_time : ℕ → List ℕ
print_time n = decimal_loop 18 n

abbrev pub is_zero : ℤ → Bool
is_zero (pos n) = n == 0
is_zero (negsuc n) = false

module _ (e : Env) where
  abbrev pub cut_str : ℕ → e.T → Key → List ℕ
  cut_str size t key = take (size - 1) (e.get_str t key)

  abbrev pub copy_key : Key → Key → e.T → e.T
  copy_key src dst t = e.set_str t dst (cut_str 128 t src)

  unfoldable pub copy_down : ℕ → e.T → e.T
  copy_down i t = copy_key (cookie_realm (i + 1)) (cookie_realm i) (
      copy_key (cookie_expires (i + 1)) (cookie_expires i)
        (copy_key (cookie_token (i + 1)) (cookie_token i) t))

  unfoldable pub shift_loop : ℕ → ℕ → e.T → e.T
  shift_loop zero i t = t
  shift_loop (suc left) i t = shift_loop left (suc i) (copy_down i t)

  unfoldable pub unset_cookie : ℕ → e.T → e.T
  unset_cookie i t =
      e.unset (e.unset (e.unset t (cookie_token i)) (cookie_expires i)) (cookie_realm i)

  unfoldable pub cookie_remove : ℕ → e.T → e.T
  cookie_remove idx t =
      let count = e.cookie_count t in unset_cookie (count - 1) (shift_loop (count - 1 - idx) idx t)

  -- The time at which a cookie expires, as read into a buffer of so many bytes.
  abbrev pub expires_of : ℕ → e.T → ℕ → ℤ
  expires_of size t i = strtoll (cut_str size t (cookie_expires i))

  -- The search for the cookie that expires first: `oldest` is its time, 0 before the first.
  unfoldable pub oldest_loop : e.T → ℕ → ℕ → ℤ → ℕ → ℕ
  oldest_loop t zero i oldest oldest_idx = oldest_idx
  oldest_loop t (suc left) i oldest oldest_idx =
      let now = oldest_loop t left (suc i) (expires_of 32 t i) i in
      let later = oldest_loop t left (suc i) oldest oldest_idx in
      if is_zero oldest || ltb_ℤ (expires_of 32 t i) oldest then now else later

  unfoldable pub put_cookie : ℕ → List ℕ → List ℕ → ℕ → e.T → e.T
  put_cookie i token realm expires t =
      e.set_str (e.set_str (e.set_str t (cookie_token i) token) (cookie_realm i) realm)
        (cookie_expires i) (print_time expires)

  unfoldable pub cookie_add : List ℕ → List ℕ → ℕ → e.T → e.T
  cookie_add token realm expires t =
      let count = e.cookie_count t in
      if leb max_cookies count
      then put_cookie (count - 1) token realm expires
          (cookie_remove (oldest_loop t count 0 (pos 0) 0) t)
      else put_cookie count token realm expires t

  -- Whether a time has passed, both being ones that a set clock shows.
  abbrev pub is_past : ℤ → ℕ → Bool
  is_past exp now = ltb_ℤ (pos valid_time) exp && ltb_ℤ exp (pos now)

  -- The sweep of authInit, from the last cookie down.
  unfoldable pub sweep_loop : ℕ → ℕ → e.T → e.T
  sweep_loop zero now t = t
  sweep_loop (suc i) now t =
      sweep_loop i now (if is_past (expires_of 32 t i) now then cookie_remove i t else t)

  unfoldable pub sweep_expired : ℕ → e.T → e.T
  sweep_expired now t = if leb valid_time now then sweep_loop (e.cookie_count t) now t else t

  -- The first cookie with this token.
  unfoldable pub token_loop : e.T → List ℕ → ℕ → ℕ → Option ℕ
  token_loop t cookie zero i = none
  token_loop t cookie (suc left) i =
      let rest = token_loop t cookie left (suc i) in
      if eq_bytes (cut_str 64 t (cookie_token i)) cookie then some i else rest

  unfoldable pub find_token : e.T → List ℕ → Option ℕ
  find_token t [] = none
  find_token t (c ∷ cookie) = token_loop t (c ∷ cookie) (e.cookie_count t) 0

  unfoldable pub logout_at : e.T → Option ℕ → Bool × e.T
  logout_at t none = (false, t)
  logout_at t (some i) = (true, cookie_remove i t)

  unfoldable pub auth_logout : List ℕ → e.T → Bool × e.T
  auth_logout cookie t = logout_at t (find_token t cookie)

  unfoldable pub check_at : ℕ → e.T → Option ℕ → List ℕ × e.T
  check_at now t none = ([], t)
  check_at now t (some i) =
      if ltb valid_time now && is_past (expires_of 24 t i) now
      then ([], cookie_remove i t)
      else (cut_str 32 t (cookie_realm i), t)

  -- The realm, or the empty string.
  unfoldable pub auth_check : List ℕ → ℕ → e.T → List ℕ × e.T
  auth_check cookie now t = check_at now t (find_token t cookie)
