-- ===== src/Auth/Login.antt =====
-- authLogin of esp-idf/src/auth.cpp. What it asks of the clock, of millis() and of randomBytes is the
-- record Moment.
pub mod Refused
use spangap_core.Base.{
  ℕ, zero, suc, ◌+◌, ◌*◌, not, ◌&&◌, Option, none, some, List, if◌then◌else◌, eq_bytes,
}
use spangap_core.Auth.{Env, to_hex, verify_password}
use spangap_core.Auth.Realms.{
  AuthErr, auth_ok, wrong_password, rate_limited, realm_get, no_chars, is_usable,
}
use spangap_core.Auth.Backoff.{Backoff, is_rate_limited}
use spangap_core.Auth.Cookies.{cookie_add}

abbrev pub cookie_expiry_s : ℕ
cookie_expiry_s = 60 * 24 * 3600

pub record Moment : Type 0 where
  pub now : ℕ
  pub millis : ℕ
  pub random : List ℕ

-- The outcome: the error, the tree, the backoff, and the realm with the cookie.
pub record Login (T : Type 0) : Type 0 where
  pub err : AuthErr
  pub tree : T
  pub backoff : Backoff
  pub session : Option (List ℕ × List ℕ)

module _ (e : Env) where
  -- The name of a realm that the password opens.
  unfoldable pub opens : List ℕ → List ℕ → Option (List ℕ × List ℕ) → Option (List ℕ)
  opens password try_realm none = none
  opens password try_realm (some (name, hash)) =
      if not (no_chars try_realm) && not (eq_bytes name try_realm)
      then none
      else if not (is_usable hash)
      then none
      else if verify_password e password hash
      then some name
      else none

  unfoldable pub or_else : Option (List ℕ) → Option (List ℕ) → Option (List ℕ)
  or_else none other = other
  or_else (some name) other = some name

  unfoldable pub login_loop : e.T → List ℕ → List ℕ → ℕ → ℕ → Option (List ℕ)
  login_loop t password try_realm zero i = none
  login_loop t password try_realm (suc left) i =
      or_else (opens password try_realm (realm_get e t i))
        (login_loop t password try_realm left (suc i))

  unfoldable pub login_end : Moment → e.T → Backoff → Option (List ℕ) → Login e.T
  login_end m t b none = record {
    err = wrong_password;
    tree = t;
    backoff = record { last_fail_ms = m.millis; fail_count = b.fail_count + 1 };
    session = none;
  }
  login_end m t b (some name) = record {
    err = auth_ok;
    tree = cookie_add e (to_hex m.random) name (m.now + cookie_expiry_s) t;
    backoff = record b { fail_count = 0 };
    session = some (name, to_hex m.random);
  }

  unfoldable pub auth_login : Moment → List ℕ → List ℕ → e.T → Backoff → Login e.T
  auth_login m password try_realm t b =
      if is_rate_limited b m.millis
      then record { err = rate_limited; tree = t; backoff = b; session = none }
      else login_end m t b (login_loop t password try_realm (e.realm_count t) 0)
