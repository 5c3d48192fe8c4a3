-- ===== src/Net/Defs.antt =====
-- The interface of the address functions, and `addr_to_string`.
use brix.Base.{ℕ, ◌^◌, ◌<◌, ◌≤◌, ◌≡◌, Option, none, some, [], Bytes, codes, length}
use brix.Text.Tokens.{IsToken}
use brix.Text.Plain.{Passes}

-- `inet_ntop` and `inet_pton` with `AF_INET`: the text or `nullptr`, and the address or 0.
-- `inet_addr` gives `INADDR_NONE` where the text is no address. An `in_addr_t` is a number below 2^32.
pub record Inet : Type 0 where
  pub inet_addr : Bytes → ℕ
  pub inet_ntop : ℕ → Option Bytes
  pub inet_ntoa : ℕ → Bytes
  pub inet_pton : Bytes → Option ℕ

-- POSIX: an IPv4 address has a text in dotted decimal, of at most 15 characters, which has no white
-- space and no zero in it, and which `inet_addr` and `inet_pton` take back to the address.
-- `inet_pton` takes no text that is longer. 0.0.0.0 is the address 0.
pub record InetLaws (net : Inet) : Type 0 where
  pub text : ℕ → Bytes
  pub ntop : (a : ℕ) → a < 2 ^ 32 → net.inet_ntop a ≡ some (text a)
  pub ntoa : (a : ℕ) → a < 2 ^ 32 → net.inet_ntoa a ≡ text a
  pub token : (a : ℕ) → a < 2 ^ 32 → IsToken (text a)
  pub passes : (a : ℕ) → a < 2 ^ 32 → Passes 15 (text a)
  pub addr : (a : ℕ) → a < 2 ^ 32 → net.inet_addr (text a) ≡ a
  pub pton : (a : ℕ) → a < 2 ^ 32 → net.inet_pton (text a) ≡ some a
  pub any : net.inet_addr (codes "0.0.0.0") ≡ 0
  pub pton_short : (s : Bytes) (a : ℕ) → net.inet_pton s ≡ some a → length s ≤ 15

unfoldable pub addr_to_string : Inet → ℕ → Bytes
addr_to_string net a = elim (net.inet_ntop a) [ none ↦ [] | some buffer ↦ buffer ]

pub addr_to_string-text :
    (net : Inet) (laws : InetLaws net) (a : ℕ) → a < 2 ^ 32 → addr_to_string net a ≡ laws.text a
unfolding addr_to_string
addr_to_string-text net laws a h = rw (laws.ntop a h, addr_to_string)
