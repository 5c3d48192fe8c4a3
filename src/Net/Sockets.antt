-- ===== src/Net/Sockets.antt =====
-- The socket addresses and time-outs that common/src/data_transfer/socket_utils.cpp hands to the
-- operating system, and the byte order of the network on a little-endian machine.
use brix.Base.{
  ℕ, zero, suc, ◌+◌, ◌*◌, ◌/◌, ◌%◌, ◌^◌, ◌<◌, ◌≡◌, ap, sym, ◌∙◌, Option, none, some, Bytes, ℤ,
  bits32, arith,
}
use brix.Net.Defs.{Inet}

-- `htons` and `ntohl`
abbrev pub htons : ℕ → ℕ
htons n = n % 256 * 256 + n / 256 % 256

unfoldable pub ntohl : ℕ → ℕ
ntohl a = a % 256 * 16777216 + a / 256 % 256 * 65536 + a / 65536 % 256 * 256 + a / 16777216 % 256

ntohl-ntohl : (a : ℕ) → a < 2 ^ 32 → ntohl (ntohl a) ≡ a
unfolding ntohl
ntohl-ntohl a h = omega arith

pub ntohl-lt : (a : ℕ) → ntohl a < 2 ^ 32
unfolding ntohl
ntohl-lt a = omega arith

pub ntohl_injective : (a b : ℕ) → a < 2 ^ 32 → b < 2 ^ 32 → ntohl a ≡ ntohl b → a ≡ b
ntohl_injective a b ha hb e = sym (ntohl-ntohl a ha) ∙ ap ntohl e ∙ ntohl-ntohl b hb

-- `struct sockaddr_in`, both in the byte order of the network
pub record SocketAddress : Type 0 where
  pub ip : ℕ
  pub port : ℕ

-- `create_sockaddr`: `htons` takes the low 16 bits of the port.
unfoldable pub create_sockaddr : Inet → Bytes → ℤ → SocketAddress
unfolding bits32
create_sockaddr net ip port = record { ip = net.inet_addr ip; port = htons (bits32 port % 2 ^ 16) }

-- `struct timeval`
pub record Timeval : Type 0 where
  pub tv_sec : ℕ
  pub tv_usec : ℕ

-- The time-out that `set_timeout` gives to the socket; no caller passes a negative one.
abbrev pub timeout : ℕ → Timeval
timeout timeout_ms = record { tv_sec = timeout_ms / 1000; tv_usec = timeout_ms % 1000 * 1000 }

-- A network whose first `lost` answers get lost: what arrives, with the address of its sender.
abbrev pub bring : SocketAddress → Option Bytes → ℕ → Option (SocketAddress × Bytes) × ℕ
bring server none lost = (none, lost)
bring server (some text) zero = (some (server, text), zero)
bring server (some text) (suc lost) = (none, lost)
