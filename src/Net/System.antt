-- ===== src/Net/System.antt =====
-- The sockets of the operating system, and the functions of
-- common/src/data_transfer/socket_utils.cpp that call it. The system is not part of the repository: it
-- is an interface, with what POSIX says of it.
pub mod Setup
pub mod Machine
use brix.Base.{
  ⊤, ℕ, ◌+◌, ◌<◌, ◌≡◌, ◌≢◌, Bool, true, false, Option, none, some, Bytes, if◌then◌else◌, codes,
  text_eq, ℤ, pos, negsuc, ltb_ℤ,
}
use brix.Net.Defs.{Inet}
use brix.Net.Sockets.{create_sockaddr, SocketAddress, Timeval, timeout}

-- `SO_BROADCAST` and `SO_RCVTIMEO` of `setsockopt`.
pub data SocketOption : Type 0 where
  so_broadcast : SocketOption
  so_rcvtimeo : Timeval → SocketOption

-- A state of the machine goes through each call. A descriptor or a result below 0 is an error. `exchange`
-- is `sendto` with a `recvfrom` behind it, and `recvfrom` on its own gives the sender's address and the
-- payload. `local_address` is `connect` with a `getsockname` behind it.
pub record Os (S : Type 0) : Type 0 where
  pub socket : S → ℤ × S
  pub setsockopt : SocketOption → ℤ → S → ℤ × S
  pub bind : SocketAddress → ℤ → S → ℤ × S
  pub close : ℤ → S → S
  pub exchange : ℤ → SocketAddress → Bytes → S → Option (SocketAddress × Bytes) × S
  pub recvfrom : ℤ → S → Option (ℕ × Bytes) × S
  pub local_address : SocketAddress → ℤ → S → ℕ × S

-- An open socket.
pub record Socket : Type 0 where
  pub bound : Option SocketAddress
  pub broadcasts : Bool
  pub waits : Option Timeval

abbrev pub new_socket : Socket
new_socket = record { bound = none; broadcasts = false; waits = none }

abbrev pub with_option : SocketOption → Socket → Socket
with_option so_broadcast k = record k { broadcasts = true }
with_option (so_rcvtimeo tv) k = record k { waits = some tv }

-- All addresses of the machine, with a port.
abbrev pub any_address : ℕ → SocketAddress
any_address port = record { ip = 0; port = port }

-- The descriptor `fd` stands for `o`, and no other one changes.
pub record Puts {S : Type 0} (at_fd : S → ℤ → Option Socket) (fd : ℤ) (o : Option Socket) (s t : S)
    : Type 0 where
  pub here : at_fd t fd ≡ o
  pub others : (g : ℤ) → g ≢ fd → at_fd t g ≡ at_fd s g

-- POSIX, for the sockets of this program: UDP sockets without `SO_REUSEADDR`. `at_fd` gives the socket
-- of an open descriptor, `left` how many more the process may open, and `taken` says whether a socket
-- of the machine has the port. A `bind` to all addresses fails on
-- such a port and on no other; on port 0, where the system chooses a port, nothing is said. A socket
-- that sends may be given a port by the system.
pub record OsLaws {S : Type 0} (os : Os S) : Type 0 where
  pub at_fd : S → ℤ → Option Socket
  pub left : S → ℕ
  pub taken : S → ℕ → Bool
  pub socket_none : (s : S) → left s ≡ 0 → ltb_ℤ (os.socket s).0 (pos 0) ≡ true
  pub socket_new :
      (s : S)
      → 0 < left s
      → (ltb_ℤ (os.socket s).0 (pos 0) ≡ false)
        × (at_fd s (os.socket s).0 ≡ none)
        × Puts at_fd (os.socket s).0 (some new_socket) s (os.socket s).1
        × (left (os.socket s).1 + 1 ≡ left s)
        × ((p : ℕ) → taken (os.socket s).1 p ≡ taken s p)
  pub setsockopt_open :
      (o : SocketOption) (fd : ℤ) (k : Socket) (s : S)
      → at_fd s fd ≡ some k
      → let (r, t) = os.setsockopt o fd s in
        (ltb_ℤ r (pos 0) ≡ false)
        × Puts at_fd fd (some (with_option o k)) s t
        × (left t ≡ left s)
        × ((p : ℕ) → taken t p ≡ taken s p)
  pub bind_free :
      (port : ℕ) (fd : ℤ) (k : Socket) (s : S)
      → at_fd s fd ≡ some k
      → k.bound ≡ none
      → 0 < port
      → taken s port ≡ false
      → let (r, t) = os.bind (any_address port) fd s in
        (ltb_ℤ r (pos 0) ≡ false)
        × Puts at_fd fd (some (record k { bound = some (any_address port) })) s t
        × (left t ≡ left s)
        × ((p : ℕ) → p ≢ port → taken t p ≡ taken s p)
  pub bind_taken :
      (port : ℕ) (fd : ℤ) (k : Socket) (s : S)
      → at_fd s fd ≡ some k
      → 0 < port
      → taken s port ≡ true
      → let (r, t) = os.bind (any_address port) fd s in
        (ltb_ℤ r (pos 0) ≡ true) × Puts at_fd fd (some k) s t
  pub close_open :
      (fd : ℤ) (k : Socket) (s : S)
      → at_fd s fd ≡ some k
      → Puts at_fd fd none s (os.close fd s) × (left (os.close fd s) ≡ left s + 1)
  pub exchange_keeps :
      (fd : ℤ) (a : SocketAddress) (text : Bytes) (s : S)
      → (left (os.exchange fd a text s).1 ≡ left s)
        × ((g : ℤ) → g ≢ fd → at_fd (os.exchange fd a text s).1 g ≡ at_fd s g)
        × ((k : Socket)
            → at_fd s fd ≡ some k
            → (k' : Socket) × (at_fd (os.exchange fd a text s).1 fd ≡ some k'))
  pub local_address_keeps :
      (a : SocketAddress) (fd : ℤ) (s : S) → left (os.local_address a fd s).1 ≡ left s
  pub recvfrom_closed : (fd : ℤ) (s : S) → at_fd s fd ≡ none → (os.recvfrom fd s).0 ≡ none

-- What a call ends with: it goes on with a value, or `exit` ends the program.
pub data Outcome (S A : Type 0) : Type 0 where
  goes : A → S → Outcome S A
  exits : S → Outcome S A

abbrev pub Sys : Type 0 → Type 0 → Type 0
Sys S A = S → Outcome S A

-- What follows a call.
abbrev pub after : {S A B : Type 0} → Outcome S A → (A → Sys S B) → Outcome S B
after (goes a t) f = f a t
after (exits t) f = exits t

infixl 5 ◌>>=◌ ◌>>◌
abbrev pub ◌>>=◌ : {S A B : Type 0} → Sys S A → (A → Sys S B) → Sys S B
◌>>=◌ m f s = after (m s) f

abbrev pub ◌>>◌ : {S A B : Type 0} → Sys S A → Sys S B → Sys S B
m >> k = m >>= λ _. k

abbrev pub ret : {S A : Type 0} → A → Sys S A
ret a s = goes a s

module _ {S : Type 0} (os : Os S) where
  -- A descriptor, or the end of the program.
  unfoldable pub create_udp_socket : Sys S ℤ
  create_udp_socket s = let (fd, t) = os.socket s in if ltb_ℤ fd (pos 0) then exits t else goes fd t

  unfoldable pub enable_broadcast : ℤ → Sys S ℤ
  enable_broadcast sockfd s =
      let (r, t) = os.setsockopt so_broadcast sockfd s in
      if ltb_ℤ r (pos 0) then exits (os.close sockfd t) else goes (pos 0) t

  unfoldable pub set_timeout : ℤ → ℕ → Sys S ℤ
  set_timeout sockfd timeout_ms s =
      let (r, t) = os.setsockopt (so_rcvtimeo (timeout timeout_ms)) sockfd s in
      if ltb_ℤ r (pos 0) then goes (negsuc 0) (os.close sockfd t) else goes (pos 0) t

  unfoldable pub bind_to_sockaddr : ℤ → SocketAddress → Sys S ℤ
  bind_to_sockaddr sockfd addr s =
      let (r, t) = os.bind addr sockfd s in
      if ltb_ℤ r (pos 0) then goes (negsuc 0) (os.close sockfd t) else goes (pos 0) t

  -- `get_self_ip`, with the text of the call before, `undefined` before the first one; its result is
  -- the next such text. `none` is a buffer that `inet_ntop` has not filled. Nothing closes `sock`.
  unfoldable pub get_self_ip : Inet → Bytes → Sys S (Option Bytes)
  unfolding create_udp_socket enable_broadcast
  get_self_ip net ip =
      if text_eq ip (codes "undefined")
      then (do
        sock ← create_udp_socket
        enable_broadcast sock
        local ← λ s.
            (let (a, t) =
                os.local_address (create_sockaddr net (codes "255.255.255.255") (pos 6767)) sock
                  s in
              goes a t)
        ret (net.inet_ntop local))
      else ret (some ip)
