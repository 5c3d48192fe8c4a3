-- ===== src/Net/System/Setup.antt =====
-- What the functions of socket_utils.cpp do on a system that keeps to POSIX.
use brix.Base.{
  ℕ, ◌+◌, ◌<◌, ◌≡◌, ◌≢◌, ◌∙◌, ap, refl, sym, true, false, Option, none, some, ℤ, pos, negsuc, arith,
}
use brix.Net.Sockets.{timeout}
use brix.Net.System.{
  SocketOption, so_broadcast, so_rcvtimeo, Os, Socket, new_socket, with_option, any_address, Puts,
  OsLaws, goes, exits, after, Sys, ◌>>=◌, ◌>>◌, create_udp_socket, enable_broadcast, set_timeout,
  bind_to_sockaddr,
}

-- The port that a socket has.
abbrev pub port_of : Socket → Option ℕ
port_of k = elim k.bound [ none ↦ none | some a ↦ some a.port ]

module _ {S : Type 0} {os : Os S} (laws : OsLaws os) where
  open laws use {at_fd, left, taken}

  -- From `s` to `t` the program has opened a socket, and has done nothing else with its descriptors.
  pub record Opened (s : S) (fd : ℤ) (k : Socket) (t : S) : Type 0 where
    pub was_closed : at_fd s fd ≡ none
    pub puts : Puts at_fd fd (some k) s t
    pub uses : left t + 1 ≡ left s
    pub ports : (p : ℕ) → some p ≢ port_of k → taken t p ≡ taken s p

  Puts-trans :
      {fd : ℤ} {o o' : Option Socket} {s t u : S}
      → Puts at_fd fd o s t
      → Puts at_fd fd o' t u
      → Puts at_fd fd o' s u
  Puts-trans a b = record { here = b.here; others = λ g ne. b.others g ne ∙ a.others g ne }

  create_udp_socket-Opened :
      (s : S)
      → 0 < left s
      → (fd : ℤ) × (t : S) × (create_udp_socket os s ≡ goes fd t) × Opened s fd new_socket t
  unfolding create_udp_socket
  create_udp_socket-Opened s h =
      let (opened, closed, puts, uses, ports) = laws.socket_new s h in
      (
        (os.socket s).0,
        (os.socket s).1,
        rw opened refl,
        record { was_closed = closed; puts = puts; uses = uses; ports = λ p _. ports p },
      )

  -- No descriptor is left.
  pub create_udp_socket-exits :
      (s : S) → left s ≡ 0 → create_udp_socket os s ≡ exits (os.socket s).1
  unfolding create_udp_socket
  create_udp_socket-exits s h = rw (laws.socket_none s h) refl

  setsockopt-Opened :
      (o : SocketOption) {s t : S} {fd : ℤ} {k : Socket}
      → port_of (with_option o k) ≡ port_of k
      → Opened s fd k t
      → Opened s fd (with_option o k) (os.setsockopt o fd t).1
  setsockopt-Opened o {t} {fd} {k} same h =
      let (_, puts, uses, ports) = laws.setsockopt_open o fd k t h.puts.here in
      record {
        was_closed = h.was_closed;
        puts = Puts-trans h.puts puts;
        uses = omega (arith, uses, h.uses);
        ports = λ p ne. ports p ∙ h.ports p (λ e. ne (e ∙ sym same));
      }

  enable_broadcast-Opened :
      {s t : S} {fd : ℤ} {k : Socket}
      → Opened s fd k t
      → (u : S) × (enable_broadcast os fd t ≡ goes (pos 0) u)
        × Opened s fd (with_option so_broadcast k) u
  unfolding enable_broadcast
  enable_broadcast-Opened {t} {fd} {k} h = (
    (os.setsockopt so_broadcast fd t).1,
    rw ((laws.setsockopt_open so_broadcast fd k t h.puts.here).0) refl,
    setsockopt-Opened so_broadcast refl h,
  )

  set_timeout-Opened :
      (timeout_ms : ℕ) {s t : S} {fd : ℤ} {k : Socket}
      → Opened s fd k t
      → (u : S) × (set_timeout os fd timeout_ms t ≡ goes (pos 0) u)
        × Opened s fd (with_option (so_rcvtimeo (timeout timeout_ms)) k) u
  unfolding set_timeout
  set_timeout-Opened timeout_ms {t} {fd} {k} h =
      let o = so_rcvtimeo (timeout timeout_ms) in
      (
        (os.setsockopt o fd t).1,
        rw ((laws.setsockopt_open o fd k t h.puts.here).0) refl,
        setsockopt-Opened o refl h,
      )

  pub bind_to_sockaddr-Opened :
      (port : ℕ) {s t : S} {fd : ℤ} {k : Socket}
      → Opened s fd k t
      → k.bound ≡ none
      → 0 < port
      → taken s port ≡ false
      → (u : S) × (bind_to_sockaddr os fd (any_address port) t ≡ goes (pos 0) u)
        × Opened s fd (record k { bound = some (any_address port) }) u
  unfolding bind_to_sockaddr
  bind_to_sockaddr-Opened port {t} {fd} {k} h unbound positive free =
      let unchanged : (p : ℕ) → taken t p ≡ taken _ p = λ p. h.ports p (rw unbound (λ e. cc)) in
      let (opened, puts, uses, ports) =
        laws.bind_free port fd k t h.puts.here unbound positive (unchanged port ∙ free) in
      (
        (os.bind (any_address port) fd t).1,
        rw opened refl,
        record {
          was_closed = h.was_closed;
          puts = Puts-trans h.puts puts;
          uses = omega (arith, uses, h.uses);
          ports = λ p ne. ports p (λ e. ne (rw e refl)) ∙ unchanged p;
        },
      )

  -- The port is in use: the socket is closed again, and the result says so.
  pub bind_to_sockaddr-taken :
      (port : ℕ) {s t : S} {fd : ℤ} {k : Socket}
      → Opened s fd k t
      → k.bound ≡ none
      → 0 < port
      → taken s port ≡ true
      → (u : S) × (bind_to_sockaddr os fd (any_address port) t ≡ goes (negsuc 0) u)
        × (at_fd u fd ≡ none)
  unfolding bind_to_sockaddr
  bind_to_sockaddr-taken port {t} {fd} {k} h unbound positive busy =
      let (refused, puts) =
        laws.bind_taken port fd k t h.puts.here positive
          (h.ports port (rw unbound (λ e. cc)) ∙ busy) in
      let u = (os.bind (any_address port) fd t).1 in
      (os.close fd u, rw refused refl, (laws.close_open fd k u puts.here).0.here)

  -- The same with what the program does next.
  module _ {A : Type 0} where
    pub create_udp_socket-then :
        (rest : ℤ → Sys S A) (s : S)
        → 0 < left s
        → (fd : ℤ) × (t : S) × ((create_udp_socket os >>= rest) s ≡ rest fd t)
          × Opened s fd new_socket t
    create_udp_socket-then rest s room =
        let (fd, t, made, h) = create_udp_socket-Opened s room in
        (fd, t, ap (λ o. after o rest) made, h)

    pub enable_broadcast-then :
        (rest : Sys S A) {s t : S} {fd : ℤ} {k : Socket}
        → Opened s fd k t
        → (u : S) × ((enable_broadcast os fd >> rest) t ≡ rest u)
          × Opened s fd (with_option so_broadcast k) u
    enable_broadcast-then rest h =
        let (u, told, k) = enable_broadcast-Opened h in (u, ap (λ o. after o (λ _. rest)) told, k)

    pub set_timeout-then :
        (timeout_ms : ℕ) (rest : Sys S A) {s t : S} {fd : ℤ} {k : Socket}
        → Opened s fd k t
        → (u : S) × ((set_timeout os fd timeout_ms >> rest) t ≡ rest u)
          × Opened s fd (with_option (so_rcvtimeo (timeout timeout_ms)) k) u
    set_timeout-then timeout_ms rest h =
        let (u, told, k) = set_timeout-Opened timeout_ms h in
        (u, ap (λ o. after o (λ _. rest)) told, k)
