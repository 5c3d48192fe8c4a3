-- ===== src/Net/System/Machine.antt =====
-- A machine for the examples: descriptors are given out in order, every datagram is answered, and a
-- port is in use or not.
use brix.Base.{
  ℕ, ◌+◌, ◌-◌, ◌<◌, ◌==◌, ==_iff, ◌≡◌, ◌≢◌, refl, ap, sym, ◌∙◌, Bool, Bool-cases, inl, inr, true,
  false, Option, none, some, [], Bytes, codes, ltb, if◌then◌else◌, ℤ, pos, negsuc, ltb_ℤ, arith,
}
use brix.Net.Sockets.{SocketAddress}
use brix.Net.System.{SocketOption, Os, Socket, new_socket, with_option, any_address, Puts, OsLaws}

pub record Machine : Type 0 where
  pub next : ℕ
  pub room : ℕ
  pub sockets : ℕ → Option Socket
  pub busy : ℕ → Bool

abbrev pub at_fd : Machine → ℤ → Option Socket
at_fd m (pos n) = if ltb n m.next then m.sockets n else none
at_fd m (negsuc n) = none

abbrev put : ℤ → Option Socket → Machine → Machine
put (pos n) o m = record m { sockets = λ i. if n == i then o else m.sockets i }
put (negsuc n) o m = m

abbrev open_next : Machine → Machine
open_next m = record m {
  next = m.next + 1;
  room = m.room - 1;
  sockets = λ i. if m.next == i then some new_socket else m.sockets i;
}

abbrev take_port : ℕ → Machine → Machine
take_port port m = record m { busy = λ p. if port == p then true else m.busy p }

abbrev set_option : SocketOption → ℤ → Option Socket → Machine → ℤ × Machine
set_option o fd none m = (negsuc 0, m)
set_option o fd (some k) m = (pos 0, put fd (some (with_option o k)) m)

abbrev bind_at : SocketAddress → ℤ → Option Socket → Bool → Machine → ℤ × Machine
bind_at a fd (some k) false m =
    (pos 0, put fd (some (record k { bound = some a })) (take_port a.port m))
bind_at a fd _ _ m = (negsuc 0, m)

abbrev close_at : ℤ → Option Socket → Machine → Machine
close_at fd none m = m
close_at fd (some k) m = record (put fd none m) { room = m.room + 1 }

abbrev receive_at : Option Socket → Option (ℕ × Bytes)
receive_at none = none
receive_at (some k) = some (0, [])

abbrev pub machine : Os Machine
machine = record {
  socket = λ m. if m.room == 0 then (negsuc 0, m) else (pos m.next, open_next m);
  setsockopt = λ o fd m. set_option o fd (at_fd m fd) m;
  bind = λ a fd m. bind_at a fd (at_fd m fd) (m.busy a.port) m;
  close = λ fd m. close_at fd (at_fd m fd) m;
  exchange = λ fd a text m. (some (a, codes "ALV"), m);
  recvfrom = λ fd m. (receive_at (at_fd m fd), m);
  local_address = λ a fd m. (117483712, m);
}

put-Puts :
    (fd : ℤ) (o : Option Socket) (k : Socket) (m : Machine)
    → at_fd m fd ≡ some k
    → Puts at_fd fd o m (put fd o m)
put-Puts (negsuc n) o k m e = absurd (cc)
put-Puts (pos n) o k m e = record { here = ground arith; others = elsewhere }
  where
    apart : (i : ℕ) → pos i ≢ pos n → (n == i) ≡ false
    apart i ne = elim (Bool-cases (n == i)) [
      | inl same ↦ absurd (ne (ap pos (sym ((==_iff n i).0 same))))
      | inr other ↦ other
    ]

    elsewhere : (g : ℤ) → g ≢ pos n → at_fd (put (pos n) o m) g ≡ at_fd m g
    elsewhere (negsuc i) ne = refl
    elsewhere (pos i) ne = rw (apart i ne) refl

open_next-Puts : (m : Machine) → Puts at_fd (pos m.next) (some new_socket) m (open_next m)
open_next-Puts m = record { here = ground arith; others = elsewhere }
  where
    elsewhere : (g : ℤ) → g ≢ pos m.next → at_fd (open_next m) g ≡ at_fd m g
    elsewhere (negsuc i) ne = refl
    elsewhere (pos i) ne = elim (Bool-cases (m.next == i)) [
      | inl same ↦ absurd (ne (ap pos (sym ((==_iff m.next i).0 same))))
      | inr other ↦ ground arith
    ]

put-room : (fd : ℤ) (o : Option Socket) (m : Machine) → (put fd o m).room ≡ m.room
put-room (pos n) o m = refl
put-room (negsuc n) o m = refl

put-busy : (fd : ℤ) (o : Option Socket) (m : Machine) (p : ℕ) → (put fd o m).busy p ≡ m.busy p
put-busy (pos n) o m p = refl
put-busy (negsuc n) o m p = refl

pub machine-socket_none : (m : Machine) → m.room ≡ 0 → ltb_ℤ (machine.socket m).0 (pos 0) ≡ true
unfolding ltb_ℤ
machine-socket_none m e = ground arith

pub machine-socket_new :
    (m : Machine)
    → 0 < m.room
    → (ltb_ℤ (machine.socket m).0 (pos 0) ≡ false)
      × (at_fd m (machine.socket m).0 ≡ none)
      × Puts at_fd (machine.socket m).0 (some new_socket) m (machine.socket m).1
      × ((machine.socket m).1.room + 1 ≡ m.room)
      × ((p : ℕ) → (machine.socket m).1.busy p ≡ m.busy p)
unfolding ltb_ℤ
machine-socket_new m h =
    let some_left : (m.room == 0) ≡ false = ground arith in
    rw some_left (ground arith, ground arith, open_next-Puts m, omega arith, λ p. refl)

pub machine-setsockopt :
    (o : SocketOption) (fd : ℤ) (k : Socket) (m : Machine)
    → at_fd m fd ≡ some k
    → let (r, t) = machine.setsockopt o fd m in
      (ltb_ℤ r (pos 0) ≡ false)
      × Puts at_fd fd (some (with_option o k)) m t
      × (t.room ≡ m.room)
      × ((p : ℕ) → t.busy p ≡ m.busy p)
unfolding ltb_ℤ
machine-setsockopt o fd k m e =
    rw e (refl, put-Puts fd (some (with_option o k)) k m e, put-room fd _ m, put-busy fd _ m)

pub machine-bind_free :
    (port : ℕ) (fd : ℤ) (k : Socket) (m : Machine)
    → at_fd m fd ≡ some k
    → k.bound ≡ none
    → 0 < port
    → m.busy port ≡ false
    → let (r, t) = machine.bind (any_address port) fd m in
      (ltb_ℤ r (pos 0) ≡ false)
      × Puts at_fd fd (some (record k { bound = some (any_address port) })) m t
      × (t.room ≡ m.room)
      × ((p : ℕ) → p ≢ port → t.busy p ≡ m.busy p)
unfolding ltb_ℤ
machine-bind_free port fd k m e unbound positive free =
    rw (e, free)
      (
        refl,
        moved (put-Puts fd o k (take_port port m) (same fd ∙ e)),
        put-room fd o (take_port port m),
        λ p ne. put-busy fd o (take_port port m) p ∙ ground (arith, ne),
      )
  where
    o : Option Socket
    o = some (record k { bound = some (any_address port) })

    same : (g : ℤ) → at_fd (take_port port m) g ≡ at_fd m g
    same (pos n) = refl
    same (negsuc n) = refl

    moved :
        Puts at_fd fd o (take_port port m) (put fd o (take_port port m))
        → Puts at_fd fd o m (put fd o (take_port port m))
    moved h = record { here = h.here; others = λ g ne. h.others g ne ∙ same g }

pub machine-bind_taken :
    (port : ℕ) (fd : ℤ) (k : Socket) (m : Machine)
    → at_fd m fd ≡ some k
    → 0 < port
    → m.busy port ≡ true
    → let (r, t) = machine.bind (any_address port) fd m in
      (ltb_ℤ r (pos 0) ≡ true) × Puts at_fd fd (some k) m t
unfolding ltb_ℤ
machine-bind_taken port fd k m e positive used =
    rw (e, used) (refl, record { here = e; others = λ g ne. refl })

pub machine-close :
    (fd : ℤ) (k : Socket) (m : Machine)
    → at_fd m fd ≡ some k
    → Puts at_fd fd none m (machine.close fd m) × ((machine.close fd m).room ≡ m.room + 1)
machine-close fd k m e = rw e (roomy (put-Puts fd none k m e), refl)
  where
    same :
        (g : ℤ) → at_fd (record (put fd none m) { room = m.room + 1 }) g ≡ at_fd (put fd none m) g
    same (pos n) = refl
    same (negsuc n) = refl

    roomy :
        Puts at_fd fd none m (put fd none m)
        → Puts at_fd fd none m (record (put fd none m) { room = m.room + 1 })
    roomy h = record { here = same fd ∙ h.here; others = λ g ne. same g ∙ h.others g ne }

pub machine-recvfrom : (fd : ℤ) (m : Machine) → at_fd m fd ≡ none → (machine.recvfrom fd m).0 ≡ none
machine-recvfrom fd m e = ap receive_at e

abbrev pub machine_laws : OsLaws machine
machine_laws = record {
  at_fd = at_fd;
  left = λ m. m.room;
  taken = λ m. m.busy;
  socket_none = machine-socket_none;
  socket_new = machine-socket_new;
  setsockopt_open = machine-setsockopt;
  bind_free = machine-bind_free;
  bind_taken = machine-bind_taken;
  close_open = machine-close;
  exchange_keeps = λ fd a text m. (refl, (λ g ne. refl), (λ k e. (k, e)));
  local_address_keeps = λ a fd m. refl;
  recvfrom_closed = machine-recvfrom;
}
