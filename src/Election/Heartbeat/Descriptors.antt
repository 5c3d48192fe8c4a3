-- ===== src/Election/Heartbeat/Descriptors.antt =====
-- The sockets that the heartbeat's tests open and do not close.
use brix.Base.{
  ℕ, zero, suc, ◌+◌, ◌<◌, ◌≡◌, ◌∙◌, refl, ap, subst, Bool, true, false, Option, none, some, [],
  Bytes, codes, if◌then◌else◌, ℤ, pos, arith,
}
use brix.Net.{Inet, SocketAddress, create_sockaddr}
use brix.Net.System.{Os, Socket, OsLaws, goes, exits, after, ret, ◌>>=◌}
use brix.Net.System.Setup.{create_udp_socket-then, create_udp_socket-exits, set_timeout-then}
use brix.Server.Ports.{port_delta, heartbeat}
use brix.Election.{RedundancyManager}
use brix.Election.Heartbeat.{heartbeat_tries, probe}
use brix.Election.Heartbeat.Calls.{
  judged, then_rounds, finish, probe_all, heartbeat_test_calls, heartbeat_tester_round_calls,
  heartbeat_tester_loop_calls,
}

module _ {S : Type 0} (net : Inet) (os : Os S) (laws : OsLaws os) where
  open laws use {at_fd, left, taken}

  abbrev tries_on : ℤ → ℕ → SocketAddress → S → Bool × S
  tries_on fd = heartbeat_tries net (λ t a text. os.exchange fd a text t)

  abbrev Keeps : ℤ → S → S → Type 0
  Keeps fd s t =
      (left t ≡ left s)
      × ((k : Socket) → at_fd s fd ≡ some k → (k' : Socket) × (at_fd t fd ≡ some k'))

  probe-Keeps :
      (fd : ℤ) (again : S → Bool × S) (s : S) (o : Option (SocketAddress × Bytes) × S)
      → ((t : S) → Keeps fd t (again t).1)
      → Keeps fd s o.1
      → Keeps fd s (probe again o).1
  probe-Keeps fd again s (none, t) ih (l, open_still) =
      let (l', open_then) = ih t in
      (l' ∙ l, λ k e. let (k', e') = open_still k e in open_then k' e')
  probe-Keeps fd again s (some d, t) ih kept = kept

  -- The probes neither open nor close a socket.
  heartbeat_tries-Keeps :
      (fd : ℤ) (tries : ℕ) (a : SocketAddress) (s : S) → Keeps fd s (tries_on fd tries a s).1
  unfolding heartbeat_tries
  heartbeat_tries-Keeps fd zero a s = (refl, λ k e. (k, e))
  heartbeat_tries-Keeps fd (suc n) a s =
      probe-Keeps fd (λ t. tries_on fd n a t) s (os.exchange fd a (codes "TST") s)
        (heartbeat_tries-Keeps fd n a)
        (let (l, others, here) = laws.exchange_keeps fd a (codes "TST") s in (l, here))

  finish_lem :
      (fd : ℤ) (alive : Bool) (v : S) (k : Socket)
      → at_fd v fd ≡ some k
      → (w : S) × (finish net os fd alive v ≡ goes alive w)
        × (left w + (if alive then 1 else 0) ≡ left v + 1)
  finish_lem fd true v k e = (v, refl, refl)
  finish_lem fd false v k e = (os.close fd v, refl, omega (arith, (laws.close_open fd k v e).1))

  -- A test that is answered takes a descriptor and keeps it; one that is not answered gives it back.
  heartbeat_test_calls_lem :
      (target_ip : Bytes) (target_port : ℤ) (timeout_ms tries : ℕ) (s : S)
      → 0 < left s
      → (fd : ℤ) × (u : S) × (w : S) × (heartbeat_test_calls net os target_ip target_port timeout_ms
            tries s
          ≡ goes (tries_on fd tries (create_sockaddr net target_ip target_port) u).0 w)
        × (left w
              + (if (tries_on fd tries (create_sockaddr net target_ip target_port) u).0
                  then 1
                  else 0)
            ≡ left s)
  unfolding heartbeat_test_calls
  heartbeat_test_calls_lem target_ip target_port timeout_ms tries s room =
      let (fd, t, made, h) =
        create_udp_socket-then laws (probe_all net os target_ip target_port timeout_ms tries) s
          room in
      let (u, timed, k) = set_timeout-then laws timeout_ms _ h in
      let a = create_sockaddr net target_ip target_port in
      let (kept, still) = heartbeat_tries-Keeps fd tries a u in
      let (_, open_now) = still _ k.puts.here in
      let (alive, v) = tries_on fd tries a u in
      let (w, ended, balance) = finish_lem fd alive v _ open_now in
      (fd, u, w, made ∙ timed ∙ ended, omega (arith, balance, kept, k.uses))

  -- The coordinator answers every probe.
  abbrev pub Answers : Type 0
  Answers =
      (fd : ℤ) (a : SocketAddress) (text : Bytes) (t : S)
      → (d : SocketAddress × Bytes) × ((os.exchange fd a text t).0 ≡ some d)

  tries-answered :
      (answers : Answers) (fd : ℤ) (n : ℕ) (a : SocketAddress) (s : S)
      → (tries_on fd (suc n) a s).0 ≡ true
  unfolding heartbeat_tries
  tries-answered answers fd n a s =
      first (os.exchange fd a (codes "TST") s) (answers fd a (codes "TST") s).1
    where
      first :
          {d : SocketAddress × Bytes} (o : Option (SocketAddress × Bytes) × S)
          → o.0 ≡ some d
          → (probe (λ t. tries_on fd n a t) o).0 ≡ true
      first (none, t) e = absurd (cc)
      first (some d, t) e = refl

  test-answered :
      (answers : Answers) (target_ip : Bytes) (target_port : ℤ) (timeout_ms n : ℕ) (s : S)
      → 0 < left s
      → (t : S) × (heartbeat_test_calls net os target_ip target_port timeout_ms (suc n) s
          ≡ goes true t)
        × (left t + 1 ≡ left s)
  test-answered answers target_ip target_port timeout_ms n s room =
      let (fd, u, w, ended, balance) =
        heartbeat_test_calls_lem target_ip target_port timeout_ms (suc n) s room in
      let alive = tries-answered answers fd n (create_sockaddr net target_ip target_port) u in
      (
        w,
        ended ∙ ap (λ b. goes b w) alive,
        subst (λ b. left w + (if b then 1 else 0) ≡ left s) alive balance,
      )

  test-exits :
      (target_ip : Bytes) (target_port : ℤ) (timeout_ms tries : ℕ) (s : S)
      → left s ≡ 0
      → heartbeat_test_calls net os target_ip target_port timeout_ms tries s ≡ exits (os.socket s).1
  unfolding heartbeat_test_calls
  test-exits target_ip target_port timeout_ms tries s none_left =
      ap (λ o. after o (probe_all net os target_ip target_port timeout_ms tries))
        (create_udp_socket-exits laws s none_left)

  module _ (m : RedundancyManager) (follower : m.is_coordinator ≡ false) (port : ℕ) where
    tests :
        (s : S)
        → heartbeat_tester_round_calls net os (pos (port + port_delta heartbeat)) 10 3 m s
          ≡ after
              (heartbeat_test_calls net os
                (net.inet_ntoa m.coordinator_ip)
                (pos (port + port_delta heartbeat))
                10
                3
                s)
              (λ a. ret (judged m a))
    unfolding heartbeat_tester_round_calls
    tests s =
        ap
          (λ c.
            (if c
                then ret (m, [])
                else (heartbeat_test_calls net os (net.inet_ntoa m.coordinator_ip)
                      (pos (port + port_delta heartbeat)) 10 3
                    >>= λ a. ret (judged m a)))
              s)
          follower

    round-answered :
        (answers : Answers) (s : S)
        → 0 < left s
        → (t : S) × (heartbeat_tester_round_calls net os
              (pos (port + port_delta heartbeat))
              10
              3
              m
              s
            ≡ goes (m, []) t)
          × (left t + 1 ≡ left s)
    unfolding heartbeat_tester_round_calls
    round-answered answers s room =
        let (t, ended, balance) =
          test-answered answers (net.inet_ntoa m.coordinator_ip) (pos (port + port_delta heartbeat))
            10 2 s room in
        (t, tests s ∙ ap (λ o. after o (λ a. ret (judged m a))) ended, balance)

    round-exits :
        (s : S)
        → left s ≡ 0
        → heartbeat_tester_round_calls net os (pos (port + port_delta heartbeat)) 10 3 m s
          ≡ exits (os.socket s).1
    unfolding heartbeat_tester_round_calls
    round-exits s none_left =
        tests s
        ∙ ap (λ o. after o (λ a. ret (judged m a)))
            (test-exits (net.inet_ntoa m.coordinator_ip) (pos (port + port_delta heartbeat)) 10 3 s
              none_left)

    -- A server that follows a coordinator which answers every probe runs out of descriptors: after as
    -- many rounds of the tester's loop as its process has descriptors left it has sent nothing, and
    -- follows still; the next round ends the program.
    pub heartbeat_tester_loop_calls-exits :
        (answers : Answers) (n : ℕ) (s : S)
        → left s ≡ n
        → ((t : S) × (heartbeat_tester_loop_calls net os port n m s ≡ goes (m, []) t)
            × (left t ≡ 0))
          × ((t : S) × (heartbeat_tester_loop_calls net os port (suc n) m s ≡ exits t))
    unfolding heartbeat_tester_loop_calls
    heartbeat_tester_loop_calls-exits answers zero s e = (
      (s, refl, e),
      (
        (os.socket s).1,
        ap (λ o. after o (then_rounds (heartbeat_tester_loop_calls net os port zero)))
            (round-exits s e),
      ),
    )
    heartbeat_tester_loop_calls-exits answers (suc n) s e =
        let (t, ended, balance) = round-answered answers s (omega (arith, e)) in
        let ((u, rest, empty), (v, gone)) =
          heartbeat_tester_loop_calls-exits answers n t (omega (arith, balance, e)) in
        let first = λ (k : ℕ).
          ap (λ o. after o (then_rounds (heartbeat_tester_loop_calls net os port k))) ended in
        (
          (u, first n ∙ ap (λ o. after o (λ y. ret (y.0, y.1))) rest, empty),
          (v, first (suc n) ∙ ap (λ o. after o (λ y. ret (y.0, y.1))) gone),
        )
