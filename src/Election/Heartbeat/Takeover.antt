-- ===== src/Election/Heartbeat/Takeover.antt =====
-- What a server does whose coordinator is silent, and whose coordinator is alive.
use brix.Base.{
  ℕ, zero, suc, ◌+◌, ◌%◌, ◌≡◌, refl, sym, ap, subst, ◌<◌, ◌==◌, Bool, true, false, Option, none,
  some, List, [], ◌∷◌, Bytes, arith, pos, leb_ℤ, Bool-cases, inl, inr,
}
use brix.Text.{Result, ok}
use brix.Net.{Inet, SocketAddress, create_sockaddr, bring}
use brix.Server.{datagram}
use brix.Server.Ports.{port_delta, heartbeat}
use brix.Election.{
  RedundancyManager, Notice, broadcast, not_in_progress, silence, backup_election, election_message,
  coord_announcement_message, waited, answer_max_wait_time, election_round,
}
use brix.Election.Contest.{quiet_round}
use brix.Election.Heartbeat.{
  heartbeat_receiver_round, heartbeat_tries, heartbeat_tester_round, start_heartbeat_tester_loop,
}
use brix.Election.Heartbeat.Probes.{Unanswered, heartbeat_tries-Unanswered}

-- Where the heartbeat of the coordinator is expected, at a server's port.
abbrev pub receiver_of : Inet → ℕ → RedundancyManager → SocketAddress
receiver_of net port m =
    create_sockaddr net (net.inet_ntoa m.coordinator_ip) (pos (port + port_delta heartbeat))

module _ {S : Type 0} (net : Inet)
    (network : S → SocketAddress → Bytes → Option (SocketAddress × Bytes) × S) (port : ℕ)
    (m : RedundancyManager) (s : S) (follower : m.is_coordinator ≡ false) where
  abbrev tested : Bool × S → (RedundancyManager × List Notice) × S
  tested (true, t) = ((m, []), t)
  tested (false, t) = (backup_election m, t)

  -- A round follows the result of the test.
  pub round-tested :
      (o : Bool × S)
      → heartbeat_tries net network 3 (receiver_of net port m) s ≡ o
      → start_heartbeat_tester_loop net network port m s ≡ tested o
  unfolding start_heartbeat_tester_loop
  round-tested (true, t) e = rw (follower, heartbeat_tester_round, e) refl
  round-tested (false, t) e = rw (follower, heartbeat_tester_round, e) refl

  -- A server that is not the coordinator, whose last datagram of the election came from outside
  -- 127.0.0.0/8, takes over from a silent coordinator: when none of the three probes of the heartbeat
  -- is answered, it calls for an election, and when nothing arrives in a next round of the election
  -- at 200 ms or more of the clock behind the start of its loop, it becomes the coordinator and
  -- announces itself.
  pub start_heartbeat_tester_loop_takeover :
      (later : ℕ)
      → Unanswered net network (receiver_of net port m) 3 s
      → (m.cliaddr % 256 == 127) ≡ false
      → leb_ℤ answer_max_wait_time (waited later m) ≡ true
      → let (called, t) = start_heartbeat_tester_loop net network port m s in
        let out = election_round later silence called.0 in
        (called.1 ≡ broadcast (election_message m.id) ∷ [])
        × (out.0.is_coordinator ≡ true)
        × (out.0.state ≡ not_in_progress)
        × (out.1 ≡ broadcast (coord_announcement_message m.id) ∷ [])
  start_heartbeat_tester_loop_takeover later silent outside late =
      subst Promoted
        (sym (
          round-tested _
            (heartbeat_tries-Unanswered net network (receiver_of net port m) 3 s silent)))
        (refl, quiet.1, quiet.0, quiet.2)
    where
      Promoted : (RedundancyManager × List Notice) × S → Type 0
      Promoted (called, t) =
          let out = election_round later silence called.0 in
          (called.1 ≡ broadcast (election_message m.id) ∷ [])
          × (out.0.is_coordinator ≡ true)
          × (out.0.state ≡ not_in_progress)
          × (out.1 ≡ broadcast (coord_announcement_message m.id) ∷ [])

      quiet :
          let out = election_round later silence (backup_election m).0 in
          (out.0.state ≡ not_in_progress)
          × (out.0.is_coordinator ≡ true)
          × (out.1 ≡ broadcast (coord_announcement_message m.id) ∷ [])
      quiet = quiet_round later (backup_election m).0 outside refl late

-- What the receiver sends back.
abbrev pub receiver_answer : Result (ℕ × Bytes) → Option Bytes
receiver_answer (ok (to, text)) = some text
receiver_answer _ = none

-- The network between a server at `ip` and the receiver of the coordinator, which loses the first
-- `lost` answers.
unfoldable pub receiver_network :
    SocketAddress → ℕ → ℕ → SocketAddress → Bytes → Option (SocketAddress × Bytes) × ℕ
unfolding heartbeat_receiver_round
receiver_network coordinator ip lost to text =
    bring coordinator (receiver_answer (heartbeat_receiver_round (datagram ip text))) lost

module _ (net : Inet) (coordinator : SocketAddress) (ip : ℕ) where
  tries_heard :
      (n lost : ℕ) (to : SocketAddress)
      → lost < n
      → heartbeat_tries net (receiver_network coordinator ip) n to lost ≡ (true, 0)
  unfolding heartbeat_tries receiver_network
  tries_heard zero lost to few = absurd (omega arith)
  tries_heard (suc n) zero to few = refl
  tries_heard (suc n) (suc lost) to few = tries_heard n lost to (omega arith)

  -- As long as a coordinator's receiver runs and at most two of its answers in a row get lost, a
  -- server that tests it calls for no election, and stays as it is.
  pub start_heartbeat_tester_loop_alive :
      (port lost : ℕ) (m : RedundancyManager)
      → lost < 3
      → (start_heartbeat_tester_loop net (receiver_network coordinator ip) port m lost).0 ≡ (m, [])
  start_heartbeat_tester_loop_alive port lost m few = elim (Bool-cases m.is_coordinator) [
    | inl leading ↦ unfold start_heartbeat_tester_loop in rw leading refl
    | inr follower ↦
        ap (λ o. o.0)
          (round-tested net (receiver_network coordinator ip) port m lost follower (true, 0)
            (tries_heard 3 lost (receiver_of net port m) few))
  ]
