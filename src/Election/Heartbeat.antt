-- ===== src/Election/Heartbeat.antt =====
-- The heartbeat between the servers: server/src/election/heartbeat.cpp. The coordinator's receiver
-- answers each datagram; the others test it every two seconds, and call for an election when it is
-- silent. The pause between two tests and the log lines are left out; the calls for sockets
-- are in Calls.
pub mod Probes
pub mod Takeover
pub mod Calls
pub mod Descriptors
use brix.Base.{
  ℕ, zero, suc, Bool, true, false, Option, none, some, List, [], Bytes, codes, if◌then◌else◌, ℤ,
  pos, ◌+◌,
}
use brix.Text.{Result, ok, undefined}
use brix.Net.{Inet, SocketAddress, create_sockaddr}
use brix.Server.{Received, failed, datagram}
use brix.Server.Ports.{port_delta, heartbeat}
use brix.Election.{RedundancyManager, Notice, backup_election}

-- One round of `heartbeat_receiver`: the receiver and the text of its answer, whatever the datagram
-- says. On an error `n` is -1, and `buffer[n]` is written.
unfoldable pub heartbeat_receiver_round : Received → Result (ℕ × Bytes)
heartbeat_receiver_round failed = undefined
heartbeat_receiver_round (datagram src payload) = ok (src, codes "ALV")

-- What follows a probe: any datagram counts as an answer.
abbrev pub probe : {S : Type 0} → (S → Bool × S) → Option (SocketAddress × Bytes) × S → Bool × S
probe again (none, t) = again t
probe again (some _, t) = (true, t)

-- The network takes a datagram and brings one back in time, or none.
module _ {S : Type 0} (net : Inet)
    (network : S → SocketAddress → Bytes → Option (SocketAddress × Bytes) × S) where
  -- The tries of `heartbeat_test` that are left.
  unfoldable pub heartbeat_tries : ℕ → SocketAddress → S → Bool × S
  heartbeat_tries zero servaddr s = (false, s)
  heartbeat_tries (suc n) servaddr s =
      probe (λ t. heartbeat_tries n servaddr t) (network s servaddr (codes "TST"))

  unfoldable pub heartbeat_test : Bytes → ℤ → ℕ → S → Bool × S
  unfolding heartbeat_tries create_sockaddr
  heartbeat_test target_ip target_port tries s =
      heartbeat_tries tries (create_sockaddr net target_ip target_port) s

  -- One round of `heartbeat_tester_loop`.
  unfoldable pub heartbeat_tester_round :
      ℤ → ℕ → RedundancyManager → S → (RedundancyManager × List Notice) × S
  unfolding heartbeat_test
  heartbeat_tester_round target_port tries m s =
      let (alive, t) = heartbeat_test (net.inet_ntoa m.coordinator_ip) target_port tries s in
      if m.is_coordinator then ((m, []), s) else ((if alive then (m, []) else backup_election m), t)

  -- A round of the loop as `start_heartbeat_tester_loop` runs it, with the server's port.
  unfoldable pub start_heartbeat_tester_loop :
      ℕ → RedundancyManager → S → (RedundancyManager × List Notice) × S
  unfolding heartbeat_tester_round
  start_heartbeat_tester_loop port m s =
      heartbeat_tester_round (pos (port + port_delta heartbeat)) 3 m s
