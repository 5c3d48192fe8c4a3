-- ===== src/Election/Heartbeat/Calls.antt =====
-- The sockets of the heartbeat's tests: `heartbeat_test` of server/src/election/heartbeat.cpp with its
-- calls of the system, and the rounds of the tester's loop as `start_heartbeat_tester_loop` runs them.
use brix.Base.{ℕ, zero, suc, ◌+◌, Bool, true, false, List, [], ◌++◌, Bytes, if◌then◌else◌, ℤ, pos}
use brix.Net.{Inet, create_sockaddr}
use brix.Net.System.{Os, Outcome, goes, Sys, ret, ◌>>=◌, ◌>>◌, create_udp_socket, set_timeout}
use brix.Server.Ports.{port_delta, heartbeat}
use brix.Election.{RedundancyManager, Notice, backup_election}
use brix.Election.Heartbeat.{heartbeat_tries}

-- A call that only goes on.
abbrev pub calls : {S A : Type 0} → A × S → Outcome S A
calls (a, t) = goes a t

abbrev pub judged : RedundancyManager → Bool → RedundancyManager × List Notice
judged m true = (m, [])
judged m false = backup_election m

-- What follows a round.
abbrev pub then_rounds :
    {S : Type 0}
    → (RedundancyManager → Sys S (RedundancyManager × List Notice))
    → RedundancyManager × List Notice
    → Sys S (RedundancyManager × List Notice)
then_rounds rounds (e, sent) = do (f, more) ← rounds e; ret (f, sent ++ more)

module _ {S : Type 0} (net : Inet) (os : Os S) where
  -- A successful test returns from within the loop; only the others close the socket.
  abbrev pub finish : ℤ → Bool → Sys S Bool
  finish sockfd true s = goes true s
  finish sockfd false s = goes false (os.close sockfd s)

  abbrev pub probe_all : Bytes → ℤ → ℕ → ℕ → ℤ → Sys S Bool
  probe_all target_ip target_port timeout_ms tries sockfd = do
    set_timeout os sockfd timeout_ms
    alive ← λ s. calls (
        heartbeat_tries net (λ t a text. os.exchange sockfd a text t) tries
          (create_sockaddr net target_ip target_port) s)
    finish sockfd alive

  unfoldable pub heartbeat_test_calls : Bytes → ℤ → ℕ → ℕ → Sys S Bool
  heartbeat_test_calls target_ip target_port timeout_ms tries =
      create_udp_socket os >>= probe_all target_ip target_port timeout_ms tries

  -- A round of `heartbeat_tester_loop`.
  unfoldable pub heartbeat_tester_round_calls :
      ℤ → ℕ → ℕ → RedundancyManager → Sys S (RedundancyManager × List Notice)
  heartbeat_tester_round_calls target_port timeout_ms tries m =
      if m.is_coordinator then ret (m, []) else (do
        alive ← heartbeat_test_calls (net.inet_ntoa m.coordinator_ip) target_port timeout_ms tries
        ret (judged m alive))

  -- So many rounds, with the server's port.
  unfoldable pub heartbeat_tester_loop_calls :
      ℕ → ℕ → RedundancyManager → Sys S (RedundancyManager × List Notice)
  heartbeat_tester_loop_calls port zero m = ret (m, [])
  heartbeat_tester_loop_calls port (suc n) m =
      heartbeat_tester_round_calls (pos (port + port_delta heartbeat)) 10 3 m
      >>= then_rounds (heartbeat_tester_loop_calls port n)
