-- ===== src/Election/Leaderless.antt =====
-- Two servers that win the election at the same time, and what their heartbeats make of it.
use brix.Base.{
  ℕ, ◌%◌, ◌^◌, ◌≡◌, ◌≢◌, refl, sym, subst, ◌<◌, ◌==◌, true, false, List, [], ◌∷◌, leb_ℤ,
}
use brix.Net.{Inet, SocketAddress}
use brix.Election.{
  not_in_progress, in_progress, RedundancyManager, Notice, broadcast, silence, arrival,
  coord_announcement_message, waited, answer_max_wait_time, election_round, handle_arrival,
  ss_election_result_switch,
}
use brix.Election.Contest.{election_round-follows}
use brix.Election.Heartbeat.{start_heartbeat_tester_loop}
use brix.Election.Heartbeat.Takeover.{receiver_network, start_heartbeat_tester_loop_alive}

-- A server that has just won.
abbrev winner : ℕ → RedundancyManager → RedundancyManager
winner later m = record m {
  state = not_in_progress;
  is_coordinator = true;
  current_wait_time = waited later m;
}

quiet_round-winner :
    (later : ℕ) (m : RedundancyManager)
    → (m.cliaddr % 256 == 127) ≡ false
    → m.state ≡ in_progress
    → leb_ℤ answer_max_wait_time (waited later m) ≡ true
    → election_round later silence m
      ≡ (winner later m, broadcast (coord_announcement_message m.id) ∷ [])
unfolding election_round handle_arrival ss_election_result_switch
quiet_round-winner later m outside started enough =
    rw (outside, election_round, started, handle_arrival, enough) refl

-- What a server does in a silent round at the time `later`, in a round with the announcement of the
-- server with the id `j` at the address `ip`, and in a test of that server's heartbeat.
abbrev pub StepsDown : Inet → ℕ → SocketAddress → ℕ → ℕ → ℕ → ℕ → ℕ → ℕ → RedundancyManager → Type 0
StepsDown net port source own_ip lost later now j ip m =
    let (m1, sent1) = election_round later silence m in
    let (m2, sent2) = election_round now (arrival ip (coord_announcement_message j)) m1 in
    (m1.is_coordinator ≡ true)
    × (sent1 ≡ broadcast (coord_announcement_message m.id) ∷ [])
    × (m2.is_coordinator ≡ false)
    × (m2.coordinator_ip ≡ ip)
    × (sent2 ≡ [])
    × ((start_heartbeat_tester_loop net (receiver_network source own_ip) port m2 lost).0 ≡ (m2, []))

steps_down :
    (net : Inet) (port : ℕ) (source : SocketAddress) (own_ip lost later now j ip : ℕ)
    (m : RedundancyManager)
    → j < 2 ^ 32
    → j ≢ m.id
    → (ip % 256 == 127) ≡ false
    → (m.cliaddr % 256 == 127) ≡ false
    → m.state ≡ in_progress
    → leb_ℤ answer_max_wait_time (waited later m) ≡ true
    → lost < 3
    → StepsDown net port source own_ip lost later now j ip m
steps_down net port source own_ip lost later now j ip m h ne outside quiet started enough few =
    subst Ends (sym (quiet_round-winner later m quiet started enough)) (
      refl,
      refl,
      follows.1,
      follows.2,
      follows.3,
      start_heartbeat_tester_loop_alive net source own_ip port lost m2 few,
    )
  where
    m2 : RedundancyManager
    m2 = (election_round now (arrival ip (coord_announcement_message j)) (winner later m)).0

    Ends : RedundancyManager × List Notice → Type 0
    Ends (m1, sent1) =
        let (m2', sent2) = election_round now (arrival ip (coord_announcement_message j)) m1 in
        (m1.is_coordinator ≡ true)
        × (sent1 ≡ broadcast (coord_announcement_message m.id) ∷ [])
        × (m2'.is_coordinator ≡ false)
        × (m2'.coordinator_ip ≡ ip)
        × (sent2 ≡ [])
        × ((start_heartbeat_tester_loop net (receiver_network source own_ip) port m2' lost).0
            ≡ (m2', []))

    follows :
        let out = election_round now (arrival ip (coord_announcement_message j)) (winner later m) in
        (out.0.state ≡ not_in_progress)
        × (out.0.is_coordinator ≡ false)
        × (out.0.coordinator_ip ≡ ip)
        × (out.1 ≡ [])
    follows = election_round-follows j h ip (winner later m) ne outside now (λ e. cc)

-- Two servers with different 32-bit ids can win at the same time, and then both give up. Let an
-- election be in progress at both, with the last datagrams and the servers' addresses outside
-- 127.0.0.0/8, and let both hear nothing in a round at 200 ms or more of their clocks behind the start
-- of their loops: both become coordinators and announce themselves. When each then receives the
-- other's announcement, neither is a coordinator any more. Each takes the other for it, whose
-- receiver answers, so that a test of the heartbeat with at most two lost answers calls for no
-- election.
pub election_round_leaderless :
    (net : Inet) (port_a port_b : ℕ) (source_a source_b : SocketAddress) (ip_a ip_b : ℕ)
    (lost_a lost_b later_a later_b now_a now_b : ℕ) (a b : RedundancyManager)
    → a.id < 2 ^ 32
    → b.id < 2 ^ 32
    → a.id ≢ b.id
    → (ip_a % 256 == 127) ≡ false
    → (ip_b % 256 == 127) ≡ false
    → (a.cliaddr % 256 == 127) ≡ false
    → (b.cliaddr % 256 == 127) ≡ false
    → a.state ≡ in_progress
    → b.state ≡ in_progress
    → leb_ℤ answer_max_wait_time (waited later_a a) ≡ true
    → leb_ℤ answer_max_wait_time (waited later_b b) ≡ true
    → lost_a < 3
    → lost_b < 3
    → StepsDown net port_a source_b ip_a lost_a later_a now_a b.id ip_b a
      × StepsDown net port_b source_a ip_b lost_b later_b now_b a.id ip_a b
election_round_leaderless net port_a port_b source_a source_b ip_a ip_b lost_a lost_b later_a
      later_b now_a now_b a b ha hb ne out_a out_b quiet_a quiet_b in_a in_b late_a late_b few_a
      few_b =
    (
      steps_down net port_a source_b ip_a lost_a later_a now_a b.id ip_b a hb (λ e. ne (sym e))
          out_b quiet_a in_a late_a few_a,
      steps_down net port_b source_a ip_b lost_b later_b now_b a.id ip_a b ha ne out_a quiet_b in_b
          late_b few_b,
    )
