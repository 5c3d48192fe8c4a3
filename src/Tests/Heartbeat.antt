-- ===== src/Tests/Heartbeat.antt =====
-- The heartbeat of a coordinator that is silent, and two servers that step down.
use brix.Base.{⊤, ◌≡◌, refl, true, Option, none, [], ◌∷◌, Bytes, arith, leb_ℤ, ◌-ℤ◌}
use brix.Clock.{get_current_time_ms}
use brix.Net.{SocketAddress}
use brix.Net.Dotted.{dotted}
use brix.Election.{
  RedundancyManager, not_in_progress, broadcast, silence, election_message,
  coord_announcement_message, election_round,
}
use brix.Election.Heartbeat.{start_heartbeat_tester_loop}
use brix.Election.Heartbeat.Takeover.{start_heartbeat_tester_loop_takeover}
use brix.Election.Leaderless.{StepsDown, election_round_leaderless}
use brix.Tests.Election.{electing}

abbrev unplugged : ⊤ → SocketAddress → Bytes → Option (SocketAddress × Bytes) × ⊤
unplugged s to text = (none, s)

abbrev follower : RedundancyManager
follower = record electing { state = not_in_progress; coordinator_ip = 117440522 }

start_heartbeat_tester_loop_takeover_example :
    let (called, t) = start_heartbeat_tester_loop dotted unplugged 4000 follower tt in
    let out = election_round 1200 silence called.0 in
    (called.1 ≡ broadcast (election_message 5) ∷ [])
    × (out.0.is_coordinator ≡ true)
    × (out.0.state ≡ not_in_progress)
    × (out.1 ≡ broadcast (coord_announcement_message 5) ∷ [])
unfolding leb_ℤ ◌-ℤ◌ get_current_time_ms
start_heartbeat_tester_loop_takeover_example =
    start_heartbeat_tester_loop_takeover dotted unplugged 4000 follower tt refl 1200 (λ k l. refl)
      refl refl

-- The heartbeat receivers of 10.0.0.7 and 10.0.0.9, and a second server.
abbrev receiver_a : SocketAddress
receiver_a = record { ip = 117440522; port = 41487 }

abbrev receiver_b : SocketAddress
receiver_b = record { ip = 150994954; port = 41487 }

abbrev rival : RedundancyManager
rival = record electing { id = 9 }

election_round_leaderless_example :
    StepsDown dotted 4000 receiver_b 117440522 0 1200 1210 9 150994954 electing
    × StepsDown dotted 4000 receiver_a 150994954 2 1203 1210 5 117440522 rival
unfolding leb_ℤ ◌-ℤ◌ get_current_time_ms
election_round_leaderless_example =
    election_round_leaderless dotted 4000 4000 receiver_a receiver_b 117440522 150994954 0 2 1200
      1203 1210 1210 electing rival (omega arith) (omega arith) (omega arith) refl refl refl refl
      refl refl refl refl (omega arith) (omega arith)
