-- ===== src/Tests/Election.antt =====
-- The state machine of the election, at a server with the id 5.
use brix.Base.{◌≡◌, refl, false, true, [], ◌∷◌, ◌++◌, ◌+◌, arith, pos, leb_ℤ, ◌-ℤ◌}
use brix.Clock.{get_current_time_ms}
use brix.Election.{
  RedundancyManager, in_progress, not_in_progress, broadcast, silence, arrival, election_message,
  answer_message, coord_announcement_message, election_round, waited, answer_max_wait_time,
}
use brix.Election.Coordinator.{election_round-promotes}
use brix.Election.Loop.{silent_rounds, single_socket_election, single_socket_election_alone}
use brix.Election.Overflow.{election_round_overflow}
use brix.Election.Contest.{election_round-follows, election_round_answered}

abbrev pub electing : RedundancyManager
electing = record {
  id = 5;
  state = in_progress;
  is_coordinator = false;
  in_standby_mode = false;
  coordinator_ip = 0;
  last_received_id = 0;
  start_time = pos 1000;
  current_wait_time = pos 0;
  cliaddr = 0;
}

abbrev coordinator : RedundancyManager
coordinator = record electing { state = not_in_progress; is_coordinator = true }

promoted : (election_round 1200 silence electing).0.is_coordinator ≡ true
unfolding election_round leb_ℤ ◌-ℤ◌ get_current_time_ms
promoted = refl

election_round-promotes_example :
    (in_progress ≡ in_progress)
    × (silence ≡ silence)
    × (leb_ℤ answer_max_wait_time (waited 1200 electing) ≡ true)
    × ((election_round 1200 silence electing).1 ≡ broadcast (coord_announcement_message 5) ∷ [])
    × ((election_round 1200 silence electing).0.state ≡ not_in_progress)
election_round-promotes_example = election_round-promotes 1200 silence electing refl promoted

election_round-follows_example :
    let out = election_round 9000 (arrival 7 (coord_announcement_message 3)) coordinator in
    (out.0.state ≡ not_in_progress)
    × (out.0.is_coordinator ≡ false)
    × (out.0.coordinator_ip ≡ 7)
    × (out.1 ≡ [])
election_round-follows_example =
    election_round-follows 3 (omega arith) 7 coordinator (omega arith) refl 9000 (λ e. cc)

election_round_answered_example :
    let m' = (election_round 1050 (arrival 7 (answer_message 9)) electing).0 in
    let out = election_round 1200 silence m' in
    (out.0.state ≡ not_in_progress)
    × (out.0.is_coordinator ≡ true)
    × (out.1 ≡ broadcast (coord_announcement_message 5) ∷ [])
unfolding leb_ℤ ◌-ℤ◌ get_current_time_ms
election_round_answered_example =
    election_round_answered 9 (omega arith) 7 electing (omega arith) refl 1050 1200 refl refl

single_socket_election_alone_example :
    let out =
      single_socket_election 1000 (silent_rounds (1010 ∷ (1100 ∷ [] ++ 1300 ∷ []))) electing in
    (out.0.is_coordinator ≡ true)
    × (out.0.state ≡ not_in_progress)
    × (out.1 ≡ broadcast (election_message 5) ∷ broadcast (coord_announcement_message 5) ∷ [])
single_socket_election_alone_example =
    single_socket_election_alone 1000 300 1010 (1100 ∷ []) electing (omega arith) (omega arith)
      (λ _. omega arith)

-- The loop starts one second before the clock passes the largest `int`.
abbrev overflowing : RedundancyManager
overflowing = record electing { start_time = pos 2147482648 }

-- Five seconds later nothing has arrived.
election_round_overflow_example :
    (election_round (2147482648 + 5000) silence overflowing).0.is_coordinator ≡ false
unfolding get_current_time_ms
election_round_overflow_example =
    election_round_overflow 2147482648 5000 silence overflowing refl (omega arith) (omega arith)
      (omega arith) refl
