-- ===== src/Election/Cluster/Rounds.antt =====
-- What one turn does to the server that takes it.
use brix.Base.{
  ℕ, ◌%◌, ◌^◌, ◌<◌, ◌==◌, ◌≡◌, ◌≢◌, refl, ◌∙◌, ◌⊎◌, inl, inr, Bool-cases, true, false, Option, none,
  some, [], ◌∷◌, take, arith, pos,
}
use brix.Server.{c_string}
use brix.Election.{
  ElectionState, init, not_in_progress, in_progress, waiting_for_coord, ElectionSwitchResult, other,
  election, answer, coord_announcement, timeout, RedundancyManager, broadcast, Arrival, silence,
  arrival, peer, heard_from, coord_announcement_message, classify, ss_election_result_switch,
  when_not_in_progress, when_in_progress, when_waiting, waited, handle_arrival, election_round,
}
use brix.Election.Coordinator.{election_round-promotes}
use brix.Election.Contest.{election_round-follows}

module _ (m : RedundancyManager) where
  switch-id : (a : Arrival) → (ss_election_result_switch a m).1.id ≡ m.id
  unfolding ss_election_result_switch
  switch-id silence = refl
  switch-id (arrival src payload) = heard (classify m.id (c_string (take 128 payload))).1
    where
      heard : (sender : Option ℕ) → (heard_from sender m).id ≡ m.id
      heard none = refl
      heard (some n) = refl

  idle-id : (k : ElectionSwitchResult) → (when_not_in_progress k m).0.id ≡ m.id
  idle-id election = ground arith
  idle-id coord_announcement = refl
  idle-id other = refl
  idle-id answer = refl
  idle-id timeout = refl

  busy-id : (k : ElectionSwitchResult) → (when_in_progress k m).0.id ≡ m.id
  busy-id election = ground arith
  busy-id timeout = ground arith
  busy-id coord_announcement = refl
  busy-id other = refl
  busy-id answer = refl

  waiting-id : (k : ElectionSwitchResult) → (when_waiting k m).0.id ≡ m.id
  waiting-id answer = ground arith
  waiting-id coord_announcement = refl
  waiting-id other = refl
  waiting-id election = refl
  waiting-id timeout = refl

handle_arrival-id :
    (s : ElectionState) (now : ℕ) (a : Arrival) (m : RedundancyManager)
    → (handle_arrival s now a m).0.id ≡ m.id
unfolding handle_arrival
handle_arrival-id init now a m = refl
handle_arrival-id not_in_progress now a m =
    let heard = ss_election_result_switch a (record m { current_wait_time = pos 0 }) in
    idle-id heard.1 heard.0 ∙ switch-id (record m { current_wait_time = pos 0 }) a
handle_arrival-id in_progress now a m =
    let heard = ss_election_result_switch a (record m { current_wait_time = waited now m }) in
    busy-id heard.1 heard.0 ∙ switch-id (record m { current_wait_time = waited now m }) a
handle_arrival-id waiting_for_coord now a m =
    let heard = ss_election_result_switch a (record m { current_wait_time = pos 0 }) in
    waiting-id heard.1 heard.0 ∙ switch-id (record m { current_wait_time = pos 0 }) a

-- A server keeps its id.
pub election_round-id :
    (now : ℕ) (a : Arrival) (m : RedundancyManager) → (election_round now a m).0.id ≡ m.id
unfolding election_round
election_round-id now a m = elim (Bool-cases ((peer a m.cliaddr) % 256 == 127)) [
  | inl loopback ↦ rw (loopback, election_round) refl
  | inr heard ↦
      rw (heard, election_round)
        (handle_arrival-id m.state now a (record m { cliaddr = peer a m.cliaddr }))
]

-- A coordinator behind a round was one before, or has announced itself in the round.
pub election_round-announces :
    (now : ℕ) (a : Arrival) (m : RedundancyManager)
    → (election_round now a m).0.is_coordinator ≡ true
    → (m.is_coordinator ≡ true)
      ⊎ ((election_round now a m).1 ≡ broadcast (coord_announcement_message m.id) ∷ [])
election_round-announces now a m after = elim (Bool-cases m.is_coordinator) [
  | inl before ↦ inl before
  | inr before ↦ inr (election_round-promotes now a m before after).3
]

-- A server that receives the announcement of another one is no coordinator, in the first round of its
-- loop too.
pub election_round-yields :
    (j : ℕ)
    → j < 2 ^ 32
    → (src now : ℕ) (m : RedundancyManager) → j ≢ m.id
    → (src % 256 == 127) ≡ false
    → (election_round now (arrival src (coord_announcement_message j)) m).0.is_coordinator ≡ false
unfolding election_round handle_arrival
election_round-yields j h src now m ne outside = by_state m.state refl
  where
    by_state :
        (s : ElectionState)
        → m.state ≡ s
        → (election_round now (arrival src (coord_announcement_message j)) m).0.is_coordinator
          ≡ false
    by_state init e = rw (outside, e, election_round) refl
    by_state not_in_progress e = (election_round-follows j h src m ne outside now (λ f. cc)).1
    by_state in_progress e = (election_round-follows j h src m ne outside now (λ f. cc)).1
    by_state waiting_for_coord e = (election_round-follows j h src m ne outside now (λ f. cc)).1
