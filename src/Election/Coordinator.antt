-- ===== src/Election/Coordinator.antt =====
-- Who becomes the coordinator, and who stops being it.
use brix.Base.{
  inl, inr, Bool-cases, ℕ, ◌%◌, ◌≡◌, ◌≢◌, ◌==◌, refl, Bool, true, false, Option, none, some, List,
  [], ◌∷◌, arith, Bytes, take, pos, leb_ℤ,
}
use brix.Server.{c_string}
use brix.Election.{
  heard_from, ElectionState, init, not_in_progress, in_progress, waiting_for_coord,
  ElectionSwitchResult, other, election, answer, coord_announcement, timeout, RedundancyManager,
  Notice, broadcast, Arrival, silence, arrival, coord_announcement_message,
  ss_election_result_switch, classify, waited, answer_max_wait_time, handle_arrival, election_round,
  peer, when_in_progress, when_waiting, when_not_in_progress,
}

-- A datagram's kind is one of four, and reading it changes the last id only.
classify-timeout : (id : ℕ) (buffer : Bytes) → (classify id buffer).0 ≢ timeout
unfolding classify
classify-timeout id buffer = ground arith

-- No message makes a coordinator.
not_in_progress-stays :
    (k : ElectionSwitchResult) (m : RedundancyManager)
    → m.is_coordinator ≡ false
    → (when_not_in_progress k m).0.is_coordinator ≡ false
not_in_progress-stays other m h = h
not_in_progress-stays election m h = ground arith
not_in_progress-stays answer m h = h
not_in_progress-stays coord_announcement m h = refl
not_in_progress-stays timeout m h = h

in_progress-stays :
    (k : ElectionSwitchResult) (m : RedundancyManager)
    → k ≢ timeout
    → m.is_coordinator ≡ false
    → (when_in_progress k m).0.is_coordinator ≡ false
in_progress-stays other m n h = h
in_progress-stays election m n h = ground arith
in_progress-stays answer m n h = h
in_progress-stays coord_announcement m n h = refl
in_progress-stays timeout m n h = absurd (n refl)

waiting-stays :
    (k : ElectionSwitchResult) (m : RedundancyManager)
    → m.is_coordinator ≡ false
    → (when_waiting k m).0.is_coordinator ≡ false
waiting-stays other m h = h
waiting-stays election m h = h
waiting-stays answer m h = ground arith
waiting-stays coord_announcement m h = refl
waiting-stays timeout m h = h

module _ (src : ℕ) (payload : Bytes) (m : RedundancyManager) (h : m.is_coordinator ≡ false) where
  switch-stays : (ss_election_result_switch (arrival src payload) m).1.is_coordinator ≡ false
  unfolding ss_election_result_switch
  switch-stays = heard (classify m.id (c_string (take 128 payload))).1
    where
      heard : (sender : Option ℕ) → (heard_from sender m).is_coordinator ≡ false
      heard none = h
      heard (some n) = h

  switch-timeout : (ss_election_result_switch (arrival src payload) m).0 ≢ timeout
  unfolding ss_election_result_switch
  switch-timeout = classify-timeout m.id (c_string (take 128 payload))

heard-stays :
    (s : ElectionState) (now src : ℕ) (payload : Bytes) (m : RedundancyManager)
    → m.is_coordinator ≡ false
    → (handle_arrival s now (arrival src payload) m).0.is_coordinator ≡ false
unfolding handle_arrival
heard-stays init now src payload m h = refl
heard-stays not_in_progress now src payload m h =
    not_in_progress-stays
      (ss_election_result_switch (arrival src payload) (record m { current_wait_time = pos 0 })).0
      (ss_election_result_switch (arrival src payload) (record m { current_wait_time = pos 0 })).1
      (switch-stays src payload (record m { current_wait_time = pos 0 }) h)
heard-stays in_progress now src payload m h =
    in_progress-stays
      (ss_election_result_switch (arrival src payload)
        (record m { current_wait_time = waited now m })).0
      (ss_election_result_switch (arrival src payload)
        (record m { current_wait_time = waited now m })).1
      (switch-timeout src payload (record m { current_wait_time = waited now m }) h)
      (switch-stays src payload (record m { current_wait_time = waited now m }) h)
heard-stays waiting_for_coord now src payload m h =
    waiting-stays
      (ss_election_result_switch (arrival src payload) (record m { current_wait_time = pos 0 })).0
      (ss_election_result_switch (arrival src payload) (record m { current_wait_time = pos 0 })).1
      (switch-stays src payload (record m { current_wait_time = pos 0 }) h)

-- What a promotion looks like.
abbrev Promotes :
    ℕ → Arrival → RedundancyManager → ElectionState → RedundancyManager × List Notice → Type 0
Promotes now a m s out =
    (s ≡ in_progress)
    × (a ≡ silence)
    × (leb_ℤ answer_max_wait_time (waited now m) ≡ true)
    × (out.1 ≡ broadcast (coord_announcement_message m.id) ∷ [])
    × (out.0.state ≡ not_in_progress)

handle_arrival-Promotes :
    (s : ElectionState) (now : ℕ) (a : Arrival) (m : RedundancyManager)
    → m.is_coordinator ≡ false
    → (handle_arrival s now a m).0.is_coordinator ≡ true
    → Promotes now a m s (handle_arrival s now a m)
unfolding handle_arrival ss_election_result_switch
handle_arrival-Promotes s now (arrival src payload) m h t =
    absurd (true-false (heard-stays s now src payload m h) t)
  where
    true-false : {x : Bool} → x ≡ false → x ≡ true → ⊥
    true-false p q = cc
handle_arrival-Promotes in_progress now silence m h t = ground arith
handle_arrival-Promotes init now silence m h t = absurd (cc)
handle_arrival-Promotes not_in_progress now silence m h t = absurd (cc)
handle_arrival-Promotes waiting_for_coord now silence m h t = absurd (cc)

-- A server becomes the coordinator in a round only if an election is in progress, nothing arrives, and
-- by its clock at least 200 ms have passed since the loop began; it then announces itself to all.
pub election_round-promotes :
    (now : ℕ) (a : Arrival) (m : RedundancyManager)
    → m.is_coordinator ≡ false
    → (election_round now a m).0.is_coordinator ≡ true
    → (m.state ≡ in_progress)
      × (a ≡ silence)
      × (leb_ℤ answer_max_wait_time (waited now m) ≡ true)
      × ((election_round now a m).1 ≡ broadcast (coord_announcement_message m.id) ∷ [])
      × ((election_round now a m).0.state ≡ not_in_progress)
unfolding election_round
election_round-promotes now a m before after = elim (Bool-cases ((peer a m.cliaddr) % 256 == 127)) [
  | inl loopback ↦ absurd (unmoved before (rw (loopback, election_round) at after))
  | inr heard ↦
      rw (heard, election_round)
        (handle_arrival-Promotes m.state now a (record m { cliaddr = peer a m.cliaddr }) before
          (rw (heard, election_round) at after))
]
  where
    unmoved : {x : Bool} → x ≡ false → x ≡ true → ⊥
    unmoved p q = cc
