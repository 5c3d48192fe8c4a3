-- ===== src/Election/Contest.antt =====
-- What the announcement and the answer of another server do.
use brix.Base.{
  ℕ, ◌%◌, ◌^◌, ◌<◌, ◌≡◌, ◌≢◌, ◌==◌, refl, ap, true, false, List, [], ◌∷◌, codes, arith, ℤ, pos,
  leb_ℤ,
}
use brix.Election.{
  ElectionState, init, not_in_progress, in_progress, waiting_for_coord, answer, coord_announcement,
  RedundancyManager, Notice, broadcast, silence, arrival, answer_message,
  coord_announcement_message, ss_election_result_switch, handle_arrival, waited,
  answer_max_wait_time, election_round, handle_coordinator_announcement, when_not_in_progress,
  when_in_progress, when_waiting,
}
use brix.Election.Messages.{classify-message, buffer-message}

pub quiet_round :
    (later : ℕ) (m : RedundancyManager)
    → (m.cliaddr % 256 == 127) ≡ false
    → m.state ≡ in_progress
    → leb_ℤ answer_max_wait_time (waited later m) ≡ true
    → let out = election_round later silence m in
      (out.0.state ≡ not_in_progress)
      × (out.0.is_coordinator ≡ true)
      × (out.1 ≡ broadcast (coord_announcement_message m.id) ∷ [])
unfolding election_round handle_arrival ss_election_result_switch
quiet_round later m outside started enough =
    rw (outside, election_round, started, handle_arrival, enough) (refl, refl, refl)

module _ (j : ℕ) (h : j < 2 ^ 32) (src : ℕ) where
  switch_announcement :
      (m : RedundancyManager)
      → j ≢ m.id
      → ss_election_result_switch (arrival src (coord_announcement_message j)) m
        ≡ (coord_announcement, record m { last_received_id = j })
  unfolding ss_election_result_switch
  switch_announcement m ne = rw (
    buffer-message j h (codes "CRD") (record { short = omega arith; non_zero = omega arith }),
    (classify-message j h m.id ne).2,
  )

  switch_answer :
      (m : RedundancyManager)
      → j ≢ m.id
      → ss_election_result_switch (arrival src (answer_message j)) m
        ≡ (answer, record m { last_received_id = j })
  unfolding ss_election_result_switch
  switch_answer m ne = rw (
    buffer-message j h (codes "ANS") (record { short = omega arith; non_zero = omega arith }),
    (classify-message j h m.id ne).1,
  )

  abbrev Followed : ℕ → RedundancyManager × List Notice → Type 0
  Followed ip (m, sent) =
      (m.state ≡ not_in_progress)
      × (m.is_coordinator ≡ false)
      × (m.coordinator_ip ≡ ip)
      × (sent ≡ [])

  module _ (now : ℕ) (m : RedundancyManager) (ne : j ≢ m.id) where
    abbrev heard : ℤ → RedundancyManager
    heard wait = record m { current_wait_time = wait; last_received_id = j }

    idle_hears :
        handle_arrival not_in_progress now (arrival src (coord_announcement_message j)) m
        ≡ handle_coordinator_announcement (heard (pos 0))
    unfolding handle_arrival
    idle_hears =
        ap (λ o. when_not_in_progress o.0 o.1)
          (switch_announcement (record m { current_wait_time = pos 0 }) ne)

    busy_hears :
        handle_arrival in_progress now (arrival src (coord_announcement_message j)) m
        ≡ handle_coordinator_announcement (heard (waited now m))
    unfolding handle_arrival
    busy_hears =
        ap (λ o. when_in_progress o.0 o.1)
          (switch_announcement (record m { current_wait_time = waited now m }) ne)

    waiting_hears :
        handle_arrival waiting_for_coord now (arrival src (coord_announcement_message j)) m
        ≡ handle_coordinator_announcement (heard (pos 0))
    unfolding handle_arrival
    waiting_hears =
        ap (λ o. when_waiting o.0 o.1)
          (switch_announcement (record m { current_wait_time = pos 0 }) ne)

    -- An answer changes nothing but the id that was received.
    answer_ignored :
        handle_arrival in_progress now (arrival src (answer_message j)) m
        ≡ (heard (waited now m), [])
    unfolding handle_arrival
    answer_ignored =
        ap (λ o. when_in_progress o.0 o.1)
          (switch_answer (record m { current_wait_time = waited now m }) ne)

    handle_arrival-Followed :
        (s : ElectionState)
        → s ≢ init
        → Followed m.cliaddr (handle_arrival s now (arrival src (coord_announcement_message j)) m)
    handle_arrival-Followed init started = absurd (started refl)
    handle_arrival-Followed not_in_progress started = rw idle_hears (refl, refl, refl, refl)
    handle_arrival-Followed in_progress started = rw busy_hears (refl, refl, refl, refl)
    handle_arrival-Followed waiting_for_coord started = rw waiting_hears (refl, refl, refl, refl)

  module _ (m : RedundancyManager) (ne : j ≢ m.id) (outside : (src % 256 == 127) ≡ false) where
    -- Behind the first round of its loop, a server takes the announcement of every other server
    -- with an address outside 127.0.0.0/8, whatever the ids are: it stops being the coordinator,
    -- notes the sender's address and sends nothing.
    pub election_round-follows :
        (now : ℕ)
        → m.state ≢ init
        → let out = election_round now (arrival src (coord_announcement_message j)) m in
          (out.0.state ≡ not_in_progress)
          × (out.0.is_coordinator ≡ false)
          × (out.0.coordinator_ip ≡ src)
          × (out.1 ≡ [])
    unfolding election_round
    election_round-follows now started =
        rw (outside, election_round)
          (handle_arrival-Followed now (record m { cliaddr = src }) ne m.state started)

    -- Let a server with an election in progress have the answer of another server, with an address
    -- outside 127.0.0.0/8 and any other id, a higher one too, and then hear nothing at 200 ms or
    -- more of its clock behind the start of its loop: it becomes the coordinator and announces
    -- itself.
    pub election_round_answered :
        (now later : ℕ)
        → m.state ≡ in_progress
        → leb_ℤ answer_max_wait_time (waited later m) ≡ true
        → let m' = (election_round now (arrival src (answer_message j)) m).0 in
          let out = election_round later silence m' in
          (out.0.state ≡ not_in_progress)
          × (out.0.is_coordinator ≡ true)
          × (out.1 ≡ broadcast (coord_announcement_message m.id) ∷ [])
    unfolding election_round
    election_round_answered now later started enough = rw answered (
        quiet_round later
          (heard now (record m { cliaddr = src; state = in_progress }) ne (waited now m)) outside
          refl enough)
      where
        answered :
            election_round now (arrival src (answer_message j)) m
            ≡ (heard now (record m { cliaddr = src; state = in_progress }) ne (waited now m), [])
        answered =
            rw (outside, election_round, started)
              (answer_ignored now (record m { cliaddr = src; state = in_progress }) ne)
