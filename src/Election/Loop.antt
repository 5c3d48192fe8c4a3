-- ===== src/Election/Loop.antt =====
-- The loop of `single_socket_election` from its start, and a server that is alone on its network.
use brix.Base.{
  ℕ, ◌+◌, ◌≡◌, refl, sym, ap, subst, Bool-cases, inl, inr, true, false, List, [], ◌∷◌, ◌++◌, arith,
  pos, ℤ, leb_ℤ, ◌<◌, ◌≤◌, ◌^◌, ◌%◌,
}
use brix.Clock.{get_current_time_ms, elapsed_whole}
use brix.Election.{
  init, not_in_progress, in_progress, RedundancyManager, Notice, broadcast, Arrival, silence,
  election_message, coord_announcement_message, waited, answer_max_wait_time, election_round,
}

-- `RedundancyManager::init`, and `single_socket_election` up to its loop.
abbrev pub start_loop : ℕ → RedundancyManager → RedundancyManager
start_loop now m = record m {
  is_coordinator = false;
  in_standby_mode = false;
  cliaddr = 0;
  state = init;
  current_wait_time = pos 0;
  start_time = get_current_time_ms now;
}

-- The rounds of the loop, each with the time of the clock and what arrives.
unfoldable pub election_rounds :
    List (ℕ × Arrival) → RedundancyManager → RedundancyManager × List Notice
election_rounds [] m = (m, [])
election_rounds ((now, a) ∷ rounds) m =
    let (e, sent) = election_round now a m in
    let (f, more) = election_rounds rounds e in (f, sent ++ more)

unfoldable pub single_socket_election :
    ℕ → List (ℕ × Arrival) → RedundancyManager → RedundancyManager × List Notice
unfolding election_rounds
single_socket_election now rounds m = election_rounds rounds (start_loop now m)

abbrev pub silent_rounds : List ℕ → List (ℕ × Arrival)
silent_rounds [] = []
silent_rounds (now ∷ times) = (now, silence) ∷ silent_rounds times

-- The states of a server that hears nothing.
abbrev candidate : ℕ → ℤ → RedundancyManager → RedundancyManager
candidate start wait m = record (start_loop start m) {
  state = in_progress;
  current_wait_time = wait;
}

abbrev leader : ℕ → ℤ → RedundancyManager → RedundancyManager
leader start wait m = record (start_loop start m) {
  state = not_in_progress;
  is_coordinator = true;
  current_wait_time = wait;
}

abbrev Leads : List Notice → RedundancyManager × List Notice → Type 0
Leads notices (m, sent) = (m.is_coordinator ≡ true) × (m.state ≡ not_in_progress) × (sent ≡ notices)

module _ (start : ℕ) (m : RedundancyManager) where
  abbrev announcement : List Notice
  announcement = broadcast (coord_announcement_message m.id) ∷ []

  early_round :
      (now : ℕ) (wait : ℤ)
      → leb_ℤ answer_max_wait_time (waited now (start_loop start m)) ≡ false
      → election_round now silence (candidate start wait m)
        ≡ (candidate start (waited now (start_loop start m)) m, [])
  unfolding election_round
  early_round now wait early = rw early refl

  late_round :
      (now : ℕ) (wait : ℤ)
      → leb_ℤ answer_max_wait_time (waited now (start_loop start m)) ≡ true
      → election_round now silence (candidate start wait m)
        ≡ (leader start (waited now (start_loop start m)) m, announcement)
  unfolding election_round
  late_round now wait late = rw late refl

  leader_round :
      (now : ℕ) (wait : ℤ)
      → election_round now silence (leader start wait m) ≡ (leader start (pos 0) m, [])
  unfolding election_round
  leader_round now wait = refl

  -- What follows a round.
  abbrev continued :
      List (ℕ × Arrival) → RedundancyManager × List Notice → RedundancyManager × List Notice
  continued rounds (e, sent) = let (f, more) = election_rounds rounds e in (f, sent ++ more)

  leader_rounds :
      (times : List ℕ) (wait : ℤ)
      → Leads [] (election_rounds (silent_rounds times) (leader start wait m))
  unfolding election_rounds
  leader_rounds [] wait = (refl, refl, refl)
  leader_rounds (now ∷ times) wait =
      subst (λ o. Leads [] (continued (silent_rounds times) o)) (sym (leader_round now wait))
        (leader_rounds times (pos 0))

  -- The candidate waits until a round is late enough.
  candidate_rounds :
      (times : List ℕ) (last : ℕ) (wait : ℤ)
      → leb_ℤ answer_max_wait_time (waited last (start_loop start m)) ≡ true
      → Leads announcement
          (election_rounds (silent_rounds (times ++ last ∷ [])) (candidate start wait m))
  unfolding election_rounds
  candidate_rounds [] last wait late = rw (late_round last wait late) (refl, refl, refl)
  candidate_rounds (now ∷ times) last wait late =
      elim (Bool-cases (leb_ℤ answer_max_wait_time (waited now (start_loop start m)))) [
        | inl enough ↦
            let l = leader_rounds (times ++ last ∷ []) (waited now (start_loop start m)) in
            subst (λ o. Leads announcement (continued (silent_rounds (times ++ last ∷ [])) o))
              (sym (late_round now wait enough)) (l.0, l.1, ap (λ sent. announcement ++ sent) l.2)
        | inr early ↦
            subst (λ o. Leads announcement (continued (silent_rounds (times ++ last ∷ [])) o))
              (sym (early_round now wait early))
              (candidate_rounds times last (waited now (start_loop start m)) late)
      ]

-- A server that hears nothing from the start of its loop asks for an election once, and announces
-- itself once: after its first round, and any others, a round at 200 ms or more behind the start
-- leaves it the coordinator. The last round has to come less than 2^31 ms after the start, and the
-- clock must not pass a largest `int` in between.
pub single_socket_election_alone :
    (start d first : ℕ) (times : List ℕ) (m : RedundancyManager)
    → 200 ≤ d
    → d < 2 ^ 31
    → (start % 2 ^ 32 < 2 ^ 31 → start % 2 ^ 32 + d < 2 ^ 31)
    → let out =
        single_socket_election start (silent_rounds (first ∷ (times ++ (start + d) ∷ []))) m in
      (out.0.is_coordinator ≡ true)
      × (out.0.state ≡ not_in_progress)
      × (out.1
          ≡ broadcast (election_message m.id) ∷ broadcast (coord_announcement_message m.id) ∷ [])
unfolding single_socket_election leb_ℤ election_round
single_socket_election_alone start d first times m enough short whole =
    let late : leb_ℤ answer_max_wait_time (waited (start + d) (start_loop start m)) ≡ true =
      rw (elapsed_whole start d short whole) (ground arith) in
    let l = candidate_rounds start m times (start + d) (pos 0) late in
    (l.0, l.1, ap (λ sent. broadcast (election_message m.id) ∷ sent) l.2)
