-- ===== src/Election/Overflow.antt =====
-- The election's clock past its largest value.
use brix.Base.{
  refl, ℕ, ◌+◌, ◌%◌, ◌^◌, ◌≤◌, ◌<◌, ◌≡◌, Bool, Bool-cases, inl, inr, true, false, leb_ℤ,
}
use brix.Clock.{get_current_time_ms, elapsed_wrapped}
use brix.Election.{RedundancyManager, Arrival, waited, answer_max_wait_time, election_round}
use brix.Election.Coordinator.{election_round-promotes}

-- Let the clock pass a largest `int` between the start of the loop and a round that comes less than
-- 2^32 ms (49 days) after the start. Then the round makes no server the coordinator, whatever
-- arrives, however long it has waited: the time that has passed counts as negative.
pub election_round_overflow :
    (start d : ℕ) (a : Arrival) (m : RedundancyManager)
    → m.start_time ≡ get_current_time_ms start
    → start % 2 ^ 32 < 2 ^ 31
    → 2 ^ 31 ≤ start % 2 ^ 32 + d
    → d < 2 ^ 32
    → m.is_coordinator ≡ false
    → (election_round (start + d) a m).0.is_coordinator ≡ false
unfolding leb_ℤ
election_round_overflow start d a m started low past short before =
    elim (Bool-cases (election_round (start + d) a m).0.is_coordinator) [
      | inl promoted ↦
          absurd (never is_early (election_round-promotes (start + d) a m before promoted).2)
      | inr stays ↦ stays
    ]
  where
    is_early : leb_ℤ answer_max_wait_time (waited (start + d) m) ≡ false
    is_early = rw (started, elapsed_wrapped start d low past short) refl

    never : {x : Bool} → x ≡ false → x ≡ true → ⊥
    never p q = cc
