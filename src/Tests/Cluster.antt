-- ===== src/Tests/Cluster.antt =====
-- Three servers on one network.
use brix.Base.{ℕ, ◌+◌, ◌*◌, ◌≡◌, refl, ◌⊎◌, true, List, [], ◌∷◌, All, arith, leb_ℤ, ◌-ℤ◌}
use brix.Clock.{get_current_time_ms}
use brix.Net.Dotted.{dotted, dotted_laws}
use brix.Election.{election_round, init}
use brix.Election.Cluster.{
  Cluster, HasAddresses, names, Turn, waits, take_turn, run, Reach, fresh, later,
}
use brix.Election.Cluster.Invariant.{Awaits}
use brix.Election.Cluster.Exclusion.{coordinators-Awaits}
use brix.Election.Cluster.Agreement.{Follows, listeners, run-agrees}
use brix.Tests.Election.{electing}

-- 10.0.0.0, 10.1.0.0 and so on
abbrev address : ℕ → ℕ
address i = 10 + 256 * i

addressed : HasAddresses 3 address
addressed = record {
  small = λ i h. omega arith;
  outside = λ i h. ground arith;
  distinct = λ i j hi hj ne e. ne (omega arith);
}

abbrev ids : ℕ → ℕ
ids = names dotted dotted_laws address

abbrev Reached : Cluster → Type 0
Reached = Reach address 3 ids

-- Every server has been through the first round of its loop.
abbrev begun : List (ℕ × Turn)
begun = (0, waits 1010) ∷ (1, waits 1010) ∷ (2, waits 1010) ∷ []

abbrev at_start : Cluster
at_start = record {
  servers = λ i. record electing {
    id = ids i;
    state = init;
    coordinator_ip = 0;
    start_time = get_current_time_ms 1000;
    cliaddr = 0;
  };
  mailbox = λ i. [];
}

abbrev electing_all : Cluster
electing_all =
    take_turn address 2 (waits 1010)
      (take_turn address 1 (waits 1010) (take_turn address 0 (waits 1010) at_start))

electing_all-Reached : Reached electing_all
electing_all-Reached = later 2 (waits 1010) (omega arith) (
    later 1 (waits 1010) (omega arith)
      (later 0 (waits 1010) (omega arith) (fresh (λ i. 1000) (λ i. electing))))

-- Two of them win before they hear of each other.
abbrev contested : Cluster
contested = take_turn address 1 (waits 1300) (take_turn address 0 (waits 1300) electing_all)

coordinators-Awaits_example : Awaits address ids contested 0 1 ⊎ Awaits address ids contested 1 0
unfolding take_turn election_round leb_ℤ ◌-ℤ◌ get_current_time_ms
coordinators-Awaits_example =
    coordinators-Awaits dotted dotted_laws 3 address addressed
      (later 1 (waits 1300) (omega arith) (later 0 (waits 1300) (omega arith) electing_all-Reached))
      0 1 (omega arith) (omega arith) (λ e. omega arith) refl refl

run-agrees_example :
    let c' =
      run address
        ((1, waits 1300) ∷ listeners 1310 electing_all.mailbox (0 ∷ 2 ∷ []))
        electing_all in
    ((c'.servers 1).is_coordinator ≡ true)
    × All (λ j. Follows (address 1) (c'.servers j)) (0 ∷ 2 ∷ [])
unfolding take_turn election_round leb_ℤ ◌-ℤ◌ get_current_time_ms
run-agrees_example =
    run-agrees dotted dotted_laws 3 address addressed electing_all-Reached 1 1300 1310 (0 ∷ 2 ∷ [])
      (omega arith) refl refl refl (omega arith, (omega arith, tt))
      ((λ e. omega arith), ((λ e. omega arith), tt)) ((((λ e. omega arith), tt)), (tt, tt))
      ((λ e. cc), ((λ e. cc), tt))
