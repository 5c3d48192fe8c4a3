-- ===== src/Election/Cluster.antt =====
-- Any number of servers on one network, each in the loop of `single_socket_election`, with the
-- heartbeat's thread beside it. The servers take turns in any order, each by its own clock. The
-- network may delay a datagram, deliver it out of order, or lose it, and may bring a server any
-- datagram from outside.
mod Mail
mod Rounds
pub mod Invariant
pub mod Exclusion
pub mod Agreement
use brix.Base.{
  ℕ, zero, suc, ◌%◌, ◌^◌, ◌≢◌, false, ◌<◌, ◌==◌, ◌≡◌, Option, none, some, List, [], ◌∷◌, ◌++◌,
  Bytes, get_elem?, if◌then◌else◌,
}
use brix.Net.{Inet, InetLaws}
use brix.Election.Identity.{own_id}
use brix.Election.{
  RedundancyManager, Notice, broadcast, to_peer, database_update, Arrival, silence, arrival,
  backup_election, election_round,
}
use brix.Election.Loop.{start_loop}

-- A datagram with the address that it comes from.
abbrev pub Datagram : Type 0
Datagram = ℕ × Bytes

-- The servers, and what was sent to each and has not been received by it: what is on its way, and
-- what got lost. A server that takes no turn is
-- not there.
pub record Cluster : Type 0 where
  pub servers : ℕ → RedundancyManager
  pub mailbox : ℕ → List Datagram

abbrev pub update : {A : Type 0} → (ℕ → A) → ℕ → A → ℕ → A
update f i a j = if i == j then a else f j

abbrev pub remove : {A : Type 0} → List A → ℕ → List A
remove [] k = []
remove (x ∷ xs) zero = xs
remove (x ∷ xs) (suc k) = x ∷ remove xs k

-- The server takes one datagram out of its mailbox.
abbrev pub taken : ℕ → ℕ → Cluster → Cluster
taken i k c = record c { mailbox = update c.mailbox i (remove (c.mailbox i) k) }

-- What comes to the server with the address `own` when one with the address `src` sends these. A
-- broadcast reaches the sender too. The snapshots go to another port.
unfoldable pub posted : ℕ → ℕ → List Notice → List Datagram
posted src own [] = []
posted src own (broadcast text ∷ sent) = (src, text) ∷ posted src own sent
posted src own (to_peer ip text ∷ sent) =
    (if ip == own then (src, text) ∷ [] else []) ++ posted src own sent
posted src own (database_update ∷ sent) = posted src own sent

-- The servers below `n` have different 32-bit addresses outside 127.0.0.0/8.
pub record HasAddresses (n : ℕ) (ip : ℕ → ℕ) : Type 0 where
  pub small : (i : ℕ) → i < n → ip i < 2 ^ 32
  pub outside : (i : ℕ) → i < n → (ip i % 256 == 127) ≡ false
  pub distinct : (i j : ℕ) → i < n → j < n → i ≢ j → ip i ≢ ip j

-- The ids of servers with these addresses.
abbrev pub names : (net : Inet) → InetLaws net → (ℕ → ℕ) → ℕ → ℕ
names net laws ip i = own_id net (laws.text (ip i))

-- What a server does in a turn.
pub data Turn : Type 0 where
  -- The program starts, or starts anew; its members are those of the given object.
  starts : ℕ → RedundancyManager → Turn
  -- A round of the loop at a time of the clock: with a datagram of its mailbox, with any datagram
  -- from outside, or with none.
  receives : ℕ → ℕ → Turn
  hears : ℕ → Datagram → Turn
  waits : ℕ → Turn
  -- The heartbeat's thread calls for an election.
  misses : Turn

module _ (ip : ℕ → ℕ) where
  -- The server takes on its new state and sends.
  unfoldable pub commit : ℕ → RedundancyManager × List Notice → Cluster → Cluster
  unfolding posted
  commit i (m, sent) c = record {
    servers = update c.servers i m;
    mailbox = λ j. c.mailbox j ++ posted (ip i) (ip j) sent;
  }

  abbrev pub received : ℕ → ℕ → ℕ → Option Datagram → Cluster → Cluster
  received i now k none c = c
  received i now k (some (src, text)) c =
      commit i (election_round now (arrival src text) (c.servers i)) (taken i k c)

  unfoldable pub take_turn : ℕ → Turn → Cluster → Cluster
  unfolding commit
  take_turn i (starts now m) c = record c {
    servers = update c.servers i (start_loop now (record m { id = (c.servers i).id }));
  }
  take_turn i (receives now k) c = received i now k (get_elem? (c.mailbox i) k) c
  take_turn i (hears now (src, text)) c =
      commit i (election_round now (arrival src text) (c.servers i)) c
  take_turn i (waits now) c = commit i (election_round now silence (c.servers i)) c
  take_turn i misses c = commit i (backup_election (c.servers i)) c

  -- A schedule: who takes which turn.
  unfoldable pub run : List (ℕ × Turn) → Cluster → Cluster
  unfolding take_turn
  run [] c = c
  run ((i, t) ∷ schedule) c = run schedule (take_turn i t c)

  -- What a schedule of turns of the servers below `n` leads to, if each of them is about to start.
  pub data Reach (n : ℕ) (name : ℕ → ℕ) : Cluster → Type 0 where
    fresh :
        (times : ℕ → ℕ) (members : ℕ → RedundancyManager)
        → Reach n name (record {
          servers = λ i. start_loop (times i) (record (members i) { id = name i });
          mailbox = λ i. [];
        })
    later :
        {c : Cluster} (i : ℕ) (t : Turn) → i < n → Reach n name c → Reach n name (take_turn i t c)
