-- ===== src/Db/Threads/Deadlock.antt =====
-- `remove_client` takes the lock of the database while it holds the client's; `make_transaction`
-- takes them in the other order.
use brix.Base.{◌≡◌, ℕ, some, lookup, List, [], ◌∷◌, arith}
use brix.Db.State.{ClientRecord, DbSnapshot, DbRecordResponse}
use brix.Db.Program.{Datagram}
use brix.Db.Methods.{make_transaction, remove_client}
use brix.Db.Idle.{idle_world}
use brix.Db.Threads.{
  Pair, Turn, left_turn, right_turn, schedule, IsDeadlock, waits, schedule-IsDeadlock,
}

-- A client leaves while it sends a transfer: one thread serves its KIL packet, one its REQ packet.
abbrev pub leaving_and_sending :
    ℕ → ℕ → ℕ → DbSnapshot → List Datagram → Pair DbRecordResponse DbRecordResponse
leaving_and_sending ip r a b sent = record {
  world = idle_world b sent;
  left = remove_client ip;
  right = make_transaction ip r a;
}

-- The removal gets as far as the erased record, then the transaction takes the database.
abbrev pub crossing : List Turn
crossing =
    left_turn ∷ left_turn ∷ left_turn ∷ left_turn ∷ left_turn ∷ left_turn ∷ left_turn ∷ right_turn
    ∷ right_turn ∷ []

crossing-IsDeadlock :
    (ip r a : ℕ) (c : ClientRecord) (b : DbSnapshot) (sent : List Datagram)
    → lookup ip b.records ≡ some c
    → IsDeadlock (schedule crossing (leaving_and_sending ip r a b sent))
unfolding schedule waits make_transaction remove_client
crossing-IsDeadlock ip r a c b sent known = record {
  left_waits = ground arith;
  right_waits = ground arith;
}

-- For every registered client there is an order of steps after which the removal of the client and
-- a transaction that it sends both wait for a mutex, and no further step of either changes that.
pub remove_client-make_transaction-IsDeadlock :
    (ip r a : ℕ) (c : ClientRecord) (b : DbSnapshot) (sent : List Datagram)
    → lookup ip b.records ≡ some c
    → (ts : List Turn) × IsDeadlock (schedule ts (leaving_and_sending ip r a b sent))
      × ((more : List Turn)
          → schedule more (schedule ts (leaving_and_sending ip r a b sent))
            ≡ schedule ts (leaving_and_sending ip r a b sent))
remove_client-make_transaction-IsDeadlock ip r a c b sent known =
    let stuck = crossing-IsDeadlock ip r a c b sent known in
    (crossing, stuck, λ more. schedule-IsDeadlock more _ stuck)
