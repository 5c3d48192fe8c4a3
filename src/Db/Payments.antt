-- ===== src/Db/Payments.antt =====
-- What `make_transaction` does with money and with request numbers.
use brix.Base.{
  ℕ, ◌+◌, ◌-◌, ◌^◌, ◌≤◌, ◌<◌, ◌≡◌, ◌≢◌, some, lookup, ◌==◌, if◌then◌else◌, arith, sym, ap, ◌∙◌,
  List, true, u32, ◌&&◌,
}
use brix.Db.State.{ClientRecord, DbRecordResponse, DbSnapshot, StatusCode, success}
use brix.Db.Program.{done, run, Datagram}
use brix.Db.Methods.{make_transaction, response}
use brix.Db.Bank.{transact}
use brix.Db.Bank.Total.{total}
use brix.Db.Bank.Validity.{IsValid}
use brix.Db.Bank.Effects.{
  balance_of, request_of, counts, refused_balances, request_numbers, payment, payment-lookup,
  transact-total,
}
use brix.Db.Idle.{idle_world}
use brix.Db.Refinement.{answers, make_transaction_lem}

-- From a valid state whose balances add up to less than 2^64, a transaction ends and leaves their
-- sum as it was, whatever its answer.
pub make_transaction-total :
    (s r a : ℕ) (b : DbSnapshot) (sent : List Datagram)
    → IsValid b
    → total b.records < 2 ^ 64
    → (resp : DbRecordResponse) × (b' : DbSnapshot) × (run
          (make_transaction s r a)
          (idle_world b sent)
        ≡ done resp (idle_world b' sent))
      × (total b'.records ≡ total b.records)
make_transaction-total s r a b sent v bounded =
    (_, _, make_transaction_lem s r a b sent, transact-total s r a b v bounded)

-- In a valid state whose balances add up to less than 2^64, a positive amount that the sender's
-- balance covers goes from the sender to another registered client: the balances change by exactly
-- the amount, the sender's request number goes up by one in 32 bits, the answer holds the sender's
-- new record, and no third client is touched.
pub make_transaction_pays :
    (s r a : ℕ) (c e : ClientRecord) (b : DbSnapshot) (sent : List Datagram)
    → IsValid b
    → lookup s b.records ≡ some c
    → lookup r b.records ≡ some e
    → s ≢ r
    → 0 < a
    → a ≤ c.balance
    → total b.records < 2 ^ 64
    → let c' : ClientRecord = record c {
      balance = c.balance - a;
      last_request = u32 (c.last_request + 1);
    } in
      let e' : ClientRecord = record e { balance = e.balance + a } in
      (b' : DbSnapshot) × (run (make_transaction s r a) (idle_world b sent)
        ≡ done (response true c' success) (idle_world b' sent))
      × ((k : ℕ)
          → lookup k b'.records
            ≡ (if k == s then some c' else if k == r then some e' else lookup k b.records))
make_transaction_pays s r a c e b sent v hs hr ne positive enough bounded = (
  _,
  make_transaction_lem s r a b sent
      ∙ ap (answers sent) (payment s r a c e b v hs hr ne positive enough bounded),
  payment-lookup s r a c e b v hs hr ne positive enough bounded,
)

-- The outcome of a run determines the answer and the snapshot.
answers_unique :
    (r r' : DbRecordResponse) (b b' : DbSnapshot) (sent : List Datagram)
    → done r (idle_world b sent) ≡ done r' (idle_world b' sent)
    → (r ≡ r') × (b ≡ b')
answers_unique r r' b b' sent h = ground arith

module _ (s r a : ℕ) (b : DbSnapshot) (sent : List Datagram) (resp : DbRecordResponse)
    (b' : DbSnapshot)
    (ends : run (make_transaction s r a) (idle_world b sent) ≡ done resp (idle_world b' sent)) where
  outcome : ((transact s r a b).0 ≡ resp) × ((transact s r a b).1 ≡ b')
  outcome = answers_unique _ _ _ _ sent (sym (make_transaction_lem s r a b sent) ∙ ends)

  -- A transaction that ends with any other answer than `SUCCESS` leaves every balance as it was.
  pub make_transaction_refused :
      resp.status_code ≢ success → (k : ℕ) → balance_of k b' ≡ balance_of k b
  make_transaction_refused refused k =
      rw (← outcome.1)
        (refused_balances s r a b (λ e. refused (ap status_code_of (sym outcome.0) ∙ e)) k)
    where
      status_code_of : DbRecordResponse → StatusCode
      status_code_of x = x.status_code

  -- The request number of a client goes up by one, in 32 bits, if the client is the sender and the
  -- answer is `SUCCESS` or `INSUFFICIENT_BALANCE`; otherwise it stays.
  pub make_transaction_numbers :
      (k n : ℕ)
      → request_of k b ≡ some n
      → request_of k b' ≡ some (if (k == s) && counts resp.status_code then u32 (n + 1) else n)
  make_transaction_numbers k n known =
      rw (← outcome.1, ← outcome.0) (request_numbers s r a b k n known)
