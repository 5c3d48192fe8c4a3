-- ===== src/Db/Bank/Effects.antt =====
-- What a transaction does to each client, and what it leaves alone.
use brix.Base.{
  ℕ, ◌+◌, ◌-◌, ◌^◌, ◌≤◌, ◌<◌, ◌≡◌, ◌≢◌, none, some, lookup, assign, arith, ◌==◌, if◌then◌else◌,
  Option, Bool, true, false, lookup-assign_known, inl, inr, Option-cases, u32, ◌&&◌,
}
use brix.Db.State.{ClientRecord, DbSnapshot, StatusCode, success, insufficient_balance}
use brix.Db.Methods.{response}
use brix.Db.Bank.{count_transfer, transact, pay, counted, paid, received}
use brix.Db.Bank.Total.{total, total-assign, balance-le-total}
use brix.Db.Bank.Validity.{IsValid, AllFit-lookup, receiver_after, transact-IsValid}

-- The balance of a client, if it is registered.
abbrev pub balance_of : ℕ → DbSnapshot → Option ℕ
balance_of k b = elim (lookup k b.records) [ none ↦ none | some c ↦ some c.balance ]

abbrev pub request_of : ℕ → DbSnapshot → Option ℕ
request_of k b = elim (lookup k b.records) [ none ↦ none | some c ↦ some c.last_request ]

-- The transactions that use up a request number.
abbrev pub counts : StatusCode → Bool
counts success = true
counts insufficient_balance = true
counts _ = false

module _ (s r a : ℕ) (b : DbSnapshot) where
  -- A refused or empty transaction moves no money.
  pub refused_balances :
      (transact s r a b).0.status_code ≢ success
      → (k : ℕ) → balance_of k (transact s r a b).1 ≡ balance_of k b
  unfolding transact pay
  refused_balances h k = elim (Option-cases (lookup s b.records)) [
    | inl unknown ↦ ground arith
    | inr (c, hs) ↦ ground (arith, lookup-assign_known k s (counted c) b.records hs)
  ]

  -- The request number of a client moves only if it is the sender of a transaction that got as far
  -- as the test of the balance, and then by one.
  pub request_numbers :
      (k : ℕ) (n : ℕ)
      → request_of k b ≡ some n
      → request_of k (transact s r a b).1
        ≡ some (if (k == s) && counts (transact s r a b).0.status_code then u32 (n + 1) else n)
  unfolding transact pay
  request_numbers k n h = elim (Option-cases (lookup s b.records)) [
    | inl unknown ↦ ground arith
    | inr (c, hs) ↦ elim (Option-cases (lookup r b.records)) [
      | inl unknown ↦ ground arith
      | inr (e, hr) ↦ ground (
        arith,
        lookup-assign_known k s (counted c) b.records hs,
        lookup-assign_known k s (paid a c) b.records hs,
        receiver_after s r a c e b hs hr,
        lookup-assign_known k r (received a e) {w = e} (assign s (paid a c) b.records),
      )
    ]
  ]

-- A payment that the balance covers.
module _ (s r a : ℕ) (c e : ClientRecord) (b : DbSnapshot) (v : IsValid b)
    (hs : lookup s b.records ≡ some c) (hr : lookup r b.records ≡ some e) (ne : s ≢ r)
    (positive : 0 < a) (enough : a ≤ c.balance) (bounded : total b.records < 2 ^ 64) where
  pub receiver_fits : e.balance + a < 2 ^ 64
  receiver_fits = omega (
    arith,
    total-assign s (paid a c) c b.records hs,
    balance-le-total r e (assign s (paid a c) b.records)
        (receiver_after s r a c e b hs hr (ground arith)),
    (AllFit-lookup s c b.records v.fit hs).balance,
  )

  -- What the payment makes of the two clients.
  abbrev pub sender_paid : ClientRecord
  sender_paid = record c { balance = c.balance - a; last_request = u32 (c.last_request + 1) }

  abbrev pub receiver_paid : ClientRecord
  receiver_paid = record e { balance = e.balance + a }

  pub payment : transact s r a b ≡ (
    response true sender_paid success,
    record {
      metadata = count_transfer a b.metadata;
      records = assign r receiver_paid (assign s sender_paid b.records);
    },
  )
  unfolding transact pay
  payment = ground (arith, receiver_fits, (AllFit-lookup s c b.records v.fit hs).balance)

  pub payment-lookup :
      (k : ℕ)
      → lookup k (assign r receiver_paid (assign s sender_paid b.records)) ≡ (
          if k == s
          then some sender_paid
          else if k == r
          then some receiver_paid
          else lookup k b.records)
  payment-lookup k = ground (
    arith,
    lookup-assign_known k s sender_paid b.records hs,
    lookup-assign_known r s sender_paid b.records hs,
    lookup-assign_known k r receiver_paid {w = e} (assign s sender_paid b.records),
  )

-- No transaction makes money or loses any.
pub transact-total :
    (s r a : ℕ) (b : DbSnapshot)
    → IsValid b
    → total b.records < 2 ^ 64
    → total (transact s r a b).1.records ≡ total b.records
unfolding transact pay
transact-total s r a b v bounded = elim (Option-cases (lookup s b.records)) [
  | inl unknown ↦ ground arith
  | inr (c, hs) ↦ elim (Option-cases (lookup r b.records)) [
    | inl unknown ↦ ground arith
    | inr (e, hr) ↦ ground (
      arith,
      (AllFit-lookup s c b.records v.fit hs).balance,
      total-assign s (counted c) c b.records hs,
      total-assign s (paid a c) c b.records hs,
      balance-le-total r e (assign s (paid a c) b.records),
      total-assign r (received a e) e (assign s (paid a c) b.records),
      receiver_after s r a c e b hs hr,
    )
  ]
]

-- The state after a payment, as the next one finds it.
pub record Paid (s r : ℕ) (c e : ClientRecord) (b b' : DbSnapshot) : Type 0 where
  pub sender_after : lookup s b'.records ≡ some c
  pub receiver_now : lookup r b'.records ≡ some e
  pub valid : IsValid b'
  pub same_total : total b'.records ≡ total b.records

pub transact-Paid :
    (s r a : ℕ) (c e : ClientRecord) (b : DbSnapshot)
    → IsValid b
    → lookup s b.records ≡ some c
    → lookup r b.records ≡ some e
    → s ≢ r
    → 0 < a
    → a ≤ c.balance
    → total b.records < 2 ^ 64
    → Paid s r
        (record c { balance = c.balance - a; last_request = u32 (c.last_request + 1) })
        (record e { balance = e.balance + a })
        b
        (transact s r a b).1
transact-Paid s r a c e b v hs hr ne positive enough bounded = record {
  sender_after = rw moved (ground (arith, found s));
  receiver_now = rw moved (ground (arith, found r));
  valid = transact-IsValid s r a b v;
  same_total = transact-total s r a b v bounded;
}
  where
    moved : transact s r a b ≡ (
      response true (sender_paid s r a c e b v hs hr ne positive enough bounded) success,
      record {
        metadata = count_transfer a b.metadata;
        records =
            assign r
              (receiver_paid s r a c e b v hs hr ne positive enough bounded)
              (assign s (sender_paid s r a c e b v hs hr ne positive enough bounded) b.records);
      },
    )
    moved = payment s r a c e b v hs hr ne positive enough bounded

    found :
        (k : ℕ)
        → lookup k (
            assign r
              (receiver_paid s r a c e b v hs hr ne positive enough bounded)
              (assign s (sender_paid s r a c e b v hs hr ne positive enough bounded) b.records))
          ≡ (if k == s
              then some (sender_paid s r a c e b v hs hr ne positive enough bounded)
              else if k == r
              then some (receiver_paid s r a c e b v hs hr ne positive enough bounded)
              else lookup k b.records)
    found = payment-lookup s r a c e b v hs hr ne positive enough bounded
