-- ===== src/Db/Refinement.antt =====
-- Run alone, each method does what the bank does, and leaves every mutex free.
use brix.Base.{
  ℕ, ◌≡◌, ◌∙◌, inl, inr, true, false, none, some, ◌==◌, ltb, lookup, assign, arith, IsMap, List,
  Option-cases, Bool-cases, lookup-assign_known, assign-assign, lookup-insert,
}
use brix.Db.State.{ClientRecord, DbRecordResponse, DbSnapshot}
use brix.Db.Program.{Outcome, done, run, Datagram}
use brix.Db.Methods.{
  new_client, make_transaction, register_client, remove_client, get_client_info, modify_record,
}
use brix.Db.Bank.{inquire, open_account, transact, close_account, pay, counted, paid, received}
use brix.Db.Idle.{
  idle_world, free_locks, free_locks-assign, free_locks-insert, free_locks-erase, update_at_twice,
  update_at_back, update_at_back_two,
}

-- A call that answers, and ends in the idle state of the next snapshot.
abbrev pub answers : List Datagram → DbRecordResponse × DbSnapshot → Outcome DbRecordResponse
answers sent (r, b) = done r (idle_world b sent)

-- The last part of a transaction, from the state in which both clients are locked.
module _ (s r a : ℕ) (c e : ClientRecord) (b : DbSnapshot) (sent : List Datagram)
    (hs : lookup s b.records ≡ some c) (hr : lookup r b.records ≡ some e) (ne : (s == r) ≡ false)
    (pays : (a == 0) ≡ false) where
  short_case :
      ltb c.balance a ≡ true
      → run (make_transaction s r a) (idle_world b sent) ≡ answers sent (pay s c r e a b)
  unfolding run make_transaction pay modify_record
  short_case h = ground (
    arith,
    lookup-assign_known s s (counted c) b.records hs,
    free_locks-assign s (counted c) b.records hs,
    update_at_back_two (free_locks b.records) s r (some true) (some false) (some false),
  )

  receiver_after : lookup r (assign s (paid a c) b.records) ≡ some e
  receiver_after = ground (arith, lookup-assign_known r s (paid a c) b.records hs)

  sender_after :
      lookup s (assign r (received a e) (assign s (paid a c) b.records)) ≡ some (paid a c)
  sender_after = ground (
    arith,
    lookup-assign_known s s (paid a c) b.records hs,
    lookup-assign_known s r (received a e) (assign s (paid a c) b.records) receiver_after,
  )

  locks_after :
      free_locks (assign r (received a e) (assign s (paid a c) b.records)) ≡ free_locks b.records
  locks_after =
      free_locks-assign r (received a e) (assign s (paid a c) b.records) receiver_after
      ∙ free_locks-assign s (paid a c) b.records hs

  pay_case :
      ltb c.balance a ≡ false
      → run (make_transaction s r a) (idle_world b sent) ≡ answers sent (pay s c r e a b)
  unfolding run make_transaction pay modify_record
  pay_case h = ground (
    arith,
    lookup-assign_known s s (counted c) b.records hs,
    assign-assign s (counted c) (paid a c) b.records,
    lookup-assign_known s s (paid a c) b.records hs,
    receiver_after,
    sender_after,
    locks_after,
    update_at_back_two (free_locks b.records) s r (some true) (some false) (some false),
  )

module _ (s r a : ℕ) (b : DbSnapshot) (sent : List Datagram) where
  -- A transaction that runs alone answers as the bank does, ends in the bank's next state with
  -- every mutex free, and sends nothing.
  pub make_transaction_lem :
      run (make_transaction s r a) (idle_world b sent) ≡ answers sent (transact s r a b)
  unfolding transact
  make_transaction_lem = elim (Option-cases (lookup s b.records)) [
    | inl unknown ↦ unfold run make_transaction in ground arith
    | inr (c, hs) ↦ elim (Option-cases (lookup r b.records)) [
      | inl unknown ↦
          unfold run make_transaction in
          ground (arith, update_at_back (free_locks b.records) s (some true) (some false))
      | inr (e, hr) ↦ elim (Bool-cases (a == 0)) [
        | inl zero ↦
            unfold run make_transaction in
            ground (arith, update_at_back (free_locks b.records) s (some true) (some false))
        | inr pays ↦ elim (Bool-cases (s == r)) [
          | inl same ↦
              unfold run make_transaction in
              ground (arith, update_at_back (free_locks b.records) s (some true) (some false))
          | inr ne ↦ elim (Bool-cases (ltb c.balance a)) [
            | inl short ↦ ground (arith, short_case s r a c e b sent hs hr ne pays short)
            | inr enough ↦ ground (arith, pay_case s r a c e b sent hs hr ne pays enough)
          ]
        ]
      ]
    ]
  ]

module _ (ip : ℕ) (b : DbSnapshot) (sent : List Datagram) where
  pub register_client_lem :
      run (register_client ip) (idle_world b sent) ≡ answers sent (open_account ip b)
  unfolding run register_client open_account
  register_client_lem = ground (
    arith,
    lookup-insert ip ip (new_client ip) b.records,
    free_locks-insert ip (new_client ip) b.records,
    update_at_twice (free_locks b.records) ip (some true) (some false),
    update_at_twice (free_locks b.records) ip (some false) (some true),
    update_at_back (free_locks b.records) ip (some true) (some false),
  )

  pub remove_client_lem :
      IsMap b.records
      → run (remove_client ip) (idle_world b sent) ≡ answers sent (close_account ip b)
  unfolding run remove_client close_account
  remove_client_lem h = ground (
    arith,
    free_locks-erase ip b.records h,
    update_at_twice (free_locks b.records) ip (some true) (some false),
    update_at_twice (free_locks b.records) ip (some false) none,
    update_at_twice (free_locks b.records) ip (some true) none,
  )

  -- The unlocked read of a client.
  pub get_client_info_lem :
      run (get_client_info ip) (idle_world b sent) ≡ answers sent (inquire ip b)
  unfolding run get_client_info inquire
  get_client_info_lem = ground arith
