-- ===== src/Db/Threads/Ownership/Payment.antt =====
-- `make_transaction` keeps the money together.
use brix.Base.{
  ℕ, ◌+◌, ◌-◌, ◌≡◌, refl, assign, lookup-assign_known, ◌==◌, Bool, true, false, Option, none, some,
  lookup, arith,
}
use brix.Db.State.{ClientRecord, StatusCode, success, insufficient_balance, unknown_receiver}
use brix.Db.Program.{client, Prog, ret, ◌>>=◌}
use brix.Db.Methods.{
  debit, credit, modify_record, unlock_client, deref, count_request, transfer, find_receiver,
  find_sender, lock_receiver, make_transaction, response,
}
use brix.Db.Bank.Total.{total-assign}
use brix.Db.Threads.Ownership.{
  Registry, View, nothing, taking, giving, Careful, neutral, debits, credits, Keeps, Does,
}
use brix.Db.Threads.Ownership.Calls.{
  assign_through-Careful, unlock-Careful, lock-Careful, find-Careful, deref-Careful,
  record_at-Careful, get_client_info-Careful, weigh-Careful, branch-Careful,
}

count_request-neutral : (k : ℕ) → Does neutral (modify_record k count_request)
unfolding modify_record
count_request-neutral k d = go (lookup k d.database_records) refl
  where
    go :
        (o : Option ClientRecord)
        → lookup k d.database_records ≡ o
        → Keeps d (elim o [
          | none ↦ d
          | some c ↦ record d { database_records = assign k (count_request c) d.database_records }
        ])
    go none e = ((λ j. refl), refl, (λ j. refl))
    go (some c) e = (
      λ j. ground (arith, e, lookup-assign_known j k (count_request c) d.database_records e),
      (let t = total-assign k (count_request c) c d.database_records e in omega arith),
      (λ j. refl),
    )

-- The record of the client is in the answer.
answer-Careful :
    (known : Registry) (v : View) (k : ℕ) (ok : Bool) (code : StatusCode)
    → known.records k ≡ true
    → v.debt ≡ 0
    → Careful known v (deref k >>= λ c. ret (response ok c code))
unfolding Careful
answer-Careful known v k ok code there clear = deref-Careful known v k _ there (λ c. clear)

module _ (known : Registry) (sender receiver amount : ℕ) where
  -- Both clients are given back.
  settle-Careful :
      {A : Type 0} (v : View) (p : Prog A)
      → v.holds sender ≡ true
      → v.holds receiver ≡ true
      → (sender == receiver) ≡ false
      → Careful known (giving (client receiver) (giving (client sender) v)) p
      → Careful known v (unlock_client sender >>= λ _. unlock_client receiver >>= λ _. p)
  settle-Careful v p hs hr apart rest =
      unlock-Careful known v sender _ hs (
        unlock-Careful known (giving (client sender) v) receiver _ (ground (arith, apart, hr)) rest)

  module _ (v : View) (clear : v.debt ≡ 0) (apart : (sender == receiver) ≡ false)
      (hs : v.holds sender ≡ true) (hr : v.holds receiver ≡ true) where
    after : Option (ℕ × ℕ) → ℕ → View
    after c n = record { holds = v.holds; covers = c; debt = n }

    settled : View → View
    settled w = giving (client receiver) (giving (client sender) w)

    -- With both clients found.
    transfer-Careful :
        known.records sender ≡ true
        → known.records receiver ≡ true
        → Careful known v (transfer sender receiver amount)
    unfolding Careful transfer after settled
    transfer-Careful known_sender known_receiver =
        assign_through-Careful known v sender count_request _ neutral known_sender
          (count_request-neutral sender) tt
          (weigh-Careful known v sender _ _ amount known_sender hs
            (settle-Careful (after none v.debt) _ hs hr apart (
              answer-Careful known (settled (after none v.debt)) sender false insufficient_balance
                known_sender clear))
            (assign_through-Careful known (after (some (sender, amount)) v.debt) sender
              (debit amount) _ (debits sender amount) known_sender (λ d. refl) refl
              (assign_through-Careful known (after none (v.debt + amount)) receiver (credit amount)
                _ (credits receiver amount) known_receiver (λ d. refl) (omega arith, known_receiver)
                (settle-Careful (after none (v.debt + amount - amount)) _ hs hr apart (
                  tt,
                  (
                    neutral,
                    (λ d. ((λ k. refl), refl, (λ k. refl))),
                    tt,
                    (
                      neutral,
                      (λ d. ((λ k. refl), refl, (λ k. refl))),
                      tt,
                      (
                        tt,
                        answer-Careful known (settled (after none (v.debt + amount - amount)))
                            sender true success known_sender (omega arith),
                      ),
                    ),
                  ),
                )))))

    find_receiver-Careful :
        known.records sender ≡ true → Careful known v (find_receiver sender receiver amount)
    unfolding find_receiver settled
    find_receiver-Careful known_sender =
        find-Careful known v receiver _ (transfer-Careful known_sender) (
          settle-Careful v _ hs hr apart
            (answer-Careful known (settled v) sender false unknown_receiver known_sender clear))

    find_sender-Careful : Careful known v (find_sender sender receiver amount)
    unfolding find_sender Careful
    find_sender-Careful =
        find-Careful known v sender _ find_receiver-Careful (settle-Careful v _ hs hr apart clear)

  -- With the sender's mutex.
  lock_receiver-Careful :
      (v : View)
      → v.debt ≡ 0
      → (sender == receiver) ≡ false
      → v.holds sender ≡ true
      → Careful known v (lock_receiver sender receiver amount)
  unfolding lock_receiver Careful
  lock_receiver-Careful v clear apart hs =
      lock-Careful known v receiver _
        (
          tt,
          find_sender-Careful (taking (client receiver) v) clear apart (ground (arith, hs))
              (ground arith),
        )
        (get_client_info-Careful known v sender _
          λ r. unlock-Careful known v sender _ hs (tt, clear))

  pub make_transaction-Careful : Careful known nothing (make_transaction sender receiver amount)
  unfolding make_transaction Careful
  make_transaction-Careful = (
    tt,
    lock-Careful known nothing sender _
        (branch-Careful known mine (amount == 0) _ _
          (unlock-Careful known mine sender _ (ground arith)
            (tt, record_at-Careful known (giving (client sender) mine) sender _ refl (λ c. refl)))
          λ _.
            branch-Careful known mine (sender == receiver) _ _
              (unlock-Careful known mine sender _ (ground arith) (
                tt,
                record_at-Careful known (giving (client sender) mine) sender _ refl (λ c. refl),
              ))
              λ apart. lock_receiver-Careful mine refl apart (ground arith))
        (tt, refl),
  )
    where
      mine : View
      mine = taking (client sender) nothing
