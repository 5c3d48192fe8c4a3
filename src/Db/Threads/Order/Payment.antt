-- ===== src/Db/Threads/Order/Payment.antt =====
-- `make_transaction` keeps to the order.
use brix.Base.{
  ℕ, ◌≡◌, refl, sym, subst, fun_ext, ap, ◌==◌, Bool, true, false, some, ◌||◌, arith, ltb,
}
use brix.Db.State.{
  DbManager, StatusCode, success, insufficient_balance, unknown_receiver, balance_check,
  duplicate_ip,
}
use brix.Db.Program.{Mutex, database, metadata, client, Prog, ret, release, is_held, ◌>>=◌}
use brix.Db.Methods.{
  count_request, debit, credit, unlock_client, record_at, deref, response, transfer, find_receiver,
  find_sender, lock_receiver, make_transaction,
}
use brix.Db.Threads.Order.{same, with_mutex, IsFree, Ordered}
use brix.Db.Threads.Order.Calls.{
  assign_through-Ordered, unlock-Ordered, lock-Ordered, find-Ordered, deref-Ordered,
  record_at-Ordered, get_client_info-Ordered, branch-Ordered,
}

-- The mutexes of two clients.
abbrev both : ℕ → ℕ → Mutex → Bool
both sender receiver n = same (client sender) n || same (client receiver) n

is_held-same :
    (e d : DbManager)
    → e.database_access_lock ≡ d.database_access_lock
    → e.database_metadata_lock ≡ d.database_metadata_lock
    → e.client_locks ≡ d.client_locks
    → (n : Mutex) → is_held n e ≡ is_held n d
is_held-same e d a b c database = ap some a
is_held-same e d a b c metadata = ap some b
is_held-same e d a b c (client k) = ap (λ f. f k) c

module _ (sender receiver amount : ℕ) (apart : (sender == receiver) ≡ false) where
  settled : Mutex → Bool
  settled =
      with_mutex (client receiver) false (with_mutex (client sender) false (both sender receiver))

  settled-IsFree : IsFree settled
  unfolding settled
  settled-IsFree database = refl
  settled-IsFree metadata = refl
  settled-IsFree (client k) = ground arith

  settle-Ordered :
      {A : Type 0} (p : Prog A)
      → Ordered settled p
      → Ordered
          (both sender receiver)
          (unlock_client sender >>= λ _. unlock_client receiver >>= λ _. p)
  unfolding settled
  settle-Ordered p rest = unlock-Ordered (both sender receiver) sender _ (ground arith) (
      unlock-Ordered (with_mutex (client sender) false (both sender receiver)) receiver _
        (ground (arith, apart)) rest)

  answer-Ordered :
      (h : Mutex → Bool) (ok : Bool) (code : StatusCode)
      → IsFree h
      → Ordered h (deref sender >>= λ c. ret (response ok c code))
  unfolding Ordered
  answer-Ordered h ok code free = deref-Ordered h sender _ (λ c. free)

  counting : Mutex → Bool
  counting = with_mutex metadata false (with_mutex metadata true settled)

  counting-IsFree : IsFree counting
  unfolding counting
  counting-IsFree database = settled-IsFree database
  counting-IsFree metadata = refl
  counting-IsFree (client k) = settled-IsFree (client k)

  transfer-Ordered : Ordered (both sender receiver) (transfer sender receiver amount)
  unfolding Ordered transfer settled counting
  transfer-Ordered = assign_through-Ordered (both sender receiver) sender count_request _ (
      deref-Ordered (both sender receiver) sender _ λ c.
        branch-Ordered (both sender receiver) (ltb c.balance amount) _ _
          (settle-Ordered _ (answer-Ordered settled false insufficient_balance settled-IsFree))
          (λ _. assign_through-Ordered (both sender receiver) sender (debit amount) _ (
            assign_through-Ordered (both sender receiver) receiver (credit amount) _ (
              settle-Ordered _ (
                settled-IsFree,
                (
                  (λ d. is_held-same _ d refl refl refl),
                  (
                    (λ d. is_held-same _ d refl refl refl),
                    (refl, answer-Ordered counting true success counting-IsFree),
                  ),
                ),
              )))))

  find_receiver-Ordered : Ordered (both sender receiver) (find_receiver sender receiver amount)
  unfolding find_receiver
  find_receiver-Ordered = find-Ordered (both sender receiver) receiver _ λ found.
      branch-Ordered (both sender receiver) found _ _ transfer-Ordered
        (λ _. settle-Ordered _ (answer-Ordered settled false unknown_receiver settled-IsFree))

  find_sender-Ordered : Ordered (both sender receiver) (find_sender sender receiver amount)
  unfolding find_sender Ordered
  find_sender-Ordered = find-Ordered (both sender receiver) sender _ λ found.
      branch-Ordered (both sender receiver) found _ _ find_receiver-Ordered
        (λ _. settle-Ordered _ settled-IsFree)

module _ (sender receiver amount : ℕ) where
  abbrev inside : Mutex → Bool
  inside = with_mutex (client sender) true (with_mutex database true (λ _. false))

  both_locked :
      (n : Mutex)
      → with_mutex database false (with_mutex (client receiver) true inside) n
        ≡ both sender receiver n
  both_locked database = refl
  both_locked metadata = refl
  both_locked (client k) = ground arith

  outside : Mutex → Bool
  outside = with_mutex database false (with_mutex (client sender) false inside)

  outside-IsFree : IsFree outside
  unfolding outside
  outside-IsFree database = refl
  outside-IsFree metadata = refl
  outside-IsFree (client k) = ground arith

  lock_receiver-Ordered :
      (sender == receiver) ≡ false → Ordered inside (lock_receiver sender receiver amount)
  unfolding lock_receiver Ordered outside
  lock_receiver-Ordered apart =
      lock-Ordered inside receiver _ (refl, refl, ground (arith, apart))
        (
          refl,
          subst (λ h. Ordered h (find_sender sender receiver amount)) (sym (fun_ext both_locked))
              (find_sender-Ordered sender receiver amount apart),
        )
        (get_client_info-Ordered inside sender _
          λ r. unlock-Ordered inside sender _ (ground arith) (refl, outside-IsFree))

  -- Neither an amount of 0 nor a transfer to oneself locks a second client.
  early-Ordered :
      (ok : Bool) (code : StatusCode)
      → Ordered inside (
          unlock_client sender >>= λ _.
          release database (record_at sender >>= λ c. ret (response ok c code)))
  unfolding Ordered outside
  early-Ordered ok code =
      unlock-Ordered inside sender _ (ground arith)
        (refl, record_at-Ordered outside sender _ outside-IsFree (λ c. outside-IsFree))

  pub make_transaction-Ordered : Ordered (λ _. false) (make_transaction sender receiver amount)
  unfolding make_transaction Ordered
  make_transaction-Ordered = (
    (λ n. refl),
    lock-Ordered (with_mutex database true (λ _. false)) sender _ (refl, refl, refl)
        (branch-Ordered inside (amount == 0) _ _ (early-Ordered true balance_check) λ _.
          branch-Ordered inside (sender == receiver) _ _ (early-Ordered false duplicate_ip)
            lock_receiver-Ordered)
        (refl, unlocked),
  )
    where
      unlocked : IsFree (with_mutex database false (with_mutex database true (λ _. false)))
      unlocked database = refl
      unlocked metadata = refl
      unlocked (client k) = refl
