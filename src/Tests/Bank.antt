-- ===== src/Tests/Bank.antt =====
-- A bank with two clients, and the calls of the database on it.
use brix.Base.{
  ℕ, ◌≡◌, ◌≢◌, refl, some, List, [], ◌∷◌, arith, pos, true, false, lookup, assign, bits32, ◌==◌,
  if◌then◌else◌, IsMap,
}
use brix.Db.State.{
  ClientRecord, DbRecordResponse, DbSnapshot, success, insufficient_balance, new_db,
}
use brix.Db.Program.{run, done}
use brix.Db.Methods.{add_to_int, make_transaction, response}
use brix.Db.Bank.{transact, pay}
use brix.Db.Bank.Total.{total}
use brix.Db.Bank.Validity.{IsValid}
use brix.Db.Bank.Effects.{request_of}
use brix.Db.Idle.{idle_world, idle}
use brix.Db.Refinement.{make_transaction_lem}
use brix.Db.Calls.{Call, register, remove, info, transaction, perform, perform-IsValid}
use brix.Db.Payments.{make_transaction-total, make_transaction_pays, make_transaction_numbers}

abbrev pub alice : ClientRecord
alice = record { ip = 1; balance = 100000; last_request = 0 }

abbrev pub bob : ClientRecord
bob = record { ip = 2; balance = 70; last_request = 4 }

abbrev pub bank : DbSnapshot
bank = record {
  metadata = record {
    num_transactions = pos 3;
    total_transferred = 250;
    total_balance = pos 100070;
  };
  records = (1, alice) ∷ (2, bob) ∷ [];
}

abbrev after_payment : DbSnapshot
after_payment = record {
  metadata = record {
    num_transactions = pos 4;
    total_transferred = 280;
    total_balance = pos 100070;
  };
  records =
      (1, record alice { balance = 99970; last_request = 1 })
      ∷ (2, record bob { balance = 100 })
      ∷ [];
}

abbrev after_refusal : DbSnapshot
after_refusal = record bank { records = (1, alice) ∷ (2, record bob { last_request = 5 }) ∷ [] }

-- The database starts as the empty bank.
new_db-idle :
    new_db
    ≡ idle (record {
      metadata = record { num_transactions = pos 0; total_transferred = 0; total_balance = pos 0 };
      records = [];
    })
unfolding lookup
new_db-idle = refl

payment_run :
    run (make_transaction 1 2 30) (idle_world bank [])
    ≡ done
        (response true (record alice { balance = 99970; last_request = 1 }) success)
        (idle_world after_payment [])
unfolding transact pay lookup assign add_to_int
payment_run = make_transaction_lem 1 2 30 bank []

refusal_run :
    run (make_transaction 2 1 80) (idle_world bank [])
    ≡ done
        (response false (record bob { last_request = 5 }) insufficient_balance)
        (idle_world after_refusal [])
unfolding transact pay lookup assign
refusal_run = make_transaction_lem 2 1 80 bank []

pub bank-IsMap : IsMap bank.records
unfolding lookup
bank-IsMap = (refl, (refl, tt))

pub bank-IsValid : IsValid bank
unfolding bits32
bank-IsValid = record { once = bank-IsMap; fit = omega arith; counted = refl }

abbrev history : List Call
history = register 3 ∷ transaction 1 3 500 ∷ remove 1 ∷ transaction 3 2 100001 ∷ info 9 ∷ []

perform-IsValid_example :
    (rs : List DbRecordResponse) × (b' : DbSnapshot) × (run (perform history) (idle_world bank [])
      ≡ done rs (idle_world b' []))
    × IsValid b'
perform-IsValid_example = perform-IsValid history bank [] (omega arith) bank-IsValid

make_transaction-total_example :
    (resp : DbRecordResponse) × (b' : DbSnapshot) × (run
        (make_transaction 1 2 30)
        (idle_world bank [])
      ≡ done resp (idle_world b' []))
    × (total b'.records ≡ 100070)
make_transaction-total_example = make_transaction-total 1 2 30 bank [] bank-IsValid (omega arith)

make_transaction_pays_example :
    (b' : DbSnapshot) × (run (make_transaction 1 2 30) (idle_world bank [])
      ≡ done
          (response true (record alice { balance = 99970; last_request = 1 }) success)
          (idle_world b' []))
    × ((k : ℕ)
        → lookup k b'.records ≡ (
            if k == 1
            then some (record alice { balance = 99970; last_request = 1 })
            else if k == 2
            then some (record bob { balance = 100 })
            else lookup k bank.records))
unfolding lookup
make_transaction_pays_example =
    make_transaction_pays 1 2 30 alice bob bank [] bank-IsValid refl refl (omega arith)
      (omega arith) (omega arith) (omega arith)

not-success : insufficient_balance ≢ success
not-success = λ e. cc

make_transaction_numbers_example : request_of 2 after_refusal ≡ some 5
unfolding lookup
make_transaction_numbers_example =
    make_transaction_numbers 2 1 80 bank []
      (response false (record bob { last_request = 5 }) insufficient_balance) after_refusal
      refusal_run 2 4 refl
