-- ===== src/Db/Bank.antt =====
-- What the database promises: a bank without threads, mutexes or partial writes. Its state is a
-- snapshot, and each operation is one step to the next state, with the answer.
pub mod Total
pub mod Validity
pub mod Effects
pub mod Opening
use brix.Base.{
  ℕ, ◌+◌, ◌-◌, ◌%◌, ◌^◌, Bool, true, false, Option, none, some, ◌==◌, ltb, if◌then◌else◌, Dict,
  lookup, insert, assign, erase, u32, u64,
}
use brix.Db.State.{
  starting_balance, ClientRecord, StatusCode, success, duplicate_ip, insufficient_balance,
  not_found, unknown_sender, unknown_receiver, balance_check, DbRecordResponse, DbMetadata,
  DbSnapshot, no_client,
}
use brix.Db.Methods.{response, new_client, add_to_int, sub_from_int}

abbrev pub add_balance : ℕ → DbMetadata → DbMetadata
add_balance n m = record m { total_balance = add_to_int m.total_balance n }

abbrev pub take_balance : ℕ → DbMetadata → DbMetadata
take_balance n m = record m { total_balance = sub_from_int m.total_balance n }

abbrev pub count_transfer : ℕ → DbMetadata → DbMetadata
count_transfer n m = record m {
  total_transferred = u32 (m.total_transferred + n);
  num_transactions = add_to_int m.num_transactions 1;
}

unfoldable pub open_account : ℕ → DbSnapshot → DbRecordResponse × DbSnapshot
open_account ip b = elim (lookup ip b.records) [
  | some _ ↦ (response false no_client duplicate_ip, b)
  | none ↦ (
    response true (new_client ip) success,
    record {
      metadata = add_balance starting_balance b.metadata;
      records = insert ip (new_client ip) b.records;
    },
  )
]

-- The sender after a request, and after a payment.
abbrev pub counted : ClientRecord → ClientRecord
counted c = record c { last_request = u32 (c.last_request + 1) }

abbrev pub paid : ℕ → ClientRecord → ClientRecord
paid amount c = record c {
  last_request = u32 (c.last_request + 1);
  balance = u64 (c.balance + 2 ^ 64 - amount);
}

abbrev pub received : ℕ → ClientRecord → ClientRecord
received amount c = record c { balance = u64 (c.balance + amount) }

-- A payment between two different clients that are known.
unfoldable pub pay :
    ℕ → ClientRecord → ℕ → ClientRecord → ℕ → DbSnapshot → DbRecordResponse × DbSnapshot
pay s c r e amount b =
    if ltb c.balance amount
    then (
      response false (counted c) insufficient_balance,
      record b { records = assign s (counted c) b.records },
    )
    else (
      response true (paid amount c) success,
      record {
        metadata = count_transfer amount b.metadata;
        records = assign r (received amount e) (assign s (paid amount c) b.records);
      },
    )

unfoldable pub transact : ℕ → ℕ → ℕ → DbSnapshot → DbRecordResponse × DbSnapshot
transact s r amount b = elim (lookup s b.records) [
  | none ↦ (response false no_client unknown_sender, b)
  | some c ↦
      if amount == 0
      then (response true c balance_check, b)
      else if s == r
      then (response false c duplicate_ip, b)
      else elim (lookup r b.records) [
        | none ↦ (response false c unknown_receiver, b)
        | some e ↦ pay s c r e amount b
      ]
]

unfoldable pub close_account : ℕ → DbSnapshot → DbRecordResponse × DbSnapshot
close_account ip b = elim (lookup ip b.records) [
  | none ↦ (response false no_client not_found, b)
  | some c ↦ (
    response true c success,
    record { metadata = take_balance c.balance b.metadata; records = erase ip b.records },
  )
]

unfoldable pub inquire : ℕ → DbSnapshot → DbRecordResponse × DbSnapshot
inquire ip b = elim (lookup ip b.records) [
  | none ↦ (response false no_client not_found, b)
  | some c ↦ (response true c success, b)
]
