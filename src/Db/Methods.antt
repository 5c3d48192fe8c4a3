-- ===== src/Db/Methods.antt =====
-- The methods of server/src/db_manager/db_manager.cpp.
use brix.Base.{
  ℕ, ⊤, ◌+◌, ◌-◌, ◌^◌, Bool, true, false, none, some, ◌==◌, ltb, if◌then◌else◌, lookup, insert,
  assign, erase, u32, u64, ℤ, bits64, int_of_bits,
}
use brix.Db.State.{
  starting_balance, starting_request, ClientRecord, StatusCode, success, duplicate_ip,
  insufficient_balance, not_found, unknown_sender, unknown_receiver, balance_check,
  DbRecordResponse, DbMetadata, DbSnapshot, DbManager, no_client,
}
use brix.Db.Program.{
  database, metadata, client, Prog, ret, throw, fault, acquire, release, read, write, ◌>>=◌, ◌>>◌,
  catch, update_at,
}

abbrev pub lock_database : Prog ⊤
lock_database = acquire database (ret tt)

abbrev pub unlock_database : Prog ⊤
unlock_database = release database (ret tt)

abbrev pub lock_metadata : Prog ⊤
lock_metadata = acquire metadata (ret tt)

abbrev pub unlock_metadata : Prog ⊤
unlock_metadata = release metadata (ret tt)

-- `client_locks.at` throws where there is no mutex.
abbrev pub lock_client : ℕ → Prog ⊤
lock_client ip =
    read λ d. elim (d.client_locks ip) [ none ↦ throw | some _ ↦ acquire (client ip) (ret tt) ]

-- The exception is caught, and only reported.
abbrev pub unlock_client : ℕ → Prog ⊤
unlock_client ip =
    read λ d. elim (d.client_locks ip) [ none ↦ ret tt | some _ ↦ release (client ip) (ret tt) ]

-- `database_records.at(ip)`
abbrev pub record_at : ℕ → Prog ClientRecord
record_at ip = read λ d. elim (lookup ip d.database_records) [ none ↦ throw | some c ↦ ret c ]

-- A read through a pointer to a record, which is undefined once the record is gone.
abbrev pub deref : ℕ → Prog ClientRecord
deref ip = read λ d. elim (lookup ip d.database_records) [ none ↦ fault | some c ↦ ret c ]

-- What a write through such a pointer does to the database.
unfoldable pub modify_record : ℕ → (ClientRecord → ClientRecord) → DbManager → DbManager
modify_record ip f d = elim (lookup ip d.database_records) [
  | none ↦ d
  | some c ↦ record d { database_records = assign ip (f c) d.database_records }
]

-- A write through a pointer to a record, which is undefined once the record is gone.
abbrev pub assign_through : ℕ → (ClientRecord → ClientRecord) → Prog ⊤
assign_through ip f = read λ d. elim (lookup ip d.database_records) [
  | none ↦ fault
  | some _ ↦ write (modify_record ip f) (ret tt)
]

abbrev pub response : Bool → ClientRecord → StatusCode → DbRecordResponse
response ok c code = record { is_success = ok; client = c; status_code = code }

-- `DbManager::get_client_info`, which takes no lock.
unfoldable pub get_client_info : ℕ → Prog DbRecordResponse
get_client_info ip =
    catch (do c ← record_at ip; ret (response true c success))
      (ret (response false no_client not_found))

-- `n` added to an `int`, and taken from it, in `unsigned long`; the result is converted to `int`.
unfoldable pub add_to_int : ℤ → ℕ → ℤ
unfolding bits64 int_of_bits
add_to_int z n = int_of_bits (u32 (u64 (bits64 z + n)))

unfoldable pub sub_from_int : ℤ → ℕ → ℤ
unfolding bits64 int_of_bits
sub_from_int z n = int_of_bits (u32 (u64 (bits64 z + 2 ^ 64 - n)))

abbrev pub new_client : ℕ → ClientRecord
new_client ip = record { ip = ip; balance = starting_balance; last_request = starting_request }

-- `client_locks.insert`: a mutex that is there stays; the result tells whether the new one went in.
abbrev pub insert_mutex : ℕ → Prog Bool
insert_mutex ip = read λ d. elim (d.client_locks ip) [
  | some _ ↦ ret false
  | none ↦
      write (λ e. record e { client_locks = update_at e.client_locks ip (some false) }) (ret true)
]

-- `database_records.insert`
abbrev pub insert_record : ℕ → ClientRecord → Prog Bool
insert_record ip c = read λ d. elim (lookup ip d.database_records) [
  | some _ ↦ ret false
  | none ↦ write (λ e. record e { database_records = insert ip c e.database_records }) (ret true)
]

-- `DbManager::register_client`, from the insertion of the record on. Where the record is there
-- already, the code frees the mutex that it has just put into the map, and then unlocks it.
register_new : ℕ → Prog DbRecordResponse
register_new ip = do
  inserted ← insert_record ip (new_client ip)
  if inserted
      then (do
        unlock_client ip
        lock_database
        write (λ d. record d { total_balance = add_to_int d.total_balance starting_balance })
            (ret tt)
        unlock_database
        c ← deref ip
        ret (response true c success))
      else fault

-- `DbManager::register_client`
unfoldable pub register_client : ℕ → Prog DbRecordResponse
unfolding register_new
register_client ip = do
  lock_database
  fresh ← insert_mutex ip
  lock_client ip
  unlock_database
  if fresh
      then register_new ip
      else (do unlock_client ip; ret (response false no_client duplicate_ip))

abbrev pub count_request : ClientRecord → ClientRecord
count_request c = record c { last_request = u32 (c.last_request + 1) }

abbrev pub debit : ℕ → ClientRecord → ClientRecord
debit amount c = record c { balance = u64 (c.balance + 2 ^ 64 - amount) }

abbrev pub credit : ℕ → ClientRecord → ClientRecord
credit amount c = record c { balance = u64 (c.balance + amount) }

-- `DbManager::make_transaction`, from the test of the balance on.
unfoldable pub transfer : ℕ → ℕ → ℕ → Prog DbRecordResponse
unfolding modify_record add_to_int
transfer sender_ip receiver_ip amount = do
  assign_through sender_ip count_request
  sender ← deref sender_ip
  if ltb sender.balance amount
      then (do
        unlock_client sender_ip
        unlock_client receiver_ip
        c ← deref sender_ip
        ret (response false c insufficient_balance))
      else (do
        assign_through sender_ip (debit amount)
        assign_through receiver_ip (credit amount)
        unlock_client sender_ip
        unlock_client receiver_ip
        lock_metadata
        write (λ d. record d { total_transferred = u32 (d.total_transferred + amount) }) (ret tt)
        write (λ d. record d { num_transactions = add_to_int d.num_transactions 1 }) (ret tt)
        unlock_metadata
        c ← deref sender_ip
        ret (response true c success))

-- The receiver's record, with both clients locked.
unfoldable pub find_receiver : ℕ → ℕ → ℕ → Prog DbRecordResponse
unfolding transfer
find_receiver sender_ip receiver_ip amount = do
  found ← catch (record_at receiver_ip >> ret true) (ret false)
  if found then transfer sender_ip receiver_ip amount else (do
    unlock_client sender_ip
    unlock_client receiver_ip
    sender ← deref sender_ip
    ret (response false sender unknown_receiver))

-- The sender's record, with both clients locked.
unfoldable pub find_sender : ℕ → ℕ → ℕ → Prog DbRecordResponse
unfolding find_receiver
find_sender sender_ip receiver_ip amount = do
  found ← catch (record_at sender_ip >> ret true) (ret false)
  if found then find_receiver sender_ip receiver_ip amount else (do
    unlock_client sender_ip
    unlock_client receiver_ip
    ret (response false no_client unknown_sender))

-- The receiver is locked after the sender, with the database still locked.
unfoldable pub lock_receiver : ℕ → ℕ → ℕ → Prog DbRecordResponse
unfolding find_sender get_client_info
lock_receiver sender_ip receiver_ip amount = do
  locked ← catch (lock_client receiver_ip >> ret true) (ret false)
  if locked then unlock_database >> find_sender sender_ip receiver_ip amount else (do
    sender_info ← get_client_info sender_ip
    unlock_client sender_ip
    unlock_database
    ret (response false sender_info.client unknown_receiver))

-- `DbManager::make_transaction`
unfoldable pub make_transaction : ℕ → ℕ → ℕ → Prog DbRecordResponse
unfolding lock_receiver
make_transaction sender_ip receiver_ip amount = do
  lock_database
  locked ← catch (lock_client sender_ip >> ret true) (ret false)
  if locked
      then if amount == 0
        then (do
          unlock_client sender_ip
          unlock_database
          c ← record_at sender_ip
          ret (response true c balance_check))
        else if sender_ip == receiver_ip
        then (do
          unlock_client sender_ip
          unlock_database
          c ← record_at sender_ip
          ret (response false c duplicate_ip))
        else lock_receiver sender_ip receiver_ip amount
      else (do unlock_database; ret (response false no_client unknown_sender))

-- `DbManager::remove_client`, the end: the mutex is destroyed and leaves the map, under the lock of
-- the database, and the balance leaves the total.
drop_mutex : ℕ → ClientRecord → Prog DbRecordResponse
drop_mutex ip client_copy = read λ d. elim (d.client_locks ip) [
  | none ↦ throw
  | some _ ↦ do
    write (λ e. record e { client_locks = update_at e.client_locks ip none }) (ret tt)
    unlock_database
    lock_database
    write (λ e. record e { total_balance = sub_from_int e.total_balance client_copy.balance })
        (ret tt)
    unlock_database
    ret (response true client_copy success)
]

-- `DbManager::remove_client`, from the erasure of the record on. The lock of the database is taken
-- again while the client is still locked.
erase_client : ℕ → ClientRecord → Prog DbRecordResponse
unfolding drop_mutex
erase_client ip client_copy = read λ d. elim (lookup ip d.database_records) [
  | none ↦ unlock_client ip >> ret (response false no_client not_found)
  | some _ ↦ do
    write (λ e. record e { database_records = erase ip e.database_records }) (ret tt)
    lock_database
    unlock_client ip
    drop_mutex ip client_copy
]

-- `DbManager::remove_client`
unfoldable pub remove_client : ℕ → Prog DbRecordResponse
unfolding erase_client sub_from_int
remove_client ip = do
  lock_database
  locked ← catch (lock_client ip >> ret true) (ret false)
  if locked
      then (do
        unlock_database
        read λ d. elim (lookup ip d.database_records) [
          | none ↦ unlock_client ip >> ret (response false no_client not_found)
          | some c ↦ erase_client ip c
        ])
      else (do unlock_database; ret (response false no_client not_found))

-- `DbManager::get_db_metadata`, which takes no lock.
unfoldable pub get_db_metadata : Prog DbMetadata
get_db_metadata = read λ d. ret (record {
  num_transactions = d.num_transactions;
  total_transferred = d.total_transferred;
  total_balance = d.total_balance;
})

-- `DbManager::get_db_snapshot`, which takes none either: the counters and the records are copied.
unfoldable pub snapshot_of : DbManager → DbSnapshot
snapshot_of d = record {
  metadata = record {
    num_transactions = d.num_transactions;
    total_transferred = d.total_transferred;
    total_balance = d.total_balance;
  };
  records = d.database_records;
}

unfoldable pub get_db_snapshot : Prog DbSnapshot
unfolding snapshot_of
get_db_snapshot = read λ d. ret (snapshot_of d)

-- `DbManager::load_snapshot`: a new mutex for each record, and no lock is taken.
unfoldable pub load_snapshot : DbSnapshot → Prog ⊤
load_snapshot s = do
  write (λ d. record d { client_locks = λ _. none }) (ret tt)
  write
      (λ d. record d {
        client_locks = λ ip. elim (lookup ip s.records) [ none ↦ none | some _ ↦ some false ];
      })
      (ret tt)
  write (λ d. record d { database_records = s.records }) (ret tt)
  write (λ d. record d { num_transactions = s.metadata.num_transactions }) (ret tt)
  write (λ d. record d { total_balance = s.metadata.total_balance }) (ret tt)
  write (λ d. record d { total_transferred = s.metadata.total_transferred }) (ret tt)
