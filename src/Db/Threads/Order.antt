-- ===== src/Db/Threads/Order.antt =====
-- When a thread takes its mutexes in an order in which no two threads can wait for each other: the
-- locks of the database and of the metadata with nothing in its hands, a client only under the lock
-- of the database.
pub mod Calls
pub mod Payment
pub mod Locks
pub mod Turns
pub mod Progress
use brix.Base.{
  ⊤, ℕ, ◌≡◌, refl, sym, subst, fun_ext, ap, ◌∙◌, ◌==◌, Bool, true, false, Option, none, some,
  if◌then◌else◌, ◌||◌, arith, lookup, ltb,
}
use brix.Db.State.{
  ClientRecord, DbManager, DbRecordResponse, StatusCode, success, not_found, no_client,
  insufficient_balance, unknown_receiver, unknown_sender, balance_check, duplicate_ip,
}
use brix.Db.Program.{
  Mutex, database, metadata, client, Prog, ret, throw, fault, acquire, release, read, write, send,
  is_held, ◌>>=◌, ◌>>◌, catch,
}
use brix.Db.Methods.{
  modify_record, count_request, debit, credit, unlock_client, lock_client, record_at, deref,
  get_client_info, response, transfer, find_receiver, find_sender, lock_receiver, make_transaction,
}

abbrev pub same : Mutex → Mutex → Bool
same database database = true
same metadata metadata = true
same (client j) (client k) = j == k
same _ _ = false

abbrev pub with_mutex : Mutex → Bool → (Mutex → Bool) → Mutex → Bool
with_mutex m b h n = if same m n then b else h n

abbrev pub IsFree : (Mutex → Bool) → Type 0
IsFree h = (n : Mutex) → h n ≡ false

-- A mutex that may be taken is not in the thread's own hands.
abbrev pub InOrder : (Mutex → Bool) → Mutex → Type 0
InOrder h database = IsFree h
InOrder h metadata = IsFree h
InOrder h (client k) = (h database ≡ true) × (h metadata ≡ false) × (h (client k) ≡ false)

-- A write leaves every mutex as it is.
unfoldable pub Ordered : {A : Type 0} → (Mutex → Bool) → Prog A → Type 0
Ordered h (ret a) = IsFree h
Ordered h throw = IsFree h
Ordered h fault = ⊤
Ordered h (acquire m p) = InOrder h m × Ordered (with_mutex m true h) p
Ordered h (release m p) = (h m ≡ true) × Ordered (with_mutex m false h) p
Ordered h (read g) =
    (d : DbManager) → ((n : Mutex) → h n ≡ true → is_held n d ≡ some true) → Ordered h (g d)
Ordered h (write f p) = ((d : DbManager) (n : Mutex) → is_held n (f d) ≡ is_held n d) × Ordered h p
Ordered h (send g p) = Ordered h p
