-- ===== src/Db/Idle.antt =====
-- The states of the database between two calls, with every mutex free.
use brix.Base.{
  ℕ, Bool, false, Option, none, some, Dict, lookup, insert, assign, erase, IsMap,
  lookup-assign_known, lookup-insert, lookup-erase, ap, List, ◌≡◌, fun_ext, arith,
}
use brix.Db.State.{ClientRecord, DbSnapshot, DbManager}
use brix.Db.Program.{World, Datagram, update_at}
use brix.Db.Methods.{snapshot_of}

-- A free mutex for each registered client.
abbrev pub free_locks : Dict ClientRecord → ℕ → Option Bool
free_locks records ip = elim (lookup ip records) [ none ↦ none | some _ ↦ some false ]

-- The database that holds a snapshot, with every mutex free.
abbrev pub idle : DbSnapshot → DbManager
idle b = record {
  client_locks = free_locks b.records;
  database_access_lock = false;
  database_metadata_lock = false;
  database_records = b.records;
  total_transferred = b.metadata.total_transferred;
  num_transactions = b.metadata.num_transactions;
  total_balance = b.metadata.total_balance;
}

abbrev pub idle_world : DbSnapshot → List Datagram → World
idle_world b sent = record { db = idle b; sent = sent }

-- No mutex is held, and the clients with a mutex are the registered ones.
pub record IsIdle (d : DbManager) : Type 0 where
  pub access_free : d.database_access_lock ≡ false
  pub metadata_free : d.database_metadata_lock ≡ false
  pub locks_free : (ip : ℕ) → d.client_locks ip ≡ free_locks d.database_records ip

-- Such a state is given by its snapshot.
pub IsIdle-eq : (d : DbManager) → IsIdle d → d ≡ idle (snapshot_of d)
unfolding snapshot_of
IsIdle-eq d h = λ i. record {
  client_locks = fun_ext h.locks_free i;
  database_access_lock = h.access_free i;
  database_metadata_lock = h.metadata_free i;
  database_records = d.database_records;
  total_transferred = d.total_transferred;
  num_transactions = d.num_transactions;
  total_balance = d.total_balance;
}

pub free_locks-assign :
    (k : ℕ) (v : ClientRecord) {w : ClientRecord} (m : Dict ClientRecord)
    → lookup k m ≡ some w
    → free_locks (assign k v m) ≡ free_locks m
free_locks-assign k v m h = fun_ext λ j. ground (arith, lookup-assign_known j k v m h)

pub free_locks-insert :
    (k : ℕ) (v : ClientRecord) (m : Dict ClientRecord)
    → lookup k m ≡ none
    → free_locks (insert k v m) ≡ update_at (free_locks m) k (some false)
free_locks-insert k v m h = fun_ext λ j. ground (arith, lookup-insert j k v m)

pub free_locks-erase :
    (k : ℕ) (m : Dict ClientRecord)
    → IsMap m
    → free_locks (erase k m) ≡ update_at (free_locks m) k none
free_locks-erase k m h = fun_ext λ j. ground (arith, lookup-erase j k m h)

-- What is written last at an address counts, and a mutex that is given back is free again.
pub update_at_twice :
    (f : ℕ → Option Bool) (k : ℕ) (x y : Option Bool)
    → update_at (update_at f k x) k y ≡ update_at f k y
update_at_twice f k x y = fun_ext λ j. ground arith

pub update_at_back :
    (f : ℕ → Option Bool) (k : ℕ) (x y : Option Bool)
    → f k ≡ y
    → update_at (update_at f k x) k y ≡ f
update_at_back f k x y h = fun_ext λ j. ground (arith, same j)
  where
    same : (j : ℕ) → k ≡ j → f k ≡ f j
    same j e = ap f e

pub update_at_back_two :
    (f : ℕ → Option Bool) (k l : ℕ) (x y z : Option Bool)
    → f k ≡ y
    → f l ≡ z
    → update_at (update_at (update_at (update_at f k x) l x) k y) l z ≡ f
update_at_back_two f k l x y z h h' = fun_ext λ j. ground (arith, same j k, same j l)
  where
    same : (j k : ℕ) → k ≡ j → f k ≡ f j
    same j k e = ap f e
