-- ===== src/Db/State.antt =====
-- The data of server/src/db_manager/db_manager.h.
use brix.Base.{ℕ, Option, Bool, Dict, ℤ, pos, [], none, false}

abbrev pub starting_balance : ℕ
starting_balance = 100000

abbrev pub starting_request : ℕ
starting_request = 0

-- `unsigned long balance` and `unsigned int last_request` keep their wrap-around in the methods.
pub record ClientRecord : Type 0 where
  pub ip : ℕ
  pub balance : ℕ
  pub last_request : ℕ

-- `db_record_response::Description`
pub data StatusCode : Type 0 where
  success duplicate_ip insufficient_balance not_found : StatusCode
  unknown_sender unknown_receiver balance_check : StatusCode

pub record DbRecordResponse : Type 0 where
  pub is_success : Bool
  pub client : ClientRecord
  pub status_code : StatusCode

-- `int`, `unsigned int` and `int`
pub record DbMetadata : Type 0 where
  pub num_transactions : ℤ
  pub total_transferred : ℕ
  pub total_balance : ℤ

pub record DbSnapshot : Type 0 where
  pub metadata : DbMetadata
  pub records : Dict ClientRecord

-- A mutex is the flag whether it is held. `client_locks` is the map from an address to its mutex.
pub record DbManager : Type 0 where
  pub client_locks : ℕ → Option Bool
  pub database_access_lock : Bool
  pub database_metadata_lock : Bool
  pub database_records : Dict ClientRecord
  pub total_transferred : ℕ
  pub num_transactions : ℤ
  pub total_balance : ℤ

-- `{}` as a client record
abbrev pub no_client : ClientRecord
no_client = record { ip = 0; balance = 0; last_request = 0 }

-- The constructor `DbManager::DbManager`.
abbrev pub new_db : DbManager
new_db = record {
  client_locks = λ _. none;
  database_access_lock = false;
  database_metadata_lock = false;
  database_records = [];
  total_transferred = 0;
  num_transactions = pos 0;
  total_balance = pos 0;
}
