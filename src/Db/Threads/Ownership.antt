-- ===== src/Db/Threads/Ownership.antt =====
-- When a thread keeps the money together, whatever another thread does between its steps: it debits
-- only what it has seen under the client's mutex, and credits what it has debited.
pub mod Calls
pub mod Payment
pub mod Safety
pub mod Writes
pub mod Advance
pub mod Money
use brix.Base.{
  ⊤, ℕ, ◌+◌, ◌-◌, ◌≤◌, ◌<◌, ◌≡◌, refl, ◌==◌, Bool, true, false, Option, none, some, List, [], ◌∷◌,
  lookup, if◌then◌else◌, ltb, arith,
}
use brix.Db.State.{ClientRecord, DbManager, DbRecordResponse}
use brix.Db.Program.{
  Mutex, database, metadata, client, Prog, ret, throw, fault, acquire, release, read, write, send,
  ◌>>=◌, ◌>>◌, catch,
}
use brix.Db.Methods.{modify_record, unlock_client, lock_client, record_at, deref, debit, credit}
use brix.Db.Bank.Total.{total}

-- The clients that have a record, and those that have a mutex.
pub record Registry : Type 0 where
  pub records : ℕ → Bool
  pub mutexes : ℕ → Bool

-- What a thread has: the mutexes of clients that it holds, a client with at least a certain balance,
-- and what it has debited and not credited.
pub record View : Type 0 where
  pub holds : ℕ → Bool
  pub covers : Option (ℕ × ℕ)
  pub debt : ℕ

abbrev pub nothing : View
nothing = record { holds = λ _. false; covers = none; debt = 0 }

abbrev pub taking : Mutex → View → View
taking database v = v
taking metadata v = v
taking (client k) v = record v { holds = λ j. if k == j then true else v.holds j }

-- A client that is given back may lose its balance to another thread.
abbrev pub giving : Mutex → View → View
giving database v = v
giving metadata v = v
giving (client k) v = record v { holds = λ j. if k == j then false else v.holds j; covers = none }

abbrev pub MayGive : Mutex → View → Type 0
MayGive database v = ⊤
MayGive metadata v = ⊤
MayGive (client k) v = v.holds k ≡ true

abbrev pub MayTake : Registry → Mutex → Type 0
MayTake known database = ⊤
MayTake known metadata = ⊤
MayTake known (client k) = known.mutexes k ≡ true

-- What a write does to the balances.
pub data Effect : Type 0 where
  neutral : Effect
  debits credits : ℕ → ℕ → Effect

-- The balance of a client, if it is registered.
abbrev pub worth : Option ClientRecord → Option ℕ
worth none = none
worth (some c) = some c.balance

abbrev pub balance_at : ℕ → DbManager → Option ℕ
balance_at k d = worth (lookup k d.database_records)

-- The same balances, the same mutexes held.
abbrev pub Keeps : DbManager → DbManager → Type 0
Keeps d e =
    ((k : ℕ) → balance_at k e ≡ balance_at k d)
    × (total e.database_records ≡ total d.database_records)
    × ((k : ℕ) → e.client_locks k ≡ d.client_locks k)

abbrev pub Does : Effect → (DbManager → DbManager) → Type 0
Does neutral f = (d : DbManager) → Keeps d (f d)
Does (debits k a) f = (d : DbManager) → f d ≡ modify_record k (debit a) d
Does (credits k a) f = (d : DbManager) → f d ≡ modify_record k (credit a) d

abbrev pub Allowed : Registry → Effect → View → Type 0
Allowed known neutral v = ⊤
Allowed known (debits k a) v = v.covers ≡ some (k, a)
Allowed known (credits k a) v = (a ≤ v.debt) × (known.records k ≡ true)

abbrev pub following : Effect → View → View
following neutral v = v
following (debits k a) v = record v { covers = none; debt = v.debt + a }
following (credits k a) v = record v { debt = v.debt - a }

-- What is registered stays registered.
abbrev pub is_some : {A : Type 0} → Option A → Bool
is_some none = false
is_some (some x) = true

abbrev pub Registered : Registry → DbManager → Type 0
Registered known d =
    ((k : ℕ) → is_some (lookup k d.database_records) ≡ known.records k)
    × ((k : ℕ) → is_some (d.client_locks k) ≡ known.mutexes k)

abbrev pub Held : View → DbManager → Type 0
Held v d = (k : ℕ) → v.holds k ≡ true → d.client_locks k ≡ some true

abbrev pub Covered : (ℕ → Bool) → Option (ℕ × ℕ) → DbManager → Type 0
Covered holds none d = ⊤
Covered holds (some (k, a)) d = (holds k ≡ true) × (n : ℕ) × (balance_at k d ≡ some n) × (a ≤ n)

-- A program that keeps to this from a view on. A read may be remembered.
unfoldable pub Careful : {A : Type 0} → Registry → View → Prog A → Type 0
Careful known v (ret a) = v.debt ≡ 0
Careful known v throw = v.debt ≡ 0
Careful known v fault = ⊥
Careful known v (acquire m p) = MayTake known m × Careful known (taking m v) p
Careful known v (release m p) = MayGive m v × Careful known (giving m v) p
Careful known v (read g) =
    (d : DbManager)
    → Registered known d
    → Held v d
    → Covered v.holds v.covers d
    → (c : Option (ℕ × ℕ)) × Covered v.holds c d × Careful known (record v { covers = c }) (g d)
Careful known v (write f p) =
    (e : Effect) × Does e f × Allowed known e v × Careful known (following e v) p
Careful known v (send g p) = Careful known v p
