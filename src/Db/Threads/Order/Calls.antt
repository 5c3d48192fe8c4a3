-- ===== src/Db/Threads/Order/Calls.antt =====
-- The calls that the methods are made of keep to the order.
use brix.Base.{◌≡◌, arith, ⊤, ℕ, refl, Bool, true, false, Option, none, some, if◌then◌else◌, lookup}
use brix.Db.State.{DbManager, ClientRecord, DbRecordResponse, success, not_found, no_client}
use brix.Db.Program.{
  write, is_held, Mutex, database, metadata, client, Prog, ret, throw, fault, acquire, release,
  ◌>>=◌, ◌>>◌, catch,
}
use brix.Db.Methods.{
  modify_record, assign_through, unlock_client, lock_client, record_at, deref, get_client_info,
  response,
}
use brix.Db.Threads.Order.{with_mutex, IsFree, InOrder, Ordered}

modify_record-is_held :
    (k : ℕ) (f : ClientRecord → ClientRecord) (d : DbManager) (n : Mutex)
    → is_held n (modify_record k f d) ≡ is_held n d
unfolding modify_record
modify_record-is_held k f d database = ground arith
modify_record-is_held k f d metadata = ground arith
modify_record-is_held k f d (client j) = ground arith

module _ {A : Type 0} (h : Mutex → Bool) (k : ℕ) where
  pub unlock-Ordered :
      (f : ⊤ → Prog A)
      → h (client k) ≡ true
      → Ordered (with_mutex (client k) false h) (f tt)
      → Ordered h (unlock_client k >>= f)
  unfolding Ordered
  unlock-Ordered f mine rest = λ d held. go (d.client_locks k) (held (client k) mine)
    where
      go :
          (o : Option Bool)
          → o ≡ some true
          → Ordered h (elim o [ none ↦ ret tt | some _ ↦ release (client k) (ret tt) ] >>= f)
      go none e = absurd (cc)
      go (some b) e = (mine, rest)

  pub lock-Ordered :
      (f : Bool → Prog A)
      → InOrder h (client k)
      → Ordered (with_mutex (client k) true h) (f true)
      → Ordered h (f false)
      → Ordered h (catch (lock_client k >> ret true) (ret false) >>= f)
  unfolding Ordered
  lock-Ordered f may got not = λ d held. go (d.client_locks k)
    where
      go :
          (o : Option Bool)
          → Ordered h (
              catch
                (elim o [ none ↦ throw | some _ ↦ acquire (client k) (ret tt) ] >> ret true)
                (ret false)
              >>= f)
      go none = not
      go (some b) = (may, got)

  pub find-Ordered :
      (f : Bool → Prog A)
      → ((b : Bool) → Ordered h (f b))
      → Ordered h (catch (record_at k >> ret true) (ret false) >>= f)
  unfolding Ordered
  find-Ordered f rest = λ d held. go (lookup k d.database_records)
    where
      go :
          (o : Option ClientRecord)
          → Ordered h
              (catch (elim o [ none ↦ throw | some c ↦ ret c ] >> ret true) (ret false) >>= f)
      go none = rest false
      go (some c) = rest true

  pub deref-Ordered :
      (f : ClientRecord → Prog A)
      → ((c : ClientRecord) → Ordered h (f c))
      → Ordered h (deref k >>= f)
  unfolding Ordered
  deref-Ordered f rest = λ d held. go (lookup k d.database_records)
    where
      go : (o : Option ClientRecord) → Ordered h (elim o [ none ↦ fault | some c ↦ ret c ] >>= f)
      go none = tt
      go (some c) = rest c

  pub assign_through-Ordered :
      (g : ClientRecord → ClientRecord) (f : ⊤ → Prog A)
      → Ordered h (f tt)
      → Ordered h (assign_through k g >>= f)
  unfolding Ordered
  assign_through-Ordered g f rest = λ d held. go (lookup k d.database_records)
    where
      go :
          (o : Option ClientRecord)
          → Ordered h (elim o [ none ↦ fault | some _ ↦ write (modify_record k g) (ret tt) ] >>= f)
      go none = tt
      go (some c) = (modify_record-is_held k g, rest)

  pub record_at-Ordered :
      (f : ClientRecord → Prog A)
      → IsFree h
      → ((c : ClientRecord) → Ordered h (f c))
      → Ordered h (record_at k >>= f)
  unfolding Ordered
  record_at-Ordered f free rest = λ d held. go (lookup k d.database_records)
    where
      go : (o : Option ClientRecord) → Ordered h (elim o [ none ↦ throw | some c ↦ ret c ] >>= f)
      go none = free
      go (some c) = rest c

  pub get_client_info-Ordered :
      (f : DbRecordResponse → Prog A)
      → ((r : DbRecordResponse) → Ordered h (f r))
      → Ordered h (get_client_info k >>= f)
  unfolding Ordered get_client_info
  get_client_info-Ordered f rest = λ d held. go (lookup k d.database_records)
    where
      go :
          (o : Option ClientRecord)
          → Ordered h (
              catch
                (elim o [ none ↦ throw | some c ↦ ret c ] >>= λ c. ret (response true c success))
                (ret (response false no_client not_found))
              >>= f)
      go none = rest _
      go (some c) = rest _

pub branch-Ordered :
    {A : Type 0} (h : Mutex → Bool) (b : Bool) (p q : Prog A)
    → Ordered h p
    → (b ≡ false → Ordered h q)
    → Ordered h (if b then p else q)
branch-Ordered h true p q op oq = op
branch-Ordered h false p q op oq = oq refl
