-- ===== src/Db/Threads/Ownership/Calls.antt =====
-- The calls that the methods are made of keep the money together.
use brix.Base.{
  ⊤, ℕ, ◌≤◌, ◌≡◌, refl, sym, ap, Bool, true, false, Option, none, some, lookup, if◌then◌else◌, ltb,
  arith,
}
use brix.Db.State.{ClientRecord, DbManager, DbRecordResponse, success, not_found, no_client}
use brix.Db.Program.{write, client, Prog, ret, throw, fault, acquire, release, ◌>>=◌, ◌>>◌, catch}
use brix.Db.Methods.{
  modify_record, assign_through, unlock_client, lock_client, record_at, deref, get_client_info,
  response,
}
use brix.Db.Threads.Ownership.{
  Effect, Does, Allowed, following, Registry, View, taking, giving, Careful, worth, is_some,
  Covered,
}

ltb-ge : (n a : ℕ) → ltb n a ≡ false → a ≤ n
ltb-ge n a h = ground arith

module _ {A : Type 0} (known : Registry) (v : View) (k : ℕ) where
  pub unlock-Careful :
      (f : ⊤ → Prog A)
      → v.holds k ≡ true
      → Careful known (giving (client k) v) (f tt)
      → Careful known v (unlock_client k >>= f)
  unfolding Careful
  unlock-Careful f mine rest = λ d r held cov. (v.covers, cov, go (d.client_locks k) (held k mine))
    where
      go :
          (o : Option Bool)
          → o ≡ some true
          → Careful known v (elim o [ none ↦ ret tt | some _ ↦ release (client k) (ret tt) ] >>= f)
      go none e = absurd (cc)
      go (some b) e = (mine, rest)

  pub lock-Careful :
      (f : Bool → Prog A)
      → Careful known (taking (client k) v) (f true)
      → Careful known v (f false)
      → Careful known v (catch (lock_client k >> ret true) (ret false) >>= f)
  unfolding Careful
  lock-Careful f got not = λ d r held cov. (v.covers, cov, go (d.client_locks k) (r.1 k))
    where
      go :
          (o : Option Bool)
          → is_some o ≡ known.mutexes k
          → Careful known v (
              catch
                (elim o [ none ↦ throw | some _ ↦ acquire (client k) (ret tt) ] >> ret true)
                (ret false)
              >>= f)
      go none e = not
      go (some b) e = (sym e, got)

  pub find-Careful :
      (f : Bool → Prog A)
      → (known.records k ≡ true → Careful known v (f true))
      → Careful known v (f false)
      → Careful known v (catch (record_at k >> ret true) (ret false) >>= f)
  unfolding Careful
  find-Careful f got not = λ d r held cov. (v.covers, cov, go (lookup k d.database_records) (r.0 k))
    where
      go :
          (o : Option ClientRecord)
          → is_some o ≡ known.records k
          → Careful known v
              (catch (elim o [ none ↦ throw | some c ↦ ret c ] >> ret true) (ret false) >>= f)
      go none e = not
      go (some c) e = got (cc)

  pub deref-Careful :
      (f : ClientRecord → Prog A)
      → known.records k ≡ true
      → ((c : ClientRecord) → Careful known v (f c))
      → Careful known v (deref k >>= f)
  unfolding Careful
  deref-Careful f there rest =
      λ d r held cov. (v.covers, cov, go (lookup k d.database_records) (r.0 k))
    where
      go :
          (o : Option ClientRecord)
          → is_some o ≡ known.records k
          → Careful known v (elim o [ none ↦ fault | some c ↦ ret c ] >>= f)
      go none e = absurd (cc)
      go (some c) e = rest c

  pub assign_through-Careful :
      (g : ClientRecord → ClientRecord) (f : ⊤ → Prog A) (e : Effect)
      → known.records k ≡ true
      → Does e (modify_record k g)
      → Allowed known e v
      → Careful known (following e v) (f tt)
      → Careful known v (assign_through k g >>= f)
  unfolding Careful
  assign_through-Careful g f e there does allowed rest =
      λ d r held cov. (v.covers, cov, go (lookup k d.database_records) (r.0 k))
    where
      go :
          (o : Option ClientRecord)
          → is_some o ≡ known.records k
          → Careful known v
              (elim o [ none ↦ fault | some _ ↦ write (modify_record k g) (ret tt) ] >>= f)
      go none is = absurd (ground (arith, is, there))
      go (some c) is = (e, does, allowed, rest)

  pub record_at-Careful :
      (f : ClientRecord → Prog A)
      → v.debt ≡ 0
      → ((c : ClientRecord) → Careful known v (f c))
      → Careful known v (record_at k >>= f)
  unfolding Careful
  record_at-Careful f clear rest = λ d r held cov. (v.covers, cov, go (lookup k d.database_records))
    where
      go :
          (o : Option ClientRecord)
          → Careful known v (elim o [ none ↦ throw | some c ↦ ret c ] >>= f)
      go none = clear
      go (some c) = rest c

  pub get_client_info-Careful :
      (f : DbRecordResponse → Prog A)
      → ((r : DbRecordResponse) → Careful known v (f r))
      → Careful known v (get_client_info k >>= f)
  unfolding Careful get_client_info
  get_client_info-Careful f rest = λ d r held cov. (v.covers, cov, go (lookup k d.database_records))
    where
      go :
          (o : Option ClientRecord)
          → Careful known v (
              catch
                (elim o [ none ↦ throw | some c ↦ ret c ] >>= λ c. ret (response true c success))
                (ret (response false no_client not_found))
              >>= f)
      go none = rest _
      go (some c) = rest _

  -- What the owner of a client reads of its balance stays true until it gives the client back.
  pub weigh-Careful :
      (short enough : Prog A) (a : ℕ)
      → known.records k ≡ true
      → v.holds k ≡ true
      → Careful known (record v { covers = none }) short
      → Careful known (record v { covers = some (k, a) }) enough
      → Careful known v (deref k >>= λ c. if ltb c.balance a then short else enough)
  unfolding Careful
  weigh-Careful short enough a there mine careful_short careful_enough =
      λ d r held cov. go d (lookup k d.database_records) refl (r.0 k)
    where
      Goal : DbManager → Prog A → Type 0
      Goal d p =
          (c : Option (ℕ × ℕ)) × Covered v.holds c d × Careful known (record v { covers = c }) p

      weighed :
          (d : DbManager) (c : ClientRecord) (b : Bool)
          → lookup k d.database_records ≡ some c
          → ltb c.balance a ≡ b
          → Goal d (if b then short else enough)
      weighed d c true e lt = (none, tt, careful_short)
      weighed d c false e ge =
          (some (k, a), (mine, c.balance, ap worth e, ltb-ge c.balance a ge), careful_enough)

      go :
          (d : DbManager) (o : Option ClientRecord)
          → lookup k d.database_records ≡ o
          → is_some o ≡ known.records k
          → Goal d (
              elim o [ none ↦ fault | some c ↦ ret c ] >>= λ c.
              if ltb c.balance a then short else enough)
      go d none e is = absurd (cc)
      go d (some c) e is = weighed d c (ltb c.balance a) e refl

pub branch-Careful :
    {A : Type 0} (known : Registry) (v : View) (b : Bool) (p q : Prog A)
    → Careful known v p
    → (b ≡ false → Careful known v q)
    → Careful known v (if b then p else q)
branch-Careful known v true p q cp cq = cp
branch-Careful known v false p q cp cq = cq refl
