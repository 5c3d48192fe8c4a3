-- ===== src/Db/Threads/Ownership/Safety.antt =====
-- What two careful threads find true of the database, and what keeps it.
use brix.Base.{
  ℕ, ◌+◌, ◌^◌, ◌≤◌, ◌<◌, ◌≡◌, ◌≢◌, refl, sym, ap, ◌∙◌, Bool, true, false, Option, none, some,
  lookup, Bool-cases, arith,
}
use brix.Db.State.{ClientRecord, DbManager}
use brix.Db.Program.{Mutex, database, metadata, client, is_held, set_held}
use brix.Db.Bank.Total.{total}
use brix.Db.Threads.Ownership.{
  Registry, View, taking, giving, MayTake, MayGive, Keeps, Registered, Held, Covered, worth,
  balance_at, is_some,
}

-- The database, from the view of a thread and of the other one. The money is all there: what is
-- not in a balance is in the hands of a thread.
pub record Safe (known : Registry) (money : ℕ) (v o : View) (d : DbManager) : Type 0 where
  pub registered : Registered known d
  pub held : Held v d
  pub other_held : Held o d
  pub apart : (k : ℕ) → v.holds k ≡ true → o.holds k ≡ false
  pub covered : Covered v.holds v.covers d
  pub other_covered : Covered o.holds o.covers d
  pub all_there : total d.database_records + v.debt + o.debt ≡ money
  pub fits : money < 2 ^ 64

-- A promise stays true where the clients that are held stay, and their balances do not go down.
pub Covered-grows :
    (h h' : ℕ → Bool) (c : Option (ℕ × ℕ)) (d e : DbManager)
    → ((k : ℕ) → h k ≡ true → h' k ≡ true)
    → ((k n : ℕ)
        → h k ≡ true
        → balance_at k d ≡ some n
        → (m : ℕ) × (balance_at k e ≡ some m) × (n ≤ m))
    → Covered h c d
    → Covered h' c e
Covered-grows h h' none d e more grows cov = tt
Covered-grows h h' (some (k, a)) d e more grows (mine, n, at, le) =
    let (m, at_m, le_m) = grows k n mine at in (more k mine, m, at_m, omega arith)

Covered-keeps :
    (h h' : ℕ → Bool) (c : Option (ℕ × ℕ)) (d e : DbManager)
    → ((k : ℕ) → h k ≡ true → h' k ≡ true)
    → ((k : ℕ) → balance_at k e ≡ balance_at k d)
    → Covered h c d
    → Covered h' c e
Covered-keeps h h' c d e more same =
    Covered-grows h h' c d e more λ k n mine at. (n, same k ∙ at, omega arith)

is_some-worth : (o : Option ClientRecord) → is_some (worth o) ≡ is_some o
is_some-worth none = refl
is_some-worth (some c) = refl

module _ (known : Registry) (money : ℕ) (v o : View) (d : DbManager)
    (safe : Safe known money v o d) where
  pub neutral-Safe : (e : DbManager) → Keeps d e → Safe known money v o e
  neutral-Safe e (balances, sum, locks) = record {
    registered = (
      λ k.
          sym (is_some-worth (lookup k e.database_records))
          ∙ ap is_some (balances k)
          ∙ is_some-worth (lookup k d.database_records)
          ∙ safe.registered.0 k,
      λ k. ap is_some (locks k) ∙ safe.registered.1 k,
    );
    held = λ k mine. locks k ∙ safe.held k mine;
    other_held = λ k theirs. locks k ∙ safe.other_held k theirs;
    apart = safe.apart;
    covered = Covered-keeps v.holds v.holds v.covers d e (λ k h. h) balances safe.covered;
    other_covered =
        Covered-keeps o.holds o.holds o.covers d e (λ k h. h) balances safe.other_covered;
    all_there = ap (λ t. t + v.debt + o.debt) sum ∙ safe.all_there;
    fits = safe.fits;
  }

  pub take-Safe :
      (m : Mutex) → is_held m d ≡ some false → Safe known money (taking m v) o (set_held m true d)
  take-Safe database h = neutral-Safe _ ((λ k. refl), refl, (λ k. refl))
  take-Safe metadata h = neutral-Safe _ ((λ k. refl), refl, (λ k. refl))
  take-Safe (client k) h = record {
    registered = (safe.registered.0, λ j. ground (arith, h, safe.registered.1 j));
    held = λ j mine. ground (arith, h, safe.held j);
    other_held = λ j theirs. ground (arith, h, safe.other_held j);
    apart =
        λ j mine. ground (arith, h, mine, safe.apart j, safe.other_held j, Bool-cases (o.holds j));
    covered =
        Covered-keeps v.holds (taking (client k) v).holds v.covers d _
          (λ j mine. ground (arith, mine)) (λ j. refl) safe.covered;
    other_covered =
        Covered-keeps o.holds o.holds o.covers d _ (λ j mine. mine) (λ j. refl) safe.other_covered;
    all_there = safe.all_there;
    fits = safe.fits;
  }

  pub give-Safe : (m : Mutex) → MayGive m v → Safe known money (giving m v) o (set_held m false d)
  give-Safe database h = neutral-Safe _ ((λ k. refl), refl, (λ k. refl))
  give-Safe metadata h = neutral-Safe _ ((λ k. refl), refl, (λ k. refl))
  give-Safe (client k) h = record {
    registered = (safe.registered.0, λ j. ground (arith, h, safe.held k h, safe.registered.1 j));
    held = λ j mine. ground (arith, safe.held j);
    other_held = λ j theirs. ground (arith, safe.apart k h, safe.other_held j);
    apart = λ j mine. ground (arith, safe.apart j);
    covered = tt;
    other_covered =
        Covered-keeps o.holds o.holds o.covers d _ (λ j mine. mine) (λ j. refl) safe.other_covered;
    all_there = safe.all_there;
    fits = safe.fits;
  }

  pub cover-Safe :
      (c : Option (ℕ × ℕ)) → Covered v.holds c d → Safe known money (record v { covers = c }) o d
  cover-Safe c cov = record {
    registered = safe.registered;
    held = safe.held;
    other_held = safe.other_held;
    apart = safe.apart;
    covered = cov;
    other_covered = safe.other_covered;
    all_there = safe.all_there;
    fits = safe.fits;
  }

  pub take-exists : (m : Mutex) → MayTake known m → is_held m d ≢ none
  take-exists database may e = absurd (cc)
  take-exists metadata may e = absurd (cc)
  take-exists (client k) may e = ground (arith, may, e, safe.registered.1 k)

  pub give-exists : (m : Mutex) → MayGive m v → is_held m d ≢ none
  give-exists database may e = absurd (cc)
  give-exists metadata may e = absurd (cc)
  give-exists (client k) may e = ground (arith, may, e, safe.held k may)
