-- ===== src/Db/Threads/Ownership/Writes.antt =====
-- The debit and the credit keep the money together.
use brix.Base.{
  ℕ, ◌+◌, ◌-◌, ◌^◌, ◌≤◌, ◌≡◌, sym, ◌==◌, Bool, true, Option, none, some, lookup, assign,
  lookup-assign_known, inl, inr, subst, Bool-cases, Option-cases, u64, arith, Dict,
}
use brix.Db.State.{ClientRecord, DbManager}
use brix.Db.Methods.{modify_record, debit, credit}
use brix.Db.Bank.Total.{total, total-assign, balance-le-total}
use brix.Db.Threads.Ownership.{
  Registry, View, following, Allowed, Effect, neutral, debits, credits, Does, Covered, worth,
}
use brix.Db.Threads.Ownership.Safety.{Safe, Covered-grows, neutral-Safe}

assign-grows :
    (h : ℕ → Bool) (k : ℕ) (c1 c2 : ClientRecord) (m : Dict ClientRecord)
    → lookup k m ≡ some c1
    → (h k ≡ true → c1.balance ≤ c2.balance)
    → (j n : ℕ) → h j ≡ true
    → worth (lookup j m) ≡ some n
    → (i : ℕ) × (worth (lookup j (assign k c2 m)) ≡ some i) × (n ≤ i)
assign-grows h k c1 c2 m found grows j n mine at = elim (Bool-cases (k == j)) [
  | inl e ↦ (
    c2.balance,
    ground (arith, e, lookup-assign_known j k c2 m found),
    ground (arith, e, found, at, mine, grows),
  )
  | inr e ↦ (n, ground (arith, e, at, lookup-assign_known j k c2 m found), omega arith)
]

modify-known :
    (k : ℕ) (f : ClientRecord → ClientRecord) (d : DbManager) (c : ClientRecord)
    → lookup k d.database_records ≡ some c
    → modify_record k f d ≡ record d { database_records = assign k (f c) d.database_records }
unfolding modify_record
modify-known k f d c h = ground (arith, h)

module _ (known : Registry) (money : ℕ) (v o : View) (d : DbManager)
    (safe : Safe known money v o d) where
  assign-Safe :
      (k : ℕ) (c1 c2 : ClientRecord) (covers : Option (ℕ × ℕ)) (debt : ℕ)
      → lookup k d.database_records ≡ some c1
      → c2.balance + debt ≡ c1.balance + v.debt
      → Covered v.holds covers (record d { database_records = assign k c2 d.database_records })
      → (o.holds k ≡ true → c1.balance ≤ c2.balance)
      → Safe known money
          (record { holds = v.holds; covers = covers; debt = debt })
          o
          (record d { database_records = assign k c2 d.database_records })
  assign-Safe k c1 c2 covers debt found kept cov grows = record {
    registered = (
      λ j.
          ground (
            arith,
            found,
            lookup-assign_known j k c2 d.database_records found,
            safe.registered.0 j,
          ),
      safe.registered.1,
    );
    held = safe.held;
    other_held = safe.other_held;
    apart = safe.apart;
    covered = cov;
    other_covered =
        Covered-grows o.holds o.holds o.covers d _ (λ j h. h)
          (assign-grows o.holds k c1 c2 d.database_records found grows) safe.other_covered;
    all_there = sums _ _ (total-assign k c2 c1 d.database_records found) safe.all_there;
    fits = safe.fits;
  }
    where
      sums :
          (t t' : ℕ)
          → t' + c1.balance ≡ t + c2.balance
          → t + v.debt + o.debt ≡ money
          → t' + debt + o.debt ≡ money
      sums t t' h all = omega arith

  debit-Safe :
      (k a : ℕ)
      → v.covers ≡ some (k, a)
      → Safe known money (following (debits k a) v) o (modify_record k (debit a) d)
  debit-Safe k a promise = go (subst (λ c. Covered v.holds c d) promise safe.covered)
    where
      taken :
          (b : ℕ)
          → a ≤ b
          → b ≤ total d.database_records
          → u64 (b + 2 ^ 64 - a) + (v.debt + a) ≡ b + v.debt
      taken b enough le_total = let s = safe.all_there in let f = safe.fits in omega arith

      go :
          Covered v.holds (some (k, a)) d
          → Safe known money (following (debits k a) v) o (modify_record k (debit a) d)
      go (mine, n, at, le) = elim (Option-cases (lookup k d.database_records)) [
        | inl e ↦ absurd (cc)
        | inr (c, e) ↦
            subst (Safe known money (following (debits k a) v) o)
              (sym (modify-known k (debit a) d c e))
              (assign-Safe k c (debit a c) none (v.debt + a) e
                (taken c.balance (ground (arith, at, e, le))
                  (balance-le-total k c d.database_records e))
                tt (λ theirs. absurd (ground (arith, theirs, safe.apart k mine))))
      ]

  credit-Safe :
      (k a : ℕ)
      → a ≤ v.debt
      → known.records k ≡ true
      → Safe known money (following (credits k a) v) o (modify_record k (credit a) d)
  credit-Safe k a le there = elim (Option-cases (lookup k d.database_records)) [
    | inl e ↦ absurd (ground (arith, e, there, safe.registered.0 k))
    | inr (c, e) ↦
        subst (Safe known money (following (credits k a) v) o)
          (sym (modify-known k (credit a) d c e))
          (assign-Safe k c (credit a c) v.covers (v.debt - a) e
            (given c.balance (balance-le-total k c d.database_records e))
            (Covered-grows v.holds v.holds v.covers d _ (λ j h. h)
              (assign-grows v.holds k c (credit a c) d.database_records e
                (λ h. grown c.balance (balance-le-total k c d.database_records e)))
              safe.covered)
            (λ h. grown c.balance (balance-le-total k c d.database_records e)))
  ]
    where
      given : (b : ℕ) → b ≤ total d.database_records → u64 (b + a) + (v.debt - a) ≡ b + v.debt
      given b le_total = let s = safe.all_there in let f = safe.fits in omega arith

      grown : (b : ℕ) → b ≤ total d.database_records → b ≤ u64 (b + a)
      grown b le_total = let s = safe.all_there in let f = safe.fits in omega arith

  pub effect-Safe :
      (e : Effect) (f : DbManager → DbManager)
      → Does e f
      → Allowed known e v
      → Safe known money (following e v) o (f d)
  effect-Safe neutral f does _ = neutral-Safe known money v o d safe (f d) (does d)
  effect-Safe (debits k a) f does promise =
      subst (Safe known money _ o) (sym (does d)) (debit-Safe k a promise)
  effect-Safe (credits k a) f does (le, there) =
      subst (Safe known money _ o) (sym (does d)) (credit-Safe k a le there)
