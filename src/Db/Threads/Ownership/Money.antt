-- ===== src/Db/Threads/Ownership/Money.antt =====
-- Two payments at once, at any speed: the money is all there, and nothing undefined happens.
use brix.Base.{
  ℕ, ◌+◌, ◌^◌, ◌≤◌, ◌<◌, ◌≡◌, ◌≢◌, ◌⊎◌, ◌&&◌, refl, subst, Bool, true, false, List, lookup, arith,
  Bool-cases, inl, inr,
}
use brix.Db.State.{DbManager, DbRecordResponse}
use brix.Db.Program.{Prog, World, ret, throw, fault}
use brix.Db.Methods.{make_transaction}
use brix.Db.Bank.Total.{total}
use brix.Db.Threads.{Pair, Turn, turn, schedule}
use brix.Db.Threads.Ownership.{Registry, View, nothing, Careful, is_some}
use brix.Db.Threads.Ownership.Payment.{make_transaction-Careful}
use brix.Db.Threads.Ownership.Safety.{Safe}
use brix.Db.Threads.Ownership.Advance.{advance-Safe}
use brix.Db.Threads.Views.{Viewed, turn-Viewed, schedule-Viewed}

-- Both threads keep to what they own.
abbrev pub Fine : Registry → ℕ → Pair DbRecordResponse DbRecordResponse → Type 0
Fine known money = Viewed (Careful known) (Safe known money)

flip_Safe :
    (known : Registry) (money : ℕ) (v o : View) (d : DbManager)
    → Safe known money v o d
    → Safe known money o v d
flip_Safe known money v o d safe = record {
  registered = safe.registered;
  held = safe.other_held;
  other_held = safe.held;
  apart = λ k theirs. elim (Bool-cases (v.holds k)) [
    | inl mine ↦ absurd (ground (arith, theirs, safe.apart k mine))
    | inr not ↦ not
  ];
  covered = safe.other_covered;
  other_covered = safe.covered;
  all_there = (let a = safe.all_there in omega arith);
  fits = safe.fits;
}

pub turn-Fine :
    (known : Registry) (money : ℕ) (t : Turn) (s : Pair DbRecordResponse DbRecordResponse)
    → Fine known money s
    → Fine known money (turn t s)
turn-Fine known money =
    turn-Viewed (Careful known) (Safe known money) (flip_Safe known money)
      (advance-Safe known money)

schedule-Fine :
    (known : Registry) (money : ℕ) (ts : List Turn) (s : Pair DbRecordResponse DbRecordResponse)
    → Fine known money s
    → Fine known money (schedule ts s)
schedule-Fine known money =
    schedule-Viewed (Careful known) (Safe known money) (flip_Safe known money)
      (advance-Safe known money)

-- Two calls of `make_transaction`, before their first instruction.
unfoldable pub two_payments : (p q : ℕ × ℕ × ℕ) → World → Pair DbRecordResponse DbRecordResponse
two_payments (s, r, a) (s', r', a') w = record {
  world = w;
  left = make_transaction s r a;
  right = make_transaction s' r' a';
}

abbrev pub has_ended : {A : Type 0} → Prog A → Bool
has_ended (ret a) = true
has_ended throw = true
has_ended _ = false

Careful-debt :
    {A : Type 0} (known : Registry) (v : View) (p : Prog A)
    → Careful known v p
    → has_ended p ≡ true
    → v.debt ≡ 0
unfolding Careful
Careful-debt known v (ret a) careful h = careful
Careful-debt known v throw careful h = careful
Careful-debt known v p careful h = absurd (cc)

pub Careful-ne_fault :
    {A : Type 0} (known : Registry) (v : View) (p : Prog A) → Careful known v p → p ≢ fault
unfolding Careful
Careful-ne_fault known v p careful e = subst (Careful known v) e careful

pub start-Fine :
    (p q : ℕ × ℕ × ℕ) (w : World)
    → total w.db.database_records < 2 ^ 64
    → Fine
        (record {
          records = λ k. is_some (lookup k w.db.database_records);
          mutexes = λ k. is_some (w.db.client_locks k);
        })
        (total w.db.database_records)
        (two_payments p q w)
unfolding two_payments
start-Fine (s, r, a) (s', r', a') w fits = record {
  v = nothing;
  o = nothing;
  left_good = make_transaction-Careful _ s r a;
  right_good = make_transaction-Careful _ s' r' a';
  shared = record {
    registered = ((λ k. refl), (λ k. refl));
    held = λ k h. absurd (cc);
    other_held = λ k h. absurd (cc);
    apart = λ k h. refl;
    covered = tt;
    other_covered = tt;
    all_there = omega arith;
    fits = fits;
  };
}

-- What holds of every state that two payments come to.
abbrev pub KeepsMoney : World → Pair DbRecordResponse DbRecordResponse → Type 0
KeepsMoney w s =
    (s.left ≢ fault)
    × (s.right ≢ fault)
    × (total s.world.db.database_records ≤ total w.db.database_records)
    × (((has_ended s.left && has_ended s.right) ≡ false)
        ⊎ (total s.world.db.database_records ≡ total w.db.database_records))

pub kept :
    (w : World) (known : Registry) (s : Pair DbRecordResponse DbRecordResponse)
    → Fine known (total w.db.database_records) s
    → KeepsMoney w s
kept w known s fine = (
  Careful-ne_fault known fine.v s.left fine.left_good,
  Careful-ne_fault known fine.o s.right fine.right_good,
  omega arith,
  all_back (Bool-cases (has_ended s.left)) (Bool-cases (has_ended s.right)),
)
  where
    all_there :
        total s.world.db.database_records + fine.v.debt + fine.o.debt ≡ total w.db.database_records
    all_there = fine.shared.all_there

    all_back :
        (has_ended s.left ≡ true) ⊎ (has_ended s.left ≡ false)
        → (has_ended s.right ≡ true) ⊎ (has_ended s.right ≡ false)
        → ((has_ended s.left && has_ended s.right) ≡ false)
          ⊎ (total s.world.db.database_records ≡ total w.db.database_records)
    all_back (inr l) r = inl (ground (arith, l))
    all_back (inl l) (inr r) = inl (ground (arith, l, r))
    all_back (inl l) (inl r) =
        let dv = Careful-debt known fine.v s.left fine.left_good l in
        let do_ = Careful-debt known fine.o s.right fine.right_good r in inr (omega arith)

-- Let two threads serve any two transactions, `(sender, receiver, amount)` each, from any state of
-- the database and its mutexes in which the balances add up to less than 2^64. Each instruction of a
-- thread is one step. Whatever the order of their steps, and wherever it stops: neither thread has
-- used a mutex or a record that does not exist, and the balances do not add up to more than before. If
-- both threads have ended, the balances add up to just what they did. Of data races nothing is said.
pub schedule-two_payments :
    (p q : ℕ × ℕ × ℕ) (w : World) (ts : List Turn)
    → total w.db.database_records < 2 ^ 64
    → KeepsMoney w (schedule ts (two_payments p q w))
schedule-two_payments p q w ts fits =
    kept w _ _ (schedule-Fine _ _ ts (two_payments p q w) (start-Fine p q w fits))
