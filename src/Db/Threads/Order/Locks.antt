-- ===== src/Db/Threads/Order/Locks.antt =====
-- The mutexes of two threads that keep to the order: each that is held is in the hands of just one.
use brix.Base.{
  ◌≡◌, ◌⊎◌, inl, inr, refl, sym, ◌∙◌, Bool, true, false, Option, none, some, if◌then◌else◌,
  Bool-cases, arith,
}
use brix.Db.State.{DbManager}
use brix.Db.Program.{
  Mutex, database, metadata, client, Prog, ret, throw, fault, acquire, release, read, write, send,
  World, is_held, set_held,
}
use brix.Db.Threads.{advance}
use brix.Db.Threads.Views.{Next}
use brix.Db.Threads.Order.{same, with_mutex, IsFree, InOrder, Ordered}

pub record Agrees (h o : Mutex → Bool) (d : DbManager) : Type 0 where
  pub held : (n : Mutex) → h n ≡ true → is_held n d ≡ some true
  pub other_held : (n : Mutex) → o n ≡ true → is_held n d ≡ some true
  pub apart : (n : Mutex) → h n ≡ true → o n ≡ false
  pub someone : (n : Mutex) → is_held n d ≡ some true → (h n ≡ true) ⊎ (o n ≡ true)

pub flip_Agrees : (h o : Mutex → Bool) (d : DbManager) → Agrees h o d → Agrees o h d
flip_Agrees h o d a = record {
  held = a.other_held;
  other_held = a.held;
  apart = λ n theirs. elim (Bool-cases (h n)) [
    | inl mine ↦ absurd (ground (arith, theirs, a.apart n mine))
    | inr not ↦ not
  ];
  someone = λ n e. elim (a.someone n e) [ inl mine ↦ inr mine | inr theirs ↦ inl theirs ];
}

is_held-set_held :
    (m n : Mutex) (b : Bool) (d : DbManager)
    → is_held n (set_held m b d) ≡ (if same m n then some b else is_held n d)
is_held-set_held database database b d = refl
is_held-set_held database metadata b d = refl
is_held-set_held database (client k) b d = refl
is_held-set_held metadata database b d = refl
is_held-set_held metadata metadata b d = refl
is_held-set_held metadata (client k) b d = refl
is_held-set_held (client j) database b d = refl
is_held-set_held (client j) metadata b d = refl
is_held-set_held (client j) (client k) b d = refl

same-is_held : (m n : Mutex) (d : DbManager) → same m n ≡ true → is_held m d ≡ is_held n d
same-is_held database database d e = refl
same-is_held metadata metadata d e = refl
same-is_held (client j) (client k) d e = ground (arith, e)
same-is_held m n d e = absurd (cc)

same_held : (h : Mutex → Bool) (m n : Mutex) → same m n ≡ true → h m ≡ h n
same_held h database database e = refl
same_held h metadata metadata e = refl
same_held h (client j) (client k) e = ground (arith, e)
same_held h m n e = absurd (cc)

module _ (h o : Mutex → Bool) (d : DbManager) (a : Agrees h o d) where
  take-Agrees :
      (m : Mutex) → is_held m d ≡ some false → Agrees (with_mutex m true h) o (set_held m true d)
  take-Agrees m e = record {
    held = λ n mine. ground (arith, mine, is_held-set_held m n true d, a.held n);
    other_held = λ n theirs. ground (arith, is_held-set_held m n true d, a.other_held n theirs);
    apart = λ n mine. elim (Bool-cases (o n)) [
      | inl theirs ↦ ground (arith, mine, a.apart n, a.other_held n theirs, same-is_held m n d, e)
      | inr not ↦ not
    ];
    someone = λ n held. ground (arith, held, is_held-set_held m n true d, a.someone n);
  }

  give-Agrees : (m : Mutex) → h m ≡ true → Agrees (with_mutex m false h) o (set_held m false d)
  give-Agrees m mine = record {
    held = λ n e. ground (arith, e, is_held-set_held m n false d, a.held n);
    other_held = λ n theirs. ground (
      arith,
      theirs,
      mine,
      is_held-set_held m n false d,
      a.other_held n theirs,
      a.apart n,
      same_held h m n,
    );
    apart = λ n e. ground (arith, e, a.apart n);
    someone = λ n held. ground (arith, held, is_held-set_held m n false d, a.someone n);
  }

  keep-Agrees : (e : DbManager) → ((n : Mutex) → is_held n e ≡ is_held n d) → Agrees h o e
  keep-Agrees e keeps = record {
    held = λ n mine. keeps n ∙ a.held n mine;
    other_held = λ n theirs. keeps n ∙ a.other_held n theirs;
    apart = a.apart;
    someone = λ n held. a.someone n (sym (keeps n) ∙ held);
  }

InOrder-own : (h : Mutex → Bool) (m : Mutex) → InOrder h m → h m ≡ false
InOrder-own h database free = free database
InOrder-own h metadata free = free metadata
InOrder-own h (client k) (inside, not, own) = own

-- Who waits with a mutex in its hands, waits for a client, and has the lock of the database.
InOrder-database : (h : Mutex → Bool) (m n : Mutex) → InOrder h m → h n ≡ true → h database ≡ true
InOrder-database h database n free e = absurd (ground (arith, e, free n))
InOrder-database h metadata n free e = absurd (ground (arith, e, free n))
InOrder-database h (client k) n (inside, not, own) e = inside

module _ (h o : Mutex → Bool) (d : DbManager) (a : Agrees h o d) where
  pub nobody_holds : (m : Mutex) → IsFree h → InOrder o m → is_held m d ≡ some true → ⊥
  nobody_holds m free order e = elim (a.someone m e) [
    | inl l ↦ ground (arith, l, free m)
    | inr r ↦ ground (arith, r, InOrder-own o m order)
  ]

  pub no_deadlock :
      (m n : Mutex)
      → InOrder h m
      → InOrder o n
      → is_held m d ≡ some true
      → is_held n d ≡ some true
      → ⊥
  no_deadlock m n left right em en = elim (a.someone m em) [
    | inl l ↦ ground (arith, l, InOrder-own h m left)
    | inr r ↦ elim (a.someone n en) [
      | inl l ↦
          ground
            (arith, InOrder-database h m n left l, InOrder-database o n m right r, a.apart database)
      | inr r' ↦ ground (arith, r', InOrder-own o n right)
    ]
  ]

module _ {A : Type 0} (o : Mutex → Bool) where
  pub advance-Agrees :
      (p : Prog A) (h : Mutex → Bool) (w : World)
      → Ordered h p
      → Agrees h o w.db
      → Next Ordered Agrees o (advance p w)
  unfolding Ordered advance
  advance-Agrees (ret x) h w ordered a = tt
  advance-Agrees throw h w ordered a = tt
  advance-Agrees fault h w ordered a = tt
  advance-Agrees (acquire m p) h w (may, ordered) a = go (is_held m w.db) refl
    where
      go :
          (b : Option Bool)
          → is_held m w.db ≡ b
          → Next Ordered Agrees o (elim b [
            | none ↦ some (fault, w)
            | some true ↦ none
            | some false ↦ some (p, record w { db = set_held m true w.db })
          ])
      go none e = (h, tt, a)
      go (some true) e = tt
      go (some false) e = (with_mutex m true h, ordered, take-Agrees h o w.db a m e)
  advance-Agrees (release m p) h w (mine, ordered) a = go (is_held m w.db)
    where
      go :
          (b : Option Bool)
          → Next Ordered Agrees o (elim b [
            | none ↦ some (fault, w)
            | some _ ↦ some (p, record w { db = set_held m false w.db })
          ])
      go none = (h, tt, a)
      go (some b) = (with_mutex m false h, ordered, give-Agrees h o w.db a m mine)
  advance-Agrees (read g) h w ordered a = (h, ordered w.db a.held, a)
  advance-Agrees (write f p) h w (keeps, ordered) a =
      (h, ordered, keep-Agrees h o w.db a (f w.db) (keeps w.db))
  advance-Agrees (send g p) h w ordered a = (h, ordered, a)
