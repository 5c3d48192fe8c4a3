-- ===== src/Db/Threads/Order/Progress.antt =====
-- Two payments at once do not wait for each other: from every state they can both go to their ends.
use brix.Base.{
  ℕ, ◌^◌, ◌<◌, ◌≡◌, ◌≢◌, inl, inr, refl, Bool, true, false, some, List, [], ◌∷◌, ◌++◌, arith,
}
use brix.Db.State.{DbManager}
use brix.Db.Program.{Mutex, ret, throw, fault, acquire, release, read, write, send, World, is_held}
use brix.Db.Bank.Total.{total}
use brix.Db.Threads.{Turn, left_turn, right_turn, turn, schedule, advance}
use brix.Db.Threads.Views.{Viewed}
use brix.Db.Threads.Ownership.{Registry}
use brix.Db.Threads.Ownership.Money.{kept, start-Fine, has_ended, two_payments}
use brix.Db.Threads.Order.{Ordered, IsFree, InOrder}
use brix.Db.Threads.Order.Payment.{make_transaction-Ordered}
use brix.Db.Threads.Order.Locks.{nobody_holds, no_deadlock, Agrees, flip_Agrees}
use brix.Db.Threads.Order.Turns.{
  Two, Thread, Live, Ends, pair, no_left_fault, no_right_fault, by_turn, acquire_right,
  release_right, acquire_left, release_left, schedule-Live,
}

module _ (known : Registry) (money : ℕ) where
  -- The right thread runs until it ends, or stands before a mutex that is held.
  run_right :
      (p : Thread)
      → ((q : Thread) (w : World)
          → has_ended q ≡ true
          → Live known money (pair p q w)
          → Ends (pair p q w))
      → ((n : Mutex) (q : Thread) (w : World)
          → is_held n w.db ≡ some true
          → Live known money (pair p (acquire n q) w)
          → Ends (pair p (acquire n q) w))
      → (q : Thread) (w : World) → Live known money (pair p q w)
      → Ends (pair p q w)
  unfolding turn advance
  run_right p stop wait (ret a) w live = stop (ret a) w refl live
  run_right p stop wait throw w live = stop throw w refl live
  run_right p stop wait fault w live = absurd (no_right_fault known money p w live)
  run_right p stop wait (acquire n q) w live =
      acquire_right known money n p q w live (λ e. wait n q w e live)
        (λ w'. run_right p stop wait q w')
  run_right p stop wait (release n q) w live =
      release_right known money n p q w live (λ w'. run_right p stop wait q w')
  run_right p stop wait (read g) w live =
      by_turn known money right_turn _ (pair p (g w.db) w) live refl
        (run_right p stop wait (g w.db) w)
  run_right p stop wait (write f q) w live =
      by_turn known money right_turn _ (pair p q (record w { db = f w.db })) live refl
        (run_right p stop wait q (record w { db = f w.db }))
  run_right p stop wait (send g q) w live =
      by_turn known money right_turn _ (pair p q (record w { sent = w.sent ++ g ∷ [] })) live refl
        (run_right p stop wait q (record w { sent = w.sent ++ g ∷ [] }))

  -- What is ahead of a thread that stands before a mutex, and of one that has ended.
  acquire-InOrder :
      (h : Mutex → Bool) (m : Mutex) (p : Thread) → Ordered h (acquire m p) → InOrder h m
  unfolding Ordered
  acquire-InOrder h m p (may, rest) = may

  ended-IsFree : (h : Mutex → Bool) (p : Thread) → Ordered h p → has_ended p ≡ true → IsFree h
  unfolding Ordered
  ended-IsFree h (ret a) free e = free
  ended-IsFree h throw free e = free
  ended-IsFree h p free e = absurd (cc)

  both_end :
      (p q : Thread) (w : World) → has_ended p ≡ true → has_ended q ≡ true → Ends (pair p q w)
  unfolding schedule
  both_end p q w l r = ([], l, r)

  module _ (w : World) (m : Mutex) where
    waits_for_ended :
        (p q : Thread)
        → has_ended p ≡ true
        → is_held m w.db ≡ some true
        → Live known money (pair p (acquire m q) w)
        → ⊥
    waits_for_ended p q l e live =
        nobody_holds v.v v.o w.db v.shared m (ended-IsFree v.v p v.left_good l)
          (acquire-InOrder v.o m q v.right_good) e
      where
        v : Viewed Ordered Agrees (pair p (acquire m q) w)
        v = live.orderly

    left_waits_for_ended :
        (p q : Thread)
        → has_ended q ≡ true
        → Live known money (pair (acquire m p) q w)
        → is_held m w.db ≡ some true
        → ⊥
    left_waits_for_ended p q r live e =
        nobody_holds v.o v.v w.db (flip_Agrees v.v v.o w.db v.shared) m
          (ended-IsFree v.o q v.right_good r) (acquire-InOrder v.v m p v.left_good) e
      where
        v : Viewed Ordered Agrees (pair (acquire m p) q w)
        v = live.orderly

    wait_for_each_other :
        (n : Mutex) (p q : Thread)
        → is_held m w.db ≡ some true
        → is_held n w.db ≡ some true
        → Live known money (pair (acquire m p) (acquire n q) w)
        → ⊥
    wait_for_each_other n p q e e' live =
        no_deadlock v.v v.o w.db v.shared m n (acquire-InOrder v.v m p v.left_good)
          (acquire-InOrder v.o n q v.right_good) e e'
      where
        v : Viewed Ordered Agrees (pair (acquire m p) (acquire n q) w)
        v = live.orderly

  run_both : (p q : Thread) (w : World) → Live known money (pair p q w) → Ends (pair p q w)
  unfolding turn advance
  run_both (ret a) q w live =
      run_right (ret a) (λ q w e live. both_end (ret a) q w refl e)
        (λ n q w e live. absurd (waits_for_ended w n (ret a) q refl e live)) q w live
  run_both throw q w live =
      run_right throw (λ q w e live. both_end throw q w refl e)
        (λ n q w e live. absurd (waits_for_ended w n throw q refl e live)) q w live
  run_both fault q w live = absurd (no_left_fault known money q w live)
  run_both (acquire m p) q w live =
      run_right (acquire m p)
        (λ q w e live.
          acquire_left known money m p q w live (left_waits_for_ended w m p q e live)
            (λ w'. run_both p q w'))
        (λ n q w e live.
          acquire_left known money m p (acquire n q) w live
            (λ e'. wait_for_each_other w m n p q e' e live) (λ w'. run_both p (acquire n q) w'))
        q w live
  run_both (release m p) q w live = release_left known money m p q w live (λ w'. run_both p q w')
  run_both (read g) q w live =
      by_turn known money left_turn _ (pair (g w.db) q w) live refl (run_both (g w.db) q w)
  run_both (write f p) q w live =
      by_turn known money left_turn _ (pair p q (record w { db = f w.db })) live refl
        (run_both p q (record w { db = f w.db }))
  run_both (send g p) q w live =
      by_turn known money left_turn _ (pair p q (record w { sent = w.sent ++ g ∷ [] })) live refl
        (run_both p q (record w { sent = w.sent ++ g ∷ [] }))

-- No mutex is held.
abbrev pub AllFree : DbManager → Type 0
AllFree d = (n : Mutex) → is_held n d ≢ some true

start-Live :
    (p q : ℕ × ℕ × ℕ) (w : World)
    → AllFree w.db
    → total w.db.database_records < 2 ^ 64
    → (known : Registry) × Live known (total w.db.database_records) (two_payments p q w)
unfolding two_payments
start-Live (s, r, a) (s', r', a') w free fits = (
  _,
  record {
    fine = start-Fine (s, r, a) (s', r', a') w fits;
    orderly = record {
      v = λ _. false;
      o = λ _. false;
      left_good = make_transaction-Ordered s r a;
      right_good = make_transaction-Ordered s' r' a';
      shared = record {
        held = λ n e. absurd (cc);
        other_held = λ n e. absurd (cc);
        apart = λ n e. refl;
        someone = λ n e. absurd (free n e);
      };
    };
  },
)

-- What holds where both threads have ended.
abbrev pub IsSettled : World → Two → Type 0
IsSettled w s =
    (has_ended s.left ≡ true)
    × (has_ended s.right ≡ true)
    × AllFree s.world.db
    × (total s.world.db.database_records ≡ total w.db.database_records)

settled :
    (known : Registry) (w : World) (s : Two)
    → Live known (total w.db.database_records) s
    → has_ended s.left ≡ true
    → has_ended s.right ≡ true
    → IsSettled w s
settled known w s live l r = (l, r, free, back)
  where
    v : Viewed Ordered Agrees s
    v = live.orderly

    free : AllFree s.world.db
    free n e = elim (v.shared.someone n e) [
      | inl mine ↦ ground (arith, mine, ended-IsFree known 0 v.v s.left v.left_good l n)
      | inr theirs ↦ ground (arith, theirs, ended-IsFree known 0 v.o s.right v.right_good r n)
    ]

    back : total s.world.db.database_records ≡ total w.db.database_records
    back = elim (kept w known s live.fine).3 [
      | inl not ↦ absurd (ground (arith, not, l, r))
      | inr e ↦ e
    ]

-- Let two threads serve any two transactions, `(sender, receiver, amount)` each, from a state with
-- every mutex free in which the balances add up to less than 2^64. Wherever the order of their
-- steps has led them, there are further steps after which both threads have ended, every mutex is
-- free, and the balances add up to what they did at the start: two transactions have no deadlock.
pub two_payments-end :
    (p q : ℕ × ℕ × ℕ) (w : World) (before : List Turn)
    → AllFree w.db
    → total w.db.database_records < 2 ^ 64
    → (after : List Turn) × IsSettled w (schedule after (schedule before (two_payments p q w)))
two_payments-end p q w before free fits =
    let (known, live) = start-Live p q w free fits in
    let s = schedule before (two_payments p q w) in
    let here = schedule-Live known _ before (two_payments p q w) live in
    let (after, l, r) = run_both known _ s.left s.right s.world here in
    (after, settled known w _ (schedule-Live known _ after s here) l r)
