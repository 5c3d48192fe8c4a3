-- ===== src/Db/Threads/Order/Turns.antt =====
-- One turn on the way of two threads to their ends.
use brix.Base.{
  ℕ, ◌≡◌, refl, sym, subst, Bool, true, false, Option, none, some, List, [], ◌∷◌, arith,
}
use brix.Db.State.{DbRecordResponse}
use brix.Db.Program.{Mutex, Prog, fault, acquire, release, World, is_held, set_held}
use brix.Db.Threads.{Pair, Turn, left_turn, right_turn, turn, schedule, advance}
use brix.Db.Threads.Views.{Viewed, turn-Viewed}
use brix.Db.Threads.Ownership.{Registry}
use brix.Db.Threads.Ownership.Money.{Fine, turn-Fine, Careful-ne_fault, has_ended}
use brix.Db.Threads.Order.{Ordered}
use brix.Db.Threads.Order.Locks.{Agrees, flip_Agrees, advance-Agrees}

abbrev pub Two : Type 0
Two = Pair DbRecordResponse DbRecordResponse

abbrev pub Thread : Type 0
Thread = Prog DbRecordResponse

-- Two threads that keep to the order, and to what they own.
pub record Live (known : Registry) (money : ℕ) (s : Two) : Type 0 where
  pub fine : Fine known money s
  pub orderly : Viewed Ordered Agrees s

-- There is an order of steps after which both have ended.
abbrev pub Ends : Two → Type 0
Ends s =
    (ts : List Turn) × (has_ended (schedule ts s).left ≡ true)
    × (has_ended (schedule ts s).right ≡ true)

abbrev pub pair : Thread → Thread → World → Two
pair p q w = record { world = w; left = p; right = q }

module _ (known : Registry) (money : ℕ) where
  turn-Live : (t : Turn) (s : Two) → Live known money s → Live known money (turn t s)
  turn-Live t s live = record {
    fine = turn-Fine known money t s live.fine;
    orderly = turn-Viewed Ordered Agrees flip_Agrees advance-Agrees t s live.orderly;
  }

  pub schedule-Live :
      (ts : List Turn) (s : Two) → Live known money s → Live known money (schedule ts s)
  unfolding schedule
  schedule-Live [] s live = live
  schedule-Live (t ∷ ts) s live = schedule-Live ts (turn t s) (turn-Live t s live)

  pub no_left_fault : (q : Thread) (w : World) → Live known money (pair fault q w) → ⊥
  no_left_fault q w live = Careful-ne_fault known live.fine.v fault live.fine.left_good refl

  pub no_right_fault : (p : Thread) (w : World) → Live known money (pair p fault w) → ⊥
  no_right_fault p w live = Careful-ne_fault known live.fine.o fault live.fine.right_good refl

  Ends-turn : (t : Turn) (s : Two) → Ends (turn t s) → Ends s
  unfolding schedule
  Ends-turn t s (ts, l, r) = (t ∷ ts, l, r)

  -- A turn that the left thread can take.
  turn-acquire :
      (m : Mutex) (p q : Thread) (w : World)
      → is_held m w.db ≡ some false
      → turn left_turn (pair (acquire m p) q w) ≡ pair p q (record w { db = set_held m true w.db })
  unfolding turn advance
  turn-acquire m p q w e = ground (arith, e)

  turn-acquire_right :
      (m : Mutex) (p q : Thread) (w : World)
      → is_held m w.db ≡ some false
      → turn right_turn (pair p (acquire m q) w) ≡ pair p q (record w { db = set_held m true w.db })
  unfolding turn advance
  turn-acquire_right m p q w e = ground (arith, e)

  turn-release :
      (m : Mutex) (p q : Thread) (w : World) (b : Bool)
      → is_held m w.db ≡ some b
      → turn left_turn (pair (release m p) q w) ≡ pair p q (record w { db = set_held m false w.db })
  unfolding turn advance
  turn-release m p q w b e = ground (arith, e)

  turn-release_right :
      (m : Mutex) (p q : Thread) (w : World) (b : Bool)
      → is_held m w.db ≡ some b
      → turn right_turn (pair p (release m q) w)
        ≡ pair p q (record w { db = set_held m false w.db })
  unfolding turn advance
  turn-release_right m p q w b e = ground (arith, e)

  -- After a turn.
  pub by_turn :
      (t : Turn) (s s' : Two)
      → Live known money s
      → turn t s ≡ s'
      → (Live known money s' → Ends s')
      → Ends s
  by_turn t s s' live e rest =
      Ends-turn t s (subst Ends (sym e) (rest (subst (Live known money) e (turn-Live t s live))))

  -- No mutex is missing.
  left_exists :
      (p q : Thread) (w : World)
      → turn left_turn (pair p q w) ≡ pair fault q w
      → Live known money (pair p q w)
      → ⊥
  left_exists p q w e live =
      no_left_fault q w (subst (Live known money) e (turn-Live left_turn (pair p q w) live))

  right_exists :
      (p q : Thread) (w : World)
      → turn right_turn (pair p q w) ≡ pair p fault w
      → Live known money (pair p q w)
      → ⊥
  right_exists p q w e live =
      no_right_fault p w (subst (Live known money) e (turn-Live right_turn (pair p q w) live))

  module _ (m : Mutex) (p q : Thread) (w : World) where
    pub acquire_right :
        Live known money (pair p (acquire m q) w)
        → (is_held m w.db ≡ some true → Ends (pair p (acquire m q) w))
        → ((w' : World) → Live known money (pair p q w') → Ends (pair p q w'))
        → Ends (pair p (acquire m q) w)
    unfolding turn advance
    acquire_right live wait rest = go (is_held m w.db) refl
      where
        go : (b : Option Bool) → is_held m w.db ≡ b → Ends (pair p (acquire m q) w)
        go none e = absurd (right_exists p (acquire m q) w (ground (arith, e)) live)
        go (some true) e = wait e
        go (some false) e = by_turn right_turn _ _ live (turn-acquire_right m p q w e) (rest _)

    pub release_right :
        Live known money (pair p (release m q) w)
        → ((w' : World) → Live known money (pair p q w') → Ends (pair p q w'))
        → Ends (pair p (release m q) w)
    unfolding turn advance
    release_right live rest = go (is_held m w.db) refl
      where
        go : (b : Option Bool) → is_held m w.db ≡ b → Ends (pair p (release m q) w)
        go none e = absurd (right_exists p (release m q) w (ground (arith, e)) live)
        go (some b) e = by_turn right_turn _ _ live (turn-release_right m p q w b e) (rest _)

    pub acquire_left :
        Live known money (pair (acquire m p) q w)
        → (is_held m w.db ≡ some true → ⊥)
        → ((w' : World) → Live known money (pair p q w') → Ends (pair p q w'))
        → Ends (pair (acquire m p) q w)
    unfolding turn advance
    acquire_left live free rest = go (is_held m w.db) refl
      where
        go : (b : Option Bool) → is_held m w.db ≡ b → Ends (pair (acquire m p) q w)
        go none e = absurd (left_exists (acquire m p) q w (ground (arith, e)) live)
        go (some true) e = absurd (free e)
        go (some false) e = by_turn left_turn _ _ live (turn-acquire m p q w e) (rest _)

    pub release_left :
        Live known money (pair (release m p) q w)
        → ((w' : World) → Live known money (pair p q w') → Ends (pair p q w'))
        → Ends (pair (release m p) q w)
    unfolding turn advance
    release_left live rest = go (is_held m w.db) refl
      where
        go : (b : Option Bool) → is_held m w.db ≡ b → Ends (pair (release m p) q w)
        go none e = absurd (left_exists (release m p) q w (ground (arith, e)) live)
        go (some b) e = by_turn left_turn _ _ live (turn-release m p q w b e) (rest _)
