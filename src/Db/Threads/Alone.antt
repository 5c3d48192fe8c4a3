-- ===== src/Db/Threads/Alone.antt =====
-- A thread that is given all the turns does what it does alone.
use brix.Base.{◌≡◌, refl, ap, ◌∙◌, List, [], ◌∷◌, ◌++◌, arith, true, false, some}
use brix.Db.Program.{
  Mutex, Prog, ret, throw, fault, acquire, release, read, write, send, World, is_held, set_held,
  done, run,
}
use brix.Db.Threads.{Pair, Turn, left_turn, right_turn, turn, schedule, advance}

module _ {A B : Type 0} (q : Prog B) (a : A) (w' : World) where
  abbrev LeftEnds : Prog A → World → Type 0
  LeftEnds p w =
      (ts : List Turn) × (schedule ts (record { world = w; left = p; right = q })
        ≡ record { world = w'; left = ret a; right = q })

  left_first :
      (p p1 : Prog A) (w w1 : World) → advance p w ≡ some (p1, w1) → LeftEnds p1 w1 → LeftEnds p w
  unfolding schedule turn
  left_first p p1 w w1 h (ts, e) = (left_turn ∷ ts, rw (h, turn) e)

  acquired :
      (m : Mutex) (p : Prog A) (w : World)
      → run (acquire m p) w ≡ done a w'
      → (is_held m w.db ≡ some false) × (run p (record w { db = set_held m true w.db }) ≡ done a w')
  unfolding run
  acquired m p w h = ground arith

  released :
      (m : Mutex) (p : Prog A) (w : World)
      → run (release m p) w ≡ done a w'
      → (advance (release m p) w ≡ some (p, record w { db = set_held m false w.db }))
        × (run p (record w { db = set_held m false w.db }) ≡ done a w')
  unfolding run advance
  released m p w h = ground arith

  advance-acquire :
      (m : Mutex) (p : Prog A) (w : World)
      → is_held m w.db ≡ some false
      → advance (acquire m p) w ≡ some (p, record w { db = set_held m true w.db })
  unfolding advance
  advance-acquire m p w h = ground arith

  pub left_alone : (p : Prog A) (w : World) → run p w ≡ done a w' → LeftEnds p w
  unfolding run advance
  left_alone (ret x) w h = ([], unfold schedule in ground arith)
  left_alone throw w h = absurd (cc)
  left_alone fault w h = absurd (cc)
  left_alone (acquire m p) w h =
      let k = acquired m p w h in
      left_first (acquire m p) p w _ (advance-acquire m p w k.0) (left_alone p _ k.1)
  left_alone (release m p) w h =
      let k = released m p w h in left_first (release m p) p w _ k.0 (left_alone p _ k.1)
  left_alone (read g) w h = left_first (read g) (g w.db) w w refl (left_alone (g w.db) w h)
  left_alone (write g p) w h =
      left_first (write g p) p w (record w { db = g w.db }) refl
        (left_alone p (record w { db = g w.db }) h)
  left_alone (send g p) w h =
      left_first (send g p) p w (record w { sent = w.sent ++ g ∷ [] }) refl
        (left_alone p (record w { sent = w.sent ++ g ∷ [] }) h)

-- The two threads change places.
abbrev swap : {A B : Type 0} → Pair A B → Pair B A
swap s = record { world = s.world; left = s.right; right = s.left }

abbrev flip_turn : Turn → Turn
flip_turn left_turn = right_turn
flip_turn right_turn = left_turn

abbrev flip_all : List Turn → List Turn
flip_all [] = []
flip_all (t ∷ ts) = flip_turn t ∷ flip_all ts

turn-swap : {A B : Type 0} (t : Turn) (s : Pair A B) → turn (flip_turn t) (swap s) ≡ swap (turn t s)
unfolding turn
turn-swap left_turn s = ground arith
turn-swap right_turn s = ground arith

schedule-swap :
    {A B : Type 0} (ts : List Turn) (s : Pair A B)
    → schedule (flip_all ts) (swap s) ≡ swap (schedule ts s)
unfolding schedule
schedule-swap [] s = refl
schedule-swap (t ∷ ts) s = ap (schedule (flip_all ts)) (turn-swap t s) ∙ schedule-swap ts (turn t s)

pub right_alone :
    {A B : Type 0} (q : Prog B) (a : A) (w' : World) (p : Prog A) (w : World)
    → run p w ≡ done a w'
    → (ts : List Turn) × (schedule ts (record { world = w; left = q; right = p })
        ≡ record { world = w'; left = q; right = ret a })
right_alone q a w' p w h =
    let (ts, e) = left_alone q a w' p w h in
    (flip_all ts, schedule-swap ts (record { world = w; left = p; right = q }) ∙ ap swap e)

pub schedule-append :
    {A B : Type 0} (ts us : List Turn) (s : Pair A B)
    → schedule (ts ++ us) s ≡ schedule us (schedule ts s)
unfolding schedule
schedule-append [] us s = refl
schedule-append (t ∷ ts) us s = schedule-append ts us (turn t s)
