-- ===== src/Db/Threads.antt =====
-- Two threads on one database, an instruction at a time, in any order.
pub mod Deadlock
pub mod Alone
pub mod Views
pub mod Ownership
pub mod Order
use brix.Base.{
  ◌≡◌, refl, ap, ◌∙◌, arith, Bool, true, false, Option, none, some, List, [], ◌∷◌, ◌++◌,
}
use brix.Db.Program.{
  Mutex, Prog, ret, throw, fault, acquire, release, read, write, send, World, is_held, set_held,
}

-- The next instruction of a program; `none` if it has ended, or waits for a mutex.
unfoldable pub advance : {A : Type 0} → Prog A → World → Option (Prog A × World)
advance (ret a) w = none
advance throw w = none
advance fault w = none
advance (acquire m p) w = elim (is_held m w.db) [
  | none ↦ some (fault, w)
  | some true ↦ none
  | some false ↦ some (p, record w { db = set_held m true w.db })
]
advance (release m p) w = elim (is_held m w.db) [
  | none ↦ some (fault, w)
  | some _ ↦ some (p, record w { db = set_held m false w.db })
]
advance (read g) w = some (g w.db, w)
advance (write g p) w = some (p, record w { db = g w.db })
advance (send g p) w = some (p, record w { sent = w.sent ++ g ∷ [] })

-- Whether a program stands before a mutex that is held.
unfoldable pub waits : {A : Type 0} → Prog A → World → Bool
waits (acquire m p) w = elim (is_held m w.db) [ some true ↦ true | _ ↦ false ]
waits _ w = false

pub record Pair (A B : Type 0) : Type 0 where
  pub world : World
  pub left : Prog A
  pub right : Prog B

pub data Turn : Type 0 where
  left_turn right_turn : Turn

-- A thread that cannot go on lets its turn pass.
unfoldable pub turn : {A B : Type 0} → Turn → Pair A B → Pair A B
unfolding advance
turn left_turn s = elim (advance s.left s.world) [
  | none ↦ s
  | some (p, w) ↦ record s { left = p; world = w }
]
turn right_turn s = elim (advance s.right s.world) [
  | none ↦ s
  | some (p, w) ↦ record s { right = p; world = w }
]

-- The state after a schedule.
unfoldable pub schedule : {A B : Type 0} → List Turn → Pair A B → Pair A B
unfolding turn
schedule [] s = s
schedule (t ∷ ts) s = schedule ts (turn t s)

-- Each thread waits for a mutex that the other one holds: no turn changes anything any more.
pub record IsDeadlock {A B : Type 0} (s : Pair A B) : Type 0 where
  pub left_waits : waits s.left s.world ≡ true
  pub right_waits : waits s.right s.world ≡ true

waits-advance : {A : Type 0} (p : Prog A) (w : World) → waits p w ≡ true → advance p w ≡ none
unfolding waits advance
waits-advance (acquire m p) w h = ground arith
waits-advance p w h = absurd (cc)

turn-IsDeadlock : {A B : Type 0} (t : Turn) (s : Pair A B) → IsDeadlock s → turn t s ≡ s
unfolding turn
turn-IsDeadlock left_turn s d = ground (arith, waits-advance s.left s.world d.left_waits)
turn-IsDeadlock right_turn s d = ground (arith, waits-advance s.right s.world d.right_waits)

-- A deadlock is for ever.
pub schedule-IsDeadlock :
    {A B : Type 0} (ts : List Turn) (s : Pair A B) → IsDeadlock s → schedule ts s ≡ s
unfolding schedule
schedule-IsDeadlock [] s d = refl
schedule-IsDeadlock (t ∷ ts) s d =
    ap (schedule ts) (turn-IsDeadlock t s d) ∙ schedule-IsDeadlock ts s d
