-- ===== src/Db/Threads/Views.antt =====
-- Two threads, each with a view of its own of the shared database. What a thread does next to the
-- view of another one, both do in any order.
use brix.Base.{⊤, Option, none, some, List, [], ◌∷◌}
use brix.Db.State.{DbManager}
use brix.Db.Program.{Prog, World}
use brix.Db.Threads.{Pair, Turn, left_turn, right_turn, turn, schedule, advance}

-- `Good v p`: a program keeps to the view `v`. `Shared v o d`: the views agree with the database.
pub record Viewed {S A : Type 0} (Good : S → Prog A → Type 0) (Shared : S → S → DbManager → Type 0)
    (s : Pair A A) : Type 0 where
  pub v : S
  pub o : S
  pub left_good : Good v s.left
  pub right_good : Good o s.right
  pub shared : Shared v o s.world.db

-- A thread that can go on finds a view for it.
abbrev pub Next :
    {S A : Type 0}
    → (S → Prog A → Type 0)
    → (S → S → DbManager → Type 0)
    → S
    → Option (Prog A × World)
    → Type 0
Next {S = S} Good Shared o none = ⊤
Next {S = S} Good Shared o (some (p, w)) = (v : S) × Good v p × Shared v o w.db

module _ {S A : Type 0} (Good : S → Prog A → Type 0) (Shared : S → S → DbManager → Type 0)
    (flip : (v o : S) (d : DbManager) → Shared v o d → Shared o v d)
    (next : (o : S) (p : Prog A) (v : S) (w : World)
      → Good v p
      → Shared v o w.db
      → Next Good Shared o (advance p w)) where
  pub turn-Viewed : (t : Turn) (s : Pair A A) → Viewed Good Shared s → Viewed Good Shared (turn t s)
  unfolding turn
  turn-Viewed left_turn s views =
      go (advance s.left s.world) (next views.o s.left views.v s.world views.left_good views.shared)
    where
      go :
          (n : Option (Prog A × World))
          → Next Good Shared views.o n
          → Viewed Good Shared
              (elim n [ none ↦ s | some (p, w) ↦ record s { left = p; world = w } ])
      go none next = views
      go (some (p, w)) (v, good, shared) = record {
        v = v;
        o = views.o;
        left_good = good;
        right_good = views.right_good;
        shared = shared;
      }
  turn-Viewed right_turn s views = go (advance s.right s.world) (
      next views.v s.right views.o s.world views.right_good
        (flip views.v views.o s.world.db views.shared))
    where
      go :
          (n : Option (Prog A × World))
          → Next Good Shared views.v n
          → Viewed Good Shared
              (elim n [ none ↦ s | some (p, w) ↦ record s { right = p; world = w } ])
      go none next = views
      go (some (p, w)) (o, good, shared) = record {
        v = views.v;
        o = o;
        left_good = views.left_good;
        right_good = good;
        shared = flip o views.v w.db shared;
      }

  pub schedule-Viewed :
      (ts : List Turn) (s : Pair A A) → Viewed Good Shared s → Viewed Good Shared (schedule ts s)
  unfolding schedule
  schedule-Viewed [] s views = views
  schedule-Viewed (t ∷ ts) s views = schedule-Viewed ts (turn t s) (turn-Viewed t s views)
