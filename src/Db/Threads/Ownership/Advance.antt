-- ===== src/Db/Threads/Ownership/Advance.antt =====
-- A step of a careful thread, next to another one.
use brix.Base.{ℕ, ◌≡◌, refl, Bool, true, false, Option, none, some}
use brix.Db.Program.{
  Prog, ret, throw, fault, acquire, release, read, write, send, World, is_held, set_held,
}
use brix.Db.Threads.{advance}
use brix.Db.Threads.Ownership.{Registry, View, taking, giving, following, Careful}
use brix.Db.Threads.Ownership.Safety.{
  Safe, take-Safe, give-Safe, take-exists, give-exists, cover-Safe,
}
use brix.Db.Threads.Ownership.Writes.{effect-Safe}
use brix.Db.Threads.Views.{Next}

module _ {A : Type 0} (known : Registry) (money : ℕ) (o : View) where
  pub advance-Safe :
      (p : Prog A) (v : View) (w : World)
      → Careful known v p
      → Safe known money v o w.db
      → Next (Careful known) (Safe known money) o (advance p w)
  unfolding Careful advance
  advance-Safe (ret a) v w careful safe = tt
  advance-Safe throw v w careful safe = tt
  advance-Safe fault v w careful safe = tt
  advance-Safe (acquire m p) v w (may, careful) safe = go (is_held m w.db) refl
    where
      go :
          (b : Option Bool)
          → is_held m w.db ≡ b
          → Next (Careful known) (Safe known money) o (elim b [
            | none ↦ some (fault, w)
            | some true ↦ none
            | some false ↦ some (p, record w { db = set_held m true w.db })
          ])
      go none e = absurd (take-exists known money v o w.db safe m may e)
      go (some true) e = tt
      go (some false) e = (taking m v, careful, take-Safe known money v o w.db safe m e)
  advance-Safe (release m p) v w (may, careful) safe = go (is_held m w.db) refl
    where
      go :
          (b : Option Bool)
          → is_held m w.db ≡ b
          → Next (Careful known) (Safe known money) o (elim b [
            | none ↦ some (fault, w)
            | some _ ↦ some (p, record w { db = set_held m false w.db })
          ])
      go none e = absurd (give-exists known money v o w.db safe m may e)
      go (some b) e = (giving m v, careful, give-Safe known money v o w.db safe m may)
  advance-Safe (read g) v w careful safe =
      let (c, cov, rest) = careful w.db safe.registered safe.held safe.covered in
      (record v { covers = c }, rest, cover-Safe known money v o w.db safe c cov)
  advance-Safe (write f p) v w (e, does, allowed, careful) safe =
      (following e v, careful, effect-Safe known money v o w.db safe e f does allowed)
  advance-Safe (send g p) v w careful safe = (v, careful, safe)
