-- ===== src/Db/Program.antt =====
-- What a thread of the server does, step by step: it takes and gives back mutexes, reads and writes
-- the database, sends datagrams, throws. One program has two meanings: `run` executes it alone, and
-- the interleavings of several threads are in the modules on races.
use brix.Base.{
  ◌≡◌, refl, ap, ◌∙◌, arith, ℕ, Bool, true, false, Option, none, some, List, [], ◌∷◌, ◌++◌, Bytes,
  ◌==◌, if◌then◌else◌,
}
use brix.Db.State.{DbManager}

-- `pthread_mutex_t database_access_lock`, `database_metadata_lock` and those of `client_locks`
pub data Mutex : Type 0 where
  database metadata : Mutex
  client : ℕ → Mutex

-- What `sendto` puts on the network: an answer to a client, or a snapshot to all servers.
pub data Datagram : Type 0 where
  reply : ℕ → Bytes → Datagram
  update : Bytes → Datagram

-- `throw` raises an exception, in the database a `std::out_of_range`; `fault` is undefined behaviour.
pub data Prog (A : Type 0) : Type 0 where
  ret : A → Prog A
  throw fault : Prog A
  acquire release : Mutex → Prog A → Prog A
  read : (DbManager → Prog A) → Prog A
  write : (DbManager → DbManager) → Prog A → Prog A
  send : Datagram → Prog A → Prog A

infixl 5 ◌>>=◌ ◌>>◌
abbrev pub ◌>>=◌ : {A B : Type 0} → Prog A → (A → Prog B) → Prog B
ret a >>= f = f a
throw >>= f = throw
fault >>= f = fault
acquire m p >>= f = acquire m (p >>= f)
release m p >>= f = release m (p >>= f)
read g >>= f = read (λ d. g d >>= f)
write g p >>= f = write g (p >>= f)
send g p >>= f = send g (p >>= f)

abbrev pub ◌>>◌ : {A B : Type 0} → Prog A → Prog B → Prog B
m >> k = m >>= λ _. k

-- `try { p } catch (std::out_of_range const &) { q }`
abbrev pub catch : {A : Type 0} → Prog A → Prog A → Prog A
catch (ret a) q = ret a
catch throw q = q
catch fault q = fault
catch (acquire m p) q = acquire m (catch p q)
catch (release m p) q = release m (catch p q)
catch (read g) q = read (λ d. catch (g d) q)
catch (write g p) q = write g (catch p q)
catch (send g p) q = send g (catch p q)

-- Whether a mutex is held; `none` if it does not exist.
abbrev pub is_held : Mutex → DbManager → Option Bool
is_held database d = some d.database_access_lock
is_held metadata d = some d.database_metadata_lock
is_held (client k) d = d.client_locks k

abbrev pub update_at : (ℕ → Option Bool) → ℕ → Option Bool → ℕ → Option Bool
update_at f k v j = if k == j then v else f j

abbrev pub set_held : Mutex → Bool → DbManager → DbManager
set_held database b d = record d { database_access_lock = b }
set_held metadata b d = record d { database_metadata_lock = b }
set_held (client k) b d = record d { client_locks = update_at d.client_locks k (some b) }

-- The shared memory, and what has been sent, in order.
pub record World : Type 0 where
  pub db : DbManager
  pub sent : List Datagram

-- How a program ends that runs alone. `blocked` waits for a mutex that nobody will give back.
pub data Outcome (A : Type 0) : Type 0 where
  done : A → World → Outcome A
  raised blocked : World → Outcome A
  faulty : Outcome A

unfoldable pub run : {A : Type 0} → Prog A → World → Outcome A
run (ret a) w = done a w
run throw w = raised w
run fault w = faulty
run (acquire m p) w = elim (is_held m w.db) [
  | none ↦ faulty
  | some true ↦ blocked w
  | some false ↦ run p (record w { db = set_held m true w.db })
]
run (release m p) w = elim (is_held m w.db) [
  | none ↦ faulty
  | some _ ↦ run p (record w { db = set_held m false w.db })
]
run (read g) w = run (g w.db) w
run (write g p) w = run p (record w { db = g w.db })
run (send g p) w = run p (record w { sent = w.sent ++ g ∷ [] })

-- What follows a program runs from where it ended.
abbrev pub and_then : {A B : Type 0} → Outcome A → (A → World → Outcome B) → Outcome B
and_then (done a w) k = k a w
and_then (raised w) k = raised w
and_then (blocked w) k = blocked w
and_then faulty k = faulty

pub run-ret : {A : Type 0} (a : A) (w : World) → run (ret a) w ≡ done a w
unfolding run
run-ret a w = refl

-- A program runs part by part.
pub run-bind :
    {A B : Type 0} (p : Prog A) (f : A → Prog B) (w : World)
    → run (p >>= f) w ≡ and_then (run p w) (λ a w'. run (f a) w')
unfolding run
run-bind (ret a) f w = refl
run-bind throw f w = refl
run-bind fault f w = refl
run-bind (acquire m p) f w = ground (arith, run-bind p f (record w { db = set_held m true w.db }))
run-bind (release m p) f w = ground (arith, run-bind p f (record w { db = set_held m false w.db }))
run-bind (read g) f w = run-bind (g w.db) f w
run-bind (write g p) f w = run-bind p f (record w { db = g w.db })
run-bind (send g p) f w = run-bind p f (record w { sent = w.sent ++ g ∷ [] })

-- The rule for a part that ends well.
pub run-bind_done :
    {A B : Type 0} (p : Prog A) (f : A → Prog B) (w : World) (a : A) (w' : World)
    → run p w ≡ done a w'
    → run (p >>= f) w ≡ run (f a) w'
run-bind_done p f w a w' h = run-bind p f w ∙ ap (λ o. and_then o (λ a w'. run (f a) w')) h
