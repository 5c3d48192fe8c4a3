-- ===== src/Db/Calls.antt =====
-- Histories: any sequence of calls of the public methods, one after the other.
use brix.Base.{ℕ, ⊤, ◌^◌, ◌<◌, ◌≡◌, ◌∙◌, List, [], ◌∷◌, arith, IsMap}
use brix.Db.State.{DbRecordResponse, DbMetadata, DbSnapshot}
use brix.Db.Program.{Prog, ret, ◌>>=◌, done, run, run-ret, run-bind_done, Datagram}
use brix.Db.Methods.{
  register_client, make_transaction, remove_client, get_client_info, get_db_metadata,
  get_db_snapshot, load_snapshot,
}
use brix.Db.Bank.{open_account, transact, close_account, inquire}
use brix.Db.Bank.Validity.{IsValid, open_account-IsValid, transact-IsValid, close_account-IsValid}
use brix.Db.Idle.{idle_world}
use brix.Db.Refinement.{
  answers, register_client_lem, make_transaction_lem, remove_client_lem, get_client_info_lem,
}

-- The calls that the threads of the server make.
pub data Call : Type 0 where
  register remove info : ℕ → Call
  transaction : ℕ → ℕ → ℕ → Call

abbrev pub execute : Call → Prog DbRecordResponse
execute (register ip) = register_client ip
execute (remove ip) = remove_client ip
execute (info ip) = get_client_info ip
execute (transaction s r a) = make_transaction s r a

-- The same call on the bank.
abbrev pub bank_step : Call → DbSnapshot → DbRecordResponse × DbSnapshot
bank_step (register ip) = open_account ip
bank_step (remove ip) = close_account ip
bank_step (info ip) = inquire ip
bank_step (transaction s r a) = transact s r a

-- An `in_addr_t` has 32 bits.
abbrev pub InRange : Call → Type 0
InRange (register ip) = ip < 2 ^ 32
InRange _ = ⊤

-- A call, run alone, answers as the bank does.
execute_lem :
    (c : Call) (b : DbSnapshot) (sent : List Datagram)
    → IsMap b.records
    → run (execute c) (idle_world b sent) ≡ answers sent (bank_step c b)
execute_lem (register ip) b sent h = register_client_lem ip b sent
execute_lem (remove ip) b sent h = remove_client_lem ip b sent h
execute_lem (info ip) b sent h = get_client_info_lem ip b sent
execute_lem (transaction s r a) b sent h = make_transaction_lem s r a b sent

-- Every public method of `DbManager`.
pub data Method : Type 0 where
  call : Call → Method
  metadata snapshot : Method
  load : DbSnapshot → Method

pub data Answer : Type 0 where
  response : DbRecordResponse → Answer
  counters : DbMetadata → Answer
  whole : DbSnapshot → Answer
  no_answer : Answer

abbrev pub invoke : Method → Prog Answer
invoke (call c) = execute c >>= λ r. ret (response r)
invoke metadata = get_db_metadata >>= λ m. ret (counters m)
invoke snapshot = get_db_snapshot >>= λ s. ret (whole s)
invoke (load s) = load_snapshot s >>= λ _. ret no_answer

-- The same method of the bank, whose state is a snapshot.
abbrev pub bank_method : Method → DbSnapshot → Answer × DbSnapshot
bank_method (call c) b = let (r, b') = bank_step c b in (response r, b')
bank_method metadata b = (counters b.metadata, b)
bank_method snapshot b = (whole b, b)
bank_method (load s) b = (no_answer, s)

pub bank_step-IsValid :
    (c : Call) (b : DbSnapshot) → InRange c → IsValid b → IsValid (bank_step c b).1
bank_step-IsValid (register ip) b small v = open_account-IsValid ip b small v
bank_step-IsValid (remove ip) b small v = close_account-IsValid ip b v
bank_step-IsValid (info ip) b small v = unfold inquire in ground arith
bank_step-IsValid (transaction s r a) b small v = transact-IsValid s r a b v

unfoldable pub perform : List Call → Prog (List DbRecordResponse)
perform [] = ret []
perform (c ∷ cs) = do r ← execute c; rs ← perform cs; ret (r ∷ rs)

abbrev AllInRange : List Call → Type 0
AllInRange [] = ⊤
AllInRange (c ∷ cs) = InRange c × AllInRange cs

-- From a valid state, any sequence of calls of `register_client`, `remove_client`, `get_client_info`
-- and `make_transaction` whose registrations are of 32-bit addresses ends, with
-- an answer to each, in a valid state with every mutex free: the clients stand once under their own
-- address, the numbers fit their types, and the running total of the balances is their sum modulo
-- 2^32.
pub perform-IsValid :
    (cs : List Call) (b : DbSnapshot) (sent : List Datagram)
    → AllInRange cs
    → IsValid b
    → (rs : List DbRecordResponse) × (b' : DbSnapshot) × (run (perform cs) (idle_world b sent)
        ≡ done rs (idle_world b' sent))
      × IsValid b'
unfolding perform
perform-IsValid [] b sent small v = ([], b, run-ret [] (idle_world b sent), v)
perform-IsValid (c ∷ cs) b sent small v =
    let (r, b1) = bank_step c b in
    let first = execute_lem c b sent v.once in
    let (rs, b2, later, valid) =
      perform-IsValid cs b1 sent small.1 (bank_step-IsValid c b small.0 v) in
    (
      r ∷ rs,
      b2,
      run-bind_done (execute c) _ (idle_world b sent) r (idle_world b1 sent) first
          ∙ run-bind_done (perform cs) _ (idle_world b1 sent) rs (idle_world b2 sent) later
          ∙ run-ret (r ∷ rs) (idle_world b2 sent),
      valid,
    )
