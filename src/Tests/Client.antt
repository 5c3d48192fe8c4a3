-- ===== src/Tests/Client.antt =====
-- The client against a silent network, and against the bank with two clients.
use brix.Base.{
  ◌-◌, ◌+◌, ⊤, ◌≡◌, ◌≤◌, ◌⊎◌, refl, Bool, true, false, some, List, [], ◌∷◌, ◌++◌, Bytes, codes,
  arith, pos, length, All, lookup,
}
use brix.Text.{ok, threw, out_of_range, tokens, stoul}
use brix.Net.Dotted.{dotted, dotted_laws, from_quad}
use brix.Db.State.{DbSnapshot}
use brix.Db.Methods.{new_client}
use brix.Db.Bank.{open_account}
use brix.Db.Bank.Effects.{balance_of}
use brix.Net.{SocketAddress}
use brix.Client.{
  Dispatcher, Reaction, timed_out, dispatch_request, kill_request, process_requests,
  request_from_string,
}
use brix.Client.Retries.{IsText, dispatch_request_lem}
use brix.Client.Service.{service}
use brix.Client.Service.Rounds.{payment_request}
use brix.Client.Discovery.{new_dispatcher}
use brix.Client.Discovery.Search.{discovery_service}
use brix.Client.Queue.{InOrder, process_requests_lem}
use brix.Client.Session.{multiplexer_at, new_dispatcher_pays}
use brix.Client.Service.Removal.{dispatch_request_kills}
use brix.Client.Service.Payment.{dispatch_request_pays, dispatch_request_pays_twice}
use brix.Tests.Bank.{alice, bob, bank, bank-IsValid}

abbrev server : SocketAddress
server = record { ip = 7; port = 4000 }

abbrev dispatcher : Dispatcher
dispatcher = record { servaddr = server; request_queue = []; current_request = pos 1; sent = [] }

alice_known : lookup 1 bank.records ≡ some alice
unfolding lookup
alice_known = refl

abbrev silent : ⊤ → SocketAddress → Bytes → Reaction × ⊤
silent s to text = (timed_out (some server), s)

-- An amount of more than 64 bits: the exception is not caught.
huge_amount : request_from_string dotted (codes "1.0.0.0 18446744073709551616") ≡ threw out_of_range
unfolding request_from_string stoul tokens from_quad
huge_amount = refl

dispatch_request_lem_example :
    (accepted : Bool) × (e : Dispatcher) × (t : ⊤) × (new : List (SocketAddress × Bytes))
    × (dispatch_request dotted silent (payment_request 2 30) dispatcher tt ≡ ok (accepted, e, t))
    × (e.sent ≡ [] ++ new)
    × (e.request_queue ≡ [])
    × All (IsText dotted (payment_request 2 30)) new
    × (1 ≤ length new)
    × (length new ≤ 5)
    × ((accepted ≡ true) ⊎ (length new ≡ 5))
dispatch_request_lem_example =
    dispatch_request_lem dotted dotted_laws silent (λ s to text e. cc) (payment_request 2 30)
      (omega arith) dispatcher tt

dispatch_request_pays_example :
    (after : Dispatcher) × (b' : DbSnapshot) × (text : Bytes) × (dispatch_request dotted
        (service dotted 1 server)
        (payment_request 2 30)
        dispatcher
        (bank, [])
      ≡ ok (true, after, (b', [])))
    × (after.sent ≡ [] ++ (server, text) ∷ [])
    × (after.current_request ≡ pos 2)
    × (lookup 1 b'.records ≡ some (record alice { balance = 99970; last_request = 1 }))
    × (balance_of 2 b' ≡ some 100)
unfolding lookup
dispatch_request_pays_example =
    dispatch_request_pays dotted dotted_laws 1 server 2 30 alice bob bank dispatcher bank-IsValid
      refl refl (omega arith) (omega arith) (omega arith) refl (omega arith) (omega arith)

dispatch_request_pays_twice_example :
    (after : Dispatcher) × (b' : DbSnapshot) × (dispatch_request dotted
        (service dotted 1 server)
        (payment_request 2 30)
        dispatcher
        (bank, true ∷ [])
      ≡ ok (true, after, (b', [])))
    × (balance_of 1 b' ≡ some 99940)
    × (balance_of 2 b' ≡ some 130)
unfolding lookup
dispatch_request_pays_twice_example =
    dispatch_request_pays_twice dotted dotted_laws 1 server 2 30 alice bob bank dispatcher
      bank-IsValid refl refl (omega arith) (omega arith) (omega arith) refl (omega arith)
      (omega arith)

-- Five answers are lost.
dispatch_request_kills_example :
    (e : Dispatcher) × (b' : DbSnapshot) × (left : List Bool) × (dispatch_request dotted
        (service dotted 1 server)
        kill_request
        dispatcher
        (bank, true ∷ true ∷ true ∷ true ∷ true ∷ [])
      ≡ ok (false, e, (b', left)))
    × (lookup 1 b'.records ≡ some (new_client 1))
dispatch_request_kills_example =
    dispatch_request_kills dotted dotted_laws 1 (omega arith) server bank alice bank-IsValid
      alice_known dispatcher (true ∷ true ∷ true ∷ true ∷ true ∷ [])

-- 0.0.0.9 in the network's byte order is a new client; three answers of the server 10.0.0.7 get lost.
new_dispatcher_pays_example :
    let b' = (open_account 150994944 bank).1 in
    (d : Dispatcher) × (after : Dispatcher) × (b'' : DbSnapshot) × (new_dispatcher dotted
        (discovery_service dotted (dotted_laws.text 117440522) 4000 server 150994944)
        (pos 4000)
        (bank, 3)
      ≡ ok (d, (b', 0)))
    × (d.servaddr ≡ multiplexer_at 117440522 4000)
    × (dispatch_request dotted
          (service dotted 150994944 (multiplexer_at 117440522 4000))
          (payment_request 2 30)
          d
          (b', [])
        ≡ ok (true, after, (b'', [])))
    × (balance_of 150994944 b'' ≡ some (100000 - 30))
    × (balance_of 2 b'' ≡ some (70 + 30))
unfolding lookup
new_dispatcher_pays_example =
    new_dispatcher_pays dotted dotted_laws 117440522 4000 (omega arith) (omega arith) 150994944
      (omega arith) bank bank-IsValid refl server (pos 4000) 3 2 30 bob (omega arith) refl
      (omega arith) (omega arith) (omega arith)

process_requests_lem_example :
    (e : Dispatcher) × (t : ⊤) × (new : List (SocketAddress × Bytes)) × (process_requests dotted
        silent
        (payment_request 2 30 ∷ kill_request ∷ [])
        dispatcher
        tt
      ≡ ok (e, t))
    × (e.request_queue ≡ [])
    × (e.sent ≡ [] ++ new)
    × InOrder dotted (payment_request 2 30 ∷ kill_request ∷ []) new
process_requests_lem_example =
    process_requests_lem dotted dotted_laws silent (λ s to text e. cc)
      (payment_request 2 30 ∷ kill_request ∷ []) dispatcher tt (omega arith, (omega arith, tt))
