-- ===== src/Client/Session.antt =====
-- A client from its start to its first payment: the search for the server, and the request.
use brix.Base.{
  ℕ, ◌+◌, ◌-◌, ◌≡◌, refl, ap, ◌∙◌, ◌≤◌, ◌<◌, ◌^◌, true, none, some, [], arith, ℤ, pos, lookup,
}
use brix.Text.{Result, ok, ◌>>=◌}
use brix.Net.{Inet, InetLaws, SocketAddress, htons}
use brix.Db.State.{ClientRecord, DbSnapshot, starting_balance}
use brix.Db.Methods.{new_client}
use brix.Db.Bank.{open_account}
use brix.Db.Bank.Total.{total}
use brix.Db.Bank.Validity.{IsValid, open_account-IsValid}
use brix.Db.Bank.Opening.{opened-new_client, opened-other, opened-total, unknown-known}
use brix.Db.Bank.Effects.{balance_of}
use brix.Client.{Dispatcher, dispatch_request}
use brix.Client.Service.{service}
use brix.Client.Service.Rounds.{payment_request}
use brix.Client.Service.Payment.{dispatch_request_pays}
use brix.Client.Discovery.{new_dispatcher}
use brix.Client.Discovery.Search.{discovery_service, locate_request_server_finds}

-- The dispatcher of a client that has found its server.
abbrev pub ready : SocketAddress → Dispatcher
ready server = record { servaddr = server; request_queue = []; current_request = pos 1; sent = [] }

-- Where the multiplexer listens of a server with an address and a port.
abbrev pub multiplexer_at : ℕ → ℕ → SocketAddress
multiplexer_at a port = record { ip = a; port = htons (port + 1) }

module _ (net : Inet) (laws : InetLaws net) (a port : ℕ) (ha : a < 2 ^ 32) (hp : port < 65535)
    (ip : ℕ) (hip : ip < 2 ^ 32) (b : DbSnapshot) (v : IsValid b)
    (fresh : lookup ip b.records ≡ none) where
  -- A client that is not registered starts, and the discovery service of an idle coordinator with
  -- a valid bank answers; at most four answers get lost. Then the client pays by one call of
  -- `dispatch_request`, whose answer is not lost, a positive amount up to the starting balance to a
  -- registered client. It knows the server's address, its first request is accepted, and the
  -- amount has moved from its starting balance to the receiver. With the starting balance, all balances
  -- have to add up to less than 2^64.
  pub new_dispatcher_pays :
      (source : SocketAddress) (location_service_port : ℤ) (lost r amount : ℕ) (e : ClientRecord)
      → lost < 5
      → lookup r b.records ≡ some e
      → 0 < amount
      → amount ≤ starting_balance
      → total b.records + starting_balance < 2 ^ 64
      → let server = multiplexer_at a port in
        let b' = (open_account ip b).1 in
        (d : Dispatcher) × (after : Dispatcher) × (b'' : DbSnapshot) × (new_dispatcher net
            (discovery_service net (laws.text a) port source ip)
            location_service_port
            (b, lost)
          ≡ ok (d, (b', 0)))
        × (d.servaddr ≡ server)
        × (dispatch_request net (service net ip server) (payment_request r amount) d (b', [])
            ≡ ok (true, after, (b'', [])))
        × (balance_of ip b'' ≡ some (starting_balance - amount))
        × (balance_of r b'' ≡ some (e.balance + amount))
  unfolding new_dispatcher
  new_dispatcher_pays source p lost r amount e few known positive enough bounded =
      let server = multiplexer_at a port in
      let (after, b'', text, paid, sent, number, sender, receiver) =
        dispatch_request_pays net laws ip server r amount (new_client ip) e (open_account ip b).1
          (ready server) (open_account-IsValid ip b hip v) (opened-new_client ip b fresh)
          (opened-other ip b fresh r (unknown-known ip b fresh r e known) ∙ known)
          (unknown-known ip b fresh r e known) positive
          (omega (arith, bounded, opened-total ip b fresh)) refl (omega arith) enough in
      (
        ready server,
        after,
        b'',
        ap (λ o. o >>= started)
            (locate_request_server_finds net laws a port ha source ip lost b p hp few),
        refl,
        paid,
        rw (sender, balance_of),
        receiver,
      )
    where
      started : SocketAddress × (DbSnapshot × ℕ) → Result (Dispatcher × (DbSnapshot × ℕ))
      started (servaddr, t) = ok (ready servaddr, t)
