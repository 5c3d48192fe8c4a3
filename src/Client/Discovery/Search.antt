-- ===== src/Client/Discovery/Search.antt =====
-- The client's search against the discovery service of a server that is the coordinator.
use brix.Base.{
  ◌+◌, ℕ, zero, suc, ◌≡◌, refl, ap, ◌∙◌, ◌<◌, ◌^◌, ◌%◌, true, Option, none, some, [], Bytes, codes,
  arith, ℤ, pos, bits32,
}
use brix.Text.{Result, ok, ◌>>=◌}
use brix.Net.{bring, Inet, InetLaws, SocketAddress, create_sockaddr, htons}
use brix.Db.State.{DbSnapshot}
use brix.Db.Program.{run}
use brix.Db.Methods.{snapshot_of}
use brix.Db.Bank.{open_account}
use brix.Db.Bank.Opening.{open_account-open_account}
use brix.Db.Idle.{idle_world}
use brix.Server.{datagram, location_message, greeter_round}
use brix.Server.Location.{location_text, discovery_round_alone, location_message-whole}
use brix.Client.Response.{
  Extraction, extract_ip_and_port_from_response, extract-location, extract-location_beyond,
}
use brix.Client.Service.{after_thread}
use brix.Client.Discovery.{
  hear, judge, located, discovery_rounds, client_discovery_protocol, locate_request_server,
}

-- The network between a client at `ip` and the discovery service of an idle coordinator, which sends
-- from `server` and announces an address and a port.
unfoldable pub discovery_service :
    Inet
    → Bytes
    → ℕ
    → SocketAddress
    → ℕ
    → DbSnapshot × ℕ
    → SocketAddress
    → Bytes
    → Option (SocketAddress × Bytes) × (DbSnapshot × ℕ)
discovery_service net server_ip server_port server ip (b, lost) to text =
    let (answer, b') =
      after_thread ip b
        (run (greeter_round net server_ip server_port true (datagram ip text)) (idle_world b [])) in
    let (received, lost') = bring server answer lost in (received, (b', lost'))

module _ (net : Inet) (server_ip : Bytes) (server_port : ℕ) (server : SocketAddress) (ip : ℕ)
    (b : DbSnapshot) (to : SocketAddress) (text : Bytes) where
  answer_served :
      after_thread ip b
        (run (greeter_round net server_ip server_port true (datagram ip text)) (idle_world b []))
      ≡ (some (location_message server_ip (pos (server_port + 1))), (open_account ip b).1)
  unfolding snapshot_of greeter_round
  answer_served =
      ap (after_thread ip b)
        (discovery_round_alone net server_ip (pos (server_port + 1)) true ip text b [])
      ∙ ground arith

  answer_lost :
      (k : ℕ)
      → discovery_service net server_ip server_port server ip (b, suc k) to text
        ≡ (none, ((open_account ip b).1, k))
  unfolding discovery_service
  answer_lost k = rw answer_served refl

  answer_brought : discovery_service net server_ip server_port server ip (b, 0) to text ≡ (
    some (server, location_message server_ip (pos (server_port + 1))),
    ((open_account ip b).1, 0),
  )
  unfolding discovery_service
  answer_brought = rw answer_served refl

module _ (net : Inet) (laws : InetLaws net) (a port : ℕ) (h : a < 2 ^ 32) (server : SocketAddress)
    (ip : ℕ) where
  abbrev network :
      DbSnapshot × ℕ → SocketAddress → Bytes → Option (SocketAddress × Bytes) × (DbSnapshot × ℕ)
  network = discovery_service net (laws.text a) port server ip

  lost_round :
      (n k : ℕ) (b : DbSnapshot) (to : SocketAddress)
      → discovery_rounds net network (suc n) to (b, suc k)
        ≡ discovery_rounds net network n to ((open_account ip b).1, k)
  unfolding discovery_rounds
  lost_round n k b to =
      ap (hear net (λ src t. discovery_rounds net network n src t) to)
        (answer_lost net (laws.text a) port server ip b to (codes "DIS END") k)

  abbrev answered :
      ℕ → DbSnapshot → Result Extraction → Result (Option (Bytes × ℤ) × (DbSnapshot × ℕ))
  answered n b r =
      r >>= judge (λ src t. discovery_rounds net network n src t) server ((open_account ip b).1, 0)

  brought_round :
      (n : ℕ) (b : DbSnapshot) (to : SocketAddress)
      → port + 1 < 100000
      → discovery_rounds net network (suc n) to (b, 0)
        ≡ answered n b
            (extract_ip_and_port_from_response net true (location_text (laws.text a) (port + 1)))
  unfolding discovery_rounds
  brought_round n b to small =
      ap (hear net (λ src t. discovery_rounds net network n src t) to)
        (answer_brought net (laws.text a) port server ip b to (codes "DIS END"))
      ∙ ap (λ s. answered n b (extract_ip_and_port_from_response net true s))
          (location_message-whole net laws a (port + 1) h small)

  found_rounds :
      (n k : ℕ) (b : DbSnapshot) (to : SocketAddress)
      → port < 65535
      → k < n
      → discovery_rounds net network n to (b, k)
        ≡ ok (some (laws.text a, pos (port + 1)), ((open_account ip b).1, 0))
  found_rounds zero k b to high few = absurd (omega arith)
  found_rounds (suc n) zero b to high few =
      brought_round n b to (omega arith)
      ∙ ap (answered n b) (extract-location net laws a (port + 1) h (omega arith) (omega arith))
  found_rounds (suc n) (suc k) b to high few =
      lost_round n k b to
      ∙ found_rounds n k (open_account ip b).1 to high (omega arith)
      ∙ ap (λ b'. ok (some (laws.text a, pos (port + 1)), (b', 0))) (open_account-open_account ip b)

  refused_rounds :
      (n k : ℕ) (b : DbSnapshot) (to : SocketAddress)
      → port ≡ 65535
      → (t : DbSnapshot × ℕ) × (discovery_rounds net network n to (b, k) ≡ ok (none, t))
  refused_rounds zero k b to last = unfold discovery_rounds in ((b, k), refl)
  refused_rounds (suc n) zero b to last =
      let (t, e) = refused_rounds n zero (open_account ip b).1 server last in
      (
        t,
        brought_round n b to (omega arith)
            ∙ ap (answered n b)
                (extract-location_beyond net laws a (port + 1) h (omega arith) (omega arith))
            ∙ e,
      )
  refused_rounds (suc n) (suc k) b to last =
      let (t, e) = refused_rounds n k (open_account ip b).1 to last in (t, lost_round n k b to ∙ e)

  -- A client whose broadcasts reach the discovery service of an idle coordinator with a 32-bit
  -- address and a port below 65535 finds that address and the next port, and is registered once, if
  -- at most four answers get lost.
  pub locate_request_server_finds :
      (k : ℕ) (b : DbSnapshot) (location_service_port : ℤ)
      → port < 65535
      → k < 5
      → locate_request_server net network location_service_port (b, k)
        ≡ ok (record { ip = a; port = htons (port + 1) }, ((open_account ip b).1, 0))
  unfolding locate_request_server create_sockaddr bits32
  locate_request_server_finds k b p high few =
      ap (λ r. r >>= located net network)
        (found_rounds 5 k b (create_sockaddr net (codes "255.255.255.255") p) high few)
      ∙ rw (laws.addr a h) (ap found_at whole)
    where
      whole : (port + 1) % 2 ^ 32 % 2 ^ 16 ≡ port + 1
      whole = omega arith

      found_at : ℕ → Result (SocketAddress × (DbSnapshot × ℕ))
      found_at q = ok (record { ip = a; port = htons q }, ((open_account ip b).1, 0))

  -- A server on the port 65535 is never found: it announces the port 65536, which the client refuses.
  -- The search ends with -1 after any number of rounds, however many answers get lost.
  pub client_discovery_protocol_beyond :
      (broadcast_ip : Bytes) (broadcast_port : ℤ) (max_retries k : ℕ) (b : DbSnapshot)
      → port ≡ 65535
      → (t : DbSnapshot × ℕ) × (client_discovery_protocol net network broadcast_ip broadcast_port
            max_retries
            (b, k)
          ≡ ok (none, t))
  unfolding client_discovery_protocol
  client_discovery_protocol_beyond broadcast_ip broadcast_port n k b last =
      refused_rounds n k b (create_sockaddr net broadcast_ip broadcast_port) last
