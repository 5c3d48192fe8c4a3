-- ===== src/Tests/Discovery.antt =====
-- A client that looks for the server 10.0.0.7.
use brix.Base.{◌∷◌, ◌++◌, ℕ, ◌≡◌, refl, true, none, [], ◌++◌, codes, arith, pos}
use brix.Text.{ok}
use brix.Net.{SocketAddress, htons}
use brix.Net.Dotted.{dotted, dotted_laws}
use brix.Db.State.{DbSnapshot}
use brix.Db.Program.{reply, update, run, done}
use brix.Db.Bank.{open_account}
use brix.Snapshot.{to_string}
use brix.Db.Idle.{idle_world}
use brix.Server.{datagram, discovery_round}
use brix.Server.Location.{location_text, discovery_round_lem}
use brix.Client.Response.{Usable, extract_ip_and_port_from_response-Usable, extract-location}
use brix.Client.Discovery.{client_discovery_protocol, locate_request_server}
use brix.Client.Discovery.Search.{
  discovery_service, locate_request_server_finds, client_discovery_protocol_beyond,
}
use brix.Tests.Bank.{bank}

-- 10.0.0.7
abbrev address : ℕ
address = 117440522

abbrev server : SocketAddress
server = record { ip = address; port = 41231 }

extract_ip_and_port_from_response-Usable_example : Usable (dotted_laws.text address) (pos 4001)
extract_ip_and_port_from_response-Usable_example =
    extract_ip_and_port_from_response-Usable dotted dotted_laws true (dotted_laws.text address)
      (pos 4001) (location_text (dotted_laws.text address) 4001)
      (extract-location dotted dotted_laws address 4001 (omega arith) (omega arith) (omega arith))

discovery_round_lem_example :
    run
      (discovery_round dotted
        (dotted_laws.text address)
        (pos 4001)
        true
        (datagram 9 (codes "DIS END")))
      (idle_world bank [])
    ≡ done tt (
        idle_world (open_account 9 bank).1 (
          []
          ++ reply 9 (location_text (dotted_laws.text address) 4001)
            ∷ update (to_string dotted (open_account 9 bank).1)
            ∷ []))
discovery_round_lem_example =
    discovery_round_lem dotted dotted_laws address 4001 (omega arith) (omega arith) true 9
      (codes "DIS END") bank []

locate_request_server_finds_example :
    locate_request_server dotted
      (discovery_service dotted (dotted_laws.text address) 4000 server 9)
      (pos 4000)
      (bank, 4)
    ≡ ok (record { ip = address; port = htons 4001 }, ((open_account 9 bank).1, 0))
locate_request_server_finds_example =
    locate_request_server_finds dotted dotted_laws address 4000 (omega arith) server 9 4 bank
      (pos 4000) (omega arith) (omega arith)

client_discovery_protocol_beyond_example :
    (t : DbSnapshot × ℕ) × (client_discovery_protocol dotted
        (discovery_service dotted (dotted_laws.text address) 65535 server 9)
        (codes "255.255.255.255")
        (pos 65535)
        5
        (bank, 0)
      ≡ ok (none, t))
client_discovery_protocol_beyond_example =
    client_discovery_protocol_beyond dotted dotted_laws address 65535 (omega arith) server 9
      (codes "255.255.255.255") (pos 65535) 5 0 bank refl
