-- ===== src/Client/Discovery.antt =====
-- How the client finds the server: `client_discovery_protocol` of
-- client/src/client_discovery_protocol.cpp, and `locate_request_server` and the constructor of
-- client/src/data_transfer/client_request_transfer.cpp. The socket's setup, the log lines and the
-- start of the thread are left out.
pub mod Search
use brix.Base.{ℕ, zero, suc, true, Option, none, some, [], Bytes, codes, take, ℤ, pos}
use brix.Text.{Result, ok, threw, undefined, ◌>>=◌}
use brix.Net.{Inet, SocketAddress, create_sockaddr}
use brix.Server.{c_string}
use brix.Client.{Dispatcher}
use brix.Client.Response.{Extraction, extracted, extract_ip_and_port_from_response}

-- What follows the answer of `recvfrom`, where `again` is the next round: an answer that is not valid
-- counts as a round, and its sender's address replaces that of the server.
abbrev pub Search : Type 0 → Type 0
Search S = Result (Option (Bytes × ℤ) × S)

abbrev pub judge :
    {S : Type 0} → (SocketAddress → S → Search S) → SocketAddress → S → Extraction → Search S
judge again src t (extracted ip port) = ok (some (ip, port), t)
judge again src t _ = again src t

abbrev pub hear :
    {S : Type 0}
    → Inet
    → (SocketAddress → S → Search S)
    → SocketAddress
    → Option (SocketAddress × Bytes) × S
    → Search S
hear net again servaddr (none, t) = again servaddr t
hear net again servaddr (some (src, payload), t) =
    extract_ip_and_port_from_response net true (c_string (take 2048 payload)) >>= judge again src t

module _ {S : Type 0} (net : Inet)
    (network : S → SocketAddress → Bytes → Option (SocketAddress × Bytes) × S) where
  -- The rounds of the loop that are left.
  unfoldable pub discovery_rounds : ℕ → SocketAddress → S → Search S
  unfolding c_string extract_ip_and_port_from_response
  discovery_rounds zero servaddr s = ok (none, s)
  discovery_rounds (suc n) servaddr s =
      hear net (λ src t. discovery_rounds n src t) servaddr (network s servaddr (codes "DIS END"))

  -- `none` is -1.
  unfoldable pub client_discovery_protocol : Bytes → ℤ → ℕ → S → Search S
  unfolding discovery_rounds create_sockaddr
  client_discovery_protocol broadcast_ip broadcast_port max_retries s =
      discovery_rounds max_retries (create_sockaddr net broadcast_ip broadcast_port) s

  -- Where no server is found, the address is made of variables that have no value.
  abbrev pub located : Option (Bytes × ℤ) × S → Result (SocketAddress × S)
  located (none, s) = undefined
  located (some (ip, port), s) = ok (create_sockaddr net ip port, s)

  unfoldable pub locate_request_server : ℤ → S → Result (SocketAddress × S)
  unfolding client_discovery_protocol
  locate_request_server location_service_port s =
      client_discovery_protocol (codes "255.255.255.255") location_service_port 5 s >>= located

  -- The constructor of `RequestDispatcher`.
  unfoldable pub new_dispatcher : ℤ → S → Result (Dispatcher × S)
  unfolding locate_request_server
  new_dispatcher port s = locate_request_server port s >>= λ (servaddr, t).
      ok (record { servaddr = servaddr; request_queue = []; current_request = pos 1; sent = [] }, t)
