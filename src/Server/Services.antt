-- ===== src/Server/Services.antt =====
-- The sockets of the server's services, as `packet_multiplexer`, `server_discovery_service`,
-- `heartbeat_receiver`, `single_socket_election` and the constructor of `DB_Synchronizer` set them up
-- before their loops. None of them looks at the result of `bind_to_sockaddr`.
mod Start
pub mod FreePorts
pub mod UsedPorts
use brix.Base.{
  ℕ, ◌+◌, ◌<◌, ◌≤◌, ◌≡◌, ◌≢◌, refl, sym, ap, subst, Bool, true, false, Option, none, some, List, [],
  ◌∷◌, codes, All, length, arith, ℤ, pos,
}
use brix.Net.{Inet, InetLaws, SocketAddress, Timeval, timeout, create_sockaddr}
use brix.Net.System.{
  so_broadcast, so_rcvtimeo, Os, Socket, any_address, Puts, OsLaws, Outcome, goes, Sys, ret, ◌>>=◌,
  ◌>>◌, create_udp_socket, enable_broadcast, set_timeout, bind_to_sockaddr,
}
use brix.Server.Ports.{
  Service, greeter, multiplexer, heartbeat, replication, single_socket, port_delta, bound_port,
  bound_port_injective,
}
use brix.Server.Synchronizer.{new_db_synchronizer}

module _ {S : Type 0} (net : Inet) (os : Os S) (port : ℕ) where
  -- `create_sockaddr("0.0.0.0", ...)` with the port of a service.
  abbrev pub servaddr : Service → SocketAddress
  servaddr service = create_sockaddr net (codes "0.0.0.0") (pos (port + port_delta service))

  -- `server_discovery_service`
  abbrev pub discovery_service_socket : Sys S ℤ
  discovery_service_socket = do
    sockfd ← create_udp_socket os
    enable_broadcast os sockfd
    bind_to_sockaddr os sockfd (servaddr greeter)
    ret sockfd

  -- `packet_multiplexer`
  abbrev pub packet_multiplexer_socket : Sys S ℤ
  packet_multiplexer_socket = do
    sockfd ← create_udp_socket os
    bind_to_sockaddr os sockfd (servaddr multiplexer)
    ret sockfd

  -- `heartbeat_receiver`
  abbrev pub heartbeat_receiver_socket : Sys S ℤ
  heartbeat_receiver_socket = do
    sockfd ← create_udp_socket os
    bind_to_sockaddr os sockfd (servaddr heartbeat)
    ret sockfd

  -- The constructor of `DB_Synchronizer`.
  abbrev pub db_synchronizer_socket : Sys S ℤ
  db_synchronizer_socket = do
    sockfd ← create_udp_socket os
    enable_broadcast os sockfd
    bind_to_sockaddr os sockfd (new_db_synchronizer net port).servaddr
    ret sockfd

  -- `single_socket_election`
  abbrev pub single_socket_election_socket : Sys S ℤ
  single_socket_election_socket = do
    ss_sockfd ← create_udp_socket os
    enable_broadcast os ss_sockfd
    set_timeout os ss_sockfd 10
    bind_to_sockaddr os ss_sockfd (servaddr single_socket)
    ret ss_sockfd

  -- The socket that a service goes into its loop with.
  unfoldable pub open_service : Service → Sys S ℤ
  open_service greeter = discovery_service_socket
  open_service multiplexer = packet_multiplexer_socket
  open_service heartbeat = heartbeat_receiver_socket
  open_service replication = db_synchronizer_socket
  open_service single_socket = single_socket_election_socket

  -- Set-ups one after another; each service stands with its socket.
  unfoldable pub open_services : List Service → Sys S (List (Service × ℤ))
  open_services [] = ret []
  open_services (service ∷ services) = do
    sockfd ← open_service service
    opened ← open_services services
    ret ((service, sockfd) ∷ opened)

-- The socket that a service needs: its port on all addresses, leave to broadcast where it sends to
-- all, and a time-out of 10 ms for the election.
abbrev pub socket_of : Inet → ℕ → Service → Socket
socket_of net port service = record {
  bound = some (any_address (bound_port net port service));
  broadcasts = elim service [ multiplexer ↦ false | heartbeat ↦ false | _ ↦ true ];
  waits = elim service [ single_socket ↦ some (timeout 10) | _ ↦ none ];
}
