-- ===== src/Server/Ports.antt =====
-- The ports of the server's services: server/src/ports.h and the functions that start the services.
use brix.Base.{
  ℕ, ◌+◌, ◌<◌, ◌≡◌, refl, ap, sym, ◌∙◌, Option, none, some, codes, arith, pos, bits32, ◌==◌,
  if◌then◌else◌,
}
use brix.Net.{Inet, create_sockaddr}

-- The services that listen on a port of their own.
pub data Service : Type 0 where
  greeter multiplexer heartbeat replication single_socket : Service

-- `udp_server_greeter::start_server`, `start_multiplexer_server`, `start_heartbeat_receiver`, the
-- constructor of `DB_Synchronizer` and `single_socket_election` add this to the server's port.
abbrev pub port_delta : Service → ℕ
port_delta greeter = 0
port_delta multiplexer = 1
port_delta heartbeat = 2
port_delta replication = 3
port_delta single_socket = 6

-- The port of the socket that a service binds.
unfoldable pub bound_port : Inet → ℕ → Service → ℕ
unfolding create_sockaddr
bound_port net port service =
    (create_sockaddr net (codes "0.0.0.0") (pos (port + port_delta service))).port

abbrev service_at : ℕ → Option Service
service_at n =
    if n == 0
    then some greeter
    else if n == 1
    then some multiplexer
    else if n == 2
    then some heartbeat
    else if n == 3
    then some replication
    else if n == 6
    then some single_socket
    else none

port_delta-lt : (s : Service) → port_delta s < 7
port_delta-lt greeter = omega arith
port_delta-lt multiplexer = omega arith
port_delta-lt heartbeat = omega arith
port_delta-lt replication = omega arith
port_delta-lt single_socket = omega arith

service_at-port_delta : (s : Service) → service_at (port_delta s) ≡ some s
service_at-port_delta greeter = refl
service_at-port_delta multiplexer = refl
service_at-port_delta heartbeat = refl
service_at-port_delta replication = refl
service_at-port_delta single_socket = refl

some_injective : {s t : Service} → some s ≡ some t → s ≡ t
some_injective e = cc

-- Whatever the server's port is, no two of its services bind the same port.
pub bound_port_injective :
    (net : Inet) (port : ℕ) (s t : Service) → bound_port net port s ≡ bound_port net port t → s ≡ t
unfolding bound_port bits32
bound_port_injective net port s t e =
    let same : port_delta s ≡ port_delta t = omega (arith, e, port_delta-lt s, port_delta-lt t) in
    some_injective (sym (service_at-port_delta s) ∙ ap service_at same ∙ service_at-port_delta t)
