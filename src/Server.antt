-- ===== src/Server.antt =====
-- The loops of the server's threads, a datagram at a time: the multiplexer, the discovery service
-- and the listener for the snapshots of the other servers.
pub mod Buffer
pub mod Replication
pub mod Failover
pub mod Synchronizer
pub mod Dispatch
pub mod Location
pub mod Ports
pub mod Services
use brix.Base.{
  ℕ, zero, ⊤, ◌+◌, Bool, true, false, Option, none, some, List, [], ◌∷◌, ◌++◌, Bytes, codes,
  text_eq, take, if◌then◌else◌, ◌==◌, ℤ, pos,
}
use brix.Text.{Result, ok, threw, undefined, space, print_signed}
use brix.Net.{Inet, addr_to_string}
use brix.Packets.{
  PacketType, req, ack, err, kil, ReqPacket, KilPacket, to_req_packet, to_kil_packet, type,
}
use brix.Snapshot.{to_string, from_string}
use brix.Db.State.{DbSnapshot}
use brix.Db.Program.{Prog, ret, throw, fault, send, reply, update, ◌>>=◌, ◌>>◌}
use brix.Db.Methods.{register_client, get_db_snapshot, load_snapshot}
use brix.Requests.{process_req_packet, process_kill_packet}

-- What `recvfrom` gives back: an error, or the sender's address and the payload.
pub data Received : Type 0 where
  failed : Received
  datagram : ℕ → Bytes → Received

-- A `char *` ends at the first zero.
unfoldable pub c_string : Bytes → Bytes
c_string [] = []
c_string (c ∷ s) = if c == 0 then [] else c ∷ c_string s

-- The thread that the multiplexer starts.
pub data Thread : Type 0 where
  req_thread : ℕ → ReqPacket → Thread
  kill_thread : ℕ → KilPacket → Thread

unfoldable pub thread : Inet → Thread → Prog ⊤
thread net (req_thread ip p) = process_req_packet net ip p
thread net (kill_thread ip p) = process_kill_packet net ip p

-- A REQ packet is parsed in a `try`.
abbrev pub try_req : ℕ → Result ReqPacket → Result (Option Thread)
try_req src (ok p) = ok (some (req_thread src p))
try_req src (threw e) = ok none
try_req src undefined = undefined

-- A KIL packet is not: the exception leaves the loop, and ends the server.
abbrev pub start_kill : ℕ → Result KilPacket → Result (Option Thread)
start_kill src (ok p) = ok (some (kill_thread src p))
start_kill src (threw e) = threw e
start_kill src undefined = undefined

unfoldable pub dispatch : Inet → ℕ → Bytes → Result (Option Thread)
dispatch net src str_packet = elim (type str_packet) [
  | req ↦ try_req src (to_req_packet net str_packet)
  | kil ↦ start_kill src (to_kil_packet str_packet)
  | _ ↦ ok none
]

abbrev max_packet_size : ℕ
max_packet_size = 2048

-- One round of `packet_multiplexer`. On an error `n` is -1, and `buffer[n]` is written.
unfoldable pub packet_multiplexer_round : Inet → Received → Result (Option Thread)
unfolding dispatch c_string
packet_multiplexer_round net failed = undefined
packet_multiplexer_round net (datagram src payload) =
    dispatch net src (c_string (take max_packet_size payload))

-- `LOC <ip> <port> END`, which `snprintf` cuts at the size of the buffer.
unfoldable pub location_message : Bytes → ℤ → Bytes
location_message requests_server_ip requests_server_port = take 2048 (
    codes "LOC "
    ++ (requests_server_ip ++ space ∷ (print_signed requests_server_port ++ codes " END")))

-- One round of `server_discovery_service`: only the coordinator answers, whatever the request says.
unfoldable pub discovery_round : Inet → Bytes → ℤ → Bool → Received → Prog ⊤
unfolding location_message get_db_snapshot
discovery_round net server_ip server_port is_coordinator failed = fault
discovery_round net server_ip server_port is_coordinator (datagram src payload) =
    if is_coordinator
    then (do
      register_client src
      snapshot ← get_db_snapshot
      send (reply src (location_message server_ip server_port)) (ret tt)
      send (update (to_string net snapshot)) (ret tt))
    else ret tt

-- `udp_server_greeter::start_server` runs the service on the server's port, and announces the next
-- one, where the multiplexer listens.
unfoldable pub greeter_round : Inet → Bytes → ℕ → Bool → Received → Prog ⊤
unfolding discovery_round
greeter_round net self_ip port is_coordinator received =
    discovery_round net self_ip (pos (port + 1)) is_coordinator received

abbrev pub load_parsed : Result DbSnapshot → Prog ⊤
load_parsed (ok s) = load_snapshot s
load_parsed (threw e) = throw
load_parsed undefined = fault

-- One round of `DB_Synchronizer::listen_for_updates`: at most `MAXLINE` bytes are read, and the
-- messages of this server are ignored. Nothing catches an exception of the parser.
unfoldable pub listen_round : Inet → Bytes → Received → Prog ⊤
unfolding c_string
listen_round net self_ip failed = ret tt
listen_round net self_ip (datagram src payload) =
    if text_eq (addr_to_string net src) self_ip
    then ret tt
    else load_parsed (from_string net (c_string (take 1024 payload)))
