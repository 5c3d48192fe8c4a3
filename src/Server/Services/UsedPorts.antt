-- ===== src/Server/Services/UsedPorts.antt =====
-- A service whose port is in use: `bind_to_sockaddr` closes the socket, and the service goes into its
-- loop with it nevertheless.
use brix.Base.{ℕ, ◌<◌, ◌≡◌, true, Option, none, some, Bytes, ℤ}
use brix.Text.{undefined}
use brix.Net.{Inet, InetLaws}
use brix.Net.System.{Os, OsLaws, goes, ret}
use brix.Db.Program.{fault, ret as done_with}
use brix.Server.{Received, failed, datagram, packet_multiplexer_round, greeter_round, listen_round}
use brix.Server.Ports.{
  Service, greeter, multiplexer, heartbeat, replication, single_socket, bound_port,
}
use brix.Server.Services.{open_service}
use brix.Election.Heartbeat.{heartbeat_receiver_round}

abbrev pub received : Option (ℕ × Bytes) → Received
received none = failed
received (some (src, payload)) = datagram src payload

-- What the first round of each service does with what `recvfrom` gives it: undefined behaviour, the
-- write to `buffer[-1]`, or nothing, again and again. Of the election it is only said that `recvfrom`
-- gives it an error.
abbrev pub Breaks : Inet → Service → Received → Type 0
Breaks net multiplexer r = packet_multiplexer_round net r ≡ undefined
Breaks net heartbeat r = heartbeat_receiver_round r ≡ undefined
Breaks net greeter r = (self_ip : Bytes) (port : ℕ) → greeter_round net self_ip port true r ≡ fault
Breaks net replication r = (self_ip : Bytes) → listen_round net self_ip r ≡ done_with tt
Breaks net single_socket r = r ≡ failed

module _ {S : Type 0} (net : Inet) (inet : InetLaws net) (os : Os S) (laws : OsLaws os)
    (port : ℕ) where
  open laws use {at_fd, left, taken}

  module _ (s : S) (room : 0 < left s) where
    abbrev Used : Service → Type 0
    Used service =
        (0 < bound_port net port service) × (taken s (bound_port net port service) ≡ true)

    abbrev Goes : Service → Type 0
    Goes service =
        (fd : ℤ) × (t : S) × (open_service net os port service s ≡ goes fd t) × (at_fd t fd ≡ none)
