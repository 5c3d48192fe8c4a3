-- ===== src/Server/Synchronizer.antt =====
-- The one instance of `DB_Synchronizer` and its addresses,
-- server/src/db_synchronizer/db_synchronizer.cpp.
use brix.Base.{ℕ, ◌+◌, ◌≡◌, refl, Option, none, some, codes, pos}
use brix.Net.{Inet, SocketAddress, create_sockaddr}
use brix.Server.Ports.{port_delta, replication}

-- The addresses that it listens on and sends to.
pub record DbSynchronizer : Type 0 where
  pub port : ℕ
  pub servaddr : SocketAddress
  pub bcastaddr : SocketAddress

-- The constructor. `INADDR_ANY` is 0.
abbrev pub new_db_synchronizer : Inet → ℕ → DbSynchronizer
new_db_synchronizer net port =
    let address =
      create_sockaddr net (codes "255.255.255.255") (pos (port + port_delta replication)) in
    record {
      port = port + port_delta replication;
      servaddr = record address { ip = 0 };
      bcastaddr = address;
    }

-- `DB_Synchronizer::setup`, where `instance` is its static variable: the first call decides.
abbrev pub setup : Inet → ℕ → Option DbSynchronizer → DbSynchronizer
setup net port none = new_db_synchronizer net port
setup net port (some instance) = instance

-- `DB_Synchronizer::get_instance`: the member `instance` that it tests is never set.
abbrev pub get_instance : Inet → Option DbSynchronizer → DbSynchronizer
get_instance net instance = setup net 9999 instance

-- After `main` has set it up, every caller gets that instance, and not one with the port 9999.
get_instance-setup :
    (net : Inet) (port : ℕ)
    → get_instance net (some (setup net port none)) ≡ new_db_synchronizer net port
get_instance-setup net port = refl

-- Servers that are started with the same port hear each other's snapshots.
setup-heard :
    (net : Inet) (port : ℕ) (a b : DbSynchronizer)
    → a ≡ setup net port none
    → b ≡ setup net port none
    → a.bcastaddr.port ≡ b.servaddr.port
setup-heard net port a b ha hb = rw (ha, hb) refl
