-- ===== src/Server/Replication.antt =====
-- What a snapshot does to another server.
use brix.Base.{take, ℕ, ◌≡◌, refl, ◌≤◌, ◌^◌, List, Bytes, text_eq, false, length, lookup, IsInt}
use brix.Net.{Inet, InetLaws, addr_to_string}
use brix.Db.State.{DbSnapshot}
use brix.Db.Program.{run, done, raised, Datagram}
use brix.Db.Methods.{load_snapshot}
use brix.Db.Bank.Validity.{AllFit}
use brix.Db.Idle.{idle_world}
use brix.Snapshot.{to_string}
use brix.Snapshot.RoundTrip.{IsReadable, AllReadable, from_string-to_string, from_string_unreadable}
use brix.Server.{datagram, c_string, listen_round}
use brix.Server.Buffer.{c_string-take}
use brix.Snapshot.Plain.{to_string-NonZero}

load_snapshot_lem :
    (b b' : DbSnapshot) (sent : List Datagram)
    → run (load_snapshot b') (idle_world b sent) ≡ done tt (idle_world b' sent)
unfolding run load_snapshot
load_snapshot_lem b b' sent = refl

module _ (net : Inet) (laws : InetLaws net) (self_ip : Bytes) (src : ℕ) (b own : DbSnapshot)
    (sent : List Datagram) (other : text_eq (addr_to_string net src) self_ip ≡ false)
    (short : length (to_string net b) ≤ 1024) (fit : AllFit b.records) where
  received : c_string (take 1024 (to_string net b)) ≡ to_string net b
  received = c_string-take 1024 (to_string net b) short (to_string-NonZero net laws b fit)

  -- A server that receives another server's snapshot, of at most 1024 bytes, whose records stand
  -- under their own 32-bit addresses and whose numbers fit, the counters and request numbers an
  -- `int`, ends up with the same counters and the same record at every address, and with every
  -- mutex free.
  pub listen_round-to_string :
      IsReadable b.metadata
      → AllReadable b.records
      → (b' : DbSnapshot) × (run
            (listen_round net self_ip (datagram src (to_string net b)))
            (idle_world own sent)
          ≡ done tt (idle_world b' sent))
        × (b'.metadata ≡ b.metadata)
        × ((k : ℕ) → lookup k b'.records ≡ lookup k b.records)
  unfolding listen_round
  listen_round-to_string m r =
      let (b', read_back, metadata, records) = from_string-to_string net laws b fit m r in
      (
        b',
        rw (other, listen_round, received, read_back) (load_snapshot_lem own b' sent),
        metadata,
        records,
      )

  -- Let the snapshot of another server, of at most 1024 bytes, whose records stand under their own
  -- 32-bit addresses and fit their types and whose number of transactions fits an `int`, say that
  -- 2^31 or more has been transferred. It makes the parser of the server that receives it throw,
  -- the exception leaves the listener, and the database stays as it was.
  pub listen_round_unreadable :
      IsInt b.metadata.num_transactions
      → 2 ^ 31 ≤ b.metadata.total_transferred
      → run (listen_round net self_ip (datagram src (to_string net b))) (idle_world own sent)
        ≡ raised (idle_world own sent)
  unfolding listen_round run
  listen_round_unreadable n large =
      rw (other, listen_round, received, from_string_unreadable net laws b fit n large)
