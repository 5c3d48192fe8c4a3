-- ===== src/Tests/Failover.antt =====
-- Alice pays Bob at the server 1.0.0.0, and then asks 9.0.0.0 again.
use brix.Base.{◌+◌, ◌-◌, ◌≡◌, ◌≤◌, refl, some, [], ◌∷◌, ◌++◌, codes, length, arith, lookup, assign}
use brix.Text.{print_signed, print}
use brix.Net.{addr_to_string}
use brix.Net.Dotted.{dotted, dotted_laws, quad}
use brix.Packets.{ack_to_string}
use brix.Db.State.{ClientRecord, DbSnapshot}
use brix.Db.Program.{run, done, reply, update}
use brix.Db.Methods.{add_to_int}
use brix.Db.Bank.{transact, pay}
use brix.Db.Bank.Effects.{balance_of}
use brix.Db.Idle.{idle_world}
use brix.Snapshot.{to_string}
use brix.Requests.{ack_about, process_req_packet}
use brix.Server.{datagram, listen_round}
use brix.Server.Failover.{process_req_packet-survives}
use brix.Tests.Bank.{alice, bob, bank, bank-IsValid}
use brix.Tests.Threads.{request, next_request}
use brix.Tests.Wire.{other_server}

abbrev after_payment : DbSnapshot
after_payment = (transact 1 2 30 bank).1

payment_text :
    to_string dotted after_payment ≡ codes "4 280 100070 # 1.0.0.0 99970 1 ; 2.0.0.0 100 4 ; "
unfolding to_string print_signed print quad addr_to_string transact pay lookup add_to_int assign
payment_text = refl

payment_text-short : length (to_string dotted after_payment) ≤ 1024
payment_text-short = rw payment_text (omega arith)

abbrev alice_after : ClientRecord
alice_after = record alice { balance = 100000 - 30; last_request = 1 }

process_req_packet-survives_example :
    (b2 : DbSnapshot) × (run (process_req_packet dotted 1 request) (idle_world bank [])
      ≡ done tt (
          idle_world after_payment (
            update (to_string dotted after_payment)
            ∷ reply 1 (ack_to_string dotted (ack_about 1 request alice_after (codes "SUCCESS")))
            ∷ [])))
    × (run
          (listen_round dotted (codes "9.0.0.0") (datagram 1 (to_string dotted after_payment)))
          (idle_world bank [])
        ≡ done tt (idle_world b2 []))
    × (balance_of 1 b2 ≡ some (100000 - 30))
    × (balance_of 2 b2 ≡ some (70 + 30))
    × (run (process_req_packet dotted 1 request) (idle_world b2 [])
        ≡ done tt (
            idle_world b2 (
              []
              ++ reply 1
                  (ack_to_string dotted (ack_about 1 request alice_after (codes "DUPLICATE")))
                ∷ [])))
unfolding lookup transact pay add_to_int assign
process_req_packet-survives_example =
    process_req_packet-survives dotted dotted_laws 1 request alice bob bank bank-IsValid refl refl
      (omega arith) (omega arith) (omega arith) (omega arith) next_request (omega arith)
      (codes "9.0.0.0") 1 bank [] other_server payment_text-short
      (record {
        num_transactions = omega arith;
        total_transferred = omega arith;
        total_balance = omega arith;
      })
      (omega arith)
