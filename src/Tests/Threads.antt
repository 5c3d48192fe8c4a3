-- ===== src/Tests/Threads.antt =====
-- The handlers and the interleavings, on the bank with two clients.
use brix.Base.{
  Option, Bool, none, false, ◌≢◌, ℕ, zero, suc, ◌&&◌, ◌≡◌, refl, some, List, [], ◌∷◌, ◌++◌, arith,
  pos, codes, true, lookup, assign, to_int, eqb_ℤ,
}
use brix.Net.Dotted.{dotted}
use brix.Packets.{ReqPacket, req_packet, valid, ack_to_string}
use brix.Db.State.{DbSnapshot, ClientRecord}
use brix.Db.Program.{database, metadata, client, run, ret, done, Datagram, reply, ◌>>◌}
use brix.Db.Bank.{transact, pay}
use brix.Db.Bank.Effects.{balance_of, counts}
use brix.Db.Idle.{idle_world}
use brix.Db.Methods.{make_transaction}
use brix.Db.Threads.{Turn, left_turn, right_turn, schedule, IsDeadlock}
use brix.Db.Threads.Deadlock.{leaving_and_sending, remove_client-make_transaction-IsDeadlock}
use brix.Db.Threads.Ownership.Money.{KeepsMoney, two_payments, has_ended, schedule-two_payments}
use brix.Db.Threads.Order.Progress.{AllFree, IsSettled, two_payments-end}
use brix.Requests.{check_packet_status, process_req_packet, ack_about}
use brix.Requests.Answers.{outcome, client_or_new, transaction_sends}
use brix.Requests.Reply.{handled, process_req_packet_answers}
use brix.Requests.Replay.{process_req_packet_replayed}
use brix.Requests.Race.{arrived_twice, process_req_packet_twice}
use brix.Tests.Bank.{alice, bob, bank, bank-IsValid}

abbrev pub request : ReqPacket
request = req_packet (pos 1) 2 30

remove_client-make_transaction-IsDeadlock_example :
    (ts : List Turn) × IsDeadlock (schedule ts (leaving_and_sending 1 2 30 bank []))
    × ((more : List Turn)
        → schedule more (schedule ts (leaving_and_sending 1 2 30 bank []))
          ≡ schedule ts (leaving_and_sending 1 2 30 bank []))
unfolding lookup
remove_client-make_transaction-IsDeadlock_example =
    remove_client-make_transaction-IsDeadlock 1 2 30 alice bank [] refl

-- Both clients pay each other, and the threads take turns.
abbrev turns : ℕ → List Turn
turns zero = []
turns (suc n) = left_turn ∷ right_turn ∷ turns n

two_payments-has_ended :
    (let s = schedule (turns 60) (two_payments (1, 2, 30) (2, 1, 50) (idle_world bank [])) in
      has_ended s.left && has_ended s.right)
    ≡ true
unfolding lookup assign schedule two_payments make_transaction
two_payments-has_ended = refl

schedule-two_payments_example :
    KeepsMoney
      (idle_world bank [])
      (schedule (turns 60) (two_payments (1, 2, 30) (2, 1, 50) (idle_world bank [])))
unfolding lookup
schedule-two_payments_example =
    schedule-two_payments (1, 2, 30) (2, 1, 50) (idle_world bank []) (turns 60) (omega arith)

idle-AllFree : AllFree (idle_world bank []).db
unfolding lookup
idle-AllFree database e = absurd (cc)
idle-AllFree metadata e = absurd (cc)
idle-AllFree (client k) e = go (lookup k bank.records) e
  where
    go :
        (o : Option ClientRecord)
        → (elim o as (λ _. Option Bool) [ none ↦ none | some _ ↦ some false ]) ≢ some true
    go none e = absurd (cc)
    go (some c) e = absurd (cc)

-- The first thread stands with the sender's mutex, the second one before the database.
two_payments-end_example :
    (after : List Turn) × IsSettled (idle_world bank []) (
      schedule after (schedule (turns 3) (two_payments (1, 2, 30) (2, 1, 50) (idle_world bank []))))
unfolding lookup
two_payments-end_example =
    two_payments-end (1, 2, 30) (2, 1, 50) (idle_world bank []) (turns 3) idle-AllFree (omega arith)

process_req_packet_answers_example :
    run (process_req_packet dotted 1 request) (idle_world bank [])
    ≡ (let (b', ds) = handled dotted 1 request bank in done tt (idle_world b' ([] ++ ds)))
process_req_packet_answers_example = process_req_packet_answers dotted 1 request bank []

pub next_request : check_packet_status request alice ≡ valid
unfolding check_packet_status to_int eqb_ℤ
next_request = refl

request-counts : counts (outcome dotted 1 request bank []).0.status_code ≡ true
unfolding transact pay lookup
request-counts = refl

process_req_packet_replayed_example :
    run
      (process_req_packet dotted 1 request >> process_req_packet dotted 1 request)
      (idle_world bank [])
    ≡ (let o = outcome dotted 1 request bank [] in
        done tt (
          idle_world o.1 (
            transaction_sends dotted 1 request o
            ++ reply 1 (
                ack_to_string dotted
                  (ack_about 1 request (client_or_new dotted 1 request o.1 []) (codes "DUPLICATE")))
              ∷ [])))
unfolding lookup
process_req_packet_replayed_example =
    process_req_packet_replayed dotted 1 request alice bank [] refl next_request request-counts
      (omega arith)

process_req_packet_twice_example :
    (ts : List Turn) × (b' : DbSnapshot) × (sent' : List Datagram) × (schedule ts
        (arrived_twice dotted 1 request alice bank [])
      ≡ record { world = idle_world b' sent'; left = ret tt; right = ret tt })
    × (balance_of 1 b' ≡ some 99940)
    × (balance_of 2 b' ≡ some 130)
unfolding lookup
process_req_packet_twice_example =
    process_req_packet_twice dotted 1 request alice bank [] bob bank-IsValid refl refl (omega arith)
      (omega arith) (omega arith) (omega arith) next_request
