-- ===== src/Requests/Race.antt =====
-- Two threads that serve the same REQ packet: the record is read before any mutex is taken, so both
-- can take the packet for the next one.
use brix.Base.{
  ℕ, ⊤, ◌+◌, ◌-◌, ◌^◌, ◌≤◌, ◌<◌, ◌≡◌, ◌≢◌, ap, ◌∙◌, List, [], ◌∷◌, ◌++◌, arith, some, lookup, u32,
}
use brix.Net.{Inet}
use brix.Packets.{ReqPacket, valid}
use brix.Db.State.{ClientRecord, DbSnapshot}
use brix.Db.Program.{ret, Datagram}
use brix.Db.Methods.{get_client_info}
use brix.Db.Bank.{transact}
use brix.Db.Bank.Total.{total}
use brix.Db.Bank.Validity.{IsValid}
use brix.Db.Bank.Effects.{balance_of, Paid, transact-Paid}
use brix.Db.Idle.{idle_world}
use brix.Db.Threads.{Pair, Turn, left_turn, right_turn, schedule}
use brix.Db.Threads.Alone.{left_alone, right_alone, schedule-append}
use brix.Requests.{check_packet_status, answer_request, process_req_packet}
use brix.Requests.Answers.{answer_request_valid}

module _ (net : Inet) (s : ℕ) (p : ReqPacket) (c : ClientRecord) (b : DbSnapshot)
    (sent : List Datagram) where
  -- The packet has arrived twice.
  abbrev pub arrived_twice : Pair ⊤ ⊤
  arrived_twice = record {
    world = idle_world b sent;
    left = process_req_packet net s p;
    right = process_req_packet net s p;
  }

  both_read :
      lookup s b.records ≡ some c
      → schedule (left_turn ∷ right_turn ∷ []) arrived_twice ≡ record {
        world = idle_world b sent;
        left = answer_request net s p c;
        right = answer_request net s p c;
      }
  unfolding schedule process_req_packet get_client_info
  both_read known = ground arith

  module _ (e : ClientRecord) (v : IsValid b) (hs : lookup s b.records ≡ some c)
      (hr : lookup p.receiver_ip b.records ≡ some e) (ne : s ≢ p.receiver_ip)
      (positive : 0 < p.transfer_amount)
      (covered : p.transfer_amount + p.transfer_amount ≤ c.balance)
      (bounded : total b.records < 2 ^ 64) (next : check_packet_status p c ≡ valid) where
    abbrev once : DbSnapshot
    once = (transact s p.receiver_ip p.transfer_amount b).1

    abbrev twice : DbSnapshot
    twice = (transact s p.receiver_ip p.transfer_amount once).1

    abbrev r : ℕ
    r = p.receiver_ip

    abbrev a : ℕ
    a = p.transfer_amount

    Paid-once :
        Paid s r
          (record c { balance = c.balance - a; last_request = u32 (c.last_request + 1) })
          (record e { balance = e.balance + a })
          b
          once
    Paid-once = transact-Paid s r a c e b v hs hr ne positive (omega arith) bounded

    Paid-twice :
        Paid s r
          (record c {
            balance = c.balance - a - a;
            last_request = u32 (u32 (c.last_request + 1) + 1);
          })
          (record e { balance = e.balance + a + a })
          once
          twice
    Paid-twice =
        transact-Paid s r a
          (record c { balance = c.balance - a; last_request = u32 (c.last_request + 1) })
          (record e { balance = e.balance + a }) once Paid-once.valid Paid-once.sender_after
          Paid-once.receiver_now ne positive (omega arith) (omega (arith, Paid-once.same_total))

    -- In a valid state whose balances add up to less than 2^64, let a registered client's next REQ
    -- packet, to another registered client, of a positive amount that the balance covers twice,
    -- arrive twice. There is an order of steps in which both threads take it for the next request:
    -- both end, and the amount has gone from the sender to the receiver two times.
    pub process_req_packet_twice :
        (ts : List Turn) × (b' : DbSnapshot) × (sent' : List Datagram) × (schedule ts arrived_twice
          ≡ record { world = idle_world b' sent'; left = ret tt; right = ret tt })
        × (balance_of s b' ≡ some (c.balance - a - a))
        × (balance_of r b' ≡ some (e.balance + a + a))
    process_req_packet_twice =
        let (ts1, e1) =
          left_alone (answer_request net s p c) tt (idle_world once _) (answer_request net s p c)
            (idle_world b sent) (answer_request_valid net s p b sent c next) in
        let (ts2, e2) =
          right_alone (ret tt) tt (idle_world twice _) (answer_request net s p c)
            (idle_world once _) (answer_request_valid net s p once _ c next) in
        (
          (left_turn ∷ right_turn ∷ []) ++ (ts1 ++ ts2),
          twice,
          _,
          schedule-append (left_turn ∷ right_turn ∷ []) (ts1 ++ ts2) arrived_twice
              ∙ ap (schedule (ts1 ++ ts2)) (both_read hs)
              ∙ schedule-append ts1 ts2 _
              ∙ ap (schedule ts2) e1
              ∙ e2,
          rw (Paid-twice.sender_after, balance_of),
          rw (Paid-twice.receiver_now, balance_of),
        )
