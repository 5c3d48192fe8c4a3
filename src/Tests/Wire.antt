-- ===== src/Tests/Wire.antt =====
-- Packets and snapshots on the wire, with dotted decimal addresses.
use brix.Base.{
  take, ◌++◌, inr, ◌↔◌, ℕ, ◌≡◌, ◌≢◌, ◌↔◌, refl, some, [], ◌∷◌, arith, pos, Bytes, codes, text_eq,
  lookup, length, ◌≤◌, ◌-◌, ◌^◌, false,
}
use brix.Text.{ok, threw, invalid_argument, out_of_range, tokens, stol, stoul, print_signed, print}
use brix.Net.{addr_to_string}
use brix.Net.Dotted.{quad, from_quad, dotted, dotted_laws}
use brix.Packets.{
  req_packet, kil_packet, req_to_string, kil_to_string, to_req_packet, to_kil_packet, type, req,
}
use brix.Packets.RoundTrip.{to_req_packet-req_to_string}
use brix.Packets.Accepted.{IsRequest, to_req_packet_iff}
use brix.Snapshot.{to_string, from_string}
use brix.Snapshot.RoundTrip.{from_string-to_string}
use brix.Db.State.{DbSnapshot}
use brix.Db.Program.{run, done, raised}
use brix.Db.Idle.{idle_world}
use brix.Server.{packet_multiplexer_round, datagram, datagram, listen_round}
use brix.Server.Replication.{listen_round-to_string, listen_round_unreadable}
use brix.Server.Dispatch.{packet_multiplexer_round_iff}
use brix.Tests.Bank.{bank, bank-IsValid}

-- 192.168.0.7, in network byte order
abbrev address : ℕ
address = 117483712

request_text :
    req_to_string dotted (req_packet (pos 12) address 500)
    ≡ some (codes "REQ 12 192.168.0.7 500 END")
unfolding req_to_string print_signed quad
request_text = refl

-- A token may only begin with a number, and an amount may be negative.
loose_request_read :
    to_req_packet dotted (codes "REQ 1x 1.0.0.0 -5y END") ≡ ok (req_packet (pos 1) 1 (2 ^ 64 - 5))
unfolding to_req_packet tokens text_eq stol stoul from_quad
loose_request_read = refl

request_read :
    to_req_packet dotted (codes " REQ +12\t192.168.0.7 500x END ")
    ≡ ok (req_packet (pos 12) address 500)
unfolding to_req_packet tokens text_eq stol stoul from_quad
request_read = refl

-- The text of a KIL packet is that of no KIL packet.
kill_text :
    (kil_to_string kil_packet ≡ codes "ACK END")
    × (to_kil_packet (codes "ACK END") ≡ threw invalid_argument)
unfolding kil_to_string to_kil_packet tokens text_eq
kill_text = (refl, refl)

-- `stoul` negates, and refuses what has more than 64 bits.
amounts :
    (stoul (codes "-1") ≡ ok (2 ^ 64 - 1))
    × (stoul (codes "18446744073709551616") ≡ threw out_of_range)
unfolding stoul
amounts = (refl, refl)

bank_text : to_string dotted bank ≡ codes "3 250 100070 # 1.0.0.0 100000 0 ; 2.0.0.0 70 4 ; "
unfolding to_string print_signed print quad addr_to_string
bank_text = refl

to_req_packet-req_to_string_example :
    (s : Bytes) × (req_to_string dotted (req_packet (pos 12) address 500) ≡ some s)
    × (to_req_packet dotted s ≡ ok (req_packet (pos 12) address 500))
    × (type s ≡ req)
to_req_packet-req_to_string_example =
    to_req_packet-req_to_string dotted dotted_laws (pos 12) address 500 (omega arith) (omega arith)
      (omega arith)

to_req_packet_iff_example :
    (to_req_packet dotted (codes "REQ 1 1.0.0.0 5 END") ≡ ok (req_packet (pos 1) 1 5))
    ↔ IsRequest dotted (tokens (codes "REQ 1 1.0.0.0 5 END")) (req_packet (pos 1) 1 5)
to_req_packet_iff_example =
    to_req_packet_iff dotted (codes "REQ 1 1.0.0.0 5 END") (req_packet (pos 1) 1 5)

from_string-to_string_example :
    (b' : DbSnapshot) × (from_string dotted (to_string dotted bank) ≡ ok b')
    × (b'.metadata ≡ bank.metadata)
    × ((k : ℕ) → lookup k b'.records ≡ lookup k bank.records)
from_string-to_string_example =
    from_string-to_string dotted dotted_laws bank bank-IsValid.fit (omega arith) (omega arith)

bank_text-short : length (to_string dotted bank) ≤ 1024
bank_text-short = rw bank_text (omega arith)

pub other_server : text_eq (addr_to_string dotted 1) (codes "9.0.0.0") ≡ false
unfolding text_eq addr_to_string quad
other_server = refl

listen_round-to_string_example :
    (b' : DbSnapshot) × (run
        (listen_round dotted (codes "9.0.0.0") (datagram 1 (to_string dotted bank)))
        (idle_world bank [])
      ≡ done tt (idle_world b' []))
    × (b'.metadata ≡ bank.metadata)
    × ((k : ℕ) → lookup k b'.records ≡ lookup k bank.records)
listen_round-to_string_example =
    listen_round-to_string dotted dotted_laws (codes "9.0.0.0") 1 bank bank [] other_server
      bank_text-short bank-IsValid.fit (omega arith) (omega arith)

-- The same bank after large transfers.
abbrev busy : DbSnapshot
busy = record {
  metadata = record bank.metadata { total_transferred = 2 ^ 31 };
  records = bank.records;
}

busy_text : to_string dotted busy ≡ codes "3 2147483648 100070 # 1.0.0.0 100000 0 ; 2.0.0.0 70 4 ; "
unfolding to_string print_signed print quad addr_to_string
busy_text = refl

listen_round_unreadable_example :
    run
      (listen_round dotted (codes "9.0.0.0") (datagram 1 (to_string dotted busy)))
      (idle_world bank [])
    ≡ raised (idle_world bank [])
listen_round_unreadable_example =
    listen_round_unreadable dotted dotted_laws (codes "9.0.0.0") 1 busy bank [] other_server
      (rw busy_text (omega arith)) bank-IsValid.fit (omega arith) (omega arith)

malformed : tokens (codes "KIL NOW") ≢ codes "KIL" ∷ codes "END" ∷ []
unfolding tokens
malformed = ground arith

packet_multiplexer_round_iff_example :
    (packet_multiplexer_round dotted (datagram 1 (codes "KIL NOW" ++ 0 ∷ codes "END"))
      ≡ threw invalid_argument)
    ↔ ((take 3 (codes "KIL NOW") ≡ codes "KIL")
        × (tokens (codes "KIL NOW") ≢ codes "KIL" ∷ codes "END" ∷ [])
        × (invalid_argument ≡ invalid_argument))
packet_multiplexer_round_iff_example =
    packet_multiplexer_round_iff dotted 1 (codes "KIL NOW" ++ 0 ∷ codes "END") (codes "KIL NOW")
      invalid_argument
      (record {
        rest = 0 ∷ codes "END";
        parts = refl;
        no_zero = omega arith;
        ends = inr (codes "END", refl);
      })
