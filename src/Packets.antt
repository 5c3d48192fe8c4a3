-- ===== src/Packets.antt =====
-- The packets of common/src/packets: their fields, their text (packets.cpp) and the parsers of
-- `String_Packet` (string_packets.cpp). The proofs are in the modules below this one.
pub mod RoundTrip
pub mod Accepted
use brix.Base.{
  ℕ, ◌++◌, [], ◌∷◌, Bool, true, false, ◌&&◌, Option, none, some, List, Bytes, codes, text_eq, take,
  if◌then◌else◌, ℤ, pos, negsuc,
}
use brix.Text.{
  Result, ok, threw, Exception, invalid_argument, ◌>>=◌, space, tokens, print, print_signed, stol,
  stoul,
}
use brix.Net.{Inet, addr_to_string}

pub data PacketType : Type 0 where
  req ack err kil : PacketType

pub data PacketStatus : Type 0 where
  valid duplicate out_of_order no_clue : PacketStatus

-- `Packet_type` and `long int seq_num` are the fields of the base class.
pub record ReqPacket : Type 0 where
  pub packet_type : PacketType
  pub seq_num : ℤ
  pub receiver_ip : ℕ
  pub transfer_amount : ℕ

pub record AckPacket : Type 0 where
  pub packet_type : PacketType
  pub seq_num : ℤ
  pub result : Bytes
  pub new_balance : ℕ
  pub sender_ip : ℕ
  pub receiver_ip : ℕ
  pub transfer_amount : ℕ

pub record KilPacket : Type 0 where
  pub packet_type : PacketType
  pub seq_num : ℤ

-- The constructors of the three classes.
abbrev pub req_packet : ℤ → ℕ → ℕ → ReqPacket
req_packet seq ip amount = record {
  packet_type = req;
  seq_num = seq;
  receiver_ip = ip;
  transfer_amount = amount;
}

abbrev pub ack_packet : ℤ → Bytes → ℕ → ℕ → ℕ → ℕ → AckPacket
ack_packet seq res balance sender receiver amount = record {
  packet_type = ack;
  seq_num = seq;
  result = res;
  new_balance = balance;
  sender_ip = sender;
  receiver_ip = receiver;
  transfer_amount = amount;
}

abbrev pub kil_packet : KilPacket
kil_packet = record { packet_type = kil; seq_num = negsuc 0 }

-- `REQ_Packet::to_string`. It does not test the result of `inet_ntop`: `none` stands for the text
-- that it would make of an uninitialised buffer.
unfoldable pub req_to_string : Inet → ReqPacket → Option Bytes
req_to_string net p = elim (net.inet_ntop p.receiver_ip) [
  | none ↦ none
  | some ip_str ↦ some (
      codes "REQ"
      ++ space
        ∷ (print_signed p.seq_num
            ++ space ∷ (ip_str ++ space ∷ (print p.transfer_amount ++ codes " END"))))
]

-- `ACK_Packet::to_string`
unfoldable pub ack_to_string : Inet → AckPacket → Bytes
ack_to_string net p =
    codes "ACK"
    ++ space
      ∷ (print_signed p.seq_num
          ++ space
            ∷ (p.result
                ++ space
                  ∷ (print p.new_balance
                      ++ space
                        ∷ (addr_to_string net p.sender_ip
                            ++ space
                              ∷ (addr_to_string net p.receiver_ip
                                  ++ space ∷ (print p.transfer_amount ++ space ∷ codes "END"))))))

-- `KIL_Packet::to_string`, which begins with the tag of an ACK packet.
unfoldable pub kil_to_string : KilPacket → Bytes
kil_to_string p = codes "ACK" ++ space ∷ codes "END"

unfoldable pub status_to_string : PacketStatus → Bytes
status_to_string valid = codes "VALID"
status_to_string duplicate = codes "DUPLICATE"
status_to_string out_of_order = codes "OUT_OF_ORDER"
status_to_string no_clue = codes "NO_CLUE"

-- The parsers look at the vector of tokens: its size, its first and its last token.
unfoldable pub req_of_tokens : Inet → List Bytes → Result ReqPacket
req_of_tokens net (t0 ∷ t1 ∷ t2 ∷ t3 ∷ t4 ∷ []) =
    if text_eq t0 (codes "REQ") && text_eq t4 (codes "END")
    then (do seq ← stol t1; amount ← stoul t3; ok (req_packet seq (net.inet_addr t2) amount))
    else threw invalid_argument
req_of_tokens net ts = threw invalid_argument

-- `String_Packet::to_REQ_Packet`
unfoldable pub to_req_packet : Inet → Bytes → Result ReqPacket
unfolding req_of_tokens
to_req_packet net s = req_of_tokens net (tokens s)

unfoldable pub ack_of_tokens : Inet → List Bytes → Result AckPacket
ack_of_tokens net (t0 ∷ t1 ∷ t2 ∷ t3 ∷ t4 ∷ t5 ∷ t6 ∷ t7 ∷ []) =
    if text_eq t0 (codes "ACK") && text_eq t7 (codes "END")
    then (do
      seq ← stol t1
      new_balance ← stoul t3
      amount ← stoul t6
      ok (ack_packet seq t2 new_balance (net.inet_addr t4) (net.inet_addr t5) amount))
    else threw invalid_argument
ack_of_tokens net ts = threw invalid_argument

-- `String_Packet::to_ACK_Packet`
unfoldable pub to_ack_packet : Inet → Bytes → Result AckPacket
unfolding ack_of_tokens
to_ack_packet net s = ack_of_tokens net (tokens s)

unfoldable pub kil_of_tokens : List Bytes → Result KilPacket
kil_of_tokens (t0 ∷ t1 ∷ []) =
    if text_eq t0 (codes "KIL") && text_eq t1 (codes "END")
    then ok kil_packet
    else threw invalid_argument
kil_of_tokens ts = threw invalid_argument

-- `String_Packet::to_KIL_Packet`
unfoldable pub to_kil_packet : Bytes → Result KilPacket
unfolding kil_of_tokens
to_kil_packet s = kil_of_tokens (tokens s)

-- `String_Packet::type`: the first three characters decide.
unfoldable pub type : Bytes → PacketType
type s =
    if text_eq (take 3 s) (codes "REQ")
    then req
    else if text_eq (take 3 s) (codes "ACK")
    then ack
    else if text_eq (take 3 s) (codes "ERR")
    then err
    else if text_eq (take 3 s) (codes "KIL")
    then kil
    else err
