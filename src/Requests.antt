-- ===== src/Requests.antt =====
-- The handlers of server/src/request_handler: what a thread does with a REQ and with a KIL packet.
-- Each is a program over the database that ends by sending its answer. The log lines that they
-- print are left out.
pub mod Status
pub mod Answers
pub mod Reply
pub mod Replay
pub mod Race
use brix.Base.{
  ℕ, ⊤, ◌+◌, Bool, true, false, Bytes, codes, text_eq, if◌then◌else◌, ℤ, pos, u32, to_int,
  int_of_bits, ltb_ℤ, eqb_ℤ,
}
use brix.Net.{Inet}
use brix.Packets.{
  PacketStatus, valid, duplicate, out_of_order, no_clue, ReqPacket, AckPacket, KilPacket,
  ack_packet, ack_to_string,
}
use brix.Snapshot.{to_string}
use brix.Db.State.{
  ClientRecord, StatusCode, success, duplicate_ip, insufficient_balance, not_found, unknown_sender,
  unknown_receiver, balance_check, DbRecordResponse, DbSnapshot,
}
use brix.Db.Program.{Prog, ret, send, reply, update, ◌>>=◌, ◌>>◌}
use brix.Db.Methods.{make_transaction, remove_client, get_client_info, get_db_snapshot}

-- `check_packet_status`: both numbers are converted to `int`.
unfoldable pub check_packet_status : ReqPacket → ClientRecord → PacketStatus
check_packet_status packet client =
    let received : ℤ = to_int packet.seq_num in
    let expected : ℤ = int_of_bits (u32 (client.last_request + 1)) in
    if eqb_ℤ received expected
    then valid
    else if ltb_ℤ received expected
    then duplicate
    else out_of_order

-- An ACK packet about a client and the transfer that it asked for.
abbrev pub ack_about : ℕ → ReqPacket → ClientRecord → Bytes → AckPacket
ack_about sender_ip packet c result =
    ack_packet (pos c.last_request) result c.balance sender_ip packet.receiver_ip
      packet.transfer_amount

abbrev pub ack_error : ℕ → ReqPacket → Bytes → AckPacket
ack_error sender_ip packet result =
    ack_packet (pos 0) result 0 sender_ip packet.receiver_ip packet.transfer_amount

-- The `switch` of `process_db_transaction`.
unfoldable pub ack_of_response : ℕ → ReqPacket → DbRecordResponse → AckPacket
ack_of_response sender_ip packet result = elim (result.status_code) [
  | success ↦ ack_about sender_ip packet result.client (codes "SUCCESS")
  | balance_check ↦ ack_about sender_ip packet result.client (codes "BALANCE_CHECK")
  | insufficient_balance ↦ ack_about sender_ip packet result.client (codes "INSUFFICIENT_BALANCE")
  | unknown_receiver ↦ ack_about sender_ip packet result.client (codes "RECEIVER_NOT_REGISTERED")
  | duplicate_ip ↦ ack_about sender_ip packet result.client (codes "BAD_REQUEST")
  | unknown_sender ↦ ack_error sender_ip packet (codes "SENDER_NOT_REGISTERED")
  | not_found ↦ ack_error sender_ip packet (codes "SERVER_ERROR")
]

-- `process_db_transaction`
unfoldable pub process_db_transaction : ℕ → ReqPacket → Prog AckPacket
unfolding ack_of_response
process_db_transaction sender_ip packet = do
  result ← make_transaction sender_ip packet.receiver_ip packet.transfer_amount
  ret (ack_of_response sender_ip packet result)

-- `DB_Synchronizer::broadcast_update` of the current snapshot
unfoldable pub broadcast_snapshot : Inet → Prog ⊤
unfolding get_db_snapshot
broadcast_snapshot net = do s ← get_db_snapshot; send (update (to_string net s)) (ret tt)

-- The end of `process_req_packet`: a successful transfer goes to the other servers first, and then
-- the answer goes to the client.
unfoldable pub finish_request : Inet → ℕ → AckPacket → Prog ⊤
unfolding broadcast_snapshot
finish_request net sender_ip ack = do
  if text_eq ack.result (codes "SUCCESS") then broadcast_snapshot net else ret tt
  send (reply sender_ip (ack_to_string net ack)) (ret tt)

-- `process_req_packet`, with the client's record in hand.
unfoldable pub answer_request : Inet → ℕ → ReqPacket → ClientRecord → Prog ⊤
unfolding check_packet_status process_db_transaction finish_request
answer_request net sender_ip packet client = do
  ack ← elim (check_packet_status packet client) [
    | valid ↦ process_db_transaction sender_ip packet
    | duplicate ↦ ret (ack_about sender_ip packet client (codes "DUPLICATE"))
    | out_of_order ↦ ret (ack_about sender_ip packet client (codes "OUT_OF_ORDER"))
    | no_clue ↦ ret (ack_about sender_ip packet client (codes "SERVER_ERRROR"))
  ]
  finish_request net sender_ip ack

-- `process_req_packet`: the record is read with no lock, before the transaction.
unfoldable pub process_req_packet : Inet → ℕ → ReqPacket → Prog ⊤
unfolding answer_request
process_req_packet net sender_ip packet = do
  info ← get_client_info sender_ip
  answer_request net sender_ip packet info.client

-- The `switch` of `process_kill_packet`.
unfoldable pub kill_ack : ℕ → KilPacket → DbRecordResponse → AckPacket
kill_ack sender_ip packet result = elim (result.status_code) [
  | success ↦
      ack_packet packet.seq_num (codes "KILL") result.client.balance sender_ip 0
        result.client.balance
  | not_found ↦ ack_packet packet.seq_num (codes "SENDER_NOT_REGISTERED") 0 sender_ip 0 0
  | _ ↦ ack_packet packet.seq_num (codes "SERVER_ERROR") 0 sender_ip 0 0
]

abbrev pub is_code_success : StatusCode → Bool
is_code_success success = true
is_code_success _ = false

-- `process_kill_packet`: here the answer goes first.
unfoldable pub process_kill_packet : Inet → ℕ → KilPacket → Prog ⊤
unfolding kill_ack broadcast_snapshot
process_kill_packet net sender_ip packet = do
  result ← remove_client sender_ip
  send (reply sender_ip (ack_to_string net (kill_ack sender_ip packet result))) (ret tt)
  if is_code_success result.status_code then broadcast_snapshot net else ret tt
