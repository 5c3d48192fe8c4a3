-- ===== src/Requests/Reply.antt =====
-- What a REQ packet is answered, said without the code's own tests and its `switch`.
use brix.Base.{
  ℕ, ◌+◌, ◌==◌, ◌≡◌, refl, sym, ap, ◌∙◌, List, [], ◌∷◌, ◌++◌, Bytes, codes, if◌then◌else◌, Bool,
  true, false, none, some, lookup, arith, pos, u32, bits32, to_int, int_of_bits, ltb_ℤ,
}
use brix.Net.{Inet}
use brix.Packets.{ReqPacket, AckPacket, ack_packet, ack_to_string}
use brix.Db.State.{
  ClientRecord, StatusCode, success, duplicate_ip, insufficient_balance, not_found, unknown_sender,
  unknown_receiver, balance_check, DbRecordResponse, DbSnapshot, no_client,
}
use brix.Db.Program.{run, done, Datagram, reply}
use brix.Db.Bank.{transact, inquire}
use brix.Db.Idle.{idle_world}
use brix.Requests.{check_packet_status, ack_of_response, process_req_packet, is_code_success}
use brix.Requests.Status.{same_number}
use brix.Requests.Answers.{updates, client_or_new, served, process_req_packet_lem}

-- The word of the protocol for what a transaction came to.
abbrev pub result_text : StatusCode → Bytes
result_text success = codes "SUCCESS"
result_text balance_check = codes "BALANCE_CHECK"
result_text insufficient_balance = codes "INSUFFICIENT_BALANCE"
result_text unknown_receiver = codes "RECEIVER_NOT_REGISTERED"
result_text duplicate_ip = codes "BAD_REQUEST"
result_text unknown_sender = codes "SENDER_NOT_REGISTERED"
result_text not_found = codes "SERVER_ERROR"

-- Whether the answer tells the client its number and its balance; they are 0 otherwise.
abbrev pub tells_record : StatusCode → Bool
tells_record unknown_sender = false
tells_record not_found = false
tells_record _ = true

-- An answer repeats the addresses and the amount of the request.
abbrev pub answer_with : ℕ → ReqPacket → Bytes → Bool → ClientRecord → AckPacket
answer_with s p result told c =
    ack_packet (pos (if told then c.last_request else 0)) result (if told then c.balance else 0) s
      p.receiver_ip p.transfer_amount

ack_of_response-answer_with :
    (s : ℕ) (p : ReqPacket) (resp : DbRecordResponse)
    → ack_of_response s p resp
      ≡ answer_with s p (result_text resp.status_code) (tells_record resp.status_code) resp.client
unfolding ack_of_response
ack_of_response-answer_with s p resp = ground arith

-- The sender's record; a sender without one counts as a client that has made no request.
abbrev pub record_of : ℕ → DbSnapshot → ClientRecord
record_of s b = elim (lookup s b.records) [ none ↦ no_client | some c ↦ c ]

-- The numbers agree in their low 32 bits.
abbrev pub is_next : ReqPacket → ClientRecord → Bool
is_next p c = bits32 p.seq_num == u32 (c.last_request + 1)

-- As signed numbers of 32 bits, the request's number is below the next one.
abbrev pub is_past : ReqPacket → ClientRecord → Bool
is_past p c = ltb_ℤ (to_int p.seq_num) (int_of_bits (u32 (c.last_request + 1)))

module _ (net : Inet) (s : ℕ) (p : ReqPacket) (b : DbSnapshot) where
  -- The bank after the request, and what is sent, in order.
  abbrev pub handled : DbSnapshot × List Datagram
  handled =
      let c = record_of s b in
      let (resp, b') = transact s p.receiver_ip p.transfer_amount b in
      if is_next p c
      then (
        b',
        updates net (is_code_success resp.status_code) b'
            ++ reply s (
                ack_to_string net (
                  answer_with s p (result_text resp.status_code) (tells_record resp.status_code)
                    resp.client))
              ∷ [],
      )
      else (
        b,
        reply s (
              ack_to_string net (
                answer_with s p (if is_past p c then codes "DUPLICATE" else codes "OUT_OF_ORDER")
                  true c))
            ∷ [],
      )

  module _ (sent : List Datagram) where
    same_record : client_or_new net s p b sent ≡ record_of s b
    unfolding inquire
    same_record = ground arith

    same_answer :
        (c : ClientRecord)
        → client_or_new net s p b sent ≡ c
        → record_of s b ≡ c
        → served net s p b sent (check_packet_status p c) ≡ handled
    unfolding check_packet_status
    same_answer c here there =
        let (resp, b') = transact s p.receiver_ip p.transfer_amount b in
        ground (
          arith,
          here,
          there,
          same_number p.seq_num (c.last_request + 1),
          ack_of_response-answer_with s p resp,
        )

    -- The thread of a REQ packet, run alone, ends with every mutex free. If the request's number and
    -- the sender's last number plus one agree in their low 32 bits, the transaction is run, the answer
    -- has the word of the protocol for its result, and on success the new snapshot is sent to the
    -- other servers before the answer. If not, nothing changes, and the answer has the sender's record
    -- and `DUPLICATE` or `OUT_OF_ORDER`, as the request's number, taken as a signed number of 32 bits,
    -- is below or above the next one.
    pub process_req_packet_answers :
        run (process_req_packet net s p) (idle_world b sent)
        ≡ (let (b', ds) = handled in done tt (idle_world b' (sent ++ ds)))
    process_req_packet_answers =
        process_req_packet_lem net s p b sent
        ∙ ap (λ o. done tt (idle_world o.0 (sent ++ o.1)))
            (same_answer (client_or_new net s p b sent) refl (sym same_record))
