-- ===== src/Requests/Answers.antt =====
-- What the handlers do to the database and what they send, on every branch.
use brix.Base.{
  ℕ, ◌≡◌, ◌≢◌, refl, ap, ◌∙◌, List, [], ◌∷◌, ◌++◌, append_assoc, append-nil, Bytes, codes, text_eq,
  if◌then◌else◌, Bool, true, false, arith, IsMap, inl, inr, Bool-cases,
}
use brix.Net.{Inet}
use brix.Packets.{
  ReqPacket, AckPacket, KilPacket, ack_to_string, PacketStatus, valid, duplicate, out_of_order,
  no_clue,
}
use brix.Snapshot.{to_string}
use brix.Db.State.{ClientRecord, DbRecordResponse, DbSnapshot}
use brix.Db.Program.{ret, run, run-ret, run-bind_done, done, Datagram, reply, update}
use brix.Db.Methods.{make_transaction, remove_client, get_client_info, snapshot_of}
use brix.Db.Bank.{transact, close_account, inquire}
use brix.Db.Idle.{idle_world}
use brix.Db.Refinement.{answers, make_transaction_lem, remove_client_lem, get_client_info_lem}
use brix.Requests.{
  check_packet_status, ack_about, ack_of_response, process_db_transaction, broadcast_snapshot,
  finish_request, answer_request, process_req_packet, kill_ack, is_code_success,
  process_kill_packet,
}

-- A snapshot for the other servers, if there is one to send.
abbrev pub updates : Inet → Bool → DbSnapshot → List Datagram
updates net changed b = if changed then update (to_string net b) ∷ [] else []

module _ (net : Inet) (s : ℕ) (b : DbSnapshot) (sent : List Datagram) where
  finish_request_lem :
      (a : AckPacket)
      → run (finish_request net s a) (idle_world b sent)
        ≡ done tt (
            idle_world b (
              (sent ++ updates net (text_eq a.result (codes "SUCCESS")) b)
              ++ reply s (ack_to_string net a) ∷ []))
  unfolding run finish_request snapshot_of
  finish_request_lem a = elim (Bool-cases (text_eq a.result (codes "SUCCESS"))) [
    | inl changed ↦ ground arith
    | inr same ↦ ground (arith, append-nil sent)
  ]

  -- A request that is not the next one is answered from the record, and changes nothing.
  pub answer_request_stale :
      (p : ReqPacket) (c : ClientRecord) (result : Bytes)
      → text_eq result (codes "SUCCESS") ≡ false
      → run (finish_request net s (ack_about s p c result)) (idle_world b sent)
        ≡ done tt (idle_world b (sent ++ reply s (ack_to_string net (ack_about s p c result)) ∷ []))
  answer_request_stale p c result h =
      finish_request_lem (ack_about s p c result) ∙ ground (arith, append-nil sent)

-- What a transaction sends: the new snapshot first, if it succeeded, and the answer.
abbrev pub transaction_sends : Inet → ℕ → ReqPacket → DbRecordResponse × DbSnapshot → List Datagram
transaction_sends net s p (resp, b) =
    updates net (is_code_success resp.status_code) b
    ++ reply s (ack_to_string net (ack_of_response s p resp)) ∷ []

success_text :
    (s : ℕ) (p : ReqPacket) (resp : DbRecordResponse)
    → text_eq (ack_of_response s p resp).result (codes "SUCCESS") ≡ is_code_success resp.status_code
unfolding ack_of_response text_eq
success_text s p resp = ground arith

module _ (net : Inet) (s : ℕ) (p : ReqPacket) (b : DbSnapshot) (sent : List Datagram) where
  abbrev pub outcome : DbRecordResponse × DbSnapshot
  outcome = transact s p.receiver_ip p.transfer_amount b

  process_db_transaction_lem :
      run (process_db_transaction s p) (idle_world b sent)
      ≡ done (ack_of_response s p outcome.0) (idle_world outcome.1 sent)
  unfolding process_db_transaction
  process_db_transaction_lem =
      run-bind_done (make_transaction s p.receiver_ip p.transfer_amount) _ (idle_world b sent)
        outcome.0 (idle_world outcome.1 sent)
        (make_transaction_lem s p.receiver_ip p.transfer_amount b sent)
      ∙ run-ret (ack_of_response s p outcome.0) (idle_world outcome.1 sent)

  sent_texts :
      (sent
          ++ updates net
              (text_eq (ack_of_response s p outcome.0).result (codes "SUCCESS"))
              outcome.1)
        ++ reply s (ack_to_string net (ack_of_response s p outcome.0)) ∷ []
      ≡ sent ++ transaction_sends net s p outcome
  sent_texts = rw (success_text s p outcome.0) (append_assoc sent _ _)

  -- A request that is the next one of the record at hand is run on the bank as it is now.
  pub answer_request_valid :
      (c : ClientRecord)
      → check_packet_status p c ≡ valid
      → run (answer_request net s p c) (idle_world b sent)
        ≡ done tt (idle_world outcome.1 (sent ++ transaction_sends net s p outcome))
  unfolding answer_request
  answer_request_valid c h =
      rw (h, answer_request)
        (run-bind_done (process_db_transaction s p) (finish_request net s) (idle_world b sent)
            (ack_of_response s p outcome.0) (idle_world outcome.1 sent) process_db_transaction_lem
          ∙ finish_request_lem net s outcome.1 sent (ack_of_response s p outcome.0)
          ∙ ap (λ ds. done tt (idle_world outcome.1 ds)) sent_texts)

  pub answer_request_duplicate :
      (c : ClientRecord)
      → check_packet_status p c ≡ duplicate
      → run (answer_request net s p c) (idle_world b sent)
        ≡ done tt (
            idle_world b
              (sent ++ reply s (ack_to_string net (ack_about s p c (codes "DUPLICATE"))) ∷ []))
  unfolding answer_request text_eq
  answer_request_duplicate c h =
      rw (h, answer_request) (answer_request_stale net s b sent p c (codes "DUPLICATE") refl)

  answer_request_out_of_order :
      (c : ClientRecord)
      → check_packet_status p c ≡ out_of_order
      → run (answer_request net s p c) (idle_world b sent)
        ≡ done tt (
            idle_world b
              (sent ++ reply s (ack_to_string net (ack_about s p c (codes "OUT_OF_ORDER"))) ∷ []))
  unfolding answer_request text_eq
  answer_request_out_of_order c h =
      rw (h, answer_request) (answer_request_stale net s b sent p c (codes "OUT_OF_ORDER") refl)

  -- The record that the handler works with: an unknown client counts as a new one.
  abbrev pub client_or_new : ClientRecord
  client_or_new = (inquire s b).0.client

  pub process_req_packet_starts :
      run (process_req_packet net s p) (idle_world b sent)
      ≡ run (answer_request net s p client_or_new) (idle_world b sent)
  unfolding process_req_packet inquire
  process_req_packet_starts =
      run-bind_done (get_client_info s) _ (idle_world b sent) (inquire s b).0 (idle_world b sent)
        (get_client_info_lem s b sent ∙ same)
    where
      same : answers sent (inquire s b) ≡ done (inquire s b).0 (idle_world b sent)
      same = ground arith

  -- What a REQ packet does to the bank and what it sends.
  abbrev pub served : PacketStatus → DbSnapshot × List Datagram
  served valid = (outcome.1, transaction_sends net s p outcome)
  served duplicate =
      (b, reply s (ack_to_string net (ack_about s p client_or_new (codes "DUPLICATE"))) ∷ [])
  served out_of_order =
      (b, reply s (ack_to_string net (ack_about s p client_or_new (codes "OUT_OF_ORDER"))) ∷ [])
  served no_clue =
      (b, reply s (ack_to_string net (ack_about s p client_or_new (codes "SERVER_ERRROR"))) ∷ [])

  not-no_clue : (c : ClientRecord) → check_packet_status p c ≢ no_clue
  unfolding check_packet_status
  not-no_clue c = ground arith

  served_cases :
      (t : PacketStatus)
      → check_packet_status p client_or_new ≡ t
      → run (answer_request net s p client_or_new) (idle_world b sent)
        ≡ done tt (idle_world (served t).0 (sent ++ (served t).1))
  served_cases valid h = answer_request_valid client_or_new h
  served_cases duplicate h = answer_request_duplicate client_or_new h
  served_cases out_of_order h = answer_request_out_of_order client_or_new h
  served_cases no_clue h = absurd (not-no_clue client_or_new h)

  -- The thread of a REQ packet, run alone, by the status of the packet.
  pub process_req_packet_lem : run (process_req_packet net s p) (idle_world b sent) ≡ (
      let (b', ds) = served (check_packet_status p client_or_new) in
      done tt (idle_world b' (sent ++ ds)))
  process_req_packet_lem =
      process_req_packet_starts ∙ served_cases (check_packet_status p client_or_new) refl

-- What a KIL packet makes the server send: the answer first, then the snapshot without the client.
abbrev pub removal_sends : Inet → ℕ → KilPacket → DbRecordResponse × DbSnapshot → List Datagram
removal_sends net s p (resp, b) =
    reply s (ack_to_string net (kill_ack s p resp))
    ∷ updates net (is_code_success resp.status_code) b

finish_kill :
    (net : Inet) (changed : Bool) (b : DbSnapshot) (sent : List Datagram)
    → run (if changed then broadcast_snapshot net else ret tt) (idle_world b sent)
      ≡ done tt (idle_world b (sent ++ updates net changed b))
unfolding run broadcast_snapshot snapshot_of
finish_kill net true b sent = refl
finish_kill net false b sent = ground (arith, append-nil sent)

-- The thread of a KIL packet, run alone on a database with at most one record for an address,
-- removes the client if it is registered, and ends with every mutex free. The answer goes out
-- before the snapshot, and it holds the balance that was removed.
pub process_kill_packet_lem :
    (net : Inet) (s : ℕ) (p : KilPacket) (b : DbSnapshot) (sent : List Datagram)
    → IsMap b.records
    → run (process_kill_packet net s p) (idle_world b sent) ≡ (
        let (resp, b') = close_account s b in
        done tt (idle_world b' (sent ++ removal_sends net s p (resp, b'))))
unfolding process_kill_packet
process_kill_packet_lem net s p b sent once =
    let (resp, b') = close_account s b in
    run-bind_done (remove_client s) _ (idle_world b sent) resp (idle_world b' sent)
      (remove_client_lem s b sent once)
    ∙ unfold run in
      finish_kill net (is_code_success resp.status_code) b'
        (sent ++ reply s (ack_to_string net (kill_ack s p resp)) ∷ [])
      ∙ ap (λ ds. done tt (idle_world b' ds)) (append_assoc sent _ _)
