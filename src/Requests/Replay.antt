-- ===== src/Requests/Replay.antt =====
-- A REQ packet that arrives again after it has been processed.
use brix.Base.{
  ℕ, ◌+◌, ◌^◌, ◌<◌, ◌≡◌, ap, ◌∙◌, List, [], ◌∷◌, ◌++◌, arith, some, lookup, u32, true, codes, eqb_ℤ,
  ltb_ℤ, to_int, int_of_bits, ℤ, pos, negsuc,
}
use brix.Net.{Inet}
use brix.Packets.{ReqPacket, valid, duplicate, ack_to_string}
use brix.Db.State.{ClientRecord, DbSnapshot}
use brix.Db.Program.{◌>>◌, Datagram, reply, run, run-bind_done, done}
use brix.Db.Bank.{inquire}
use brix.Db.Bank.Effects.{counts, request_numbers}
use brix.Db.Idle.{idle_world}
use brix.Requests.{check_packet_status, ack_about, answer_request, process_req_packet}
use brix.Requests.Answers.{
  outcome, client_or_new, transaction_sends, process_req_packet_starts, answer_request_valid,
  answer_request_duplicate,
}

eqb_ℤ-eq : (i j : ℤ) → eqb_ℤ i j ≡ true → i ≡ j
unfolding eqb_ℤ
eqb_ℤ-eq (pos m) (pos n) h = ground arith
eqb_ℤ-eq (negsuc m) (negsuc n) h = ground arith
eqb_ℤ-eq (pos m) (negsuc n) h = absurd (cc)
eqb_ℤ-eq (negsuc m) (pos n) h = absurd (cc)

-- A packet that was the next one is a duplicate once the client's request has been counted.
pub valid→duplicate :
    (p : ReqPacket) (c d : ClientRecord)
    → check_packet_status p c ≡ valid
    → c.last_request + 2 < 2 ^ 31
    → d.last_request ≡ u32 (c.last_request + 1)
    → check_packet_status p d ≡ duplicate
unfolding check_packet_status int_of_bits eqb_ℤ ltb_ℤ
valid→duplicate p c d h small e =
    ground (arith, eqb_ℤ-eq (to_int p.seq_num) (int_of_bits (u32 (c.last_request + 1))))

module _ (net : Inet) (s : ℕ) (p : ReqPacket) (c : ClientRecord) (b : DbSnapshot)
    (sent : List Datagram) where
  client_after :
      lookup s b.records ≡ some c
      → counts (outcome net s p b sent).0.status_code ≡ true
      → (client_or_new net s p (outcome net s p b sent).1 sent).last_request
        ≡ u32 (c.last_request + 1)
  unfolding inquire
  client_after known counted =
      ground (arith, request_numbers s p.receiver_ip p.transfer_amount b s c.last_request)

  pub client_known : lookup s b.records ≡ some c → client_or_new net s p b sent ≡ c
  unfolding inquire
  client_known known = ground arith

  -- A REQ packet of a registered client that is the next one and has been processed up to the test
  -- of the balance is not processed again: when it comes a second time, after the first thread has
  -- ended, it is answered by `DUPLICATE` and the bank stays as the first thread left it. The
  -- request number has to stay below 2^31.
  pub process_req_packet_replayed :
      lookup s b.records ≡ some c
      → check_packet_status p c ≡ valid
      → counts (outcome net s p b sent).0.status_code ≡ true
      → c.last_request + 2 < 2 ^ 31
      → run (process_req_packet net s p >> process_req_packet net s p) (idle_world b sent) ≡ (
          let o = outcome net s p b sent in
          done tt (
            idle_world o.1 (
              (sent ++ transaction_sends net s p o)
              ++ reply s (
                  ack_to_string net
                    (ack_about s p (client_or_new net s p o.1 sent) (codes "DUPLICATE")))
                ∷ [])))
  process_req_packet_replayed known next counted small =
      let o = outcome net s p b sent in
      let sent1 = sent ++ transaction_sends net s p o in
      run-bind_done (process_req_packet net s p) (λ _. process_req_packet net s p)
        (idle_world b sent) tt (idle_world o.1 sent1)
        (process_req_packet_starts net s p b sent
          ∙ ap (λ d. run (answer_request net s p d) (idle_world b sent)) (client_known known)
          ∙ answer_request_valid net s p b sent c next)
      ∙ process_req_packet_starts net s p o.1 sent1
      ∙ answer_request_duplicate net s p o.1 sent1 (client_or_new net s p o.1 sent) (
          valid→duplicate p c (client_or_new net s p o.1 sent) next small
            (client_after known counted))
