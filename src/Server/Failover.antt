-- ===== src/Server/Failover.antt =====
-- A payment, the snapshot of it at a second server, and the same packet there.
use brix.Base.{
  ℕ, ◌+◌, ◌-◌, ◌^◌, ◌≡◌, ◌≢◌, refl, ap, ◌∙◌, ◌≤◌, ◌<◌, some, false, List, [], ◌∷◌, ◌++◌, Bytes,
  codes, length, lookup, text_eq, u32,
}
use brix.Net.{Inet, InetLaws, addr_to_string}
use brix.Packets.{ReqPacket, valid, ack_to_string}
use brix.Db.State.{ClientRecord, DbSnapshot}
use brix.Db.Program.{run, done, Datagram, reply, update}
use brix.Db.Bank.{transact}
use brix.Db.Bank.Total.{total}
use brix.Db.Bank.Validity.{IsValid}
use brix.Db.Bank.Effects.{Paid, payment, transact-Paid, balance_of}
use brix.Db.Idle.{idle_world}
use brix.Snapshot.{to_string}
use brix.Snapshot.RoundTrip.{IsReadable, AllReadable}
use brix.Requests.{
  check_packet_status, ack_about, ack_of_response, answer_request, process_req_packet,
}
use brix.Requests.Answers.{
  transaction_sends, process_req_packet_starts, answer_request_valid, answer_request_duplicate,
}
use brix.Requests.Replay.{client_known, valid→duplicate}
use brix.Server.{datagram, listen_round}
use brix.Server.Replication.{listen_round-to_string}

module _ (net : Inet) (laws : InetLaws net) (s : ℕ) (p : ReqPacket) (c e : ClientRecord)
    (b : DbSnapshot) (v : IsValid b) (hs : lookup s b.records ≡ some c)
    (hr : lookup p.receiver_ip b.records ≡ some e) (ne : s ≢ p.receiver_ip)
    (positive : 0 < p.transfer_amount) (enough : p.transfer_amount ≤ c.balance)
    (bounded : total b.records < 2 ^ 64) (next : check_packet_status p c ≡ valid)
    (small : c.last_request + 2 < 2 ^ 31) where
  abbrev pub paid_bank : DbSnapshot
  paid_bank = (transact s p.receiver_ip p.transfer_amount b).1

  abbrev pub payer : ClientRecord
  payer = record c {
    balance = c.balance - p.transfer_amount;
    last_request = u32 (c.last_request + 1);
  }

  effect :
      Paid s p.receiver_ip payer (record e { balance = e.balance + p.transfer_amount }) b paid_bank
  effect = transact-Paid s p.receiver_ip p.transfer_amount c e b v hs hr ne positive enough bounded

  pays :
      run (process_req_packet net s p) (idle_world b [])
      ≡ done tt (
          idle_world paid_bank (
            update (to_string net paid_bank)
            ∷ reply s (ack_to_string net (ack_about s p payer (codes "SUCCESS")))
            ∷ []))
  unfolding ack_of_response
  pays =
      process_req_packet_starts net s p b []
      ∙ ap (λ d. run (answer_request net s p d) (idle_world b [])) (client_known net s p c b [] hs)
      ∙ answer_request_valid net s p b [] c next
      ∙ ap (λ r. done tt (idle_world paid_bank (transaction_sends net s p (r, paid_bank))))
          (ap (λ o. o.0)
            (payment s p.receiver_ip p.transfer_amount c e b v hs hr ne positive enough bounded))

  repeated :
      (b2 : DbSnapshot) (sent : List Datagram)
      → lookup s b2.records ≡ some payer
      → run (process_req_packet net s p) (idle_world b2 sent)
        ≡ done tt (
            idle_world b2
              (sent ++ reply s (ack_to_string net (ack_about s p payer (codes "DUPLICATE"))) ∷ []))
  repeated b2 sent known =
      process_req_packet_starts net s p b2 sent
      ∙ ap (λ d. run (answer_request net s p d) (idle_world b2 sent))
          (client_known net s p payer b2 sent known)
      ∙ answer_request_duplicate net s p b2 sent payer (valid→duplicate p c payer next small refl)

  -- A payment survives the change to another server, and is not made again there. Let the next REQ
  -- packet of a registered client, below the request number 2^31, pay a positive amount that the
  -- balance covers to another registered client, in a valid state whose balances add up to less
  -- than 2^64. Its thread, run alone, sends the new snapshot before the answer. If this has at most
  -- 1024 bytes and its counters and request numbers fit an `int`, a second server that receives it,
  -- whatever it held before, has the new balances, and answers the same packet by `DUPLICATE`
  -- without a change to its bank.
  pub process_req_packet-survives :
      (self_ip : Bytes) (src : ℕ) (own : DbSnapshot) (sent : List Datagram)
      → text_eq (addr_to_string net src) self_ip ≡ false
      → length (to_string net paid_bank) ≤ 1024
      → IsReadable paid_bank.metadata
      → AllReadable paid_bank.records
      → (b2 : DbSnapshot) × (run (process_req_packet net s p) (idle_world b [])
          ≡ done tt (
              idle_world paid_bank (
                update (to_string net paid_bank)
                ∷ reply s (ack_to_string net (ack_about s p payer (codes "SUCCESS")))
                ∷ [])))
        × (run
              (listen_round net self_ip (datagram src (to_string net paid_bank)))
              (idle_world own sent)
            ≡ done tt (idle_world b2 sent))
        × (balance_of s b2 ≡ some (c.balance - p.transfer_amount))
        × (balance_of p.receiver_ip b2 ≡ some (e.balance + p.transfer_amount))
        × (run (process_req_packet net s p) (idle_world b2 sent)
            ≡ done tt (
                idle_world b2 (
                  sent
                  ++ reply s (ack_to_string net (ack_about s p payer (codes "DUPLICATE"))) ∷ [])))
  process_req_packet-survives self_ip src own sent other short readable records =
      let (b2, heard, metadata, same) =
        listen_round-to_string net laws self_ip src paid_bank own sent other short effect.valid.fit
          readable records in
      (
        b2,
        pays,
        heard,
        rw (same s ∙ effect.sender_after, balance_of) refl,
        rw (same p.receiver_ip ∙ effect.receiver_now, balance_of) refl,
        repeated b2 sent (same s ∙ effect.sender_after),
      )
