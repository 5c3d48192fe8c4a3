-- ===== src/Client/Service/Rounds.antt =====
-- One round of a payment between the client and its server: the answer is read back, or is lost.
use brix.Base.{
  ℕ, ◌+◌, ◌-◌, ◌^◌, ◌≤◌, ◌<◌, ◌≡◌, ◌≢◌, ap, ◌∙◌, Bool, true, false, some, List, [], ◌∷◌, ◌++◌,
  Bytes, arith, ℤ, pos, IsLong, u32, lookup, codes, bits32, to_int, to_int_of_IsInt, int_of_bits,
  eqb_ℤ, ltb_ℤ, suc,
}
use brix.Text.{Result, ok}
use brix.Text.Plain.{Passes}
use brix.Text.Tokens.{IsToken}
use brix.Net.{SocketAddress, Inet, InetLaws}
use brix.Packets.{
  PacketStatus, AckPacket, ReqPacket, req_packet, ack_packet, ack_to_string, to_ack_packet,
  req_to_string, to_req_packet, type, req, valid, duplicate,
}
use brix.Packets.RoundTrip.{req_text, to_ack_packet-ack_to_string, ack_to_string-Passes}
use brix.Db.State.{ClientRecord, DbSnapshot}
use brix.Db.Program.{Datagram, reply}
use brix.Db.Bank.{transact, open_account}
use brix.Db.Bank.Total.{total}
use brix.Db.Bank.Validity.{IsValid}
use brix.Db.Bank.Effects.{payment}
use brix.Requests.{check_packet_status, ack_of_response, ack_about}
use brix.Requests.Status.{check_packet_status-valid_iff}
use brix.Requests.Replay.{client_known}
use brix.Requests.Answers.{served, client_or_new, transaction_sends}
use brix.Server.Buffer.{c_string-take}
use brix.Client.{
  attempt, serialized_request, Request, request, is_accepted, next, receive, accept, Dispatcher,
}
use brix.Client.Service.{answer_to, serve, service, serve-req}

answer_to-reply :
    (net : Inet) (ip : ℕ) (p : AckPacket)
    → answer_to ip (reply ip (ack_to_string net p) ∷ []) ≡ some (ack_to_string net p)
answer_to-reply net ip p = ground arith

next_number : (m : ℕ) → m + 1 < 2 ^ 31 → to_int (pos (suc m)) ≡ pos (m + 1)
next_number m h = to_int_of_IsInt (pos (suc m)) (omega arith) ∙ ap pos (omega arith)

-- A request to pay `a` to `r`, and its packet.
abbrev pub payment_request : ℕ → ℕ → Request
payment_request r a = record { dest_ip = r; transfer_amount = a; request_type = request }

abbrev packet : ℕ → ℕ → ℕ → ReqPacket
packet n r a = req_packet (pos n) r a

-- The dispatcher once a text is sent and the server is heard of again.
abbrev pub asked : SocketAddress → Dispatcher → Bytes → Dispatcher
asked server d text = record d { servaddr = server; sent = d.sent ++ (d.servaddr, text) ∷ [] }

-- An answer is read back as the packet that the server made.
pub receive-ack :
    (net : Inet) (laws : InetLaws net) (seq : ℤ) (result : Bytes) (balance ip receiver amount : ℕ)
    (d : Dispatcher)
    → IsLong seq
    → balance < 2 ^ 64
    → ip < 2 ^ 32
    → receiver < 2 ^ 32
    → amount < 2 ^ 64
    → IsToken result
    → Passes 24 result
    → receive net (ack_to_string net (ack_packet seq result balance ip receiver amount)) d
      ≡ ok (is_accepted result, record d { current_request = to_int (next seq) })
unfolding receive
receive-ack net laws seq result balance ip receiver amount d hs hb h hr ha token passes =
    let fits =
      ack_to_string-Passes net laws seq result balance ip receiver amount hs token hb h hr ha
        passes in
    ap (λ s. accept (to_ack_packet net s) d)
      (c_string-take 2048 (ack_to_string net (ack_packet seq result balance ip receiver amount))
        fits.short fits.non_zero)
    ∙ ap (λ o. accept o d)
        (to_ack_packet-ack_to_string net laws seq result balance ip receiver amount hs token hb h hr
          ha)

-- The client with a request to pay `a` to `r`, whose next number is `n`, and its server.
module _ (net : Inet) (laws : InetLaws net) (ip : ℕ) (h : ip < 2 ^ 32) (server : SocketAddress)
    (n r a : ℕ) (hn : n < 2 ^ 31) (hr : r < 2 ^ 32) (ha : a < 2 ^ 64) where
  receive-ack_about :
      (c : ClientRecord) (result : Bytes) (d : Dispatcher)
      → c.balance < 2 ^ 64
      → c.last_request + 1 < 2 ^ 31
      → IsToken result
      → Passes 24 result
      → receive net (ack_to_string net (ack_about ip (packet n r a) c result)) d
        ≡ ok (is_accepted result, record d { current_request = pos (c.last_request + 1) })
  receive-ack_about c result d hb hl token passes =
      receive-ack net laws (pos c.last_request) result c.balance ip r a d (omega arith) hb h hr ha
        token passes
      ∙ ap (λ z. ok (is_accepted result, record d { current_request = z }))
          (next_number c.last_request hl)

  -- What the server makes of the packet, whatever text brings it.
  abbrev pub Serves : DbSnapshot → DbSnapshot → ClientRecord → Bytes → Type 0
  Serves b b' c result =
      (text : Bytes)
      → to_req_packet net text ≡ ok (packet n r a)
      → type text ≡ req
      → Passes 2048 text
      → serve net ip b text ≡ (some (ack_to_string net (ack_about ip (packet n r a) c result)), b')

  abbrev pub Round :
      Dispatcher
      → Result (Bool × Dispatcher × (DbSnapshot × List Bool))
      → Bool
      → ℤ
      → DbSnapshot
      → Type 0
  Round d out accepted number b' =
      (text : Bytes) × (out
        ≡ ok (accepted, record (asked server d text) { current_request = number }, (b', [])))

  module _ (d : Dispatcher) (number : d.current_request ≡ pos n) (b b' : DbSnapshot)
      (c : ClientRecord) (result : Bytes) (serves : Serves b b' c result) where
    -- A round whose answer arrives.
    pub attempt_answered :
        c.balance < 2 ^ 64
        → c.last_request + 1 < 2 ^ 31
        → IsToken result
        → Passes 24 result
        → Round d
            (attempt net (service net ip server) (payment_request r a) d (b, []))
            (is_accepted result)
            (pos (c.last_request + 1))
            b'
    unfolding attempt service serialized_request
    attempt_answered hb hl token passes =
        let (text, printed, parsed, tag, whole) =
          req_text net laws (pos n) r a (omega arith) hr ha in
        (
          text,
          rw (
            attempt,
            serialized_request,
            number,
            printed,
            service,
            serves text parsed tag whole,
            receive-ack_about c result (asked server d text) hb hl token passes,
          ),
        )

    made :
        (text : Bytes)
        → req_to_string net (packet n r a) ≡ some text
        → serialized_request net (payment_request r a) d ≡ some text
    unfolding serialized_request
    made text printed = rw (serialized_request, number) printed

    -- A round whose answer is lost, and behind which the client looks for the server.
    pub attempt_lost :
        (text : Bytes) × (attempt net (service net ip server) (payment_request r a) d (b, true ∷ [])
          ≡ ok (false, asked server d text, ((open_account ip b').1, [])))
    unfolding attempt service serialized_request
    attempt_lost =
        let (text, printed, parsed, tag, whole) =
          req_text net laws (pos n) r a (omega arith) hr ha in
        (text, rw (attempt, made text printed, service, serves text parsed tag whole))

  taken_next :
      (c : ClientRecord) → n ≡ c.last_request + 1 → check_packet_status (packet n r a) c ≡ valid
  unfolding bits32
  taken_next c hnum = (check_packet_status-valid_iff (packet n r a) c).1 (ap u32 hnum)

  taken_duplicate :
      (c : ClientRecord)
      → n ≡ c.last_request
      → n + 1 < 2 ^ 31
      → check_packet_status (packet n r a) c ≡ duplicate
  unfolding check_packet_status to_int int_of_bits eqb_ℤ ltb_ℤ
  taken_duplicate c hnum small = ground arith

  -- The server takes the packet for the next one, and pays.
  pub Serves-payment :
      (b : DbSnapshot) (c e : ClientRecord)
      → IsValid b
      → lookup ip b.records ≡ some c
      → lookup r b.records ≡ some e
      → ip ≢ r
      → 0 < a
      → a ≤ c.balance
      → total b.records < 2 ^ 64
      → n ≡ c.last_request + 1
      → Serves b
          (transact ip r a b).1
          (record c { balance = c.balance - a; last_request = u32 (c.last_request + 1) })
          (codes "SUCCESS")
  unfolding ack_of_response
  Serves-payment b c e v hs hk ne positive enough bounded hnum text parsed tag whole =
      serve-req net laws ip b (packet n r a) text parsed tag whole
      ∙ ap
          (λ known. (
            answer_to ip (reaction (check_packet_status (packet n r a) known)).1,
            (reaction (check_packet_status (packet n r a) known)).0,
          ))
          (client_known net ip (packet n r a) c b [] hs)
      ∙ ap (λ status. (answer_to ip (reaction status).1, (reaction status).0)) (taken_next c hnum)
      ∙ ap (λ o. (answer_to ip (transaction_sends net ip (packet n r a) o), (transact ip r a b).1))
          (payment ip r a c e b v hs hk ne positive enough bounded)
      ∙ ap (λ text. (text, (transact ip r a b).1))
          (answer_to-reply net ip (ack_about ip (packet n r a) paid (codes "SUCCESS")))
    where
      reaction : PacketStatus → DbSnapshot × List Datagram
      reaction = served net ip (packet n r a) b []

      paid : ClientRecord
      paid = record c { balance = c.balance - a; last_request = u32 (c.last_request + 1) }

  -- The server takes the packet for one that it has seen.
  pub Serves-duplicate :
      (b : DbSnapshot) (c : ClientRecord)
      → lookup ip b.records ≡ some c
      → n ≡ c.last_request
      → n + 1 < 2 ^ 31
      → Serves b b c (codes "DUPLICATE")
  Serves-duplicate b c hs hnum small text parsed tag whole =
      serve-req net laws ip b (packet n r a) text parsed tag whole
      ∙ ap
          (λ known. (
            answer_to ip (reaction (check_packet_status (packet n r a) known)).1,
            (reaction (check_packet_status (packet n r a) known)).0,
          ))
          (client_known net ip (packet n r a) c b [] hs)
      ∙ ap (λ status. (answer_to ip (reaction status).1, (reaction status).0))
          (taken_duplicate c hnum small)
      ∙ ap (λ text. (text, b))
          (answer_to-reply net ip (
            ack_about ip (packet n r a) (client_or_new net ip (packet n r a) b [])
              (codes "DUPLICATE")))
      ∙ ap
          (λ known.
            (some (ack_to_string net (ack_about ip (packet n r a) known (codes "DUPLICATE"))), b))
          (client_known net ip (packet n r a) c b [] hs)
    where
      reaction : PacketStatus → DbSnapshot × List Datagram
      reaction = served net ip (packet n r a) b []
