-- ===== src/Client/Service.antt =====
-- The client and the server together: a datagram of the client goes through the multiplexer, its
-- thread runs on the database, and the answer comes back, unless it is lost on the way.
pub mod Rounds
pub mod Payment
pub mod Removal
use brix.Base.{
  ⊤, ℕ, ◌+◌, ◌-◌, ◌^◌, ◌≤◌, ◌<◌, ◌≡◌, ◌≢◌, refl, sym, ap, ◌∙◌, Bool, true, false, Option, none,
  some, List, [], ◌∷◌, ◌++◌, Bytes, ◌==◌, if◌then◌else◌, arith, ℤ, pos, u32, lookup, codes, take,
  text_eq, bits32, to_int, to_int_of_IsInt, int_of_bits, eqb_ℤ, ltb_ℤ, suc,
}
use brix.Text.{Result, ok, threw, undefined}
use brix.Text.Plain.{Passes}
use brix.Text.Tokens.{IsToken}
use brix.Net.{SocketAddress, Inet, InetLaws}
use brix.Packets.{
  PacketStatus, AckPacket, ReqPacket, req_packet, ack_packet, ack_to_string, to_ack_packet,
  req_to_string, to_req_packet, type, req, valid, duplicate,
}
use brix.Packets.RoundTrip.{req_text, to_ack_packet-ack_to_string, ack_to_string-Passes}
use brix.Db.State.{ClientRecord, DbSnapshot, DbRecordResponse, success}
use brix.Db.Program.{Datagram, reply, update, Outcome, done, run}
use brix.Db.Methods.{snapshot_of, response}
use brix.Db.Bank.{transact, inquire, open_account}
use brix.Db.Bank.Total.{total}
use brix.Db.Bank.Validity.{IsValid, Fits}
use brix.Db.Bank.Effects.{payment, balance_of, Paid, transact-Paid}
use brix.Db.Idle.{idle_world}
use brix.Requests.{check_packet_status, ack_of_response, ack_about}
use brix.Requests.Status.{check_packet_status-valid_iff}
use brix.Requests.Replay.{client_known}
use brix.Requests.Answers.{
  served, outcome, client_or_new, transaction_sends, process_req_packet_lem,
}
use brix.Server.{Thread, thread, req_thread, packet_multiplexer_round, dispatch, datagram, c_string}
use brix.Server.Buffer.{c_string-take}
use brix.Client.{
  attempt, serialized_request, Request, request, is_accepted, receive, accept, Dispatcher, Reaction,
  timed_out, answered,
}

-- The answer among what a thread has sent.
abbrev pub answer_to : ℕ → List Datagram → Option Bytes
answer_to ip [] = none
answer_to ip (reply k text ∷ ds) = if k == ip then some text else answer_to ip ds
answer_to ip (update text ∷ ds) = answer_to ip ds

abbrev pub after_thread : ℕ → DbSnapshot → Outcome ⊤ → Option Bytes × DbSnapshot
after_thread ip b (done _ w) = (answer_to ip w.sent, snapshot_of w.db)
after_thread ip b _ = (none, b)

abbrev pub after_round : Inet → ℕ → DbSnapshot → Result (Option Thread) → Option Bytes × DbSnapshot
after_round net ip b (ok (some t)) = after_thread ip b (run (thread net t) (idle_world b []))
after_round net ip b _ = (none, b)

-- What a datagram from `ip` does to a server that is idle: the answer, and its next snapshot.
unfoldable pub serve : Inet → ℕ → DbSnapshot → Bytes → Option Bytes × DbSnapshot
serve net ip b text = after_round net ip b (packet_multiplexer_round net (datagram ip text))

-- The answer arrives, or is lost: then the client waits in vain, and finds the same server again.
abbrev pub deliver : SocketAddress → Option Bytes → List Bool → Reaction × List Bool
deliver server none losses = (timed_out (some server), losses)
deliver server (some text) [] = (answered server text, [])
deliver server (some text) (true ∷ losses) = (timed_out (some server), losses)
deliver server (some text) (false ∷ losses) = (answered server text, losses)

-- On a time-out the client looks for the server again, which opens an account for it if it has none.
abbrev pub relocated : ℕ → Reaction → DbSnapshot → DbSnapshot
relocated ip (timed_out _) b = (open_account ip b).1
relocated ip (answered _ _) b = b

-- The network between a client at `ip` and its server, with the list of which answers get lost.
unfoldable pub service :
    Inet
    → ℕ
    → SocketAddress
    → DbSnapshot × List Bool
    → SocketAddress
    → Bytes
    → Reaction × (DbSnapshot × List Bool)
unfolding serve
service net ip server (b, losses) to text =
    let (answer, b') = serve net ip b text in
    let (reaction, losses') = deliver server answer losses in
    (reaction, (relocated ip reaction b', losses'))

module _ (net : Inet) (laws : InetLaws net) (ip : ℕ) (b : DbSnapshot) where
  round-req :
      (p : ReqPacket) (text : Bytes)
      → to_req_packet net text ≡ ok p
      → type text ≡ req
      → Passes 2048 text
      → packet_multiplexer_round net (datagram ip text) ≡ ok (some (req_thread ip p))
  unfolding packet_multiplexer_round dispatch
  round-req p text parsed tag passes =
      ap (dispatch net ip) (c_string-take 2048 text passes.short passes.non_zero)
      ∙ rw (dispatch, tag, parsed)

  -- A server answers a REQ packet by what its thread sends.
  pub serve-req :
      (p : ReqPacket) (text : Bytes)
      → to_req_packet net text ≡ ok p
      → type text ≡ req
      → Passes 2048 text
      → serve net ip b text ≡ (
          let (b', ds) =
            served net ip p b [] (check_packet_status p (client_or_new net ip p b [])) in
          (answer_to ip ds, b'))
  unfolding serve thread snapshot_of
  serve-req p text parsed tag passes =
      ap (after_round net ip b) (round-req p text parsed tag passes)
      ∙ ap (after_thread ip b) (process_req_packet_lem net ip p b [])
