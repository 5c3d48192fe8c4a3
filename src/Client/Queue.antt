-- ===== src/Client/Queue.antt =====
-- The thread that empties the queue of the client, `RequestDispatcher::process_requests`.
use brix.Base.{
  ◌^◌, ◌≤◌, ◌<◌, ◌≡◌, ◌≢◌, refl, sym, ap, ◌∙◌, none, List, [], ◌∷◌, ◌++◌, append_assoc, append-nil,
  length, All, Bytes,
}
use brix.Text.{ok}
use brix.Net.{SocketAddress, Inet, InetLaws}
use brix.Client.{Request, Dispatcher, Reaction, timed_out, process_requests}
use brix.Client.Retries.{IsText, dispatch_request_lem}

abbrev Sends : Type 0
Sends = List (SocketAddress × Bytes)

-- Datagrams request by request, in the order of the queue, and one to five for each.
abbrev pub InOrder : Inet → List Request → Sends → Type 0
InOrder net [] sent = sent ≡ []
InOrder net (r ∷ rs) sent =
    (first : Sends) × (rest : Sends) × (sent ≡ first ++ rest)
    × All (IsText net r) first
    × (1 ≤ length first)
    × (length first ≤ 5)
    × InOrder net rs rest

-- The thread ends once the user has no more requests, whatever the network does, if a server is found
-- after each time-out and the receivers' addresses have 32 bits. It leaves the queue empty; for each
-- request, in the order of the queue, it sends one to five datagrams with its text, all of them
-- before those of the next request, whether the server has accepted it or not.
pub process_requests_lem :
    {S : Type 0} (net : Inet) (laws : InetLaws net)
    (network : S → SocketAddress → Bytes → Reaction × S)
    (located : (s : S) (a : SocketAddress) (text : Bytes) → (network s a text).0 ≢ timed_out none)
    (queue : List Request) (d : Dispatcher) (s : S)
    → All (λ r. r.dest_ip < 2 ^ 32) queue
    → (e : Dispatcher) × (t : S) × (new : List (SocketAddress × Bytes)) × (process_requests net
          network queue d s
        ≡ ok (e, t))
      × (e.request_queue ≡ [])
      × (e.sent ≡ d.sent ++ new)
      × InOrder net queue new
unfolding process_requests
process_requests_lem net laws network located [] d s fits =
    (_, s, [], refl, refl, sym (append-nil d.sent), refl)
process_requests_lem net laws network located (r ∷ rs) d s fits =
    let (accepted, e, t, first, ends, sent, queue, texts, some_sent, few, persistent) =
      dispatch_request_lem net laws network located r fits.0 (record d { request_queue = rs }) s in
    let (f, u, rest, ends', empty, sent', ordered) =
      process_requests_lem net laws network located rs e t fits.1 in
    (
      f,
      u,
      first ++ rest,
      rw ends ends',
      empty,
      sent' ∙ ap (λ ds. ds ++ rest) sent ∙ append_assoc d.sent first rest,
      (first, rest, refl, texts, some_sent, few, ordered),
    )
