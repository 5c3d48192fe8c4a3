-- ===== src/Client/Retries.antt =====
-- How often the client sends a request.
use brix.Base.{
  ℕ, zero, suc, ◌≤◌, ◌<◌, ◌^◌, ◌≡◌, ◌≢◌, ◌⊎◌, inl, inr, refl, ◌∙◌, Bool, true, false, none, some,
  List, [], ◌∷◌, ◌++◌, append_assoc, append-nil, length, All, Bytes, arith, take,
}
use brix.Text.{Result, ok, threw, undefined, stol, stoul, signed_value}
use brix.Net.{SocketAddress, Inet, InetLaws}
use brix.Packets.{AckPacket, to_ack_packet, ack_of_tokens, req_to_string}
use brix.Server.{c_string}
use brix.Client.{
  Request, RequestType, request, kill, error, Dispatcher, Reaction, timed_out, answered,
  serialized_request, receive, react, attempt, retry, dispatch_request, accept,
}

ack_of_tokens-defined : (net : Inet) (ts : List Bytes) → ack_of_tokens net ts ≢ undefined
unfolding ack_of_tokens stol stoul signed_value
ack_of_tokens-defined net (t0 ∷ t1 ∷ t2 ∷ t3 ∷ t4 ∷ t5 ∷ t6 ∷ t7 ∷ []) = ground arith
ack_of_tokens-defined net ts = λ e. absurd (cc)

-- What a datagram's reaction leaves of the dispatcher: it is defined, and nothing is sent or queued.
abbrev Settled : Dispatcher → Result (Bool × Dispatcher) → Type 0
Settled d out =
    (accepted : Bool) × (e : Dispatcher) × (out ≡ ok (accepted, e))
    × (e.sent ≡ d.sent)
    × (e.request_queue ≡ d.request_queue)

accept-Settled :
    (out : Result AckPacket) (d : Dispatcher) → out ≢ undefined → Settled d (accept out d)
accept-Settled (ok response) d h = (_, _, refl, refl, refl)
accept-Settled (threw e) d h = (_, _, refl, refl, refl)
accept-Settled undefined d h = absurd (h refl)

react-Settled :
    (net : Inet) (x : Reaction) (d : Dispatcher) → x ≢ timed_out none → Settled d (react net x d)
unfolding receive to_ack_packet
react-Settled net (timed_out none) d h = absurd (h refl)
react-Settled net (timed_out (some a)) d h = (_, _, refl, refl, refl)
react-Settled net (answered src payload) d h =
    accept-Settled (to_ack_packet net (c_string (take 2048 payload))) (record d { servaddr = src })
      (ack_of_tokens-defined net _)

serialized_cases :
    (net : Inet) (laws : InetLaws net) (r : Request) (d : Dispatcher) (k : RequestType)
    → r.request_type ≡ k
    → r.dest_ip < 2 ^ 32
    → (text : Bytes) × (serialized_request net r d ≡ some text)
unfolding serialized_request req_to_string
serialized_cases net laws r d request e h =
    rw (e, serialized_request, laws.ntop r.dest_ip h, req_to_string) (_, refl)
serialized_cases net laws r d kill e h = rw (e, serialized_request) (_, refl)
serialized_cases net laws r d error e h = rw (e, serialized_request) (_, refl)

serialized_request-some :
    (net : Inet) (laws : InetLaws net) (r : Request) (d : Dispatcher)
    → r.dest_ip < 2 ^ 32
    → (text : Bytes) × (serialized_request net r d ≡ some text)
serialized_request-some net laws r d h = serialized_cases net laws r d r.request_type refl h

module _ {S : Type 0} (net : Inet) (network : S → SocketAddress → Bytes → Reaction × S) (n : ℕ)
    (r : Request) (d e : Dispatcher) (s t : S) where
  pub retry_ends :
      attempt net network r d s ≡ ok (true, e, t)
      → retry net network (suc n) r d s ≡ ok (true, e, t)
  unfolding retry
  retry_ends h = rw (h, retry)

  pub retry_goes_on :
      attempt net network r d s ≡ ok (false, e, t)
      → retry net network (suc n) r d s ≡ retry net network n r e t
  unfolding retry
  retry_goes_on h = rw (h, retry)

-- The text of a request, with the number that the client expects at that time.
abbrev pub IsText : Inet → Request → SocketAddress × Bytes → Type 0
IsText net r m = (d : Dispatcher) × (serialized_request net r d ≡ some m.1)

-- What the loop leaves, with `n` rounds at most.
pub record Tried {S : Type 0} (net : Inet) (r : Request) (n : ℕ) (d : Dispatcher)
    (out : Result (Bool × Dispatcher × S)) : Type 0 where
  pub accepted : Bool
  pub after : Dispatcher
  pub state : S
  pub new : List (SocketAddress × Bytes)
  pub ends : out ≡ ok (accepted, after, state)
  pub sends : after.sent ≡ d.sent ++ new
  pub queue : after.request_queue ≡ d.request_queue
  pub texts : All (IsText net r) new
  pub few : length new ≤ n
  pub persistent : ((accepted ≡ true) × (1 ≤ length new)) ⊎ (length new ≡ n)

module _ {S : Type 0} (net : Inet) (laws : InetLaws net)
    (network : S → SocketAddress → Bytes → Reaction × S)
    (located : (s : S) (a : SocketAddress) (text : Bytes) → (network s a text).0 ≢ timed_out none)
    (r : Request) (h : r.dest_ip < 2 ^ 32) where
  -- A round ends, and sends one datagram, to the server's address.
  abbrev Sent : Dispatcher → S → Result (Bool × Dispatcher × S) → Type 0
  Sent d s out =
      (accepted : Bool) × (e : Dispatcher) × (t : S) × (text : Bytes) × (out ≡ ok (accepted, e, t))
      × (serialized_request net r d ≡ some text)
      × (e.sent ≡ d.sent ++ (d.servaddr, text) ∷ [])
      × (e.request_queue ≡ d.request_queue)

  attempt-Sent : (d : Dispatcher) (s : S) → Sent d s (attempt net network r d s)
  unfolding attempt
  attempt-Sent d s =
      let (text, e) = serialized_request-some net laws r d h in
      let (accepted, after, settled, sent, queue) =
        react-Settled net (network s d.servaddr text).0
          (record d { sent = d.sent ++ (d.servaddr, text) ∷ [] }) (located s d.servaddr text) in
      (
        accepted,
        after,
        (network s d.servaddr text).1,
        text,
        rw (e, attempt, settled),
        e,
        sent,
        queue,
      )

  -- The loop after its first round.
  later_round :
      (n : ℕ) (d : Dispatcher) (s : S) (accepted : Bool) (e : Dispatcher) (t : S) (text : Bytes)
      → attempt net network r d s ≡ ok (accepted, e, t)
      → serialized_request net r d ≡ some text
      → e.sent ≡ d.sent ++ (d.servaddr, text) ∷ []
      → e.request_queue ≡ d.request_queue
      → Tried net r n e (retry net network n r e t)
      → Tried net r (suc n) d (retry net network (suc n) r d s)
  unfolding retry
  later_round n d s true e t text ends made sent queue later = record {
    accepted = true;
    after = e;
    state = t;
    new = (d.servaddr, text) ∷ [];
    ends = rw (ends, retry);
    sends = sent;
    queue = queue;
    texts = ((d, made), tt);
    few = omega arith;
    persistent = inl (refl, omega arith);
  }
  later_round n d s false e t text ends made sent queue later = record {
    accepted = later.accepted;
    after = later.after;
    state = later.state;
    new = (d.servaddr, text) ∷ later.new;
    ends = rw (ends, retry) later.ends;
    sends = rw (later.sends, sent) (append_assoc d.sent ((d.servaddr, text) ∷ []) later.new);
    queue = later.queue ∙ queue;
    texts = ((d, made), later.texts);
    few = omega (arith, later.few);
    persistent = elim (later.persistent) [
      | inl done ↦ inl (done.0, omega (arith, done.1))
      | inr all_sent ↦ inr (omega (arith, all_sent))
    ];
  }

  retry-Tried : (n : ℕ) (d : Dispatcher) (s : S) → Tried net r n d (retry net network n r d s)
  unfolding retry
  retry-Tried zero d s = record {
    accepted = false;
    after = d;
    state = s;
    new = [];
    ends = refl;
    sends = ground (arith, append-nil d.sent);
    queue = refl;
    texts = tt;
    few = omega arith;
    persistent = inr refl;
  }
  retry-Tried (suc n) d s =
      let (accepted, e, t, text, ends, made, sent, queue) = attempt-Sent d s in
      later_round n d s accepted e t text ends made sent queue (retry-Tried n e t)

  -- If a server is found after each time-out and the receiver's address has 32 bits,
  -- `dispatch_request` ends whatever the network does. It sends the text of the request at least
  -- once and at most five times, gives up only after five times, and does not touch the queue.
  pub dispatch_request_lem :
      (d : Dispatcher) (s : S)
      → (accepted : Bool) × (e : Dispatcher) × (t : S) × (new : List (SocketAddress × Bytes))
        × (dispatch_request net network r d s ≡ ok (accepted, e, t))
        × (e.sent ≡ d.sent ++ new)
        × (e.request_queue ≡ d.request_queue)
        × All (IsText net r) new
        × (1 ≤ length new)
        × (length new ≤ 5)
        × ((accepted ≡ true) ⊎ (length new ≡ 5))
  unfolding dispatch_request
  dispatch_request_lem d s =
      let tried = retry-Tried 5 d s in
      (
        tried.accepted,
        tried.after,
        tried.state,
        tried.new,
        tried.ends,
        tried.sends,
        tried.queue,
        tried.texts,
        ground (arith, tried.persistent),
        tried.few,
        ground (arith, tried.persistent),
      )
