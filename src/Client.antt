-- ===== src/Client.antt =====
-- The client: client/src/main.cpp and client/src/data_transfer/client_request_transfer.cpp. The
-- requests that the user types are queued; one thread sends each of them, again and again until the
-- server accepts it, and takes the number of the next request from the answers. The log lines, and
-- the mutex of the queue, which no caller holds twice, are left out.
pub mod Retries
pub mod Service
pub mod Response
pub mod Discovery
pub mod Session
pub mod Queue
use brix.Base.{
  ℕ, zero, suc, Bool, true, false, ◌||◌, Option, none, some, List, [], ◌∷◌, ◌++◌, Bytes, codes,
  text_eq, take, if◌then◌else◌, ℤ, pos, negsuc, to_int,
}
use brix.Text.{
  Result, ok, threw, undefined, invalid_argument, out_of_range, ◌>>=◌, space, tokens, stoul,
}
use brix.Net.{Inet, SocketAddress}
use brix.Packets.{AckPacket, req_packet, req_to_string, to_ack_packet}
use brix.Server.{c_string}

-- `Request::RequestType`
pub data RequestType : Type 0 where
  request kill error : RequestType

pub record Request : Type 0 where
  pub dest_ip : ℕ
  pub transfer_amount : ℕ
  pub request_type : RequestType

-- The static members of `RequestDispatcher`, and the datagrams that it has sent, in order.
pub record Dispatcher : Type 0 where
  pub servaddr : SocketAddress
  pub request_queue : List Request
  pub current_request : ℤ
  pub sent : List (SocketAddress × Bytes)

abbrev pub bad_request : Request
bad_request = record { dest_ip = 0; transfer_amount = 0; request_type = error }

-- `request_t::from_string` catches `std::invalid_argument` only.
abbrev request_of_amount : ℕ → Result ℕ → Result Request
request_of_amount dest_ip (ok amount) =
    ok (record { dest_ip = dest_ip; transfer_amount = amount; request_type = request })
request_of_amount dest_ip (threw invalid_argument) = ok bad_request
request_of_amount dest_ip (threw out_of_range) = threw out_of_range
request_of_amount dest_ip undefined = undefined

abbrev request_of_tokens : Inet → List Bytes → Result Request
request_of_tokens net (t0 ∷ t1 ∷ []) = request_of_amount (net.inet_addr t0) (stoul t1)
request_of_tokens net ts = ok bad_request

-- `request_t::from_string`
unfoldable pub request_from_string : Inet → Bytes → Result Request
request_from_string net input = request_of_tokens net (tokens input)

-- `RequestDispatcher::queue_request`
abbrev pub queue_request : Request → Dispatcher → Dispatcher
queue_request r d = elim (r.request_type) [
  | error ↦ d
  | _ ↦ record d { request_queue = d.request_queue ++ r ∷ [] }
]

-- The loop of `queue_test`, over the same text each time.
unfoldable pub queue_times : Inet → Bytes → ℕ → Dispatcher → Result Dispatcher
unfolding request_from_string
queue_times net text zero d = ok d
queue_times net text (suc n) d =
    request_from_string net text >>= λ r. queue_times net text n (queue_request r d)

abbrev target_ip : List Bytes → Bytes
target_ip (t0 ∷ t1 ∷ ts) = t1
target_ip ts = codes "10.33.1.2"

-- `RequestDispatcher::queue_test`
unfoldable pub queue_test : Inet → Bytes → Dispatcher → Result Dispatcher
unfolding queue_times
queue_test net test_string d =
    queue_times net (target_ip (tokens test_string) ++ codes " 1") 100000 d

-- A line of the user, in `main`.
unfoldable pub queue_line : Inet → Bytes → Dispatcher → Result Dispatcher
unfolding queue_test request_from_string
queue_line net input d =
    if text_eq (take 4 input) (codes "TEST")
    then queue_test net input d
    else request_from_string net input >>= λ r. ok (queue_request r d)

-- The end of `main`, behind the last line.
abbrev pub kill_request : Request
kill_request = record { dest_ip = 0; transfer_amount = 0; request_type = kill }

-- The loop of `main` and what follows it.
unfoldable pub queue_input : Inet → List Bytes → Dispatcher → Result Dispatcher
unfolding queue_line
queue_input net [] d = ok (queue_request kill_request d)
queue_input net (line ∷ lines) d = queue_line net line d >>= λ e. queue_input net lines e

-- `n + 1`
abbrev pub next : ℤ → ℤ
next (pos n) = pos (suc n)
next (negsuc zero) = pos 0
next (negsuc (suc n)) = negsuc n

abbrev pub is_accepted : Bytes → Bool
is_accepted result =
    text_eq result (codes "SUCCESS")
    || (text_eq result (codes "BALANCE_CHECK") || text_eq result (codes "KILL"))

-- `RequestDispatcher::handle_response`: the number of the next request follows every answer, a
-- refusal too.
abbrev pub handle_response : AckPacket → Dispatcher → Bool × Dispatcher
handle_response response d =
    (is_accepted response.result, record d { current_request = to_int (next response.seq_num) })

-- The text that `dispatch_request` sends, made anew in each round. `none` is that of
-- `req_to_string`.
unfoldable pub serialized_request : Inet → Request → Dispatcher → Option Bytes
serialized_request net r d = elim (r.request_type) [
  | request ↦ req_to_string net (req_packet d.current_request r.dest_ip r.transfer_amount)
  | kill ↦ some (codes "KIL END")
  | error ↦ some []
]

-- What happens to a datagram: nothing comes back in time, and `locate_request_server` finds a server
-- or not; or a datagram arrives, from an address that replaces that of the server.
pub data Reaction : Type 0 where
  timed_out : Option SocketAddress → Reaction
  answered : SocketAddress → Bytes → Reaction

abbrev max_retries : ℕ
max_retries = 5

-- An answer is parsed in a `try`: where that fails, the request counts as not accepted.
abbrev pub accept : Result AckPacket → Dispatcher → Result (Bool × Dispatcher)
accept (ok response) d = ok (handle_response response d)
accept (threw e) d = ok (false, d)
accept undefined d = undefined

unfoldable pub receive : Inet → Bytes → Dispatcher → Result (Bool × Dispatcher)
unfolding c_string
receive net payload d = accept (to_ack_packet net (c_string (take 2048 payload))) d

-- Where no server was found, the address is made of variables that have no value.
abbrev pub react : Inet → Reaction → Dispatcher → Result (Bool × Dispatcher)
react net (timed_out none) d = undefined
react net (timed_out (some a)) d = ok (false, record d { servaddr = a })
react net (answered src payload) d = receive net payload (record d { servaddr = src })

-- The network and the servers behind it, with a state of their own.
module _ {S : Type 0} (net : Inet) (network : S → SocketAddress → Bytes → Reaction × S) where
  -- One round of the loop of `dispatch_request`: whether the request is accepted, and the state.
  unfoldable pub attempt : Request → Dispatcher → S → Result (Bool × Dispatcher × S)
  unfolding receive serialized_request
  attempt r d s = elim (serialized_request net r d) [
    | none ↦ undefined
    | some text ↦
        let (reaction, t) = network s d.servaddr text in
        react net reaction (record d { sent = d.sent ++ (d.servaddr, text) ∷ [] })
        >>= λ (accepted, e). ok (accepted, e, t)
  ]

  -- The loop, with the number of rounds that are left.
  unfoldable pub retry : ℕ → Request → Dispatcher → S → Result (Bool × Dispatcher × S)
  unfolding attempt
  retry zero r d s = ok (false, d, s)
  retry (suc n) r d s = attempt r d s >>= λ (accepted, e, t). elim accepted [
    | true ↦ ok (true, e, t)
    | false ↦ retry n r e t
  ]

  -- `RequestDispatcher::dispatch_request`, which reports whether the request was accepted. The length
  -- that it gives to `recvfrom` has no value in the source; here it is large enough.
  unfoldable pub dispatch_request : Request → Dispatcher → S → Result (Bool × Dispatcher × S)
  unfolding retry
  dispatch_request r d s = retry max_retries r d s

  -- `RequestDispatcher::process_requests` once `is_alive` is false, so that the condition of the loop
  -- is only that the queue is not empty: the queue is emptied from its front.
  unfoldable pub process_requests : List Request → Dispatcher → S → Result (Dispatcher × S)
  unfolding dispatch_request
  process_requests [] d s = ok (record d { request_queue = [] }, s)
  process_requests (r ∷ rs) d s =
      dispatch_request r (record d { request_queue = rs }) s >>= λ (_, e, t).
      process_requests rs e t
