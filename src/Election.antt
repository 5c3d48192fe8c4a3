-- ===== src/Election.antt =====
-- The election of the coordinator, server/src/election/single_socket_election.cpp and
-- redundancy_manager.cpp: one round of the loop of `single_socket_election`, with the state machine
-- of `RedundancyManager`. The log lines are left out. On a time-out the source writes one byte before
-- the buffer; here that changes nothing.
pub mod Messages
pub mod Coordinator
pub mod Contest
pub mod Loop
pub mod Overflow
pub mod Identity
pub mod Leaderless
pub mod Cluster
pub mod Heartbeat
use brix.Base.{
  ℕ, zero, suc, ◌-◌, ◌%◌, ◌^◌, Bool, true, false, ◌&&◌, Option, none, some, List, [], ◌∷◌, ◌++◌,
  Bytes, codes, text_eq, take, ltb, ◌==◌, ℤ, pos, leb_ℤ, ◌-ℤ◌, if◌then◌else◌,
}
use brix.Clock.{get_current_time_ms}
use brix.Base.Options.{◌>>=◌}
use brix.Text.{is_space, skip_spaces, signed_at, print}
use brix.Server.{c_string}

-- `ElectionState`
pub data ElectionState : Type 0 where
  init not_in_progress in_progress waiting_for_coord : ElectionState

-- `ElectionSwitchResult`; `other` is NONE.
pub data ElectionSwitchResult : Type 0 where
  other election answer coord_announcement timeout : ElectionSwitchResult

-- The members of `RedundancyManager` that the state machine uses. The waiting time is that of the
-- last round that set it; `cliaddr` is the address that the last datagram came from.
pub record RedundancyManager : Type 0 where
  pub id : ℕ
  pub state : ElectionState
  pub is_coordinator : Bool
  pub in_standby_mode : Bool
  pub coordinator_ip : ℕ
  pub last_received_id : ℕ
  pub start_time : ℤ
  pub current_wait_time : ℤ
  pub cliaddr : ℕ

-- What a server sends: to all, to the address of the last datagram, or the database to all.
pub data Notice : Type 0 where
  broadcast : Bytes → Notice
  to_peer : ℕ → Bytes → Notice
  database_update : Notice

-- What `recvfrom` gives back within the 10 ms of the socket.
pub data Arrival : Type 0 where
  silence : Arrival
  arrival : ℕ → Bytes → Arrival

abbrev pub answer_max_wait_time : ℤ
answer_max_wait_time = pos 200

-- The texts that the constructor of `RedundancyManager` makes.
abbrev pub message : Bytes → ℕ → Bytes
message tag id = tag ++ b' ' ∷ (print id ++ codes " END")

abbrev pub election_message : ℕ → Bytes
election_message = message (codes "ELE")

abbrev pub answer_message : ℕ → Bytes
answer_message = message (codes "ANS")

abbrev pub coord_announcement_message : ℕ → Bytes
coord_announcement_message = message (codes "CRD")

-- `iss >> word`: white space is skipped, and at least one character has to stand there.
unfoldable pub word : Bytes → Bytes × Bytes
unfolding is_space
word [] = ([], [])
word (c ∷ s) = if is_space c then ([], c ∷ s) else (let (w, rest) = word s in (c ∷ w, rest))

abbrev pub non_empty : Bytes × Bytes → Option (Bytes × Bytes)
non_empty ([], s) = none
non_empty (c ∷ w, s) = some (c ∷ w, s)

unfoldable pub extract_word : Bytes → Option (Bytes × Bytes)
unfolding word skip_spaces
extract_word s = non_empty (word (skip_spaces s))

-- `iss >> id` for an `unsigned int`: the value behind a minus is negated, and a magnitude of more
-- than 32 bits fails.
unfoldable pub extract_unsigned : Bytes → Option (ℕ × Bytes)
unfolding skip_spaces signed_at
extract_unsigned s = elim (signed_at (skip_spaces s)) [
  | none ↦ none
  | some (minus, m, rest) ↦
      if ltb m (2 ^ 32) then some ((if minus then (2 ^ 32 - m) % 2 ^ 32 else m), rest) else none
]

-- `is_valid_answer`, `is_valid_coord_announcement` and `is_valid_election_message`, which differ in
-- the tag: the sender's id, if the message is valid and not this server's own.
unfoldable pub sender_id : Bytes → ℕ → Bytes → Option ℕ
unfolding extract_word extract_unsigned
sender_id tag id buffer = do
  (t, s1) ← extract_word buffer
  (n, s2) ← extract_unsigned s1
  (e, s3) ← extract_word s2
  if text_eq t tag && text_eq e (codes "END") then if n == id then none else some n else none

-- `ss_election_result_switch`, on a datagram: the kind of the message and the id that it holds.
unfoldable pub classify : ℕ → Bytes → ElectionSwitchResult × Option ℕ
unfolding sender_id
classify id buffer = elim (sender_id (codes "CRD") id buffer) [
  | some n ↦ (coord_announcement, some n)
  | none ↦ elim (sender_id (codes "ANS") id buffer) [
    | some n ↦ (answer, some n)
    | none ↦ elim (sender_id (codes "ELE") id buffer) [
      | some n ↦ (election, some n)
      | none ↦ (other, none)
    ]
  ]
]

abbrev pub heard_from : Option ℕ → RedundancyManager → RedundancyManager
heard_from none m = m
heard_from (some n) m = record m { last_received_id = n }

-- `ss_election_result_switch`. An empty datagram is no message.
unfoldable pub ss_election_result_switch :
    Arrival → RedundancyManager → ElectionSwitchResult × RedundancyManager
unfolding classify c_string
ss_election_result_switch silence m = (timeout, m)
ss_election_result_switch (arrival src payload) m =
    let (kind, sender) = classify m.id (c_string (take 128 payload)) in (kind, heard_from sender m)

abbrev pub promote : RedundancyManager → RedundancyManager
promote m = record m { is_coordinator = true }

abbrev pub demote : RedundancyManager → RedundancyManager
demote m = record m { is_coordinator = false }

-- Only a coordinator is demoted; to another server a demotion would do nothing.
abbrev pub handle_coordinator_announcement : RedundancyManager → RedundancyManager × List Notice
handle_coordinator_announcement m =
    (demote (record m { state = not_in_progress; coordinator_ip = m.cliaddr }), [])

abbrev pub send_answer_back : RedundancyManager → Notice
send_answer_back m = to_peer m.cliaddr (answer_message m.id)

abbrev pub start_election_procedure : RedundancyManager → RedundancyManager × List Notice
start_election_procedure m =
    (record m { state = in_progress }, send_answer_back m ∷ broadcast (election_message m.id) ∷ [])

-- What the heartbeat calls when the coordinator does not answer.
abbrev pub backup_election : RedundancyManager → RedundancyManager × List Notice
backup_election m = (record m { state = in_progress }, broadcast (election_message m.id) ∷ [])

abbrev pub handle_election_message : RedundancyManager → RedundancyManager × List Notice
handle_election_message m =
    if ltb m.last_received_id m.id
    then (m, send_answer_back m ∷ [])
    else (record m { state = waiting_for_coord }, [])

abbrev pub handle_answer_message : RedundancyManager → RedundancyManager × List Notice
handle_answer_message m =
    if ltb m.last_received_id m.id then (m, []) else (record m { state = waiting_for_coord }, [])

abbrev pub handle_in_progress_timeout : RedundancyManager → RedundancyManager × List Notice
handle_in_progress_timeout m =
    if leb_ℤ answer_max_wait_time m.current_wait_time
    then (
      promote (record m { state = not_in_progress }),
      broadcast (coord_announcement_message m.id) ∷ [],
    )
    else (m, [])

-- The three cases of the state machine that read a message.
abbrev pub when_not_in_progress :
    ElectionSwitchResult → RedundancyManager → RedundancyManager × List Notice
when_not_in_progress coord_announcement m = handle_coordinator_announcement m
when_not_in_progress election m =
    let update = if m.is_coordinator then database_update ∷ [] else [] in
    let (e, sent) =
      if ltb m.last_received_id m.id
      then start_election_procedure m
      else (record m { state = waiting_for_coord }, []) in
    (e, update ++ sent)
when_not_in_progress _ m = (m, [])

abbrev pub when_in_progress :
    ElectionSwitchResult → RedundancyManager → RedundancyManager × List Notice
when_in_progress coord_announcement m = handle_coordinator_announcement m
when_in_progress election m = handle_election_message m
when_in_progress timeout m = handle_in_progress_timeout m
when_in_progress _ m = (m, [])

abbrev pub when_waiting : ElectionSwitchResult → RedundancyManager → RedundancyManager × List Notice
when_waiting coord_announcement m = handle_coordinator_announcement m
when_waiting answer m = handle_answer_message m
when_waiting _ m = (m, [])

-- `get_current_time_ms() - start_time`, in `long`.
abbrev pub waited : ℕ → RedundancyManager → ℤ
waited now m = get_current_time_ms now -ℤ m.start_time

-- The `switch` on the state, at the time `now` of the system's clock.
unfoldable pub handle_arrival :
    ElectionState → ℕ → Arrival → RedundancyManager → RedundancyManager × List Notice
unfolding ss_election_result_switch
handle_arrival init now a m = (
  record m { state = in_progress; is_coordinator = false; in_standby_mode = false },
  broadcast (election_message m.id) ∷ [],
)
handle_arrival not_in_progress now a m =
    let (kind, e) = ss_election_result_switch a (record m { current_wait_time = pos 0 }) in
    when_not_in_progress kind e
handle_arrival in_progress now a m =
    let (kind, e) = ss_election_result_switch a (record m { current_wait_time = waited now m }) in
    when_in_progress kind e
handle_arrival waiting_for_coord now a m =
    let (kind, e) = ss_election_result_switch a (record m { current_wait_time = pos 0 }) in
    when_waiting kind e

abbrev pub peer : Arrival → ℕ → ℕ
peer silence last = last
peer (arrival src payload) last = src

-- One round of the loop. What comes from 127.0.0.0/8 is ignored; `in_addr_t` has its first byte
-- lowest. On a time-out the address of the last datagram is tested again.
unfoldable pub election_round : ℕ → Arrival → RedundancyManager → RedundancyManager × List Notice
unfolding handle_arrival
election_round now a m =
    let e = record m { cliaddr = peer a m.cliaddr } in
    if e.cliaddr % 256 == 127 then (e, []) else handle_arrival e.state now a e
