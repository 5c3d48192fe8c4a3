-- ===== src/Client/Service/Removal.antt =====
-- The end of a client's session: the request to be removed, over a network that may lose answers.
use brix.Base.{
  ℕ, zero, suc, ◌^◌, ◌<◌, ◌≡◌, refl, ap, ◌∙◌, Bool, true, false, none, some, List, [], ◌∷◌, Bytes,
  arith, pos, negsuc, lookup, lookup-erase, erase, codes, to_int_of_IsInt, IsMap, text_eq,
  if◌then◌else◌,
}
use brix.Text.{Result, ok, is_space, tokens}
use brix.Text.Plain.{Passes}
use brix.Text.Tokens.{IsToken}
use brix.Net.{SocketAddress, Inet, InetLaws}
use brix.Packets.{kil_packet, ack_packet, ack_to_string, to_kil_packet, type}
use brix.Db.State.{ClientRecord, DbSnapshot, success}
use brix.Db.Methods.{new_client, response, snapshot_of}
use brix.Db.Bank.{open_account, close_account, take_balance}
use brix.Db.Bank.Validity.{IsValid, AllFit-lookup, close_account-IsValid, open_account-IsValid}
use brix.Db.Bank.Opening.{opened-new_client}
use brix.Requests.{kill_ack}
use brix.Requests.Answers.{process_kill_packet_lem}
use brix.Server.{kill_thread, thread, packet_multiplexer_round, datagram}
use brix.Client.{
  attempt, retry, dispatch_request, serialized_request, kill_request, is_accepted, receive,
  Dispatcher,
}
use brix.Client.Retries.{retry_ends, retry_goes_on}
use brix.Client.Service.{after_thread, after_round, serve, service}
use brix.Client.Service.Rounds.{asked, receive-ack}

abbrev kil_text : Bytes
kil_text = codes "KIL END"

round-kil :
    (net : Inet) (ip : ℕ)
    → packet_multiplexer_round net (datagram ip kil_text) ≡ ok (some (kill_thread ip kil_packet))
unfolding packet_multiplexer_round to_kil_packet type text_eq is_space tokens
round-kil net ip = refl

-- The server's answer.
abbrev farewell : Inet → ℕ → DbSnapshot → Bytes
farewell net ip b = ack_to_string net (kill_ack ip kil_packet (close_account ip b).0)

serve-kil :
    (net : Inet) (ip : ℕ) (b : DbSnapshot)
    → IsMap b.records
    → serve net ip b kil_text ≡ (some (farewell net ip b), (close_account ip b).1)
unfolding serve thread snapshot_of
serve-kil net ip b once =
    ap (after_round net ip b) (round-kil net ip)
    ∙ ap (after_thread ip b) (process_kill_packet_lem net ip kil_packet b [] once)
    ∙ ground arith

module _ (net : Inet) (laws : InetLaws net) (ip : ℕ) (h : ip < 2 ^ 32)
    (server : SocketAddress) where
  receive-farewell :
      (result : Bytes) (balance amount : ℕ) (d : Dispatcher)
      → balance < 2 ^ 64
      → amount < 2 ^ 64
      → IsToken result
      → Passes 24 result
      → receive net (ack_to_string net (ack_packet (negsuc 0) result balance ip 0 amount)) d
        ≡ ok (is_accepted result, record d { current_request = pos 0 })
  receive-farewell result balance amount d hb ha token passes =
      receive-ack net laws (negsuc 0) result balance ip 0 amount d (omega arith) hb h (omega arith)
        ha token passes
      ∙ ap (λ z. ok (is_accepted result, record d { current_request = z }))
          (to_int_of_IsInt (pos 0) (omega arith))

  kill-IsToken : IsToken (codes "KILL")
  unfolding is_space
  kill-IsToken = ground arith

  -- A round at a server that knows the client, by whether its answer gets lost: then the client looks
  -- for the server, which opens a new account for it.
  abbrev after_round_trip :
      Dispatcher → DbSnapshot → List Bool → Bool × Dispatcher × (DbSnapshot × List Bool)
  after_round_trip d closed [] =
      (true, record (asked server d kil_text) { current_request = pos 0 }, (closed, []))
  after_round_trip d closed (false ∷ losses) =
      (true, record (asked server d kil_text) { current_request = pos 0 }, (closed, losses))
  after_round_trip d closed (true ∷ losses) =
      (false, asked server d kil_text, ((open_account ip closed).1, losses))

  attempt-kil :
      (b closed : DbSnapshot) (answer : Bytes) (d : Dispatcher) (losses : List Bool)
      → serve net ip b kil_text ≡ (some answer, closed)
      → ((e : Dispatcher) → receive net answer e ≡ ok (true, record e { current_request = pos 0 }))
      → attempt net (service net ip server) kill_request d (b, losses)
        ≡ ok (after_round_trip d closed losses)
  unfolding attempt service serialized_request
  attempt-kil b closed answer d [] served read =
      rw (attempt, served, read (asked server d kil_text))
  attempt-kil b closed answer d (false ∷ losses) served read =
      rw (attempt, served, read (asked server d kil_text))
  attempt-kil b closed answer d (true ∷ losses) served read = rw (attempt, served)

  module _ (b : DbSnapshot) (c : ClientRecord) (v : IsValid b)
      (known : lookup ip b.records ≡ some c) where
    abbrev closed : DbSnapshot
    closed = (close_account ip b).1

    closes : close_account ip b ≡ (
      response true c success,
      record { metadata = take_balance c.balance b.metadata; records = erase ip b.records },
    )
    unfolding close_account
    closes = rw (known, close_account)

    serve_accepted : serve net ip b kil_text ≡ (
      some (ack_to_string net (ack_packet (negsuc 0) (codes "KILL") c.balance ip 0 c.balance)),
      closed,
    )
    unfolding kill_ack
    serve_accepted =
        serve-kil net ip b v.once
        ∙ ap (λ r. (some (ack_to_string net (kill_ack ip kil_packet r)), closed))
            (ap (λ o. o.0) closes)

    attempt_accepted :
        (d : Dispatcher) (losses : List Bool)
        → attempt net (service net ip server) kill_request d (b, losses)
          ≡ ok (after_round_trip d closed losses)
    unfolding text_eq
    attempt_accepted d losses =
        let fits = AllFit-lookup ip c b.records v.fit known in
        attempt-kil b closed _ d losses serve_accepted (λ e.
          receive-farewell (codes "KILL") c.balance c.balance e fits.balance fits.balance
            kill-IsToken (record { short = omega arith; non_zero = omega arith }))

    closed-none : lookup ip closed.records ≡ none
    closed-none =
        ap (λ o. lookup ip o.1.records) closes ∙ lookup-erase ip ip b.records v.once ∙ ground arith

    -- Behind a lost answer.
    abbrev reopened : DbSnapshot
    reopened = (open_account ip closed).1

    reopened-new_client : lookup ip reopened.records ≡ some (new_client ip)
    reopened-new_client = opened-new_client ip closed closed-none

    reopened-IsValid : IsValid reopened
    reopened-IsValid = open_account-IsValid ip closed h (close_account-IsValid ip b v)

  -- Whether one of the next `n` answers arrives.
  abbrev pub arrives : ℕ → List Bool → Bool
  arrives zero losses = false
  arrives (suc n) (true ∷ losses) = arrives n losses
  arrives (suc n) _ = true

  -- The end of `n` rounds.
  abbrev Ended : ℕ → List Bool → Result (Bool × Dispatcher × (DbSnapshot × List Bool)) → Type 0
  Ended n losses out =
      (e : Dispatcher) × (b' : DbSnapshot) × (left : List Bool) × (out
        ≡ ok (arrives n losses, e, (b', left)))
      × (lookup ip b'.records ≡ (if arrives n losses then none else some (new_client ip)))

  module _ (n : ℕ) (b : DbSnapshot) (c : ClientRecord) (v : IsValid b)
      (known : lookup ip b.records ≡ some c) (d : Dispatcher) where
    -- The first of `n + 1` rounds, from what the others do.
    first_round :
        ((losses : List Bool)
          → Ended n losses (
              retry net
                (service net ip server)
                n
                kill_request
                (asked server d kil_text)
                (reopened b c v known, losses)))
        → (losses : List Bool)
        → Ended
            (suc n)
            losses
            (retry net (service net ip server) (suc n) kill_request d (b, losses))
    first_round later [] = (
      _,
      closed b c v known,
      [],
      retry_ends net (service net ip server) n kill_request d _ (b, []) _
          (attempt_accepted b c v known d []),
      closed-none b c v known,
    )
    first_round later (false ∷ losses) = (
      _,
      closed b c v known,
      losses,
      retry_ends net (service net ip server) n kill_request d _ (b, false ∷ losses) _
          (attempt_accepted b c v known d (false ∷ losses)),
      closed-none b c v known,
    )
    first_round later (true ∷ losses) =
        let (e, b', left, ends, record_after) = later losses in
        (
          e,
          b',
          left,
          retry_goes_on net (service net ip server) n kill_request d (asked server d kil_text)
                (b, true ∷ losses) (reopened b c v known, losses)
                (attempt_accepted b c v known d (true ∷ losses))
              ∙ ends,
          record_after,
        )

  new_rounds :
      (n : ℕ) (b : DbSnapshot) (v : IsValid b) (known : lookup ip b.records ≡ some (new_client ip))
      (d : Dispatcher) (losses : List Bool)
      → Ended n losses (retry net (service net ip server) n kill_request d (b, losses))
  new_rounds zero b v known d losses = (d, b, losses, unfold retry in refl, known)
  new_rounds (suc n) b v known d losses =
      first_round n b (new_client ip) v known d
        (new_rounds n (reopened b (new_client ip) v known)
          (reopened-IsValid b (new_client ip) v known)
          (reopened-new_client b (new_client ip) v known) (asked server d kil_text))
        losses

  -- Let a registered client ask a valid bank to be removed by one call of `dispatch_request`, and look
  -- for the server, and so be registered anew, after each lost answer. The call ends, and it counts the
  -- request as accepted exactly if one of the first five answers arrives. Then the client is
  -- removed; otherwise it has a new account with the starting balance.
  pub dispatch_request_kills :
      (b : DbSnapshot) (c : ClientRecord)
      → IsValid b
      → lookup ip b.records ≡ some c
      → (d : Dispatcher) (losses : List Bool)
      → (e : Dispatcher) × (b' : DbSnapshot) × (left : List Bool) × (dispatch_request net
            (service net ip server)
            kill_request
            d
            (b, losses)
          ≡ ok (arrives 5 losses, e, (b', left)))
        × (lookup ip b'.records ≡ (if arrives 5 losses then none else some (new_client ip)))
  unfolding dispatch_request
  dispatch_request_kills b c v known d losses =
      first_round 4 b c v known d
        (new_rounds 4 (reopened b c v known) (reopened-IsValid b c v known)
          (reopened-new_client b c v known) (asked server d kil_text))
        losses
