-- ===== src/Client/Service/Payment.antt =====
-- A payment from the client's queue to the bank, over a network that may lose an answer.
use brix.Base.{
  ℕ, ◌+◌, ◌-◌, ◌^◌, ◌≤◌, ◌<◌, ◌≡◌, ◌≢◌, refl, ap, ◌∙◌, true, false, some, [], ◌∷◌, ◌++◌, Bytes,
  arith, pos, u32, lookup, codes, text_eq,
}
use brix.Text.{ok}
use brix.Text.Plain.{Passes}
use brix.Text.Tokens.{IsToken}
use brix.Net.{SocketAddress, Inet, InetLaws}
use brix.Db.State.{ClientRecord, DbSnapshot}
use brix.Db.Bank.{transact, open_account}
use brix.Db.Bank.Opening.{open_account_known}
use brix.Db.Bank.Total.{total}
use brix.Db.Bank.Validity.{IsValid, Fits}
use brix.Db.Bank.Effects.{balance_of, Paid, transact-Paid}
use brix.Client.{attempt, Dispatcher}
use brix.Client.{dispatch_request}
use brix.Client.Retries.{retry_ends, retry_goes_on}
use brix.Text.{is_space}
use brix.Client.Service.{service}
use brix.Client.Service.Rounds.{
  Serves, payment_request, asked, attempt_answered, attempt_lost, Serves-payment, Serves-duplicate,
}
use brix.Db.Bank.Validity.{AllFit-lookup}

success-IsToken : IsToken (codes "SUCCESS")
unfolding is_space
success-IsToken = ground arith

success-Passes : Passes 24 (codes "SUCCESS")
success-Passes = record { short = omega arith; non_zero = omega arith }

duplicate-IsToken : IsToken (codes "DUPLICATE")
unfolding is_space
duplicate-IsToken = ground arith

duplicate-Passes : Passes 24 (codes "DUPLICATE")
duplicate-Passes = record { short = omega arith; non_zero = omega arith }

module _ (net : Inet) (laws : InetLaws net) (ip : ℕ) (server : SocketAddress) (r a : ℕ)
    (c e : ClientRecord) (b : DbSnapshot) (d : Dispatcher) (v : IsValid b)
    (hs : lookup ip b.records ≡ some c) (hr : lookup r b.records ≡ some e) (ne : ip ≢ r)
    (positive : 0 < a) (bounded : total b.records < 2 ^ 64)
    (next : d.current_request ≡ pos (c.last_request + 1))
    (small : c.last_request + 3 < 2 ^ 31) where
  abbrev once : DbSnapshot
  once = (transact ip r a b).1

  abbrev paying : ClientRecord
  paying = record c { balance = c.balance - a; last_request = u32 (c.last_request + 1) }

  sender_fits : Fits ip c
  sender_fits = AllFit-lookup ip c b.records v.fit hs

  receiver_fits : Fits r e
  receiver_fits = AllFit-lookup r e b.records v.fit hr

  module _ (enough : a ≤ c.balance) where
    once-Paid : Paid ip r paying (record e { balance = e.balance + a }) b once
    once-Paid = transact-Paid ip r a c e b v hs hr ne positive enough bounded

    amount_fits : a < 2 ^ 64
    amount_fits = omega (arith, sender_fits.balance)

    Serves-once :
        (n : ℕ) (hn : n < 2 ^ 31)
        → n ≡ c.last_request + 1
        → Serves net laws ip sender_fits.address server n r a hn receiver_fits.address amount_fits b
            once paying
            (codes "SUCCESS")
    Serves-once n hn hnum =
        Serves-payment net laws ip sender_fits.address server n r a hn receiver_fits.address
          amount_fits b c e v hs hr ne positive enough bounded hnum

    -- Let no answer be lost, in a valid state whose balances add up to less than 2^64. A registered
    -- client that knows the number of its next request, with its number at least three below 2^31,
    -- pays a positive amount that its balance covers to another registered client by one call of
    -- `dispatch_request`: the request is sent once and accepted, the amount moves once, and the
    -- client's number is again the next one.
    pub dispatch_request_pays :
        (after : Dispatcher) × (b' : DbSnapshot) × (text : Bytes) × (dispatch_request net
            (service net ip server)
            (payment_request r a)
            d
            (b, [])
          ≡ ok (true, after, (b', [])))
        × (after.sent ≡ d.sent ++ (d.servaddr, text) ∷ [])
        × (after.current_request ≡ pos (c.last_request + 2))
        × (lookup ip b'.records ≡ some paying)
        × (balance_of r b' ≡ some (e.balance + a))
    unfolding dispatch_request text_eq
    dispatch_request_pays =
        let (text, first) =
          attempt_answered net laws ip sender_fits.address server (c.last_request + 1) r a
            (omega arith) receiver_fits.address amount_fits d next b once paying (codes "SUCCESS")
            (Serves-once (c.last_request + 1) (omega arith) refl)
            (omega (arith, sender_fits.balance)) (omega arith) success-IsToken success-Passes in
        (
          _,
          once,
          text,
          retry_ends net (service net ip server) 4 (payment_request r a) d _ (b, []) (once, [])
              first,
          refl,
          ap pos (omega arith),
          once-Paid.sender_after,
          rw (once-Paid.receiver_now, balance_of),
        )

  module _ (covered : a + a ≤ c.balance) where
    Paid-first : Paid ip r paying (record e { balance = e.balance + a }) b once
    Paid-first = once-Paid (omega arith)

    abbrev twice : DbSnapshot
    twice = (transact ip r a once).1

    abbrev paying_twice : ClientRecord
    paying_twice = record c {
      balance = c.balance - a - a;
      last_request = u32 (u32 (c.last_request + 1) + 1);
    }

    Paid-second : Paid ip r paying_twice (record e { balance = e.balance + a + a }) once twice
    Paid-second =
        transact-Paid ip r a paying (record e { balance = e.balance + a }) once Paid-first.valid
          Paid-first.sender_after Paid-first.receiver_now ne positive (omega arith)
          (omega (arith, Paid-first.same_total))

    first_attempt :
        (text : Bytes) × (attempt net (service net ip server) (payment_request r a) d (b, true ∷ [])
          ≡ ok (false, asked server d text, ((open_account ip once).1, [])))
    first_attempt =
        attempt_lost net laws ip sender_fits.address server (c.last_request + 1) r a (omega arith)
          receiver_fits.address (amount_fits (omega arith)) d next b once paying (codes "SUCCESS")
          (Serves-once (omega arith) (c.last_request + 1) (omega arith) refl)

    -- The answer is lost: the server has paid, and the client does not know.
    first_round :
        (text : Bytes) × (attempt net (service net ip server) (payment_request r a) d (b, true ∷ [])
          ≡ ok (false, asked server d text, (once, [])))
    first_round =
        let (text, lost) = first_attempt in
        (
          text,
          lost
              ∙ ap (λ b'. ok (false, asked server d text, (b', [])))
                  (open_account_known ip once paying Paid-first.sender_after),
        )

    -- The same number again is a duplicate, and the client takes the next number from the answer.
    second_round :
        (d1 : Dispatcher)
        → d1.current_request ≡ pos (c.last_request + 1)
        → (text : Bytes) × (attempt net (service net ip server) (payment_request r a) d1 (once, [])
            ≡ ok (
              false,
              record (asked server d1 text) {
                current_request = pos (u32 (c.last_request + 1) + 1);
              },
              (once, []),
            ))
    unfolding text_eq
    second_round d1 number =
        attempt_answered net laws ip sender_fits.address server (c.last_request + 1) r a
          (omega arith) receiver_fits.address (amount_fits (omega arith)) d1 number once once paying
          (codes "DUPLICATE")
          (Serves-duplicate net laws ip sender_fits.address server (c.last_request + 1) r a
            (omega arith) receiver_fits.address (amount_fits (omega arith)) once paying
            Paid-first.sender_after (omega arith) (omega arith))
          (omega (arith, sender_fits.balance)) (omega arith) duplicate-IsToken duplicate-Passes

    -- With the next number, the server pays again.
    third_round :
        (d2 : Dispatcher)
        → d2.current_request ≡ pos (u32 (c.last_request + 1) + 1)
        → (e' : Dispatcher) × (attempt net
              (service net ip server)
              (payment_request r a)
              d2
              (once, [])
            ≡ ok (true, e', (twice, [])))
    unfolding text_eq
    third_round d2 number =
        let (text, third) =
          attempt_answered net laws ip sender_fits.address server (u32 (c.last_request + 1) + 1) r a
            (omega arith) receiver_fits.address (amount_fits (omega arith)) d2 number once twice
            paying_twice (codes "SUCCESS")
            (Serves-payment net laws ip sender_fits.address server (u32 (c.last_request + 1) + 1) r
              a (omega arith) receiver_fits.address (amount_fits (omega arith)) once paying
              (record e { balance = e.balance + a }) Paid-first.valid Paid-first.sender_after
              Paid-first.receiver_now ne positive (omega arith)
              (omega (arith, Paid-first.same_total)) refl)
            (omega (arith, sender_fits.balance)) (omega arith) success-IsToken success-Passes in
        (_, third)

    -- Let the first answer be lost, in a valid state whose balances add up to less than 2^64. If a
    -- registered client knows the number of its next request, with its number at least three below
    -- 2^31, and its balance covers a positive amount twice, one call of `dispatch_request` to pay
    -- the amount to another registered client ends well, and the amount has been paid twice.
    pub dispatch_request_pays_twice :
        (after : Dispatcher) × (b' : DbSnapshot) × (dispatch_request net
            (service net ip server)
            (payment_request r a)
            d
            (b, true ∷ [])
          ≡ ok (true, after, (b', [])))
        × (balance_of ip b' ≡ some (c.balance - a - a))
        × (balance_of r b' ≡ some (e.balance + a + a))
    unfolding dispatch_request
    dispatch_request_pays_twice =
        let network = service net ip server in
        let (text, first) = first_round in
        let d1 = asked server d text in
        let (text', second) = second_round d1 next in
        let (after, third) = third_round _ refl in
        (
          after,
          twice,
          retry_goes_on net network 4 (payment_request r a) d d1 (b, true ∷ []) (once, []) first
              ∙ retry_goes_on net network 3 (payment_request r a) d1 _ (once, []) (once, []) second
              ∙ retry_ends net network 2 (payment_request r a) _ after (once, []) (twice, []) third,
          rw (Paid-second.sender_after, balance_of),
          rw (Paid-second.receiver_now, balance_of),
        )
