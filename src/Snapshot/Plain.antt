-- ===== src/Snapshot/Plain.antt =====
-- The text of a snapshot has no zero byte in it.
use brix.Base.{ℕ, ◌^◌, ◌<◌, ◌≢◌, [], ◌∷◌, codes, Dict, All-append, arith}
use brix.Text.{print, print_signed}
use brix.Text.Plain.{NonZero, NonZero-spaced, print-NonZero, print_signed-NonZero}
use brix.Net.{Inet, InetLaws, addr_to_string, addr_to_string-text}
use brix.Db.State.{ClientRecord, DbSnapshot}
use brix.Db.Bank.Validity.{AllFit, Fits}
use brix.Snapshot.{record_text, records_text, to_string}

module _ (net : Inet) (laws : InetLaws net) where
  address-NonZero : (k : ℕ) (c : ClientRecord) → Fits k c → NonZero (addr_to_string net c.ip)
  address-NonZero k c f =
      let h : c.ip < 2 ^ 32 = omega (arith, f.own, f.address) in
      rw (addr_to_string-text net laws c.ip h) (laws.passes c.ip h).non_zero

  record_text-NonZero : (k : ℕ) (c : ClientRecord) → Fits k c → NonZero (record_text net c)
  unfolding record_text
  record_text-NonZero k c f = NonZero-spaced (addr_to_string net c.ip) _ (address-NonZero k c f) (
      NonZero-spaced (print c.balance) _ (print-NonZero c.balance) (
        All-append (λ c. c ≢ 0) (print c.last_request) (codes " ; ") (print-NonZero c.last_request)
          (omega arith)))

  records_text-NonZero : (m : Dict ClientRecord) → AllFit m → NonZero (records_text net m)
  unfolding records_text
  records_text-NonZero [] h = tt
  records_text-NonZero (e ∷ m) h =
      All-append (λ c. c ≢ 0) (record_text net e.1) (records_text net m)
        (record_text-NonZero e.0 e.1 h.0) (records_text-NonZero m h.1)

  pub to_string-NonZero : (b : DbSnapshot) → AllFit b.records → NonZero (to_string net b)
  unfolding to_string
  to_string-NonZero b h =
      NonZero-spaced (print_signed b.metadata.num_transactions) _
        (print_signed-NonZero b.metadata.num_transactions)
        (NonZero-spaced (print b.metadata.total_transferred) _
          (print-NonZero b.metadata.total_transferred)
          (NonZero-spaced (print_signed b.metadata.total_balance) _
            (print_signed-NonZero b.metadata.total_balance)
            (All-append (λ c. c ≢ 0) (codes "# ") (records_text net b.records)
              (omega arith, (omega arith, tt)) (records_text-NonZero b.records h))))
