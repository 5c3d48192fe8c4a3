-- ===== src/Db/Bank/Opening.antt =====
-- A registration, of a client that is new and of one that is known.
use brix.Base.{
  ℕ, ◌+◌, ◌≡◌, ◌≢◌, ap, ◌∙◌, true, none, some, arith, lookup, lookup-insert, insert, Option-cases,
  inl, inr,
}
use brix.Db.State.{ClientRecord, DbSnapshot, starting_balance, success}
use brix.Db.Methods.{new_client, response}
use brix.Db.Bank.{open_account, add_balance}
use brix.Db.Bank.Total.{total, total-insert}

module _ (ip : ℕ) (b : DbSnapshot) (fresh : lookup ip b.records ≡ none) where
  opens : open_account ip b ≡ (
    response true (new_client ip) success,
    record {
      metadata = add_balance starting_balance b.metadata;
      records = insert ip (new_client ip) b.records;
    },
  )
  unfolding open_account
  opens = rw (fresh, open_account)

  pub opened-new_client : lookup ip (open_account ip b).1.records ≡ some (new_client ip)
  opened-new_client =
      ap (λ o. lookup ip o.1.records) opens
      ∙ lookup-insert ip ip (new_client ip) b.records
      ∙ ground arith

  pub opened-other : (r : ℕ) → ip ≢ r → lookup r (open_account ip b).1.records ≡ lookup r b.records
  opened-other r ne =
      ap (λ o. lookup r o.1.records) opens
      ∙ lookup-insert r ip (new_client ip) b.records
      ∙ ground arith

  pub opened-total : total (open_account ip b).1.records ≡ total b.records + starting_balance
  opened-total = ap (λ o. total o.1.records) opens ∙ total-insert ip (new_client ip) b.records fresh

  pub unknown-known : (r : ℕ) (e : ClientRecord) → lookup r b.records ≡ some e → ip ≢ r
  unknown-known r e known same = none_some (ap (λ k. lookup k b.records) same ∙ known)
    where
      none_some : lookup ip b.records ≡ some e → ⊥
      none_some h = cc

pub open_account_known :
    (ip : ℕ) (b : DbSnapshot) (c : ClientRecord)
    → lookup ip b.records ≡ some c
    → (open_account ip b).1 ≡ b
unfolding open_account
open_account_known ip b c known = ground arith

-- Whoever is registered stays as he is.
pub open_account-open_account :
    (ip : ℕ) (b : DbSnapshot) → (open_account ip (open_account ip b).1).1 ≡ (open_account ip b).1
unfolding open_account
open_account-open_account ip b = elim (Option-cases (lookup ip b.records)) [
  | inl unknown ↦ ground (arith, lookup-insert ip ip (new_client ip) b.records)
  | inr (c, known) ↦ ground arith
]
