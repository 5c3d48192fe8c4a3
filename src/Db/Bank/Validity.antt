-- ===== src/Db/Bank/Validity.antt =====
-- The well-formed states of the bank, which every operation keeps.
use brix.Base.{
  ℕ, ◌+◌, ◌-◌, ◌%◌, ◌^◌, ◌≤◌, ◌<◌, ◌≡◌, refl, [], ◌∷◌, some, Dict, lookup, insert, assign, erase,
  arith, ◌==◌, IsMap, assign-IsMap, insert-IsMap, erase-IsMap, ℤ, bits32, bits64, u32, u64,
  bits64-mod, bits32-lt, bits32-int_of_bits, lookup-assign_known, inl, inr, Option-cases,
  Bool-cases, ltb, false,
}
use brix.Db.State.{ClientRecord, DbSnapshot}
use brix.Db.Methods.{add_to_int, sub_from_int, new_client}
use brix.Db.Bank.{open_account, transact, pay, close_account, counted, paid, received}
use brix.Db.Bank.Total.{total, total-assign, total-insert, total-erase}

-- A record stands under its own address, and its numbers fit their types.
pub record Fits (k : ℕ) (c : ClientRecord) : Type 0 where
  pub own : c.ip ≡ k
  pub address : k < 2 ^ 32
  pub balance : c.balance < 2 ^ 64
  pub last_request : c.last_request < 2 ^ 32

abbrev pub AllFit : Dict ClientRecord → Type 0
AllFit [] = Unit
AllFit (e ∷ m) = Fits e.0 e.1 × AllFit m

pub AllFit-lookup :
    (k : ℕ) (c : ClientRecord) (m : Dict ClientRecord) → AllFit m → lookup k m ≡ some c → Fits k c
unfolding lookup
AllFit-lookup k c [] h e = cc
AllFit-lookup k c (x ∷ m) h e = ground (arith, AllFit-lookup k c m h.1)

pub AllFit-assign :
    (k : ℕ) (c : ClientRecord) (m : Dict ClientRecord) → AllFit m → Fits k c → AllFit (assign k c m)
unfolding assign
AllFit-assign k c [] h f = tt
AllFit-assign k c (x ∷ m) h f = ground (arith, AllFit-assign k c m h.1 f)

pub AllFit-insert :
    (k : ℕ) (c : ClientRecord) (m : Dict ClientRecord) → AllFit m → Fits k c → AllFit (insert k c m)
unfolding insert
AllFit-insert k c m h f = ground arith

pub AllFit-erase : (k : ℕ) (m : Dict ClientRecord) → AllFit m → AllFit (erase k m)
unfolding erase
AllFit-erase k [] h = tt
AllFit-erase k (x ∷ m) h = ground (arith, AllFit-erase k m h.1)

-- Every client stands once and fits; the running total is the sum of the balances, in 32 bits.
pub record IsValid (b : DbSnapshot) : Type 0 where
  pub once : IsMap b.records
  pub fit : AllFit b.records
  pub counted : bits32 b.metadata.total_balance ≡ total b.records % 2 ^ 32

pub bits32-add_to_int : (z : ℤ) (n : ℕ) → bits32 (add_to_int z n) ≡ (bits32 z + n) % 2 ^ 32
unfolding add_to_int
bits32-add_to_int z n =
    omega (arith, bits32-int_of_bits (u32 (u64 (bits64 z + n))), bits64-mod z, bits32-lt z)

pub bits32-sub_from_int :
    (z : ℤ) (n : ℕ) → n < 2 ^ 64 → bits32 (sub_from_int z n) ≡ (bits32 z + 2 ^ 64 - n) % 2 ^ 32
unfolding sub_from_int
bits32-sub_from_int z n h =
    omega (arith, bits32-int_of_bits (u32 (u64 (bits64 z + 2 ^ 64 - n))), bits64-mod z, bits32-lt z)

counted-Fits : (k : ℕ) (c : ClientRecord) → Fits k c → Fits k (counted c)
counted-Fits k c f = omega arith

paid-Fits : (k a : ℕ) (c : ClientRecord) → Fits k c → Fits k (paid a c)
paid-Fits k a c f = omega arith

received-Fits : (k a : ℕ) (c : ClientRecord) → Fits k c → Fits k (received a c)
received-Fits k a c f = omega arith

pub open_account-IsValid :
    (ip : ℕ) (b : DbSnapshot) → ip < 2 ^ 32 → IsValid b → IsValid (open_account ip b).1
unfolding open_account
open_account-IsValid ip b small v = elim (Option-cases (lookup ip b.records)) [
  | inl fresh ↦
      rw (fresh, open_account)
        (record {
          once = insert-IsMap ip (new_client ip) b.records v.once;
          fit = AllFit-insert ip (new_client ip) b.records v.fit (record {
            own = refl;
            address = small;
            balance = omega arith;
            last_request = omega arith;
          });
          counted = omega (
            arith,
            bits32-add_to_int b.metadata.total_balance 100000,
            total-insert ip (new_client ip) b.records fresh,
            v.counted,
          );
        })
  | inr (c, known) ↦ rw (known, open_account) v
]

pub close_account-IsValid : (ip : ℕ) (b : DbSnapshot) → IsValid b → IsValid (close_account ip b).1
unfolding close_account
close_account-IsValid ip b v = elim (Option-cases (lookup ip b.records)) [
  | inl unknown ↦ rw (unknown, close_account) v
  | inr (c, known) ↦
      rw (known, close_account)
        (record {
          once = erase-IsMap ip b.records v.once;
          fit = AllFit-erase ip b.records v.fit;
          counted = omega (
            arith,
            (AllFit-lookup ip c b.records v.fit known).balance,
            bits32-sub_from_int b.metadata.total_balance c.balance
                (AllFit-lookup ip c b.records v.fit known).balance,
            total-erase ip c b.records known,
            v.counted,
          );
        })
]

pub receiver_after :
    (s r a : ℕ) (c e : ClientRecord) (b : DbSnapshot)
    → lookup s b.records ≡ some c
    → lookup r b.records ≡ some e
    → (s == r) ≡ false
    → lookup r (assign s (paid a c) b.records) ≡ some e
receiver_after s r a c e b hs hr ne =
    ground (arith, lookup-assign_known r s (paid a c) b.records hs)

module _ (s r a : ℕ) (c e : ClientRecord) (b : DbSnapshot) (v : IsValid b)
    (hs : lookup s b.records ≡ some c) (hr : lookup r b.records ≡ some e)
    (ne : (s == r) ≡ false) where
  abbrev pub after_debit : Dict ClientRecord
  after_debit = assign s (paid a c) b.records

  -- A debit and a credit keep the sum in 64 bits, also where the receiver's balance wraps around.
  pub pay-total :
      a ≤ c.balance
      → total (assign r (received a e) after_debit) % 2 ^ 64 ≡ total b.records % 2 ^ 64
  pay-total enough = omega (
    arith,
    total-assign s (paid a c) c b.records hs,
    total-assign r (received a e) e after_debit (receiver_after s r a c e b hs hr ne),
    (AllFit-lookup s c b.records v.fit hs).balance,
  )

  pub pay-IsValid : IsValid (pay s c r e a b).1
  unfolding pay
  pay-IsValid = elim (Bool-cases (ltb c.balance a)) [
    | inl short ↦ rw (short) (record {
      once = assign-IsMap s (counted c) b.records v.once;
      fit =
          AllFit-assign s (counted c) b.records v.fit
            (counted-Fits s c (AllFit-lookup s c b.records v.fit hs));
      counted = omega (arith, total-assign s (counted c) c b.records hs, v.counted);
    })
    | inr enough ↦ rw (enough) (record {
      once = assign-IsMap r (received a e) after_debit (assign-IsMap s (paid a c) b.records v.once);
      fit =
          AllFit-assign r (received a e) after_debit
            (AllFit-assign s (paid a c) b.records v.fit
              (paid-Fits s a c (AllFit-lookup s c b.records v.fit hs)))
            (received-Fits r a e (AllFit-lookup r e b.records v.fit hr));
      counted = omega (arith, pay-total (ground arith), v.counted);
    })
  ]

pub transact-IsValid : (s r a : ℕ) (b : DbSnapshot) → IsValid b → IsValid (transact s r a b).1
unfolding transact
transact-IsValid s r a b v = elim (Option-cases (lookup s b.records)) [
  | inl unknown ↦ rw (unknown, transact) v
  | inr (c, hs) ↦ elim (Option-cases (lookup r b.records)) [
    | inl unknown ↦ ground arith
    | inr (e, hr) ↦ ground (arith, pay-IsValid s r a c e b v hs hr)
  ]
]
