-- ===== src/Db/Bank/Total.antt =====
-- The money in the bank: the sum of the balances, under each change of the records.
use brix.Base.{ℕ, ◌+◌, ◌≤◌, ◌≡◌, [], ◌∷◌, none, some, Dict, lookup, insert, assign, erase, arith}
use brix.Db.State.{ClientRecord}

abbrev pub total : Dict ClientRecord → ℕ
total [] = 0
total (e ∷ m) = e.1.balance + total m

pub total-assign :
    (k : ℕ) (v w : ClientRecord) (m : Dict ClientRecord)
    → lookup k m ≡ some w
    → total (assign k v m) + w.balance ≡ total m + v.balance
unfolding lookup assign
total-assign k v w [] h = cc
total-assign k v w (e ∷ m) h = ground (arith, total-assign k v w m)

pub total-insert :
    (k : ℕ) (v : ClientRecord) (m : Dict ClientRecord)
    → lookup k m ≡ none
    → total (insert k v m) ≡ total m + v.balance
unfolding insert
total-insert k v m h = ground arith

pub total-erase :
    (k : ℕ) (w : ClientRecord) (m : Dict ClientRecord)
    → lookup k m ≡ some w
    → total (erase k m) + w.balance ≡ total m
unfolding lookup erase
total-erase k w [] h = cc
total-erase k w (e ∷ m) h = ground (arith, total-erase k w m)

pub balance-le-total :
    (k : ℕ) (w : ClientRecord) (m : Dict ClientRecord) → lookup k m ≡ some w → w.balance ≤ total m
unfolding lookup
balance-le-total k w [] h = cc
balance-le-total k w (e ∷ m) h = ground (arith, balance-le-total k w m)
