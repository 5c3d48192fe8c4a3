-- ===== src/Snapshot/RoundTrip.antt =====
-- What the other servers make of the text of a snapshot.
use brix.Base.{
  ℕ, ⊤, ◌^◌, ◌<◌, ◌≤◌, ◌≡◌, refl, sym, ap, ◌∙◌, [], ◌∷◌, ◌++◌, List, Bytes, codes, none, some, Dict,
  lookup, insert, lookup-insert, pos, bits32, IsInt, arith, All, append_assoc,
}
use brix.Text.{is_space, ok, threw, out_of_range, tokens, print, print_signed, stoi}
use brix.Text.Tokens.{IsToken, spaced, tokens-spaced}
use brix.Text.Decimal.{
  print-IsToken, print_signed-IsToken, stoul-print, stoi-print_signed, stoi-print_large,
}
use brix.Net.{Inet, InetLaws, addr_to_string-text}
use brix.Db.State.{ClientRecord, DbMetadata, DbSnapshot}
use brix.Db.Bank.Validity.{AllFit, Fits}
use brix.Snapshot.{
  record_text, records_text, to_string, read_record, read_records, snapshot_of_tokens, from_string,
}

-- The numbers that the reader takes back: `stoi` reads what fits an `int`.
pub record IsReadable (m : DbMetadata) : Type 0 where
  pub num_transactions : IsInt m.num_transactions
  pub total_transferred : m.total_transferred < 2 ^ 31
  pub total_balance : IsInt m.total_balance

abbrev pub AllReadable : Dict ClientRecord → Type 0
AllReadable [] = ⊤
AllReadable (e ∷ m) = (e.1.last_request < 2 ^ 31) × AllReadable m

-- The loop of the reader: the first record of an address stays.
abbrev insert_all : Dict ClientRecord → Dict ClientRecord → Dict ClientRecord
insert_all [] acc = acc
insert_all (e ∷ m) acc = insert_all m (insert e.0 e.1 acc)

lookup-insert_all :
    (j : ℕ) (m acc : Dict ClientRecord)
    → lookup j (insert_all m acc) ≡ elim (lookup j acc) [ some c ↦ some c | none ↦ lookup j m ]
unfolding lookup
lookup-insert_all j [] acc = ground arith
lookup-insert_all j (e ∷ m) acc =
    ground (arith, lookup-insert_all j m (insert e.0 e.1 acc), lookup-insert j e.0 e.1 acc)

print-pos : (n : ℕ) → print_signed (pos n) ≡ print n
unfolding print_signed
print-pos n = refl

stoi-print : (n : ℕ) → n < 2 ^ 31 → stoi (print n) ≡ ok (pos n)
stoi-print n h = ap stoi (sym (print-pos n)) ∙ stoi-print_signed (pos n) h

module _ (net : Inet) (laws : InetLaws net) where
  record_tokens : ClientRecord → List Bytes
  record_tokens c = laws.text c.ip ∷ print c.balance ∷ print c.last_request ∷ codes ";" ∷ []

  records_tokens : Dict ClientRecord → List Bytes
  records_tokens [] = []
  records_tokens (e ∷ m) = record_tokens e.1 ++ records_tokens m

  record_text-spaced :
      (c : ClientRecord) (rest : Bytes)
      → c.ip < 2 ^ 32
      → record_text net c ++ rest ≡ spaced (record_tokens c) rest
  unfolding record_text record_tokens spaced
  record_text-spaced c rest h = rw (addr_to_string-text net laws c.ip h) (simp append_assoc)

  record_tokens-IsToken : (c : ClientRecord) → c.ip < 2 ^ 32 → All IsToken (record_tokens c)
  unfolding record_tokens is_space
  record_tokens-IsToken c h =
      assumption
        (refl, tt, laws.token c.ip h, print-IsToken c.balance, print-IsToken c.last_request)

  tokens-records_text :
      (m : Dict ClientRecord) → AllFit m → tokens (records_text net m) ≡ records_tokens m
  unfolding records_text records_tokens
  tokens-records_text [] h = unfold tokens in refl
  tokens-records_text (e ∷ m) h =
      ap tokens (record_text-spaced e.1 (records_text net m) (ip_fits e.0 e.1 h.0))
      ∙ tokens-spaced (record_tokens e.1) (records_text net m)
          (record_tokens-IsToken e.1 (ip_fits e.0 e.1 h.0))
      ∙ ap (λ ts. record_tokens e.1 ++ ts) (tokens-records_text m h.1)
    where
      ip_fits : (k : ℕ) (c : ClientRecord) → Fits k c → c.ip < 2 ^ 32
      ip_fits k c f = omega (arith, f.own, f.address)

  read_record-print :
      (c : ClientRecord) (k : ℕ)
      → Fits k c
      → c.last_request < 2 ^ 31
      → read_record net (laws.text c.ip) (print c.balance) (print c.last_request) ≡ ok c
  unfolding read_record bits32
  read_record-print c k f small =
      rw (stoul-print c.balance f.balance, stoi-print c.last_request small)
        (ground (arith, laws.addr c.ip))

  read_records-tokens :
      (m acc : Dict ClientRecord)
      → AllFit m
      → AllReadable m
      → read_records net (records_tokens m) acc ≡ ok (insert_all m acc)
  unfolding read_records records_tokens record_tokens
  read_records-tokens [] acc h r = refl
  read_records-tokens (e ∷ m) acc h r = ground (
    arith,
    read_record-print e.1 e.0 h.0 r.0,
    h.0.own,
    read_records-tokens m (insert e.0 e.1 acc) h.1 r.1,
  )

  header_tokens : DbMetadata → List Bytes
  header_tokens m =
      print_signed m.num_transactions
      ∷ print m.total_transferred
      ∷ print_signed m.total_balance
      ∷ codes "#"
      ∷ []

  to_string-spaced :
      (b : DbSnapshot)
      → to_string net b ≡ spaced (header_tokens b.metadata) (records_text net b.records)
  unfolding to_string header_tokens spaced
  to_string-spaced b = refl

  header_tokens-IsToken : (m : DbMetadata) → All IsToken (header_tokens m)
  unfolding header_tokens is_space
  header_tokens-IsToken m = assumption (
    refl,
    tt,
    print_signed-IsToken m.num_transactions,
    print-IsToken m.total_transferred,
    print_signed-IsToken m.total_balance,
  )

  tokens-to_string :
      (b : DbSnapshot)
      → AllFit b.records
      → tokens (to_string net b) ≡ header_tokens b.metadata ++ records_tokens b.records
  tokens-to_string b h =
      ap tokens (to_string-spaced b)
      ∙ tokens-spaced (header_tokens b.metadata) (records_text net b.records)
          (header_tokens-IsToken b.metadata)
      ∙ ap (λ ts. header_tokens b.metadata ++ ts) (tokens-records_text b.records h)

  snapshot_of_tokens_lem :
      (b : DbSnapshot)
      → AllFit b.records
      → IsReadable b.metadata
      → AllReadable b.records
      → snapshot_of_tokens net (header_tokens b.metadata ++ records_tokens b.records)
        ≡ ok (record { metadata = b.metadata; records = insert_all b.records [] })
  unfolding snapshot_of_tokens header_tokens bits32
  snapshot_of_tokens_lem b h m r = ground (
    arith,
    stoi-print_signed b.metadata.num_transactions m.num_transactions,
    stoi-print b.metadata.total_transferred m.total_transferred,
    stoi-print_signed b.metadata.total_balance m.total_balance,
    read_records-tokens b.records [] h r,
  )

  -- The text of a snapshot whose records stand under their own 32-bit addresses and whose numbers
  -- fit, the counters and request numbers an `int`, is read back as a snapshot with the same
  -- counters and the same record at every address.
  pub from_string-to_string :
      (b : DbSnapshot)
      → AllFit b.records
      → IsReadable b.metadata
      → AllReadable b.records
      → (b' : DbSnapshot) × (from_string net (to_string net b) ≡ ok b')
        × (b'.metadata ≡ b.metadata)
        × ((k : ℕ) → lookup k b'.records ≡ lookup k b.records)
  unfolding from_string
  from_string-to_string b h m r = (
    record { metadata = b.metadata; records = insert_all b.records [] },
    ap (snapshot_of_tokens net) (tokens-to_string b h) ∙ snapshot_of_tokens_lem b h m r,
    refl,
    λ k. unfold lookup in lookup-insert_all k b.records [],
  )

  unreadable_tokens :
      (b : DbSnapshot)
      → IsInt b.metadata.num_transactions
      → 2 ^ 31 ≤ b.metadata.total_transferred
      → (rest : List Bytes)
      → snapshot_of_tokens net (header_tokens b.metadata ++ rest) ≡ threw out_of_range
  unfolding snapshot_of_tokens header_tokens
  unreadable_tokens b n large rest = ground (
    arith,
    stoi-print_signed b.metadata.num_transactions n,
    stoi-print_large b.metadata.total_transferred large,
  )

  -- Once 2^31 or more has been transferred, a value that `unsigned int` holds, no server can read
  -- the snapshot: `stoi` throws `std::out_of_range`.
  pub from_string_unreadable :
      (b : DbSnapshot)
      → AllFit b.records
      → IsInt b.metadata.num_transactions
      → 2 ^ 31 ≤ b.metadata.total_transferred
      → from_string net (to_string net b) ≡ threw out_of_range
  unfolding from_string
  from_string_unreadable b h n large =
      ap (snapshot_of_tokens net) (tokens-to_string b h) ∙ unreadable_tokens b n large _
