-- ===== src/Snapshot.antt =====
-- `db_snapshot::to_string` and `db_snapshot::from_string` of server/src/db_manager/db_manager.cpp:
-- the text in which the coordinator sends its database to the other servers.
pub mod RoundTrip
pub mod Plain
use brix.Base.{
  ℕ, ◌++◌, [], ◌∷◌, List, Bytes, codes, drop, get_elem?, none, some, Option, Dict, insert, ℤ,
  bits32,
}
use brix.Text.{Result, ok, threw, undefined, ◌>>=◌, space, tokens, print, print_signed, stoi, stoul}
use brix.Net.{Inet, addr_to_string}
use brix.Db.State.{ClientRecord, DbMetadata, DbSnapshot}

-- `<ip> <balance> <last_request> ; `
unfoldable pub record_text : Inet → ClientRecord → Bytes
record_text net c =
    addr_to_string net c.ip
    ++ space ∷ (print c.balance ++ space ∷ (print c.last_request ++ codes " ; "))

-- The loop over the records, in the order of iteration.
unfoldable pub records_text : Inet → Dict ClientRecord → Bytes
unfolding record_text
records_text net [] = []
records_text net (e ∷ m) = record_text net e.1 ++ records_text net m

-- `db_snapshot::to_string`
unfoldable pub to_string : Inet → DbSnapshot → Bytes
unfolding records_text
to_string net b =
    print_signed b.metadata.num_transactions
    ++ space
      ∷ (print b.metadata.total_transferred
          ++ space
            ∷ (print_signed b.metadata.total_balance
                ++ space ∷ (codes "# " ++ records_text net b.records)))

-- `tokens[i]`, without a test of the size.
abbrev pub token_at : List Bytes → ℕ → Result Bytes
token_at ts i = elim (get_elem? ts i) [ none ↦ undefined | some t ↦ ok t ]

-- One round of the loop: `last_request` is an `unsigned int` that is read by `stoi`.
unfoldable pub read_record : Inet → Bytes → Bytes → Bytes → Result ClientRecord
read_record net ip_text balance_text request_text = do
  balance ← stoul balance_text
  last_request ← stoi request_text
  ok (record { ip = net.inet_addr ip_text; balance = balance; last_request = bits32 last_request })

-- The loop, four tokens at a time, with the records so far. The fourth is not looked at.
unfoldable pub read_records : Inet → List Bytes → Dict ClientRecord → Result (Dict ClientRecord)
unfolding read_record
read_records net [] records = ok records
read_records net (t0 ∷ []) records = undefined
read_records net (t0 ∷ t1 ∷ []) records = stoul t1 >>= λ _. undefined
read_records net (t0 ∷ t1 ∷ t2 ∷ []) records = do
  c ← read_record net t0 t1 t2
  ok (insert c.ip c records)
read_records net (t0 ∷ t1 ∷ t2 ∷ t3 ∷ rest) records = do
  c ← read_record net t0 t1 t2
  read_records net rest (insert c.ip c records)

-- `db_snapshot::from_string` on the tokens. `total_transferred` is an `unsigned int` that is read by
-- `stoi`; a wrong number of tokens is reported and changes nothing.
unfoldable pub snapshot_of_tokens : Inet → List Bytes → Result DbSnapshot
unfolding read_records
snapshot_of_tokens net ts = do
  t0 ← token_at ts 0
  num_transactions ← stoi t0
  t1 ← token_at ts 1
  total_transferred ← stoi t1
  t2 ← token_at ts 2
  total_balance ← stoi t2
  records ← read_records net (drop 4 ts) []
  ok (record {
    metadata = record {
      num_transactions = num_transactions;
      total_transferred = bits32 total_transferred;
      total_balance = total_balance;
    };
    records = records;
  })

unfoldable pub from_string : Inet → Bytes → Result DbSnapshot
unfolding snapshot_of_tokens
from_string net s = snapshot_of_tokens net (tokens s)
