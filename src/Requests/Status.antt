-- ===== src/Requests/Status.antt =====
-- When a request is taken for the next one of its client.
use brix.Base.{
  ◌==◌, ==_iff, ℕ, ◌+◌, ◌^◌, ◌≡◌, ◌↔◌, ◌<◌, ℤ, pos, negsuc, u32, bits32, to_int, int_of_bits, eqb_ℤ,
  arith, true,
}
use brix.Db.State.{ClientRecord}
use brix.Packets.{ReqPacket, valid}
use brix.Requests.{check_packet_status}

same_pattern :
    (z : ℤ) (n : ℕ) → n < 2 ^ 32 → (eqb_ℤ (to_int z) (int_of_bits n) ≡ true) ↔ (bits32 z ≡ n)
unfolding eqb_ℤ to_int bits32 int_of_bits
same_pattern (pos m) n h = ground arith
same_pattern (negsuc m) n h = ground arith

-- A request is processed exactly when its sequence number and the client's last request plus one
-- agree in their low 32 bits.
pub check_packet_status-valid_iff :
    (p : ReqPacket) (c : ClientRecord)
    → (check_packet_status p c ≡ valid) ↔ (bits32 p.seq_num ≡ u32 (c.last_request + 1))
unfolding check_packet_status
check_packet_status-valid_iff p c =
    ground (arith, same_pattern p.seq_num (u32 (c.last_request + 1)))

-- The comparison of the two numbers as `int`.
pub same_number : (z : ℤ) (n : ℕ) → eqb_ℤ (to_int z) (int_of_bits (u32 n)) ≡ (bits32 z == u32 n)
same_number z n = ground (arith, same_pattern z (u32 n) (omega arith), ==_iff (bits32 z) (u32 n))
