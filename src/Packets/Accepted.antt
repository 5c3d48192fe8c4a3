-- ===== src/Packets/Accepted.antt =====
-- What the parsers accept: exactly the texts with the tokens of the packet's format.
use brix.Base.{
  ◌≡◌, ◌≢◌, ◌↔◌, sym, ap, ◌∙◌, refl, [], ◌∷◌, Bytes, codes, text_eq, text_eq_iff, arith, List,
}
use brix.Text.{ok, threw, invalid_argument, tokens, stol, stoul}
use brix.Net.{Inet}
use brix.Packets.{
  ReqPacket, req, req_of_tokens, to_req_packet, KilPacket, kil_packet, kil_of_tokens, to_kil_packet,
}

-- The five tokens of a REQ packet, and the numbers that they hold.
pub record IsRequest (net : Inet) (ts : List Bytes) (p : ReqPacket) : Type 0 where
  pub seq_text : Bytes
  pub ip_text : Bytes
  pub amount_text : Bytes
  pub shape : ts ≡ codes "REQ" ∷ seq_text ∷ ip_text ∷ amount_text ∷ codes "END" ∷ []
  pub seq : stol seq_text ≡ ok p.seq_num
  pub ip : net.inet_addr ip_text ≡ p.receiver_ip
  pub amount : stoul amount_text ≡ ok p.transfer_amount
  pub tag : p.packet_type ≡ req

req_of_tokens_sound :
    (net : Inet) (ts : List Bytes) (p : ReqPacket)
    → req_of_tokens net ts ≡ ok p
    → IsRequest net ts p
unfolding req_of_tokens
req_of_tokens_sound net (t0 ∷ t1 ∷ t2 ∷ t3 ∷ t4 ∷ []) p h = record {
  seq_text = t1;
  ip_text = t2;
  amount_text = t3;
  shape = ground (arith, text_eq_iff t0 (codes "REQ"), text_eq_iff t4 (codes "END"));
  seq = ground arith;
  ip = ground arith;
  amount = ground arith;
  tag = ground arith;
}
req_of_tokens_sound net ts p h = absurd (cc)

req_of_tokens_complete :
    (net : Inet) (ts : List Bytes) (p : ReqPacket)
    → IsRequest net ts p
    → req_of_tokens net ts ≡ ok p
unfolding req_of_tokens text_eq
req_of_tokens_complete net ts p r =
    ap (req_of_tokens net) r.shape ∙ rw (r.seq, r.amount) (ground arith)

-- A text is accepted as a REQ packet exactly when it has five tokens, `REQ` and `END` at the ends,
-- such that `std::stol` takes a number from the second and `std::stoul` one from the fourth; the packet
-- holds these numbers and the address that `inet_addr` makes of the third. Both functions accept a
-- token that only begins with a number, and `std::stoul` one with a minus sign.
pub to_req_packet_iff :
    (net : Inet) (s : Bytes) (p : ReqPacket)
    → (to_req_packet net s ≡ ok p) ↔ IsRequest net (tokens s) p
unfolding to_req_packet
to_req_packet_iff net s p =
    (req_of_tokens_sound net (tokens s) p, req_of_tokens_complete net (tokens s) p)

kil_of_tokens_iff :
    (ts : List Bytes) (p : KilPacket)
    → (kil_of_tokens ts ≡ ok p) ↔ ((ts ≡ codes "KIL" ∷ codes "END" ∷ []) × (p ≡ kil_packet))
unfolding kil_of_tokens text_eq
kil_of_tokens_iff (t0 ∷ t1 ∷ []) p = (
  λ h. (ground (arith, text_eq_iff t0 (codes "KIL"), text_eq_iff t1 (codes "END")), ground arith),
  λ h. ap kil_of_tokens h.0 ∙ ap ok (sym h.1),
)
kil_of_tokens_iff ts p = (λ h. absurd (cc), λ h. absurd (cc))

-- A text is accepted as a KIL packet exactly when its tokens are `KIL` and `END`.
pub to_kil_packet_iff :
    (s : Bytes) (p : KilPacket)
    → (to_kil_packet s ≡ ok p) ↔ ((tokens s ≡ codes "KIL" ∷ codes "END" ∷ []) × (p ≡ kil_packet))
unfolding to_kil_packet
to_kil_packet_iff s p = kil_of_tokens_iff (tokens s) p

kil_of_tokens_throws :
    (ts : List Bytes)
    → (ts ≢ codes "KIL" ∷ codes "END" ∷ [])
    → kil_of_tokens ts ≡ threw invalid_argument
unfolding kil_of_tokens
kil_of_tokens_throws (t0 ∷ t1 ∷ []) h =
    ground (arith, text_eq_iff t0 (codes "KIL"), text_eq_iff t1 (codes "END"))
kil_of_tokens_throws ts h = refl

pub to_kil_packet_throws :
    (s : Bytes)
    → (tokens s ≢ codes "KIL" ∷ codes "END" ∷ [])
    → to_kil_packet s ≡ threw invalid_argument
unfolding to_kil_packet
to_kil_packet_throws s h = kil_of_tokens_throws (tokens s) h
