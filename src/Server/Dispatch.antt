-- ===== src/Server/Dispatch.antt =====
-- Which datagrams start a thread, and which end the server.
use brix.Base.{
  ap, sym, take, All, ◌++◌, ◌⊎◌, inl, inr, text_eq, text_eq_iff, ◌∙◌, ℕ, ◌≡◌, ◌≢◌, ◌↔◌, refl, none,
  some, Option, List, [], ◌∷◌, Bytes, codes, arith,
}
use brix.Text.{
  Exception, Result, ok, threw, undefined, invalid_argument, tokens, stol, stoul, signed_value,
}
use brix.Net.{Inet}
use brix.Packets.{
  kil_packet, ReqPacket, req, ack, err, kil, type, PacketType, to_req_packet, req_of_tokens,
}
use brix.Packets.Accepted.{to_kil_packet_iff, to_kil_packet_throws}
use brix.Server.{
  Thread, req_thread, kill_thread, dispatch, try_req, start_kill, c_string, datagram,
  packet_multiplexer_round,
}

-- A text of another type throws nothing, and is ignored unless it is a REQ packet.
abbrev Starts : ℕ → Option Thread → Result ReqPacket → Type 0
Starts src o r = (p : ReqPacket) → (o ≡ some (req_thread src p)) ↔ (r ≡ ok p)

try_req_cases :
    (src : ℕ) (r : Result ReqPacket)
    → r ≢ undefined
    → (o : Option Thread) × (try_req src r ≡ ok o) × Starts src o r
try_req_cases src (ok p) h = (_, refl, λ q. (λ e. ground arith, λ e. ground arith))
try_req_cases src (threw e) h = (_, refl, λ q. (λ e. absurd (cc), λ e. absurd (cc)))
try_req_cases src undefined h = absurd (h refl)

req_of_tokens-defined : (net : Inet) (ts : List Bytes) → req_of_tokens net ts ≢ undefined
unfolding req_of_tokens stol stoul signed_value
req_of_tokens-defined net (t0 ∷ t1 ∷ t2 ∷ t3 ∷ t4 ∷ []) = ground arith
req_of_tokens-defined net ts = λ e. absurd (cc)

module _ (net : Inet) (src : ℕ) (s : Bytes) where
  dispatch_malformed_kil :
      type s ≡ kil
      → tokens s ≢ codes "KIL" ∷ codes "END" ∷ []
      → dispatch net src s ≡ threw invalid_argument
  unfolding dispatch
  dispatch_malformed_kil tag h = ground (arith, to_kil_packet_throws s h)

  dispatch_cases :
      (t : PacketType)
      → type s ≡ t
      → t ≢ kil
      → (o : Option Thread) × (dispatch net src s ≡ ok o)
        × ((p : ReqPacket)
            → (o ≡ some (req_thread src p)) ↔ ((t ≡ req) × (to_req_packet net s ≡ ok p)))
  unfolding dispatch
  dispatch_cases req h other =
      let (o, e, starts) =
        try_req_cases src (to_req_packet net s)
          (unfold to_req_packet in req_of_tokens-defined net (tokens s)) in
      (o, rw (h, dispatch) e, λ p. (λ q. (refl, (starts p).0 q), λ q. (starts p).1 q.1))
  dispatch_cases ack h other =
      (none, rw (h, dispatch), λ p. (λ q. absurd (cc), λ q. absurd (cc (q.0))))
  dispatch_cases err h other =
      (none, rw (h, dispatch), λ p. (λ q. absurd (cc), λ q. absurd (cc (q.0))))
  dispatch_cases kil h other = absurd (other refl)

  -- Any other text throws nothing. It starts the thread of a REQ packet exactly when its text
  -- begins with `REQ` and is accepted as that packet.
  dispatch_other :
      type s ≢ kil
      → (o : Option Thread) × (dispatch net src s ≡ ok o)
        × ((p : ReqPacket)
            → (o ≡ some (req_thread src p)) ↔ ((type s ≡ req) × (to_req_packet net s ≡ ok p)))
  dispatch_other other = dispatch_cases (type s) refl other

  dispatch_wellformed_kil :
      type s ≡ kil
      → tokens s ≡ codes "KIL" ∷ codes "END" ∷ []
      → (o : Option Thread) × (dispatch net src s ≡ ok o)
  unfolding dispatch
  dispatch_wellformed_kil tag h = (
    some (kill_thread src kil_packet),
    rw (tag, dispatch) (ap (start_kill src) ((to_kil_packet_iff s kil_packet).1 (h, refl))),
  )

  dispatch-threw :
      (e : Exception)
      → (dispatch net src s ≡ threw e)
        ↔ ((type s ≡ kil) × (tokens s ≢ codes "KIL" ∷ codes "END" ∷ []) × (e ≡ invalid_argument))
  dispatch-threw e = (
    λ h. thrown (type s) refl h,
    λ (tag, bad, same). dispatch_malformed_kil tag bad ∙ ap threw (sym same),
  )
    where
      quiet : (o : Option Thread) × (dispatch net src s ≡ ok o) → dispatch net src s ≢ threw e
      quiet (o, fine) h = absurd (cc)

      other : (t : PacketType) → t ≢ kil → type s ≡ t → dispatch net src s ≢ threw e
      other t ne tag h = let (o, fine, starts) = dispatch_cases t tag ne in quiet (o, fine) h

      thrown :
          (t : PacketType)
          → type s ≡ t
          → dispatch net src s ≡ threw e
          → (type s ≡ kil) × (tokens s ≢ codes "KIL" ∷ codes "END" ∷ []) × (e ≡ invalid_argument)
      thrown kil tag h =
          let bad : tokens s ≢ codes "KIL" ∷ codes "END" ∷ [] =
            λ good. quiet (dispatch_wellformed_kil tag good) h in
          let malformed = dispatch_malformed_kil tag bad in (tag, bad, cc)
      thrown req tag h = absurd (other req (λ x. cc) tag h)
      thrown ack tag h = absurd (other ack (λ x. cc) tag h)
      thrown err tag h = absurd (other err (λ x. cc) tag h)

type_iff : (s : Bytes) → (type s ≡ kil) ↔ (take 3 s ≡ codes "KIL")
unfolding type text_eq
type_iff s = ground (arith, text_eq_iff (take 3 s) (codes "KIL"))

-- What the multiplexer reads of a datagram: at most 2048 bytes, up to the first zero.
pub record Reads (payload t : Bytes) : Type 0 where
  pub rest : Bytes
  pub parts : take 2048 payload ≡ t ++ rest
  pub no_zero : All (λ c. c ≢ 0) t
  pub ends : (rest ≡ []) ⊎ ((more : Bytes) × (rest ≡ 0 ∷ more))

c_string-parts :
    (t rest : Bytes)
    → All (λ c. c ≢ 0) t
    → (rest ≡ []) ⊎ ((more : Bytes) × (rest ≡ 0 ∷ more))
    → c_string (t ++ rest) ≡ t
unfolding c_string
c_string-parts [] rest _ (inl e) = ap c_string e
c_string-parts [] rest _ (inr (more, e)) = ap c_string e
c_string-parts (c ∷ t) rest (ne, no_zero) ends =
    ground (arith, ne, c_string-parts t rest no_zero ends)

-- Let `t` be what the multiplexer reads of a datagram: its first 2048 bytes, up to the first zero. A
-- round makes it throw exactly when `t` begins with `KIL` and its tokens are not just `KIL` and
-- `END`, and then it throws `std::invalid_argument`. Nothing catches it.
pub packet_multiplexer_round_iff :
    (net : Inet) (src : ℕ) (payload t : Bytes) (e : Exception)
    → Reads payload t
    → (packet_multiplexer_round net (datagram src payload) ≡ threw e) ↔ (
        (take 3 t ≡ codes "KIL")
        × (tokens t ≢ codes "KIL" ∷ codes "END" ∷ [])
        × (e ≡ invalid_argument))
unfolding packet_multiplexer_round
packet_multiplexer_round_iff net src payload t e reads = rw cut (
  (λ h. let (tag, bad, same) = (dispatch-threw net src t e).0 h in ((type_iff t).0 tag, bad, same)),
  (λ (tag, bad, same). (dispatch-threw net src t e).1 ((type_iff t).1 tag, bad, same)),
)
  where
    cut : c_string (take 2048 payload) ≡ t
    cut = ap c_string reads.parts ∙ c_string-parts t reads.rest reads.no_zero reads.ends
