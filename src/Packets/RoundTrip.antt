-- ===== src/Packets/RoundTrip.antt =====
-- What one side prints, the other side reads: REQ and ACK packets survive the wire.
use brix.Base.{
  arith, ℕ, ◌^◌, ◌<◌, ◌≡◌, refl, ap, ◌∙◌, [], ◌∷◌, ◌++◌, some, List, Bytes, codes, All, ℤ, IsLong,
  text_eq,
}
use brix.Text.{is_space, ok, tokens, print, print_signed}
use brix.Text.Plain.{Passes, Passes-le, spaced-Passes, print-Passes, print_signed-Passes}
use brix.Text.Tokens.{IsToken, spaced, tokens-spaced}
use brix.Text.Decimal.{print-IsToken, print_signed-IsToken, stoul-print, stol-print_signed}
use brix.Net.{Inet, InetLaws, addr_to_string-text}
use brix.Packets.{
  req, req_packet, ack_packet, req_to_string, ack_to_string, req_of_tokens, ack_of_tokens,
  to_req_packet, to_ack_packet, type,
}

tokens_end : tokens (codes "END") ≡ codes "END" ∷ []
unfolding tokens
tokens_end = refl

-- A text of tokens with a space behind each, and the end mark.
tokens_marked :
    (ws : List Bytes) → All IsToken ws → tokens (spaced ws (codes "END")) ≡ ws ++ codes "END" ∷ []
tokens_marked ws h = tokens-spaced ws (codes "END") h ∙ ap (λ t. ws ++ t) tokens_end

module _ (net : Inet) (laws : InetLaws net) where
  req_fields : ℤ → ℕ → ℕ → List Bytes
  req_fields seq ip amount = codes "REQ" ∷ print_signed seq ∷ laws.text ip ∷ print amount ∷ []

  req_fields-IsToken :
      (seq : ℤ) (ip amount : ℕ) → ip < 2 ^ 32 → All IsToken (req_fields seq ip amount)
  unfolding req_fields is_space
  req_fields-IsToken seq ip amount h =
      assumption (refl, print_signed-IsToken seq, laws.token ip h, print-IsToken amount, tt)

  req_of_fields :
      (seq : ℤ) (ip amount : ℕ)
      → IsLong seq
      → ip < 2 ^ 32
      → amount < 2 ^ 64
      → req_of_tokens net (req_fields seq ip amount ++ codes "END" ∷ [])
        ≡ ok (req_packet seq ip amount)
  unfolding req_of_tokens req_fields text_eq
  req_of_fields seq ip amount hs hi ha =
      rw (stol-print_signed seq hs, stoul-print amount ha, laws.addr ip hi)

  req_fields-Passes :
      (seq : ℤ) (ip amount : ℕ)
      → IsLong seq
      → ip < 2 ^ 32
      → amount < 2 ^ 64
      → Passes 2048 (spaced (req_fields seq ip amount) (codes "END"))
  unfolding req_fields
  req_fields-Passes seq ip amount hs hi ha = Passes-le _ 2048 _ (omega arith) (
      spaced-Passes 24 3 (req_fields seq ip amount) (codes "END")
        (
          record { short = omega arith; non_zero = omega arith },
          (
            Passes-le 21 24 _ (omega arith) (print_signed-Passes seq hs),
            (
              Passes-le 15 24 _ (omega arith) (laws.passes ip hi),
              (Passes-le 20 24 _ (omega arith) (print-Passes amount ha), tt),
            ),
          ),
        )
        (record { short = omega arith; non_zero = omega arith }))

  -- The text of a REQ packet, and what a server makes of it.
  pub req_text :
      (seq : ℤ) (ip amount : ℕ)
      → IsLong seq
      → ip < 2 ^ 32
      → amount < 2 ^ 64
      → (s : Bytes) × (req_to_string net (req_packet seq ip amount) ≡ some s)
        × (to_req_packet net s ≡ ok (req_packet seq ip amount))
        × (type s ≡ req)
        × Passes 2048 s
  unfolding req_to_string to_req_packet type text_eq spaced req_fields
  req_text seq ip amount hs hi ha = (
    spaced (req_fields seq ip amount) (codes "END"),
    rw (laws.ntop ip hi, req_to_string),
    ap (req_of_tokens net)
          (tokens_marked (req_fields seq ip amount) (req_fields-IsToken seq ip amount hi))
        ∙ req_of_fields seq ip amount hs hi ha,
    refl,
    req_fields-Passes seq ip amount hs hi ha,
  )

  -- A REQ packet whose fields are in range is printed, and its text is read back as the same
  -- packet and is dispatched as a REQ packet.
  pub to_req_packet-req_to_string :
      (seq : ℤ) (ip amount : ℕ)
      → IsLong seq
      → ip < 2 ^ 32
      → amount < 2 ^ 64
      → (s : Bytes) × (req_to_string net (req_packet seq ip amount) ≡ some s)
        × (to_req_packet net s ≡ ok (req_packet seq ip amount))
        × (type s ≡ req)
  to_req_packet-req_to_string seq ip amount hs hi ha =
      let (s, printed, parsed, tag, passes) = req_text seq ip amount hs hi ha in
      (s, printed, parsed, tag)

  ack_fields : ℤ → Bytes → ℕ → ℕ → ℕ → ℕ → List Bytes
  ack_fields seq res balance sender receiver amount =
      codes "ACK"
      ∷ print_signed seq
      ∷ res
      ∷ print balance
      ∷ laws.text sender
      ∷ laws.text receiver
      ∷ print amount
      ∷ []

  module _ (seq : ℤ) (res : Bytes) (balance sender receiver amount : ℕ) (hs : IsLong seq)
      (hr : IsToken res) (hb : balance < 2 ^ 64) (h1 : sender < 2 ^ 32) (h2 : receiver < 2 ^ 32)
      (ha : amount < 2 ^ 64) where
    ack_of_fields :
        ack_of_tokens net (ack_fields seq res balance sender receiver amount ++ codes "END" ∷ [])
        ≡ ok (ack_packet seq res balance sender receiver amount)
    unfolding ack_of_tokens ack_fields text_eq
    ack_of_fields = rw (
      stol-print_signed seq hs,
      stoul-print balance hb,
      stoul-print amount ha,
      laws.addr sender h1,
      laws.addr receiver h2,
    )

    ack_fields-IsToken : All IsToken (ack_fields seq res balance sender receiver amount)
    unfolding ack_fields is_space
    ack_fields-IsToken = assumption (
      refl,
      tt,
      print_signed-IsToken seq,
      print-IsToken balance,
      laws.token sender h1,
      laws.token receiver h2,
      print-IsToken amount,
    )

    ack_text :
        ack_to_string net (ack_packet seq res balance sender receiver amount)
        ≡ spaced (ack_fields seq res balance sender receiver amount) (codes "END")
    unfolding ack_to_string ack_fields spaced
    ack_text = rw (addr_to_string-text net laws sender h1, addr_to_string-text net laws receiver h2)

    -- An ACK packet whose result is one token and whose fields are in range is read back from its
    -- text as the same packet.
    pub to_ack_packet-ack_to_string :
        to_ack_packet net (ack_to_string net (ack_packet seq res balance sender receiver amount))
        ≡ ok (ack_packet seq res balance sender receiver amount)
    unfolding to_ack_packet
    to_ack_packet-ack_to_string =
        ap (λ s. ack_of_tokens net (tokens s)) ack_text
        ∙ ap (ack_of_tokens net) (tokens_marked _ ack_fields-IsToken)
        ∙ ack_of_fields

    pub ack_to_string-Passes :
        Passes 24 res
        → Passes 2048 (ack_to_string net (ack_packet seq res balance sender receiver amount))
    unfolding ack_fields
    ack_to_string-Passes short = rw ack_text (
        Passes-le _ 2048 _ (omega arith) (
          spaced-Passes 24 3 (ack_fields seq res balance sender receiver amount) (codes "END")
            (
              record { short = omega arith; non_zero = omega arith },
              (
                Passes-le 21 24 _ (omega arith) (print_signed-Passes seq hs),
                (
                  short,
                  (
                    Passes-le 20 24 _ (omega arith) (print-Passes balance hb),
                    (
                      Passes-le 15 24 _ (omega arith) (laws.passes sender h1),
                      (
                        Passes-le 15 24 _ (omega arith) (laws.passes receiver h2),
                        (Passes-le 20 24 _ (omega arith) (print-Passes amount ha), tt),
                      ),
                    ),
                  ),
                ),
              ),
            )
            (record { short = omega arith; non_zero = omega arith })))
