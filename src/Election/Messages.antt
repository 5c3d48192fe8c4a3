-- ===== src/Election/Messages.antt =====
-- The texts of the election, as another server reads them.
use brix.Base.{
  ℕ, ◌^◌, ◌<◌, ◌≡◌, ◌≢◌, ◌==◌, refl, true, false, none, some, [], ◌∷◌, ◌++◌, Bytes, codes, take,
  arith, text_eq, if◌then◌else◌, ◌&&◌,
}
use brix.Text.{is_space, read_number, print, is_digit}
use brix.Text.Decimal.{read_number-print}
use brix.Text.Plain.{Passes, Passes-le, Passes-append, print-short}
use brix.Server.{c_string}
use brix.Server.Buffer.{c_string-take}
use brix.Election.{
  election, answer, coord_announcement, message, election_message, answer_message,
  coord_announcement_message, extract_word, extract_unsigned, sender_id, classify,
}

module _ (j : ℕ) (h : j < 2 ^ 32) where
  extract_unsigned-print :
      extract_unsigned (b' ' ∷ (print j ++ codes " END")) ≡ some (j, codes " END")
  unfolding extract_unsigned is_space is_digit read_number
  extract_unsigned-print =
      rw (read_number-print j (codes " END") refl, extract_unsigned) (ground arith)

  message-Passes : (tag : Bytes) → Passes 4 tag → Passes 128 (message tag j)
  message-Passes tag p = Passes-le 19 128 _ (omega arith) (
      Passes-append 4 15 tag _ p (
        Passes-append 1 14 (b' ' ∷ []) _ (record { short = omega arith; non_zero = omega arith })
          (Passes-append 10 4 _ _ (print-short 9 j (omega arith))
            (record { short = omega arith; non_zero = omega arith }))))

  -- The tag stands first, and a space behind it.
  abbrev Tagged : Bytes → Type 0
  Tagged tag = extract_word (message tag j) ≡ some (tag, b' ' ∷ (print j ++ codes " END"))

  sender_id-message :
      (id : ℕ) (wanted tag : Bytes)
      → Tagged tag
      → sender_id wanted id (message tag j)
        ≡ (if text_eq tag wanted && true then if j == id then none else some j else none)
  unfolding sender_id extract_word is_space text_eq
  sender_id-message id wanted tag first = rw (first, sender_id, extract_unsigned-print)

  election-Tagged : Tagged (codes "ELE")
  unfolding extract_word is_space
  election-Tagged = refl

  answer-Tagged : Tagged (codes "ANS")
  unfolding extract_word is_space
  answer-Tagged = refl

  coord_announcement-Tagged : Tagged (codes "CRD")
  unfolding extract_word is_space
  coord_announcement-Tagged = refl

  -- Each of the three messages of a server is read by a server with another id as what it is, with
  -- the sender's id.
  pub classify-message :
      (id : ℕ)
      → j ≢ id
      → (classify id (election_message j) ≡ (election, some j))
        × (classify id (answer_message j) ≡ (answer, some j))
        × (classify id (coord_announcement_message j) ≡ (coord_announcement, some j))
  unfolding classify text_eq
  classify-message id ne =
      let differ : (j == id) ≡ false = ground (arith, ne) in
      (
        rw (
          classify,
          sender_id-message id (codes "CRD") (codes "ELE") election-Tagged,
          sender_id-message id (codes "ANS") (codes "ELE") election-Tagged,
          sender_id-message id (codes "ELE") (codes "ELE") election-Tagged,
          differ,
        ),
        rw (
          classify,
          sender_id-message id (codes "CRD") (codes "ANS") answer-Tagged,
          sender_id-message id (codes "ANS") (codes "ANS") answer-Tagged,
          differ,
        ),
        rw (
          classify,
          sender_id-message id (codes "CRD") (codes "CRD") coord_announcement-Tagged,
          differ,
        ),
      )

  -- Whole through the buffer.
  pub buffer-message :
      (tag : Bytes) → Passes 4 tag → c_string (take 128 (message tag j)) ≡ message tag j
  buffer-message tag p =
      let whole = message-Passes tag p in
      c_string-take 128 (message tag j) whole.short whole.non_zero
