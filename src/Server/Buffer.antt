-- ===== src/Server/Buffer.antt =====
-- What the buffers of the loops leave of a datagram.
use brix.Base.{ℕ, zero, suc, ◌≡◌, ◌≤◌, refl, [], ◌∷◌, Bytes, length, take, arith}
use brix.Text.Plain.{NonZero}
use brix.Server.{c_string}

-- A text that fits the buffer and has no zero in it arrives whole.
pub c_string-take : (n : ℕ) (s : Bytes) → length s ≤ n → NonZero s → c_string (take n s) ≡ s
unfolding c_string
c_string-take zero [] h z = refl
c_string-take (suc n) [] h z = refl
c_string-take zero (c ∷ s) h z = absurd (omega arith)
c_string-take (suc n) (c ∷ s) h z = ground (arith, c_string-take n s (omega arith) z.1)
