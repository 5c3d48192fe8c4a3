-- ===== src/Text/CStrings.antt =====
-- Two functions of the C library that client/src/client_discovery_protocol.cpp reads an answer with.
use brix.Base.{
  true, false, ◌≡◌, refl, ap, Option, none, some, [], ◌∷◌, ◌++◌, Bytes, ◌==◌, if◌then◌else◌, ℕ, ◌<◌,
  ◌^◌, pos, ℤ, All, arith,
}
use brix.Text.{
  Result, ok, threw, undefined, invalid_argument, out_of_range, space, is_space, print,
  print_signed, stoi,
}
use brix.Text.Tokens.{IsToken}
use brix.Text.Decimal.{stoi-print_signed}

-- A token, and what follows the space behind it.
unfoldable pub until_space : Bytes → Bytes × Bytes
until_space [] = ([], [])
until_space (c ∷ s) = let (w, rest) = until_space s in if c == space then ([], s) else (c ∷ w, rest)

-- `strtok` with the delimiter " ".
unfoldable pub strtok : Bytes → Option (Bytes × Bytes)
unfolding until_space
strtok [] = none
strtok (c ∷ s) = elim (c == space) [ true ↦ strtok s | false ↦ some (until_space (c ∷ s)) ]

-- `atoi`: 0 where there is no number, and undefined behaviour past the range of `int`.
abbrev atoi_of : Result ℤ → Result ℤ
atoi_of (ok z) = ok z
atoi_of (threw invalid_argument) = ok (pos 0)
atoi_of (threw out_of_range) = undefined
atoi_of undefined = undefined

unfoldable pub atoi : Bytes → Result ℤ
atoi s = atoi_of (stoi s)

until_space-append :
    (w rest : Bytes) → All (λ d. is_space d ≡ false) w → until_space (w ++ space ∷ rest) ≡ (w, rest)
unfolding until_space is_space
until_space-append [] rest h = refl
until_space-append (c ∷ w) rest h = ground (arith, until_space-append w rest h.1)

pub strtok-token : (w rest : Bytes) → IsToken w → strtok (w ++ space ∷ rest) ≡ some (w, rest)
unfolding strtok is_space
strtok-token [] rest h = absurd h
strtok-token (c ∷ w) rest h = ground (arith, until_space-append (c ∷ w) rest h)

pub atoi-print : (n : ℕ) → n < 2 ^ 31 → atoi (print n) ≡ ok (pos n)
unfolding atoi print_signed
atoi-print n h = ap atoi_of (stoi-print_signed (pos n) h)
