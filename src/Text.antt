-- ===== src/Text.antt =====
-- Text as the program reads and writes it: the standard library's tokens, numbers and their prints.
-- Modelled from the calls of common/src/packets, server/src/db_manager and client/src; the proofs
-- are in the modules below this one.
pub mod Tokens
pub mod Decimal
pub mod Plain
pub mod CStrings
use brix.Base.{
  ℕ, zero, suc, ◌+◌, ◌-◌, ◌*◌, ◌/◌, ◌%◌, ◌^◌, Bool, true, false, ◌&&◌, ◌||◌, Option, none, some,
  List, [], ◌∷◌, ◌++◌, Bytes, ltb, leb, ◌==◌, if◌then◌else◌, ℤ, pos, negsuc,
}

-- What a call gives back that may throw, or read past the end of a vector.
pub data Exception : Type 0 where
  invalid_argument out_of_range : Exception

pub data Result {ℓ} (A : Type ℓ) : Type ℓ where
  ok : A → Result A
  threw : Exception → Result A
  undefined : Result A

infixl 5 ◌>>=◌
abbrev pub ◌>>=◌ {ℓ κ} : {A : Type ℓ} {B : Type κ} → Result A → (A → Result B) → Result B
ok a >>= f = f a
threw e >>= f = threw e
undefined >>= f = undefined

abbrev pub space : ℕ
space = b' '

-- `isspace` in the "C" locale
unfoldable pub is_space : ℕ → Bool
is_space c = c == space || (leb 9 c && leb c 13)

unfoldable pub is_digit : ℕ → Bool
is_digit c = leb b'0' c && leb c b'9'

-- What the end of a token adds to the vector: nothing, if no character has been read.
unfoldable pub flush : Bytes → List Bytes → List Bytes
flush [] ws = ws
flush (c ∷ cur) ws = (c ∷ cur) ∷ ws

unfoldable pub split : Bytes → Bytes → List Bytes
unfolding flush is_space
split cur [] = flush cur []
split cur (c ∷ s) = elim (is_space c) [
  | true ↦ flush cur (split [] s)
  | false ↦ split (cur ++ c ∷ []) s
]

-- `while (iss >> token) tokens.push_back(token);`
unfoldable pub tokens : Bytes → List Bytes
unfolding split
tokens s = split [] s

-- The decimal print: `std::to_string` of an unsigned number. A round for each digit, and the number
-- is fuel enough.
unfoldable pub emit : ℕ → ℕ → Bytes → Bytes
emit zero n out = out
emit (suc f) n out = elim (n == 0) [ true ↦ out | false ↦ emit f (n / 10) ((b'0' + n % 10) ∷ out) ]

unfoldable pub print : ℕ → Bytes
unfolding emit
print n = if n == 0 then b'0' ∷ [] else emit n n []

-- `std::to_string(long)`
unfoldable pub print_signed : ℤ → Bytes
unfolding print
print_signed (pos n) = print n
print_signed (negsuc n) = b'-' ∷ print (suc n)

-- The digits at the head of a text, read behind the number so far, and the rest.
unfoldable pub scan : Bytes → ℕ → ℕ × Bytes
unfolding is_digit
scan [] n = (n, [])
scan (c ∷ s) n = if is_digit c then scan s (n * 10 + (c - b'0')) else (n, c ∷ s)

-- At least one digit has to stand there.
unfoldable pub unsigned_at : Bytes → Option (ℕ × Bytes)
unfolding scan is_digit
unsigned_at [] = none
unsigned_at (c ∷ s) = if is_digit c then some (scan (c ∷ s) 0) else none

unfoldable pub skip_spaces : Bytes → Bytes
unfolding is_space
skip_spaces [] = []
skip_spaces (c ∷ s) = if is_space c then skip_spaces s else c ∷ s

-- The subject sequence of `strtol`: an optional sign and digits, behind white space. The result is
-- whether a minus stood there, the magnitude and the rest.
unfoldable pub signed_at : Bytes → Option (Bool × ℕ × Bytes)
unfolding unsigned_at
signed_at [] = none
signed_at (c ∷ s) =
    if c == b'-'
    then elim (unsigned_at s) [ none ↦ none | some (n, r) ↦ some (true, n, r) ]
    else if c == b'+'
    then elim (unsigned_at s) [ none ↦ none | some (n, r) ↦ some (false, n, r) ]
    else elim (unsigned_at (c ∷ s)) [ none ↦ none | some (n, r) ↦ some (false, n, r) ]

unfoldable pub read_number : Bytes → Option (Bool × ℕ × Bytes)
unfolding signed_at skip_spaces
read_number s = signed_at (skip_spaces s)

-- A magnitude of at most `n`, and `n + 1` behind a minus, fits a signed type.
unfoldable pub signed_value : ℕ → Bool → ℕ → Result ℤ
signed_value limit true zero = ok (pos 0)
signed_value limit true (suc m) = if leb m limit then ok (negsuc m) else threw out_of_range
signed_value limit false m = if leb m limit then ok (pos m) else threw out_of_range

abbrev pub from_number : {A : Type 0} → Option (Bool × ℕ × Bytes) → (Bool → ℕ → Result A) → Result A
from_number none k = threw invalid_argument
from_number (some (minus, m, _)) k = k minus m

-- `std::stol`: what stands behind the number is ignored.
unfoldable pub stol : Bytes → Result ℤ
unfolding read_number signed_value
stol s = from_number (read_number s) (signed_value (2 ^ 63 - 1))

-- `std::stoi`
unfoldable pub stoi : Bytes → Result ℤ
unfolding read_number signed_value
stoi s = from_number (read_number s) (signed_value (2 ^ 31 - 1))

-- `std::stoul`: the number behind a minus is negated in `unsigned long`.
abbrev unsigned_value : Bool → ℕ → Result ℕ
unsigned_value minus m =
    if leb m (2 ^ 64 - 1)
    then ok (if minus then (2 ^ 64 - m) % 2 ^ 64 else m)
    else threw out_of_range

unfoldable pub stoul : Bytes → Result ℕ
unfolding read_number
stoul s = from_number (read_number s) unsigned_value
