-- ===== src/Text/Decimal.antt =====
-- Numbers survive their decimal print: what `stoul`, `stol` and `stoi` read back.
use brix.Base.{
  ⊤, ℕ, zero, suc, ◌+◌, ◌/◌, ◌%◌, ◌^◌, ◌≤◌, ◌<◌, ◌≡◌, refl, sym, ap, ◌∙◌, true, false, some, [],
  ◌∷◌, ◌++◌, arith, Bytes, All, ℤ, pos, negsuc, IsInt, IsLong, append-nil,
}
use brix.Text.{
  ok, threw, out_of_range, is_space, is_digit, emit, print, print_signed, scan, unsigned_at,
  read_number, stol, stoi, stoul,
}
use brix.Text.Tokens.{IsToken}

abbrev AreDigits : Bytes → Type 0
AreDigits = All (λ c. is_digit c ≡ true)

-- A rest at which a number ends.
abbrev pub Stops : Bytes → Type 0
Stops [] = ⊤
Stops (c ∷ s) = is_digit c ≡ false

scan-Stops : (s : Bytes) (n : ℕ) → Stops s → scan s n ≡ (n, s)
unfolding scan
scan-Stops [] n h = refl
scan-Stops (c ∷ s) n h = ground arith

emit-append : (f n : ℕ) (out rest : Bytes) → emit f n out ++ rest ≡ emit f n (out ++ rest)
unfolding emit
emit-append zero n out rest = refl
emit-append (suc f) n out rest = ground (arith, emit-append f (n / 10) ((b'0' + n % 10) ∷ out) rest)

emit-AreDigits : (f n : ℕ) (out : Bytes) → AreDigits out → AreDigits (emit f n out)
unfolding emit is_digit
emit-AreDigits zero n out h = h
emit-AreDigits (suc f) n out h = ground (arith, emit-AreDigits f (n / 10) ((b'0' + n % 10) ∷ out))

-- Reading the last digit of `n` behind the digits before it gives `n`.
scan_last : (n : ℕ) (out : Bytes) → scan ((b'0' + n % 10) ∷ out) (n / 10) ≡ scan out n
unfolding scan is_digit
scan_last n out = ground arith

scan-emit : (f n : ℕ) (out : Bytes) → n ≤ f → scan (emit f n out) 0 ≡ scan out n
unfolding emit
scan-emit zero n out h = let e : n ≡ 0 = omega arith in rw e
scan-emit (suc f) n out h =
    ground (arith, scan-emit f (n / 10) ((b'0' + n % 10) ∷ out), scan_last n out)

-- Not empty, and digits only.
abbrev Numeral : Bytes → Type 0
Numeral [] = ⊥
Numeral (c ∷ s) = AreDigits (c ∷ s)

emit-Numeral : (f n : ℕ) (c : ℕ) (out : Bytes) → AreDigits (c ∷ out) → Numeral (emit f n (c ∷ out))
unfolding emit is_digit
emit-Numeral zero n c out h = h
emit-Numeral (suc f) n c out h = ground (arith, emit-Numeral f (n / 10) (b'0' + n % 10) (c ∷ out))

pub print-Numeral : (n : ℕ) → Numeral (print n)
unfolding print emit is_digit
print-Numeral zero = ground arith
print-Numeral (suc k) = ground (arith, emit-Numeral k (suc k / 10) (b'0' + suc k % 10) [])

Numeral-IsToken : (s : Bytes) → Numeral s → IsToken s
unfolding is_digit is_space
Numeral-IsToken [] h = h
Numeral-IsToken (c ∷ []) h = ground arith
Numeral-IsToken (c ∷ d ∷ s) h = ground (arith, Numeral-IsToken (d ∷ s) h.1)

pub print-IsToken : (n : ℕ) → IsToken (print n)
print-IsToken n = Numeral-IsToken (print n) (print-Numeral n)

pub print_signed-IsToken : (z : ℤ) → IsToken (print_signed z)
unfolding print_signed is_space
print_signed-IsToken (pos n) = print-IsToken n
print_signed-IsToken (negsuc n) = minus-token (print (suc n)) (print-IsToken (suc n))
  where
    minus-token : (s : Bytes) → IsToken s → IsToken (b'-' ∷ s)
    minus-token [] h = absurd h
    minus-token (c ∷ s) h = (refl, h)

print-suc : (k : ℕ) → print (suc k) ≡ emit (suc k) (suc k) []
unfolding print
print-suc k = ground arith

scan-print : (n : ℕ) (rest : Bytes) → Stops rest → scan (print n ++ rest) 0 ≡ (n, rest)
scan-print zero rest h = unfold print scan is_digit in scan-Stops rest 0 h
scan-print (suc k) rest h =
    rw (print-suc k, emit-append (suc k) (suc k) [] rest)
      (scan-emit (suc k) (suc k) rest (omega arith) ∙ scan-Stops rest (suc k) h)

unsigned_at-Numeral :
    (s rest : Bytes) → Numeral s → unsigned_at (s ++ rest) ≡ some (scan (s ++ rest) 0)
unfolding unsigned_at
unsigned_at-Numeral [] rest h = absurd h
unsigned_at-Numeral (c ∷ s) rest h = ground arith

read_number-Numeral :
    (s rest : Bytes) (n : ℕ) (r : Bytes)
    → Numeral s
    → unsigned_at (s ++ rest) ≡ some (n, r)
    → read_number (s ++ rest) ≡ some (false, n, r)
unfolding read_number is_digit is_space
read_number-Numeral [] rest n r h e = absurd h
read_number-Numeral (c ∷ s) rest n r h e = ground arith

pub unsigned_at-print :
    (n : ℕ) (rest : Bytes) → Stops rest → unsigned_at (print n ++ rest) ≡ some (n, rest)
unsigned_at-print n rest h =
    unsigned_at-Numeral (print n) rest (print-Numeral n) ∙ ap some (scan-print n rest h)

pub unsigned_at-print_end : (n : ℕ) → unsigned_at (print n) ≡ some (n, [])
unsigned_at-print_end n = ap unsigned_at (sym (append-nil (print n))) ∙ unsigned_at-print n [] tt

-- The print of a number is read back, whatever follows that is no digit.
pub read_number-print :
    (n : ℕ) (rest : Bytes) → Stops rest → read_number (print n ++ rest) ≡ some (false, n, rest)
read_number-print n rest h =
    read_number-Numeral (print n) rest n rest (print-Numeral n) (unsigned_at-print n rest h)

read_number-print_end : (n : ℕ) → read_number (print n) ≡ some (false, n, [])
read_number-print_end n = ap read_number (sym (append-nil (print n))) ∙ read_number-print n [] tt

read_number-minus : (n : ℕ) → read_number (b'-' ∷ print n) ≡ some (true, n, [])
unfolding read_number is_space
read_number-minus n = rw (unsigned_at-print_end n)

-- Every `unsigned long` is read back from its print.
pub stoul-print : (n : ℕ) → n < 2 ^ 64 → stoul (print n) ≡ ok n
unfolding stoul
stoul-print n h = rw (read_number-print_end n) (ground arith)

-- Every `long` is read back from its print.
pub stol-print_signed : (z : ℤ) → IsLong z → stol (print_signed z) ≡ ok z
unfolding stol print_signed
stol-print_signed (pos n) h = rw (read_number-print_end n) (ground arith)
stol-print_signed (negsuc n) h = rw (read_number-minus (suc n)) (ground arith)

-- Every `int` is read back from its print.
pub stoi-print_signed : (z : ℤ) → IsInt z → stoi (print_signed z) ≡ ok z
unfolding stoi print_signed
stoi-print_signed (pos n) h = rw (read_number-print_end n) (ground arith)
stoi-print_signed (negsuc n) h = rw (read_number-minus (suc n)) (ground arith)

-- An unsigned number past the range of `int` is refused by `stoi`.
pub stoi-print_large : (n : ℕ) → 2 ^ 31 ≤ n → stoi (print n) ≡ threw out_of_range
unfolding stoi
stoi-print_large n h = rw (read_number-print_end n) (ground arith)

-- Any integer past the range of `int` is.
abbrev pub IsBeyondInt : ℤ → Type 0
IsBeyondInt (pos n) = 2 ^ 31 ≤ n
IsBeyondInt (negsuc n) = 2 ^ 31 ≤ n

pub stoi-print_signed_large : (z : ℤ) → IsBeyondInt z → stoi (print_signed z) ≡ threw out_of_range
unfolding stoi print_signed
stoi-print_signed_large (pos n) h = stoi-print_large n h
stoi-print_signed_large (negsuc n) h = rw (read_number-minus (suc n)) (ground arith)
