-- ===== src/Text/Plain.antt =====
-- Texts that pass through a buffer: short enough, and without a zero byte.
use brix.Base.{
  ℕ, zero, suc, ◌+◌, ◌*◌, ◌/◌, ◌%◌, ◌^◌, ◌≤◌, ◌<◌, ◌≢◌, List, [], ◌∷◌, ◌++◌, Bytes, length,
  length-append, All, All-append, arith, ℤ, pos, negsuc, IsLong,
}
use brix.Text.{space, emit, print, print_signed}
use brix.Text.Tokens.{spaced}

abbrev pub NonZero : Bytes → Type 0
NonZero = All (λ c. c ≢ 0)

-- Fits `n` bytes, and has no zero in it.
pub record Passes (n : ℕ) (s : Bytes) : Type 0 where
  pub short : length s ≤ n
  pub non_zero : NonZero s

pub Passes-le : (m n : ℕ) (s : Bytes) → m ≤ n → Passes m s → Passes n s
Passes-le m n s h p = record { short = omega (arith, p.short); non_zero = p.non_zero }

pub Passes-append : (m n : ℕ) (s t : Bytes) → Passes m s → Passes n t → Passes (m + n) (s ++ t)
Passes-append m n s t p q = record {
  short = omega (arith, length-append s t, p.short, q.short);
  non_zero = All-append (λ c. c ≢ 0) s t p.non_zero q.non_zero;
}

-- 10 ^ k
abbrev pub power : ℕ → ℕ
power zero = 1
power (suc k) = 10 * power k

emit-length : (f n k : ℕ) (out : Bytes) → n < power k → length (emit f n out) ≤ k + length out
unfolding emit
emit-length zero n k out h = omega arith
emit-length (suc f) n zero out h = ground arith
emit-length (suc f) n (suc k) out h =
    ground (arith, emit-length f (n / 10) k ((b'0' + n % 10) ∷ out) (omega (arith, h)))

emit-NonZero : (f n : ℕ) (out : Bytes) → NonZero out → NonZero (emit f n out)
unfolding emit
emit-NonZero zero n out h = h
emit-NonZero (suc f) n out h = ground (arith, emit-NonZero f (n / 10) ((b'0' + n % 10) ∷ out))

pub print-NonZero : (n : ℕ) → NonZero (print n)
unfolding print
print-NonZero n = ground (arith, emit-NonZero n n [] tt)

pub print_signed-NonZero : (z : ℤ) → NonZero (print_signed z)
unfolding print_signed
print_signed-NonZero (pos n) = print-NonZero n
print_signed-NonZero (negsuc n) = (omega arith, print-NonZero (suc n))

-- Two texts with a space between them.
pub NonZero-spaced : (s t : Bytes) → NonZero s → NonZero t → NonZero (s ++ space ∷ t)
NonZero-spaced s t p q = All-append (λ c. c ≢ 0) s (space ∷ t) p (omega arith, q)

-- A number below 10^k has a print of at most k digits.
pub print-short : (k n : ℕ) → n < power (suc k) → Passes (suc k) (print n)
unfolding print
print-short k n h = record {
  short = ground (arith, emit-length n n (suc k) [] h);
  non_zero = ground (arith, emit-NonZero n n [] tt);
}

pub print-Passes : (n : ℕ) → n < 2 ^ 64 → Passes 20 (print n)
print-Passes n h = print-short 19 n (omega arith)

pub print_signed-Passes : (z : ℤ) → IsLong z → Passes 21 (print_signed z)
unfolding print_signed
print_signed-Passes (pos n) h =
    Passes-le 20 21 (print n) (omega arith) (print-Passes n (omega arith))
print_signed-Passes (negsuc n) h =
    Passes-append 1 20 (b'-' ∷ []) (print (suc n))
      (record { short = omega arith; non_zero = omega arith }) (print-Passes (suc n) (omega arith))

-- Room for tokens of `k` bytes with a space behind each, and for what follows.
abbrev pub room : ℕ → List Bytes → ℕ → ℕ
room k [] n = n
room k (w ∷ ws) n = k + (1 + room k ws n)

pub spaced-Passes :
    (k n : ℕ) (ws : List Bytes) (rest : Bytes)
    → All (Passes k) ws
    → Passes n rest
    → Passes (room k ws n) (spaced ws rest)
unfolding spaced
spaced-Passes k n [] rest h r = r
spaced-Passes k n (w ∷ ws) rest h r =
    Passes-append k (1 + room k ws n) w (space ∷ spaced ws rest) h.0 (
      Passes-append 1 (room k ws n) (space ∷ []) (spaced ws rest)
        (record { short = omega arith; non_zero = omega arith }) (spaced-Passes k n ws rest h.1 r))
