-- ===== src/Net/Dotted.antt =====
-- Dotted decimal, in the byte order of the network on a little-endian machine: a concrete pair of
-- functions that meets the interface of the address functions.
use brix.Base.{
  ℕ, ◌+◌, ◌*◌, ◌/◌, ◌%◌, ◌^◌, ◌-◌, ◌<◌, ◌≡◌, refl, Option, none, some, [], ◌∷◌, ◌++◌, Bytes, codes,
  ◌==◌, if◌then◌else◌, arith, ap, false, true, text_eq, text_eq_iff, ltb, ◌&&◌, length, ◌≤◌, subst,
  Bool-cases, inl, inr,
}
use brix.Base.Options.{◌>>=◌}
use brix.Text.{print, unsigned_at, is_space, is_digit}
use brix.Text.Tokens.{IsToken}
use brix.Text.Decimal.{print-IsToken, unsigned_at-print, unsigned_at-print_end}
use brix.Text.Plain.{Passes, Passes-append, print-short}
use brix.Net.Defs.{Inet, InetLaws}

abbrev dot : ℕ
dot = b'.'

unfoldable pub quad : ℕ → Bytes
unfolding print
quad a =
    print (a % 256)
    ++ dot
      ∷ (print (a / 256 % 256) ++ dot ∷ (print (a / 65536 % 256) ++ dot ∷ print (a / 16777216)))

-- One part of an address, and what follows its dot.
unfoldable pub part : Bytes → Option (ℕ × Bytes)
unfolding unsigned_at
part s = elim (unsigned_at s) [
  | none ↦ none
  | some (n, []) ↦ some (n, [])
  | some (n, c ∷ r) ↦ if c == dot then some (n, r) else none
]

unfoldable pub read_quad : Bytes → Option ℕ
unfolding part
read_quad s = do
  (a, s1) ← part s
  (b, s2) ← part s1
  (c, s3) ← part s2
  (d, s4) ← part s3
  some (a + 256 * b + 65536 * c + 16777216 * d)

-- `INADDR_NONE` is 2^32 - 1.
unfoldable pub from_quad : Bytes → ℕ
unfolding read_quad
from_quad s = elim (read_quad s) [ none ↦ 2 ^ 32 - 1 | some a ↦ a ]

-- The address whose text is `s`, and no other text.
abbrev exactly : Bytes → Option ℕ → Option ℕ
exactly s none = none
exactly s (some a) = if ltb a (2 ^ 32) && text_eq (quad a) s then some a else none

unfoldable pub read_exact : Bytes → Option ℕ
unfolding read_quad quad
read_exact s = exactly s (read_quad s)

abbrev pub dotted : Inet
dotted = record {
  inet_addr = from_quad;
  inet_ntop = λ a. some (quad a);
  inet_ntoa = quad;
  inet_pton = read_exact;
}

part-dot : (n : ℕ) (r : Bytes) → part (print n ++ dot ∷ r) ≡ some (n, r)
unfolding part is_digit
part-dot n r = rw (unsigned_at-print n (dot ∷ r) refl, part)

part_end : (n : ℕ) → part (print n) ≡ some (n, [])
unfolding part
part_end n = rw (unsigned_at-print_end n, part)

pub read_quad-quad : (a : ℕ) → a < 2 ^ 32 → read_quad (quad a) ≡ some a
unfolding read_quad quad
read_quad-quad a h = rw (part-dot, part-dot, part-dot, part_end) (ap some (omega arith))

pub from_quad-quad : (a : ℕ) → a < 2 ^ 32 → from_quad (quad a) ≡ a
unfolding from_quad
from_quad-quad a h = rw (read_quad-quad a h, from_quad)

IsToken-dot : (w r : Bytes) → IsToken w → IsToken r → IsToken (w ++ dot ∷ r)
unfolding is_space
IsToken-dot [] r h k = absurd h
IsToken-dot (c ∷ []) [] h k = absurd k
IsToken-dot (c ∷ []) (d ∷ r) h k = (h.0, (refl, k))
IsToken-dot (c ∷ e ∷ w) r h k = joined (h.0) (IsToken-dot (e ∷ w) r h.1 k)
  where
    joined : is_space c ≡ false → IsToken ((e ∷ w) ++ dot ∷ r) → IsToken (c ∷ ((e ∷ w) ++ dot ∷ r))
    joined p q = (p, q)

pub quad-IsToken : (a : ℕ) → IsToken (quad a)
unfolding quad
quad-IsToken a = IsToken-dot _ _ (print-IsToken (a % 256)) (
    IsToken-dot _ _ (print-IsToken (a / 256 % 256))
      (IsToken-dot _ _ (print-IsToken (a / 65536 % 256)) (print-IsToken (a / 16777216))))

dot-Passes : (n : ℕ) (s : Bytes) → Passes n s → Passes (1 + n) (dot ∷ s)
dot-Passes n s p =
    Passes-append 1 n (dot ∷ []) s (record { short = omega arith; non_zero = omega arith }) p

quad-Passes : (a : ℕ) → a < 2 ^ 32 → Passes 15 (quad a)
unfolding quad
quad-Passes a h = Passes-append 3 12 _ _ (print-short 2 (a % 256) (omega arith)) (
    dot-Passes 11 _ (
      Passes-append 3 8 _ _ (print-short 2 (a / 256 % 256) (omega arith)) (
        dot-Passes 7 _ (
          Passes-append 3 4 _ _ (print-short 2 (a / 65536 % 256) (omega arith))
            (dot-Passes 3 _ (print-short 2 (a / 16777216) (omega arith)))))))

read_exact-quad : (a : ℕ) → a < 2 ^ 32 → read_exact (quad a) ≡ some a
unfolding read_exact
read_exact-quad a h =
    let whole : text_eq (quad a) (quad a) ≡ true = (text_eq_iff (quad a) (quad a)).1 refl in
    rw (read_quad-quad a h, whole) (ground arith)

exactly-short : (s : Bytes) (o : Option ℕ) (a : ℕ) → exactly s o ≡ some a → length s ≤ 15
exactly-short s none a h = absurd (cc)
exactly-short s (some b) a h = elim (Bool-cases (ltb b (2 ^ 32) && text_eq (quad b) s)) [
  | inl same ↦
      let small : b < 2 ^ 32 = ground arith in
      let equal : text_eq (quad b) s ≡ true = ground arith in
      subst (λ t. length t ≤ 15) ((text_eq_iff (quad b) s).0 equal) (quad-Passes b small).short
  | inr other ↦ absurd (refused (rw other at h))
]
  where
    refused : {c : ℕ} → none ≡ some c → ⊥
    refused e = cc

read_exact-short : (s : Bytes) (a : ℕ) → read_exact s ≡ some a → length s ≤ 15
unfolding read_exact
read_exact-short s a h = exactly-short s (read_quad s) a h

from_quad-any : from_quad (codes "0.0.0.0") ≡ 0
unfolding from_quad read_quad part
from_quad-any = refl

pub dotted_laws : InetLaws dotted
dotted_laws = record {
  text = quad;
  ntop = λ a h. refl;
  ntoa = λ a h. refl;
  token = λ a h. quad-IsToken a;
  passes = quad-Passes;
  addr = from_quad-quad;
  pton = read_exact-quad;
  any = from_quad-any;
  pton_short = read_exact-short;
}
