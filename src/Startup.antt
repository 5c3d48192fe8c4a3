-- ===== src/Startup.antt =====
-- The arguments of the two programs: `main` of server/src/main.cpp and of client/src/main.cpp, up to
-- where the services and the dispatcher start.
use brix.Base.{
  ◌^◌, ◌≡◌, ap, ◌∙◌, Bool, Bool-cases, inl, inr, ◌&&◌, ◌||◌, Option, none, some, List, ◌∷◌, Bytes,
  ltb, if◌then◌else◌, ℤ, pos, negsuc, leb_ℤ, ltb_ℤ, arith,
}
use brix.Text.{Result, ok, threw, undefined, invalid_argument, out_of_range, print_signed, stoi}
use brix.Text.Decimal.{stoi-print_signed, stoi-print_signed_large}

-- The port that the program goes on with; `none` is the end with 1. Only `std::invalid_argument` is
-- caught.
abbrev pub validate : Result ℤ → Result (Option ℤ)
validate (ok port) =
    if ltb_ℤ port (pos 0) || ltb_ℤ (pos 65535) port then ok none else ok (some port)
validate (threw invalid_argument) = ok none
validate (threw out_of_range) = threw out_of_range
validate undefined = undefined

-- `argv` of the server.
unfoldable pub port_argument : List Bytes → Result (Option ℤ)
unfolding stoi
port_argument (program ∷ argument ∷ rest) = validate (stoi argument)
port_argument argv = ok none

-- The client tests its arguments in the same words.
abbrev pub client_port_argument : List Bytes → Result (Option ℤ)
client_port_argument argv = port_argument argv

-- The values of `int`.
abbrev pub fits_int : ℤ → Bool
fits_int (pos n) = ltb n (2 ^ 31)
fits_int (negsuc n) = ltb n (2 ^ 31)

-- Started with the print of an integer, whatever it is, a program goes on with it as its port exactly
-- if it lies between 0 and 65535. It ends with 1 on any other `int`, and past the range of `int`
-- with an exception that nothing catches.
pub port_argument-print_signed :
    (program : Bytes) (z : ℤ) (rest : List Bytes)
    → port_argument (program ∷ print_signed z ∷ rest) ≡ (
        if fits_int z
        then ok (if leb_ℤ (pos 0) z && leb_ℤ z (pos 65535) then some z else none)
        else threw out_of_range)
unfolding port_argument leb_ℤ ltb_ℤ
port_argument-print_signed program (pos n) rest = elim (Bool-cases (ltb n (2 ^ 31))) [
  | inl fits ↦ ap validate (stoi-print_signed (pos n) (ground arith)) ∙ ground arith
  | inr large ↦ ap validate (stoi-print_signed_large (pos n) (ground arith)) ∙ ground arith
]
port_argument-print_signed program (negsuc n) rest = elim (Bool-cases (ltb n (2 ^ 31))) [
  | inl fits ↦ ap validate (stoi-print_signed (negsuc n) (ground arith)) ∙ ground arith
  | inr large ↦ ap validate (stoi-print_signed_large (negsuc n) (ground arith)) ∙ ground arith
]
