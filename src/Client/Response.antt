-- ===== src/Client/Response.antt =====
-- `extract_ip_and_port_from_response` of client/src/client_discovery_protocol.cpp.
use brix.Base.{
  ℕ, Bool, true, ◌||◌, Option, none, some, ◌++◌, Bytes, codes, text_eq, take, length, if◌then◌else◌,
  ℤ, pos, negsuc, leb_ℤ, ltb_ℤ, ◌≡◌, refl, ap, ◌∙◌, ◌≤◌, ◌<◌, ◌^◌, arith, Option-cases, Bool-cases,
  inl, inr,
}
use brix.Base.Options.{◌>>=◌}
use brix.Text.{Result, ok, threw, undefined, print}
use brix.Text.Tokens.{IsToken}
use brix.Text.Decimal.{print-IsToken}
use brix.Text.CStrings.{strtok, strtok-token, atoi, atoi-print}
use brix.Net.{Inet, InetLaws}
use brix.Server.Location.{location_text}

-- What the function gives back: 0 with an address, or -1 to -5.
pub data Extraction : Type 0 where
  extracted : Bytes → ℤ → Extraction
  not_loc_msg invalid_ip invalid_port invalid_format null_pointers : Extraction

-- The tokens that stand for the address and the port.
unfoldable pub location_fields : Bytes → Option (Bytes × Bytes)
unfolding strtok
location_fields response = do
  (tag, s1) ← strtok response
  (ip_str, s2) ← strtok s1
  (port_str, s3) ← strtok s2
  (last, s4) ← strtok s3
  if text_eq last (codes "END") then some (ip_str, port_str) else none

-- The tests of the port and of the pointers for the result.
abbrev check_port : Bool → Bytes → Result ℤ → Result Extraction
check_port pointers ip_str (ok port) =
    if leb_ℤ port (pos 0) || ltb_ℤ (pos 65535) port
    then ok invalid_port
    else if pointers
    then ok (extracted ip_str port)
    else ok null_pointers
check_port pointers ip_str (threw e) = threw e
check_port pointers ip_str undefined = undefined

abbrev check_fields : Inet → Bool → Option (Bytes × Bytes) → Result Extraction
check_fields net pointers none = ok invalid_format
check_fields net pointers (some (ip_str, port_str)) = elim (net.inet_pton ip_str) [
  | none ↦ ok invalid_ip
  | some _ ↦ check_port pointers ip_str (atoi port_str)
]

-- `pointers` says that there is room for the result.
unfoldable pub extract_ip_and_port_from_response : Inet → Bool → Bytes → Result Extraction
unfolding location_fields atoi
extract_ip_and_port_from_response net pointers response =
    if text_eq (take 3 response) (codes "LOC")
    then check_fields net pointers (location_fields response)
    else ok not_loc_msg

location_fields-text :
    (ip : Bytes) (port : ℕ)
    → IsToken ip
    → location_fields (location_text ip port) ≡ some (ip, print port)
unfolding location_fields text_eq
location_fields-text ip port h =
    rw
      (
        strtok-token ip (print port ++ codes " END") h,
        strtok-token (print port) (codes "END") (print-IsToken port),
      )
      refl

module _ (net : Inet) (laws : InetLaws net) (a port : ℕ) (h : a < 2 ^ 32) where
  extract-text :
      extract_ip_and_port_from_response net true (location_text (laws.text a) port)
      ≡ check_port true (laws.text a) (atoi (print port))
  unfolding extract_ip_and_port_from_response text_eq
  extract-text =
      rw (location_fields-text (laws.text a) port (laws.token a h), laws.pton a h, check_fields)
        refl

  -- A server's address and a port between 1 and 65535 are read back from the text.
  pub extract-location :
      1 ≤ port
      → port ≤ 65535
      → extract_ip_and_port_from_response net true (location_text (laws.text a) port)
        ≡ ok (extracted (laws.text a) (pos port))
  unfolding leb_ℤ ltb_ℤ
  extract-location low high =
      extract-text
      ∙ ap (check_port true (laws.text a)) (atoi-print port (omega arith))
      ∙ ground arith

  -- A greater port is refused.
  pub extract-location_beyond :
      65535 < port
      → port < 2 ^ 31
      → extract_ip_and_port_from_response net true (location_text (laws.text a) port)
        ≡ ok invalid_port
  unfolding leb_ℤ ltb_ℤ
  extract-location_beyond high int =
      extract-text ∙ ap (check_port true (laws.text a)) (atoi-print port int) ∙ ground arith

-- A port from 1 to 65535, and an address that `inet_pton` knows.
abbrev pub Usable : Bytes → ℤ → Type 0
Usable ip (pos n) = (1 ≤ n) × (n ≤ 65535) × (length ip ≤ 15)
Usable ip (negsuc n) = ⊥

check_port-Usable :
    (pointers : Bool) (ip_str : Bytes) (r : Result ℤ) (ip : Bytes) (port : ℤ)
    → length ip_str ≤ 15
    → check_port pointers ip_str r ≡ ok (extracted ip port)
    → Usable ip port
unfolding leb_ℤ ltb_ℤ
check_port-Usable pointers ip_str (ok (pos n)) ip port short h = ground arith
check_port-Usable pointers ip_str (ok (negsuc n)) ip port short h = ground arith
check_port-Usable pointers ip_str (threw e) ip port short h = absurd (cc)
check_port-Usable pointers ip_str undefined ip port short h = absurd (cc)

module _ (net : Inet) (laws : InetLaws net) (pointers : Bool) (ip : Bytes) (port : ℤ) where
  check_fields-Usable :
      (fields : Option (Bytes × Bytes))
      → check_fields net pointers fields ≡ ok (extracted ip port)
      → Usable ip port
  check_fields-Usable none h = absurd (cc)
  check_fields-Usable (some (ip_str, port_str)) h = elim (Option-cases (net.inet_pton ip_str)) [
    | inl unknown ↦ absurd (refused (rw (unknown, check_fields) at h))
    | inr (a, known) ↦
        check_port-Usable pointers ip_str (atoi port_str) ip port (laws.pton_short ip_str a known)
          (rw (known, check_fields) at h)
  ]
    where
      refused : ok invalid_ip ≡ ok (extracted ip port) → ⊥
      refused e = cc

  -- What the client takes from an answer fits: the port is between 1 and 65535, and the address has at
  -- most 15 characters, so that it fits the 16 bytes of its buffer with the zero behind it.
  pub extract_ip_and_port_from_response-Usable :
      (response : Bytes)
      → extract_ip_and_port_from_response net pointers response ≡ ok (extracted ip port)
      → Usable ip port
  unfolding extract_ip_and_port_from_response
  extract_ip_and_port_from_response-Usable response h =
      elim (Bool-cases (text_eq (take 3 response) (codes "LOC"))) [
        | inl located ↦
            check_fields-Usable (location_fields response)
              (rw (located, extract_ip_and_port_from_response) at h)
        | inr other ↦ absurd (refused (rw (other, extract_ip_and_port_from_response) at h))
      ]
    where
      refused : ok not_loc_msg ≡ ok (extracted ip port) → ⊥
      refused e = cc
