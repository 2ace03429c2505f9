-- ===== src/IpFilter/RoundTrip.antt =====
-- Addresses that are printed and read again, and what is read of shorter texts.
use cpp.Prelude.{ℕ, ◌<◌, ◌≡◌, refl, false, map, none, some, List, [], ◌∷◌, ◌++◌, arith, ◌==◌, Str}
use cpp.Prelude.Int.{pos}
use cpp.Prelude.Decimal.{stoi, show_nat, to_string, AllDigits, show_nat-AllDigits, stoi-to_string}
use cpp.Prelude.Result.{ok}
use cpp.IpFilter.{
  Address, split_at, get_next_byte, parse_address, print_address, parse_line, parse_lines,
}

split_at-digits :
    (sep : ℕ) (s rest : Str)
    → AllDigits s
    → sep < 48
    → split_at sep (s ++ sep ∷ rest) ≡ (s, some rest)
unfolding split_at
split_at-digits sep [] rest h l = ground arith
split_at-digits sep (c ∷ s) rest h l = ground (arith, h.0, split_at-digits sep s rest h.1 l)

split_at-all : (sep : ℕ) (s : Str) → AllDigits s → sep < 48 → split_at sep s ≡ (s, none)
unfolding split_at
split_at-all sep [] h l = ground arith
split_at-all sep (c ∷ s) h l = ground (arith, h.0, split_at-all sep s h.1 l)

stoi-show_nat : (n : ℕ) → n < 256 → stoi (show_nat n) ≡ ok (pos n)
unfolding to_string
stoi-show_nat n h = stoi-to_string (pos n) (omega arith)

octet-get_next_byte :
    (n : ℕ) (whole rest : Str)
    → n < 256
    → get_next_byte whole (show_nat n ++ 46 ∷ rest) ≡ ok (n, rest)
unfolding get_next_byte
octet-get_next_byte n whole rest h = ground (
  arith,
  split_at-digits 46 (show_nat n) rest (show_nat-AllDigits n) (omega arith),
  stoi-show_nat n h,
)

last-get_next_byte :
    (n : ℕ) (whole : Str) → n < 256 → get_next_byte whole (show_nat n) ≡ ok (n, whole)
unfolding get_next_byte
last-get_next_byte n whole h =
    ground
      (arith, split_at-all 46 (show_nat n) (show_nat-AllDigits n) (omega arith), stoi-show_nat n h)

abbrev pub IsAddress : Address → Type 0
IsAddress a = (a.octet_0 < 256) × (a.octet_1 < 256) × (a.octet_2 < 256) × (a.octet_3 < 256)

-- An address whose octets are below 256 is read from what is printed of it.
pub parse-print_address : (a : Address) → IsAddress a → parse_address (print_address a) ≡ ok a
unfolding parse_address print_address
parse-print_address a h = ground (
  arith,
  octet-get_next_byte a.octet_0 (print_address a)
      (show_nat a.octet_1 ++ (46 ∷ (show_nat a.octet_2 ++ (46 ∷ show_nat a.octet_3)))) h.0,
  octet-get_next_byte a.octet_1 (print_address a) (show_nat a.octet_2 ++ (46 ∷ show_nat a.octet_3))
      h.1,
  octet-get_next_byte a.octet_2 (print_address a) (show_nat a.octet_3) h.2,
  last-get_next_byte a.octet_3 (print_address a) h.3,
)

abbrev Without : ℕ → Str → Type 0
Without sep [] = Unit
Without sep (c ∷ s) = ((c == sep) ≡ false) × Without sep s

Without-append : (sep : ℕ) (s t : Str) → Without sep s → Without sep t → Without sep (s ++ t)
Without-append sep [] t h g = g
Without-append sep (c ∷ s) t h g = (h.0, Without-append sep s t h.1 g)

Without-digits : (sep : ℕ) (s : Str) → sep < 48 → AllDigits s → Without sep s
Without-digits sep [] l h = tt
Without-digits sep (c ∷ s) l h = (ground (arith, h.0), Without-digits sep s l h.1)

octet-Without : (n : ℕ) (rest : Str) → Without 9 rest → Without 9 (show_nat n ++ 46 ∷ rest)
octet-Without n rest h =
    Without-append 9 (show_nat n) (46 ∷ rest)
      (Without-digits 9 (show_nat n) (omega arith) (show_nat-AllDigits n)) (refl, h)

print_address-Without : (a : Address) → Without 9 (print_address a)
unfolding print_address
print_address-Without a = octet-Without a.octet_0 _ (
    octet-Without a.octet_1 _ (
      octet-Without a.octet_2 _
        (Without-digits 9 (show_nat a.octet_3) (omega arith) (show_nat-AllDigits a.octet_3))))

split_at-Without :
    (sep : ℕ) (s rest : Str) → Without sep s → split_at sep (s ++ sep ∷ rest) ≡ (s, some rest)
unfolding split_at
split_at-Without sep [] rest h = ground arith
split_at-Without sep (c ∷ s) rest h = ground (arith, h.0, split_at-Without sep s rest h.1)

abbrev pub AllAddresses : List Address → Type 0
AllAddresses [] = Unit
AllAddresses (a ∷ rest) = IsAddress a × AllAddresses rest

-- Lines that hold an address and, after a tab, any text.
abbrev pub lines_of : List (Address × Str) → List Str
lines_of [] = []
lines_of ((a, rest) ∷ more) = (print_address a ++ 9 ∷ rest) ∷ lines_of more

parse_line-address :
    (a : Address) (rest : Str) → IsAddress a → parse_line (print_address a ++ 9 ∷ rest) ≡ ok a
unfolding parse_line
parse_line-address a rest h = ground (
  arith,
  split_at-Without 9 (print_address a) rest (print_address-Without a),
  parse-print_address a h,
)

-- Lines that begin with addresses, whose octets are below 256, as they are printed, and a tab, are
-- read as these
-- addresses, whatever follows the tab.
pub parse_lines-lines_of :
    (lines : List (Address × Str))
    → AllAddresses (map (λ line. line.0) lines)
    → parse_lines (lines_of lines) ≡ ok (map (λ line. line.0) lines)
unfolding parse_lines
parse_lines-lines_of [] h = refl
parse_lines-lines_of ((a, rest) ∷ lines) h =
    ground (arith, parse_line-address a rest h.0, parse_lines-lines_of lines h.1)

-- A text of only two octets, both below 256, is read as an address that has each of them twice.
short-parse_address :
    (m n : ℕ)
    → m < 256
    → n < 256
    → parse_address (show_nat m ++ 46 ∷ show_nat n)
      ≡ ok (record { octet_0 = m; octet_1 = n; octet_2 = m; octet_3 = n })
unfolding parse_address
short-parse_address m n h g = ground (
  arith,
  octet-get_next_byte m (show_nat m ++ 46 ∷ show_nat n) (show_nat n) h,
  last-get_next_byte n (show_nat m ++ 46 ∷ show_nat n) g,
)
