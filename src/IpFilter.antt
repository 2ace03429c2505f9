-- ===== src/IpFilter.antt =====
-- The filter of addresses: 02_ip_filter/address.hpp, address.cpp, addresses.hpp and addresses.cpp.
pub mod RoundTrip
pub mod Sorting
use mathlib.Core.List.{reverse}
use cpp.Prelude.{
  ℕ, zero, suc, ◌+◌, ◌-◌, ◌%◌, Bool, true, false, ◌&&◌, ◌||◌, Option, none, some, List, [], ◌∷◌,
  ◌++◌, ltb, ◌==◌, if◌then◌else◌, Str, bytes,
}
use cpp.Prelude.Int.{ℤ, pos, negsuc}
use cpp.Prelude.Decimal.{stoi, show_nat}
use cpp.Prelude.Result.{Result, ok, throw, thrown_string, ◌>>=◌}

-- `TAddress`, with its four octets.
pub record Address : Type 0 where
  pub octet_0 : ℕ
  pub octet_1 : ℕ
  pub octet_2 : ℕ
  pub octet_3 : ℕ

-- The conversion of `int` to `uint8_t`.
abbrev pub u8_of_int : ℤ → ℕ
u8_of_int (pos n) = n % 256
u8_of_int (negsuc n) = 255 - n % 256

-- What stands before the first `sep`, and what stands after it, if there is one.
unfoldable pub split_at : ℕ → Str → Str × Option Str
split_at sep [] = ([], none)
split_at sep (c ∷ s) =
    let (before, after) = split_at sep s in if c == sep then ([], some s) else (c ∷ before, after)

-- `start = stop + 1`: when no dot is found, `stop` is the greatest `std::size_t`, and the start
-- becomes 0 again.
abbrev pub next_start : Str → Option Str → Str
next_start whole none = whole
next_start whole (some after) = after

-- `GetNextByte`, on the whole text and what of it follows `start`.
unfoldable pub get_next_byte : Str → Str → Result (ℕ × Str)
unfolding split_at
get_next_byte whole rest = do
  v ← stoi (split_at 46 rest).0
  ok (u8_of_int v, next_start whole (split_at 46 rest).1)

-- `TAddress(const std::string&)`
unfoldable pub parse_address : Str → Result Address
unfolding get_next_byte
parse_address whole = do
  (a, rest1) ← get_next_byte whole whole
  (b, rest2) ← get_next_byte whole rest1
  (c, rest3) ← get_next_byte whole rest2
  (d, rest4) ← get_next_byte whole rest3
  ok (record { octet_0 = a; octet_1 = b; octet_2 = c; octet_3 = d })

-- `operator<<`
unfoldable pub print_address : Address → Str
unfolding show_nat
print_address a =
    show_nat a.octet_0
    ++ (46 ∷ (show_nat a.octet_1 ++ (46 ∷ (show_nat a.octet_2 ++ (46 ∷ show_nat a.octet_3)))))

-- `GetOctet`
unfoldable pub get_octet : ℕ → Address → Result ℕ
get_octet zero a = ok a.octet_0
get_octet (suc zero) a = ok a.octet_1
get_octet (suc (suc zero)) a = ok a.octet_2
get_octet (suc (suc (suc zero))) a = ok a.octet_3
get_octet (suc (suc (suc (suc i)))) a = throw thrown_string

-- `HasOctet`
unfoldable pub has_octet : ℕ → Address → Bool
has_octet v a = a.octet_0 == v || (a.octet_1 == v || (a.octet_2 == v || a.octet_3 == v))

-- `TAddresses::ParseLine`: what stands before the first tab.
unfoldable pub parse_line : Str → Result Address
unfolding split_at parse_address
parse_line line = parse_address (split_at 9 line).0

-- `TAddresses(std::istream&)`, on the lines that are read.
unfoldable pub parse_lines : List Str → Result (List Address)
unfolding parse_line
parse_lines [] = ok []
parse_lines (line ∷ rest) = do a ← parse_line line; more ← parse_lines rest; ok (a ∷ more)

-- `operator<<` of the addresses
unfoldable pub print_addresses : List Address → Str
unfolding print_address
print_addresses [] = []
print_addresses (a ∷ rest) = print_address a ++ (10 ∷ print_addresses rest)

-- `ApplyFilter`
unfoldable pub apply_filter : (Address → Bool) → List Address → List Address
apply_filter keeps [] = []
apply_filter keeps (a ∷ rest) =
    let more = apply_filter keeps rest in if keeps a then a ∷ more else more

-- `operator<`: the lexicographic order of the arrays.
unfoldable pub address_less : Address → Address → Bool
address_less a b =
    if a.octet_0 == b.octet_0
    then (if a.octet_1 == b.octet_1
        then (if a.octet_2 == b.octet_2 then ltb a.octet_3 b.octet_3 else ltb a.octet_2 b.octet_2)
        else ltb a.octet_1 b.octet_1)
    else ltb a.octet_0 b.octet_0

-- `std::sort` of a sequence with an order, which is no code of the program.
abbrev pub Sort : Type 0
Sort = (Address → Address → Bool) → List Address → List Address

-- `ReverseLexicographicSort`: the sequence from its end to its begin is sorted.
unfoldable pub reverse_lexicographic_sort : Sort → List Address → List Address
unfolding address_less
reverse_lexicographic_sort sort items = reverse (sort address_less (reverse items))

-- The filters of `main`.
abbrev pub begins_with_1 : Address → Bool
begins_with_1 a = a.octet_0 == 1

abbrev pub begins_with_46_70 : Address → Bool
begins_with_46_70 a = a.octet_0 == 46 && a.octet_1 == 70

-- `main`: what is printed for the lines of the input.
unfoldable pub filter_input : Sort → List Str → Result Str
unfolding parse_lines reverse_lexicographic_sort print_addresses apply_filter has_octet
filter_input sort lines = do
  items ← parse_lines lines
  let sorted = reverse_lexicographic_sort sort items
  ok (
      print_addresses sorted
      ++ (print_addresses (apply_filter begins_with_1 sorted)
          ++ (print_addresses (apply_filter begins_with_46_70 sorted)
              ++ print_addresses (apply_filter (has_octet 46) sorted))))
