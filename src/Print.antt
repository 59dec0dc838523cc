-- ===== src/Print.antt =====
-- src/print.cpp: printInteger and printAddress, as the characters that they pass to putc in order. A
-- buffer is the list of what was written to it. Registers.antt has the mask of SSTATUS_SIE around their work.
pub mod Digits
mod Tests
use os1_project.Prelude.{
  ℕ, zero, suc, ◌+◌, ◌-◌, ◌*◌, ◌/◌, ◌%◌, ◌^◌, Bool, List, [], ◌∷◌, ◌++◌, ltb, leb, ◌==◌,
  if◌then◌else◌,
}

-- The do-while of each function; the last digit comes first.
unfoldable pub decimal_digits : ℕ → ℕ → List ℕ
decimal_digits zero x = []
decimal_digits (suc fuel) x =
    let rest = decimal_digits fuel (x / 10) in x % 10 ∷ (if x / 10 == 0 then [] else rest)

unfoldable pub hex_digits : ℕ → ℕ → List ℕ
hex_digits zero x = []
hex_digits (suc fuel) x =
    let rest = hex_digits fuel (x / 16) in x % 16 ∷ (if x / 16 == 0 then [] else rest)

-- `digits[d]`, in ASCII
abbrev pub char_of : ℕ → ℕ
char_of d = if ltb d 10 then 48 + d else 55 + d

abbrev pub chars : List ℕ → List ℕ
chars [] = []
chars (d ∷ ds) = char_of d ∷ chars ds

-- `while (--i >= 0) { putc(buf[i]); }`
abbrev pub backwards : List ℕ → List ℕ
backwards [] = []
backwards (c ∷ cs) = backwards cs ++ c ∷ []

-- `(long)integer < 0`
abbrev pub is_negative : ℕ → Bool
is_negative integer = leb (2 ^ 63) integer

-- The uint x that the digits are taken of.
abbrev pub magnitude : ℕ → ℕ
magnitude integer = (if is_negative integer then (2 ^ 64 - integer) % 2 ^ 64 else integer) % 2 ^ 32

-- A uint has at most ten digits, and an address sixteen.
abbrev pub decimal_fuel : ℕ
decimal_fuel = 10

abbrev pub hex_fuel : ℕ
hex_fuel = 16

unfoldable pub integer_buffer : ℕ → List ℕ
integer_buffer integer =
    chars (decimal_digits decimal_fuel (magnitude integer))
    ++ (if is_negative integer then 45 ∷ [] else [])

unfoldable pub print_integer : ℕ → List ℕ
print_integer integer = backwards (integer_buffer integer)

unfoldable pub address_buffer : ℕ → List ℕ
address_buffer address = chars (hex_digits hex_fuel address) ++ 120 ∷ 48 ∷ []

unfoldable pub print_address : ℕ → List ℕ
print_address address = backwards (address_buffer address)
