-- ===== src/Print/Tests.antt =====
-- Runs of src/print.cpp.
use os1_project.Prelude.{ℕ, ◌≤◌, ◌≡◌, refl, List, [], ◌∷◌, ◌++◌, arith, length, All}
use os1_project.Print.{print_integer, print_address, integer_buffer, address_buffer, decimal_digits}
use os1_project.Print.Digits.{read_from, IsDigit, print_integer-read, print_address-read}

-- -305
abbrev minus_305 : ℕ
minus_305 = 18446744073709551311

print_minus_305 : print_integer minus_305 ≡ 45 ∷ 51 ∷ 48 ∷ 53 ∷ []
unfolding print_integer integer_buffer decimal_digits
print_minus_305 = refl

print_integer-read_example :
    (cs : List ℕ) × (print_integer minus_305 ≡ (45 ∷ []) ++ cs)
    × All IsDigit cs
    × (read_from 10 0 cs ≡ 305)
    × (length (integer_buffer minus_305) ≤ 16)
print_integer-read_example = print_integer-read minus_305 (omega arith)

print_address-read_example :
    (cs : List ℕ) × (print_address 2748 ≡ 48 ∷ 120 ∷ cs)
    × (read_from 16 0 cs ≡ 2748)
    × (length (address_buffer 2748) ≤ 24)
print_address-read_example = print_address-read 2748 (omega arith)
