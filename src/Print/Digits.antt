-- ===== src/Print/Digits.antt =====
-- The digits of src/print.cpp stand for their number, and the buffers are large enough.
use os1_project.Prelude.{
  ℕ, zero, suc, ◌+◌, ◌-◌, ◌*◌, ◌/◌, ◌%◌, ◌^◌, ◌≤◌, ◌<◌, ◌≡◌, refl, ap, sym, ◌∙◌, List, [], ◌∷◌,
  ◌++◌, arith, length, length-append, ltb, ◌==◌, if◌then◌else◌, true, false, Bool, append-nil,
  append_assoc, All, All-append, Bool-cases, inl, inr,
}
use os1_project.Print.{
  decimal_digits, hex_digits, char_of, chars, backwards, is_negative, magnitude, decimal_fuel,
  hex_fuel, integer_buffer, print_integer, address_buffer, print_address,
}

-- What a reader makes of the characters.
abbrev pub digit_of : ℕ → ℕ
digit_of c = if ltb c 58 then c - 48 else c - 55

abbrev pub read_from : ℕ → ℕ → List ℕ → ℕ
read_from base acc [] = acc
read_from base acc (c ∷ cs) = read_from base (acc * base + digit_of c) cs

read_from-append :
    (base acc : ℕ) (cs ds : List ℕ)
    → read_from base acc (cs ++ ds) ≡ read_from base (read_from base acc cs) ds
read_from-append base acc [] ds = refl
read_from-append base acc (c ∷ cs) ds = read_from-append base (acc * base + digit_of c) cs ds

abbrev pub limit : ℕ → ℕ → ℕ
limit base zero = 1
limit base (suc k) = base * limit base k

digit_of-char_of : (d : ℕ) → d < 16 → digit_of (char_of d) ≡ d
digit_of-char_of d h = ground arith

decimal_step : (x : ℕ) (k : ℕ) → x < limit 10 (suc k) → x / 10 < limit 10 k
decimal_step x k h = omega arith

hex_step : (x : ℕ) (k : ℕ) → x < limit 16 (suc k) → x / 16 < limit 16 k
hex_step x k h = omega arith

zero_test : (a : ℕ) → (a == 0) ≡ true → 0 ≡ a
zero_test a e = ground arith

last_decimal :
    (cs : List ℕ) (x : ℕ)
    → read_from 10 0 cs ≡ x / 10
    → read_from 10 0 (cs ++ char_of (x % 10) ∷ []) ≡ x
last_decimal cs x h =
    read_from-append 10 0 cs (char_of (x % 10) ∷ [])
    ∙ omega (arith, h, digit_of-char_of (x % 10) (omega arith))

read_from-decimal_digits :
    (k x : ℕ) → x < limit 10 k → read_from 10 0 (backwards (chars (decimal_digits k x))) ≡ x
unfolding decimal_digits
read_from-decimal_digits zero x h = omega arith
read_from-decimal_digits (suc k) x h = elim (Bool-cases (x / 10 == 0)) [
  | inl e ↦ rw e (last_decimal [] x (zero_test (x / 10) e))
  | inr e ↦ rw e (
      last_decimal (backwards (chars (decimal_digits k (x / 10)))) x
        (read_from-decimal_digits k (x / 10) (decimal_step x k h)))
]

last_hex :
    (cs : List ℕ) (x : ℕ)
    → read_from 16 0 cs ≡ x / 16
    → read_from 16 0 (cs ++ char_of (x % 16) ∷ []) ≡ x
last_hex cs x h =
    read_from-append 16 0 cs (char_of (x % 16) ∷ [])
    ∙ omega (arith, h, digit_of-char_of (x % 16) (omega arith))

read_from-hex_digits :
    (k x : ℕ) → x < limit 16 k → read_from 16 0 (backwards (chars (hex_digits k x))) ≡ x
unfolding hex_digits
read_from-hex_digits zero x h = omega arith
read_from-hex_digits (suc k) x h = elim (Bool-cases (x / 16 == 0)) [
  | inl e ↦ rw e (last_hex [] x (zero_test (x / 16) e))
  | inr e ↦ rw e (
      last_hex (backwards (chars (hex_digits k (x / 16)))) x
        (read_from-hex_digits k (x / 16) (hex_step x k h)))
]

-- The character of a decimal digit, 0 to 9.
abbrev pub IsDigit : ℕ → Type 0
IsDigit c = (48 ≤ c) × (c ≤ 57)

decimal_digits-IsDigit : (k x : ℕ) → All IsDigit (backwards (chars (decimal_digits k x)))
unfolding decimal_digits
decimal_digits-IsDigit zero x = tt
decimal_digits-IsDigit (suc k) x =
    let last : IsDigit (char_of (x % 10)) = (ground arith, ground arith) in
    elim (Bool-cases (x / 10 == 0)) [
      | inl e ↦ rw e (last, tt)
      | inr e ↦ rw e (
          All-append IsDigit (backwards (chars (decimal_digits k (x / 10)))) (char_of (x % 10) ∷ [])
            (decimal_digits-IsDigit k (x / 10)) (last, tt))
    ]

length-chars : (ds : List ℕ) → length (chars ds) ≡ length ds
length-chars [] = refl
length-chars (d ∷ ds) = omega (arith, length-chars ds)

length-decimal_digits : (k x : ℕ) → length (decimal_digits k x) ≤ k
unfolding decimal_digits
length-decimal_digits zero x = omega arith
length-decimal_digits (suc k) x = ground (arith, length-decimal_digits k (x / 10))

length-hex_digits : (k x : ℕ) → length (hex_digits k x) ≤ k
unfolding hex_digits
length-hex_digits zero x = omega arith
length-hex_digits (suc k) x = ground (arith, length-hex_digits k (x / 16))

backwards-append : (cs ds : List ℕ) → backwards (cs ++ ds) ≡ backwards ds ++ backwards cs
backwards-append [] ds = sym (append-nil (backwards ds))
backwards-append (c ∷ cs) ds =
    ap (λ l. l ++ c ∷ []) (backwards-append cs ds)
    ∙ append_assoc (backwards ds) (backwards cs) (c ∷ [])

magnitude-lt : (n : ℕ) → magnitude n < limit 10 10
magnitude-lt n = omega arith

magnitude_lem :
    (n : ℕ) → n < 2 ^ 64 → magnitude n ≡ (if is_negative n then 2 ^ 64 - n else n) % 2 ^ 32
magnitude_lem n h = ground arith

sign_first :
    (b : Bool) (cs : List ℕ)
    → backwards (cs ++ (if b then 45 ∷ [] else [])) ≡ (if b then 45 ∷ [] else []) ++ backwards cs
sign_first true cs = backwards-append cs (45 ∷ [])
sign_first false cs = ap backwards (append-nil cs)

length-sign : (b : Bool) → length {A = ℕ} (if b then 45 ∷ [] else []) ≤ 1
length-sign true = omega arith
length-sign false = omega arith

-- printInteger of a 64-bit number: the buffer of 16 characters is never exceeded, and the characters
-- printed are a minus sign exactly for a negative number, and behind it nothing but decimal digits,
-- which read as the absolute value of the number modulo 2 ^ 32.
pub print_integer-read :
    (n : ℕ)
    → n < 2 ^ 64
    → (cs : List ℕ) × (print_integer n ≡ (if is_negative n then 45 ∷ [] else []) ++ cs)
      × All IsDigit cs
      × (read_from 10 0 cs ≡ (if is_negative n then 2 ^ 64 - n else n) % 2 ^ 32)
      × (length (integer_buffer n) ≤ 16)
unfolding print_integer integer_buffer
print_integer-read n h =
    let digits = decimal_digits decimal_fuel (magnitude n) in
    (
      backwards (chars digits),
      sign_first (is_negative n) (chars digits),
      decimal_digits-IsDigit decimal_fuel (magnitude n),
      read_from-decimal_digits decimal_fuel (magnitude n) (magnitude-lt n) ∙ magnitude_lem n h,
      omega (
        arith,
        length-append (chars digits) (if is_negative n then 45 ∷ [] else []),
        length-chars digits,
        length-decimal_digits decimal_fuel (magnitude n),
        length-sign (is_negative n),
      ),
    )

-- printAddress of a 64-bit address: the buffer of 24 characters is never exceeded, and what is
-- printed is 0x and upper-case digits that read as the address.
pub print_address-read :
    (n : ℕ)
    → n < 2 ^ 64
    → (cs : List ℕ) × (print_address n ≡ 48 ∷ 120 ∷ cs)
      × (read_from 16 0 cs ≡ n)
      × (length (address_buffer n) ≤ 24)
unfolding print_address address_buffer
print_address-read n h = (
  backwards (chars (hex_digits hex_fuel n)),
  backwards-append (chars (hex_digits hex_fuel n)) (120 ∷ 48 ∷ []),
  read_from-hex_digits hex_fuel n (omega arith),
  omega (
    arith,
    length-append (chars (hex_digits hex_fuel n)) (120 ∷ 48 ∷ []),
    length-chars (hex_digits hex_fuel n),
    length-hex_digits hex_fuel n,
  ),
)
