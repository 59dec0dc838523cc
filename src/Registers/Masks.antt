-- ===== src/Registers/Masks.antt =====
-- What the masks of h/riscv.hpp come to.
use os1_project.Prelude.{
  ℕ, zero, suc, ◌+◌, ◌-◌, ◌*◌, ◌/◌, ◌%◌, ◌^◌, ◌<◌, ◌≡◌, ◌≢◌, refl, ap, ◌∙◌, inl, inr, false, arith,
  ◌==◌, if◌then◌else◌, Bool-cases, ==_iff,
}
use Prim.Native.Nat.{min, max}
use os1_project.Registers.{
  Registers, zip_bits, set_bits, clear_bits, bit_and, sstatus_sie, sstatus_spp, ms_sstatus,
  mc_sstatus, without_interrupts,
}

zip_bits-zero :
    (f : ℕ → ℕ → ℕ) → ((d : ℕ) → f d 0 ≡ d) → (n a : ℕ) → a < 2 ^ n → zip_bits f n a 0 ≡ a
unfolding zip_bits
zip_bits-zero f e zero a h = omega arith
zip_bits-zero f e (suc n) a h = omega (arith, zip_bits-zero f e n (a / 2) (omega arith), e (a % 2))

zip_bits_step :
    (f : ℕ → ℕ → ℕ) (n a b : ℕ)
    → zip_bits f (suc n) a b ≡ zip_bits f n (a / 2) (b / 2) * 2 + f (a % 2) (b % 2)
unfolding zip_bits
zip_bits_step f n a b = refl

max-zero : (d : ℕ) → max d 0 ≡ d
max-zero d = omega arith

sub-zero : (d : ℕ) → d - 0 ≡ d
sub-zero d = omega arith

min_and-zero : (n a : ℕ) → zip_bits min n a 0 ≡ 0
unfolding zip_bits
min_and-zero zero a = refl
min_and-zero (suc n) a = omega (arith, min_and-zero n (a / 2))

module _ (a : ℕ) (small : a < 2 ^ 64) where
  -- One digit of a 64-bit register at a time.
  pub set_bits-sie : set_bits a sstatus_sie ≡ a / 4 * 4 + 2 + a % 2
  set_bits-sie = omega (
    arith,
    zip_bits_step max 63 a 2,
    zip_bits_step max 62 (a / 2) 1,
    zip_bits-zero max max-zero 62 (a / 2 / 2) (omega arith),
  )

  pub clear_bits-sie : clear_bits a sstatus_sie ≡ a / 4 * 4 + a % 2
  clear_bits-sie = omega (
    arith,
    zip_bits_step (λ x y. x - y) 63 a 2,
    zip_bits_step (λ x y. x - y) 62 (a / 2) 1,
    zip_bits-zero (λ x y. x - y) sub-zero 62 (a / 2 / 2) (omega arith),
  )

  pub bit_and-sie : bit_and a sstatus_sie ≡ a / 2 % 2 * 2
  bit_and-sie =
      omega (
        arith,
        zip_bits_step min 63 a 2,
        zip_bits_step min 62 (a / 2) 1,
        min_and-zero 62 (a / 2 / 2),
      )

  pub set_bits-zero : set_bits a 0 ≡ a
  set_bits-zero = zip_bits-zero max max-zero 64 a small

differs : (a b : ℕ) → (a == b) ≡ false → a ≢ b
differs a b h = ground arith

restored :
    (x y : ℕ)
    → x < 2 ^ 64
    → y < 2 ^ 64
    → y / 2 % 2 ≡ 0
    → set_bits y (if bit_and x sstatus_sie == 0 then 0 else sstatus_sie)
      ≡ y / 4 * 4 + x / 2 % 2 * 2 + y % 2
restored x y small small' off = elim (Bool-cases (bit_and x sstatus_sie == 0)) [
  | inl e ↦ rw e (
      set_bits-zero y small'
      ∙ omega (arith, off, bit_and-sie x small, (==_iff (bit_and x sstatus_sie) 0).0 e))
  | inr e ↦ rw e (
      set_bits-sie y small'
      ∙ omega (arith, bit_and-sie x small, differs (bit_and x sstatus_sie) 0 e))
]

-- printInteger and printAddress, around work that leaves the bit SIE of a 64-bit sstatus as it finds it,
-- which the traps of putc do: interrupts are off when the work begins and when it ends, and behind it
-- SIE is what it was before, and every other bit is as the work left it.
pub without_interrupts-restores :
    (work : Registers → Registers) (c : Registers)
    → c.sstatus < 2 ^ 64
    → ((d : Registers)
        → d.sstatus < 2 ^ 64
        → ((work d).sstatus < 2 ^ 64) × ((work d).sstatus / 2 % 2 ≡ d.sstatus / 2 % 2))
    → ((mc_sstatus c sstatus_sie).sstatus / 2 % 2 ≡ 0)
      × ((work (mc_sstatus c sstatus_sie)).sstatus / 2 % 2 ≡ 0)
      × ((without_interrupts work c).sstatus
          ≡ (work (mc_sstatus c sstatus_sie)).sstatus / 4 * 4
            + c.sstatus / 2 % 2 * 2
            + (work (mc_sstatus c sstatus_sie)).sstatus % 2)
unfolding without_interrupts ms_sstatus mc_sstatus
without_interrupts-restores work c small keeps =
    let begins : (mc_sstatus c sstatus_sie).sstatus / 2 % 2 ≡ 0 =
      omega (arith, clear_bits-sie c.sstatus small) in
    let w = keeps (mc_sstatus c sstatus_sie) (omega (arith, clear_bits-sie c.sstatus small)) in
    let ends = w.1 ∙ begins in
    (begins, ends, restored c.sstatus (work (mc_sstatus c sstatus_sie)).sstatus small w.0 ends)

-- Where the mask has no bit, a set or a clear keeps the digit.
module _ (f : ℕ → ℕ → ℕ) (keeps : (d : ℕ) → f d 0 ≡ d) where
  zip_bits-even :
      (n a b c : ℕ)
      → b / 2 ≡ c
      → b % 2 ≡ 0
      → zip_bits f (suc n) a b ≡ zip_bits f n (a / 2) c * 2 + a % 2
  zip_bits-even n a b c half even =
      zip_bits_step f n a b
      ∙ ap (λ x. zip_bits f n (a / 2) x * 2 + f (a % 2) (b % 2)) half
      ∙ ap (λ x. zip_bits f n (a / 2) c * 2 + x) (ap (f (a % 2)) even ∙ keeps (a % 2))

  -- A mask of bit 8, on 64 bits.
  zip_bits-spp :
      (a : ℕ) → a < 2 ^ 64 → zip_bits f 64 a 256 ≡ a / 512 * 512 + f (a / 256 % 2) 1 * 256 + a % 256
  zip_bits-spp a small =
      let top = zip_bits-zero f keeps 55 (a / 2 / 2 / 2 / 2 / 2 / 2 / 2 / 2 / 2) (omega arith) in
      let digit : f (a / 2 / 2 / 2 / 2 / 2 / 2 / 2 / 2 % 2) 1 ≡ f (a / 256 % 2) 1 =
        ap (λ x. f x 1) (omega arith) in
      omega (
        arith,
        zip_bits-even 63 a 256 128 refl refl,
        zip_bits-even 62 (a / 2) 128 64 refl refl,
        zip_bits-even 61 (a / 2 / 2) 64 32 refl refl,
        zip_bits-even 60 (a / 2 / 2 / 2) 32 16 refl refl,
        zip_bits-even 59 (a / 2 / 2 / 2 / 2) 16 8 refl refl,
        zip_bits-even 58 (a / 2 / 2 / 2 / 2 / 2) 8 4 refl refl,
        zip_bits-even 57 (a / 2 / 2 / 2 / 2 / 2 / 2) 4 2 refl refl,
        zip_bits-even 56 (a / 2 / 2 / 2 / 2 / 2 / 2 / 2) 2 1 refl refl,
        zip_bits_step f 55 (a / 2 / 2 / 2 / 2 / 2 / 2 / 2 / 2) 1,
        top,
        digit,
      )

pub set_bits-spp : (a : ℕ) → a < 2 ^ 64 → set_bits a sstatus_spp ≡ a / 512 * 512 + 256 + a % 256
set_bits-spp a small = zip_bits-spp max max-zero a small ∙ omega arith

pub clear_bits-spp : (a : ℕ) → a < 2 ^ 64 → clear_bits a sstatus_spp ≡ a / 512 * 512 + a % 256
clear_bits-spp a small = zip_bits-spp (λ x y. x - y) sub-zero a small ∙ omega arith
