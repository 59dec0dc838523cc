-- ===== src/User/Workers.antt =====
-- The function fibonacci of src/workers.cpp, and the yields on its way.
use os1_project.Prelude.{
  ℕ, zero, suc, ◌+◌, ◌%◌, ◌^◌, ◌≡◌, refl, ap, ◌∙◌, inl, inr, false, [], ◌==◌, Bool-cases,
  if◌then◌else◌, arith, ◌<◌, length, length-append,
}
use os1_project.User.{fibonacci}

-- Two numbers of Fibonacci in a row, from `n` on, with one addition for each.
abbrev pub fib_pair : ℕ → ℕ × ℕ
fib_pair zero = (0, 1)
fib_pair (suc n) = let (a, b) = fib_pair n in (b, a + b)

abbrev pub fib : ℕ → ℕ
fib n = (fib_pair n).0

fib_step : (n : ℕ) → fib (suc (suc n)) ≡ fib (suc n) + fib n
fib_step n = omega arith

-- The number that the recursion of fibonacci comes to is Fibonacci's number modulo 2 ^ 64.
pub fibonacci-fib : (n : ℕ) → (fibonacci n).0 ≡ fib n % 2 ^ 64
unfolding fibonacci
fibonacci-fib zero = refl
fibonacci-fib (suc zero) = refl
fibonacci-fib (suc (suc n)) = omega (arith, fibonacci-fib (suc n), fibonacci-fib n)

no_yields : (n : ℕ) → n < 10 → (fibonacci n).1 ≡ []
unfolding fibonacci
no_yields zero h = refl
no_yields (suc zero) h = refl
no_yields (suc (suc n)) h =
    let e : ((n + 2) % 10 == 0) ≡ false = ground arith in
    rw (e, no_yields (suc n) (omega arith), no_yields n (omega arith)) refl

yields_step :
    (n : ℕ)
    → length (fibonacci (suc (suc n))).1
      ≡ (if (n + 2) % 10 == 0 then 1 else 0)
        + (length (fibonacci (suc n)).1 + length (fibonacci n).1)
unfolding fibonacci
yields_step n =
    let a = (fibonacci (suc n)).1 in
    let b = (fibonacci n).1 in
    elim (Bool-cases ((n + 2) % 10 == 0)) [
      | inl e ↦ rw e (omega (arith, length-append a b))
      | inr e ↦ rw e (omega (arith, length-append a b))
    ]

abbrev behind_ten : ℕ → ℕ
behind_ten n = suc (suc (suc (suc (suc (suc (suc (suc (suc (suc n)))))))))

yields_behind : (n : ℕ) → n < 10 → length (fibonacci (behind_ten n)).1 ≡ fib (suc n)
unfolding fibonacci
yields_behind zero h =
    yields_step 8
    ∙ ap (λ x. 1 + (length x + length (fibonacci 8).1)) (no_yields 9 (omega arith))
    ∙ ap (λ x. 1 + (0 + length x)) (no_yields 8 (omega arith))
yields_behind (suc zero) h =
    yields_step 9
    ∙ ap (λ x. length (fibonacci 10).1 + length x) (no_yields 9 (omega arith))
    ∙ ap (λ x. x + 0) (yields_behind zero (omega arith))
yields_behind (suc (suc n)) h =
    let e : ((behind_ten n + 2) % 10 == 0) ≡ false = ground arith in
    yields_step (behind_ten n)
    ∙ rw e (omega (arith, yields_behind (suc n) (omega arith), yields_behind n (omega arith)))

-- fibonacci yields at its arguments 10, 20 and so on: below 10 not at all, and from 10 to 19 as often
-- as the Fibonacci number of what is above 9 tells.
pub fibonacci-yields : (n : ℕ) → n < 10 → length (fibonacci (n + 10)).1 ≡ fib (n + 1)
fibonacci-yields n h =
    let ten : n + 10 ≡ behind_ten n = omega arith in
    let one : n + 1 ≡ suc n = omega arith in rw (ten, one) (yields_behind n h)
