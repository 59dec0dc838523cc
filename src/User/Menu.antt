-- ===== src/User/Menu.antt =====
-- Which test userMain of src/userMain.cpp runs, for every character.
use os1_project.Prelude.{
  ℕ, zero, suc, ◌+◌, ◌-◌, ◌≡◌, refl, ap, ◌∙◌, inl, inr, Bool, true, false, ◌&&◌, ◌||◌, List, [],
  ◌∷◌, ◌==◌, leb, Bool-cases, if◌then◌else◌, arith,
}
use os1_project.Prelude.Int.{pos, negsuc, ◌-ℤ◌}
use os1_project.User.{
  Levels, Event, asked, got, undeclared, ran, named, went_wrong, no_such_test, select_test,
  check_test, user_main,
}

-- The tests that a level brings, 1 to 7.
abbrev pub level_of : ℕ → ℕ
level_of n = if leb n 2 || n == 7 then 2 else if leb n 4 then 3 else 4

abbrev pub is_declared : Levels → ℕ → Bool
is_declared l level = if level == 2 then l.level_2 else if level == 3 then l.level_3 else l.level_4

abbrev pub run_of : ℕ → List Event
run_of n = if n == 7 then ran 7 ∷ went_wrong ∷ named 7 ∷ [] else ran n ∷ named n ∷ []

-- What a user may expect of test `n`.
abbrev pub expected : Levels → ℕ → List Event
expected l n = if is_declared l (level_of n) then run_of n else undeclared (level_of n) ∷ []

low_test : (l : Levels) (n : ℕ) → leb 1 n && leb n 7 ≡ true → check_test l (pos n) ≡ expected l n
unfolding check_test select_test
low_test l zero h = absurd (cc)
low_test l (suc zero) h = elim (Bool-cases l.level_2) [ inl e ↦ rw e refl | inr e ↦ rw e refl ]
low_test l (suc (suc zero)) h = elim (Bool-cases l.level_2) [
  | inl e ↦ rw e refl
  | inr e ↦ rw e refl
]
low_test l (suc (suc (suc zero))) h = elim (Bool-cases l.level_3) [
  | inl e ↦ rw e refl
  | inr e ↦ rw e refl
]
low_test l (suc (suc (suc (suc zero)))) h = elim (Bool-cases l.level_3) [
  | inl e ↦ rw e refl
  | inr e ↦ rw e refl
]
low_test l (suc (suc (suc (suc (suc zero))))) h = elim (Bool-cases l.level_4) [
  | inl e ↦ rw e refl
  | inr e ↦ rw e refl
]
low_test l (suc (suc (suc (suc (suc (suc zero)))))) h = elim (Bool-cases l.level_4) [
  | inl e ↦ rw e refl
  | inr e ↦ rw e refl
]
low_test l (suc (suc (suc (suc (suc (suc (suc zero))))))) h = elim (Bool-cases l.level_2) [
  | inl e ↦ rw e refl
  | inr e ↦ rw e refl
]
low_test l (suc (suc (suc (suc (suc (suc (suc (suc n)))))))) h = absurd (ground arith)

high_test :
    (l : Levels) (n : ℕ) → leb 1 n && leb n 7 ≡ false → check_test l (pos n) ≡ no_such_test ∷ []
unfolding check_test select_test
high_test l zero h = refl
high_test l (suc zero) h = absurd (cc)
high_test l (suc (suc zero)) h = absurd (cc)
high_test l (suc (suc (suc zero))) h = absurd (cc)
high_test l (suc (suc (suc (suc zero)))) h = absurd (cc)
high_test l (suc (suc (suc (suc (suc zero))))) h = absurd (cc)
high_test l (suc (suc (suc (suc (suc (suc zero)))))) h = absurd (cc)
high_test l (suc (suc (suc (suc (suc (suc (suc zero))))))) h = absurd (cc)
high_test l (suc (suc (suc (suc (suc (suc (suc (suc n)))))))) h = ground arith

digit : (c : ℕ) → leb 48 c ≡ true → pos c -ℤ pos 48 ≡ pos (c - 48)
unfolding ◌-ℤ◌
digit c h = let g : leb (0 + 48) (c + 0) ≡ true = ground arith in rw g (ap pos (omega arith))

no_digit : (c : ℕ) → leb 48 c ≡ false → pos c -ℤ pos 48 ≡ negsuc (48 - c - 1)
unfolding ◌-ℤ◌
no_digit c h = let g : leb (0 + 48) (c + 0) ≡ false = ground arith in rw g (ap negsuc (omega arith))

below_test : (l : Levels) (n : ℕ) → check_test l (negsuc n) ≡ no_such_test ∷ []
unfolding check_test select_test
below_test l n = refl

-- For every character c and every choice of declared levels: if c is a digit from 1 to 7, userMain runs
-- that test and names it, where the level that brings it is declared, and says that the level is not
-- declared otherwise; for any other character it says that there is no such test.
pub user_main-expected :
    (l : Levels) (c : ℕ)
    → user_main l c
      ≡ asked ∷ got ∷ (if leb 49 c && leb c 55 then expected l (c - 48) else no_such_test ∷ [])
unfolding user_main
user_main-expected l c = elim (Bool-cases (leb 48 c)) [
  | inl e ↦ elim (Bool-cases (leb 1 (c - 48) && leb (c - 48) 7)) [
    | inl f ↦
        let g : leb 49 c && leb c 55 ≡ true = ground arith in
        rw g (ap (λ x. asked ∷ got ∷ x) (ap (check_test l) (digit c e) ∙ low_test l (c - 48) f))
    | inr f ↦
        let g : leb 49 c && leb c 55 ≡ false = ground arith in
        rw g (ap (λ x. asked ∷ got ∷ x) (ap (check_test l) (digit c e) ∙ high_test l (c - 48) f))
  ]
  | inr e ↦
      let g : leb 49 c && leb c 55 ≡ false = ground arith in
      rw g (ap (λ x. asked ∷ got ∷ x) (ap (check_test l) (no_digit c e) ∙ below_test l _))
]
