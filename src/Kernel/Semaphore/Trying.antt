-- ===== src/Kernel/Semaphore/Trying.antt =====
-- Sem::trywait beside Sem::wait.
use os1_project.Prelude.{
  ℕ, ◌≡◌, ◌≢◌, refl, ap, ◌⊎◌, inl, inr, true, false, some, arith, ne→==, Bool-cases, ◌==◌, ==_iff,
}
use os1_project.Prelude.Int.{ℤ, pos, negsuc, pos_part, ◌-ℤ◌, ltb_ℤ}
use os1_project.Kernel.{Ptr, null, Sem, Kernel}
use os1_project.Kernel.Semaphore.Counting.{down_positive}
use os1_project.Kernel.Semaphore.{returns, with_sem, is_one, wait, trywait}

one_test : (n : ℕ) → (n == 1) ≡ false → n ≡ 1 → ⊥
one_test n e p = ground arith

zero_one : (n : ℕ) → n ≡ 0 → n ≡ 1 → ⊥
zero_one n z p = omega arith

is_one_lem : (v : ℤ) → ((v ≡ pos 1) × (is_one v ≡ true)) ⊎ ((v ≢ pos 1) × (is_one v ≡ false))
is_one_lem (pos n) = elim (Bool-cases (n == 1)) [
  | inl e ↦ inl (ap pos ((==_iff n 1).0 e), e)
  | inr e ↦ inr ((λ p. absurd (one_test n e (ap pos_part p))), e)
]
is_one_lem (negsuc n) = inr ((λ p. absurd (zero_one 0 refl (ap pos_part p))), refl)

module _ (k : Kernel) (handle : Ptr) (s : Sem) (hn : handle ≢ null)
    (e : k.sems handle ≡ some s) where
  -- Sem::trywait of a present semaphore does what Sem::wait does, without blocking, if the value is 1;
  -- for every other value, a greater one included, it returns 1 and changes nothing.
  pub trywait-wait :
      ((s.value ≡ pos 1) × (trywait k handle ≡ wait k handle))
      ⊎ ((s.value ≢ pos 1) × (trywait k handle ≡ returns k (pos 1)))
  unfolding trywait wait
  trywait-wait = elim (is_one_lem s.value) [
    | inl (one, t) ↦ inl (one, rw (ne→== handle null hn, e, with_sem, t, down one) refl)
    | inr (other, t) ↦ inr (other, rw (ne→== handle null hn, e, with_sem, t) refl)
  ]
    where
      down : s.value ≡ pos 1 → ltb_ℤ (s.value -ℤ pos 1) (pos 0) ≡ false
      down one = down_positive s.value (omega (arith, ap pos_part one))
