-- ===== src/Kernel/Frame/Calls.antt =====
-- The operations of src/Sem.cpp touch only the threads they know.
use os1_project.Prelude.{
  ℕ, zero, suc, ◌≡◌, ◌≢◌, refl, sym, ap, ◌∙◌, subst, inl, inr, Bool, true, false, some, List, [],
  ◌∷◌, ◌++◌, All, All-append, Bool-cases, Option-cases, ◌==◌, ==_iff, arith,
}
use mathlib.Core.Option.{some-injective}
use os1_project.Prelude.Int.{pos, ◌+ℤ◌, ◌-ℤ◌, ltb_ℤ}
use os1_project.Kernel.{Ptr, null, Tcb, Sem, Kernel, update, put}
use os1_project.Kernel.Semaphore.{
  Call, returns, dispatches, dangling, set_sem, block, wake, next_blocked, unblock, wait, signal,
  trywait, is_one, close_loop,
}
use os1_project.Kernel.Invariant.Blocking.{update_ne, update_self, updated_sem}
use os1_project.Kernel.Frame.{Threads, Confined, Confined-refl, Confined-trans, put-Confined}

abbrev pub ConfinedCall : (Ptr → Type 0) → Kernel → Call → Type 0
ConfinedCall P k (returns k' code) = Confined P k k'
ConfinedCall P k (dispatches k') = Confined P k k'
ConfinedCall P k dangling = Unit

pub differs : (a b : Ptr) → (a == b) ≡ false → a ≢ b
differs a b h = ground arith

module _ (P : Ptr → Type 0) where
  -- One thread of `P` is written to.
  pub write-Confined :
      (k : Kernel) (t : Ptr) (new : Tcb)
      → Threads P k
      → P t
      → Confined P k (record k { tcbs = update k.tcbs t new })
  write-Confined k t new w p = record {
    threads = record { running = w.running; ready = w.ready; blocked = w.blocked };
    others = λ d other. update_ne k.tcbs t new d (λ same. other t p (sym same));
    allocator = refl;
    same_sems = λ h. refl;
  }

  -- One semaphore is written to that is there.
  set_sem-Confined :
      (k : Kernel) (h : Ptr) (old new : Sem)
      → Threads P k
      → k.sems h ≡ some old
      → All P new.blocked_threads
      → Confined P k (set_sem k h new)
  unfolding update
  set_sem-Confined k h old new w there a = record {
    threads = record {
      running = w.running;
      ready = w.ready;
      blocked = λ h' s e.
          updated_sem (λ q s. All P s.blocked_threads) k.sems h h' (some new) s
            (λ f. subst (λ s. All P s.blocked_threads) (some-injective _ _ f) a)
            (λ n f. w.blocked h' s f) e;
    };
    others = λ d n. refl;
    allocator = refl;
    same_sems = λ h'. elim (Bool-cases (h' == h)) [
      | inl e ↦ rw (e, (==_iff h' h).0 e, there) refl
      | inr e ↦ rw e refl
    ];
  }

  block-Confined :
      (k : Kernel) (h : Ptr) (old s : Sem)
      → Threads P k
      → k.sems h ≡ some old
      → All P s.blocked_threads
      → ConfinedCall P k (block k h s)
  unfolding block
  block-Confined k h old s w there a = elim (Bool-cases (k.running == null)) [
    | inl e ↦ rw e (Confined-refl P k w)
    | inr e ↦
        let k1 = record k {
          tcbs = update k.tcbs k.running (record (k.tcbs k.running) { blocked = true });
        } in
        let c =
          write-Confined k k.running (record (k.tcbs k.running) { blocked = true }) w w.running in
        rw e (
          Confined-trans P k k1 _ c (
            set_sem-Confined k1 h old
              (record s { blocked_threads = s.blocked_threads ++ k.running ∷ [] }) c.threads there
              (All-append P s.blocked_threads (k.running ∷ []) a (w.running, tt))))
  ]

  ConfinedCall-after :
      (k k' : Kernel) (c : Call) → Confined P k k' → ConfinedCall P k' c → ConfinedCall P k c
  ConfinedCall-after k k' (returns k'' code) a b = Confined-trans P k k' k'' a b
  ConfinedCall-after k k' (dispatches k'') a b = Confined-trans P k k' k'' a b
  ConfinedCall-after k k' dangling a b = tt

  pub wait-Confined : (k : Kernel) (h : Ptr) → Threads P k → ConfinedCall P k (wait k h)
  unfolding wait
  wait-Confined k h w = elim (Bool-cases (h == null)) [
    | inl e ↦ rw e (Confined-refl P k w)
    | inr e ↦ elim (Option-cases (k.sems h)) [
      | inl gone ↦ rw (e, gone) tt
      | inr (s, there) ↦
          let down = record s { value = s.value -ℤ pos 1 } in
          let c = set_sem-Confined k h s down w there (w.blocked h s there) in
          elim (Bool-cases (ltb_ℤ down.value (pos 0))) [
            | inl z ↦
                rw (e, there, z)
                  (ConfinedCall-after k (set_sem k h down) (block (set_sem k h down) h down) c (
                    block-Confined (set_sem k h down) h down down c.threads
                      (update_self k.sems h (some down)) (w.blocked h s there)))
            | inr z ↦ rw (e, there, z) c
          ]
    ]
  ]

  next_blocked-All :
      (tcbs : Ptr → Tcb) (ts : List Ptr)
      → All P ts
      → ((next_blocked tcbs ts).0 ≢ null → P (next_blocked tcbs ts).0)
        × All P (next_blocked tcbs ts).1
  unfolding next_blocked
  next_blocked-All tcbs [] a = (λ n. absurd (n refl), tt)
  next_blocked-All tcbs (t ∷ ts) a =
      let rest = next_blocked-All tcbs ts a.1 in
      elim (Bool-cases (t == null)) [
        | inl e ↦ rw e ((λ n. absurd (n refl)), a.1)
        | inr e ↦ elim (Bool-cases (tcbs t).blocked) [
          | inl b ↦ rw (e, b) ((λ n. a.0), a.1)
          | inr b ↦ rw (e, b) rest
        ]
      ]

  wake-Confined :
      (k : Kernel) (t : Ptr) (told : Bool) → Threads P k → P t → Confined P k (wake k t told)
  unfolding wake
  wake-Confined k t told w p =
      let new = record (k.tcbs t) { blocked = false; semaphore_deleted = told } in
      let c = write-Confined k t new w p in
      Confined-trans P k (record k { tcbs = update k.tcbs t new }) _ c
        (put-Confined P (record k { tcbs = update k.tcbs t new }) t c.threads p)

  unblock-Confined :
      (k : Kernel) (ts : List Ptr) (told : Bool)
      → Threads P k
      → All P ts
      → Confined P k (unblock k ts told).0
        × ((unblock k ts told).0.sems ≡ k.sems)
        × All P (unblock k ts told).1
  unfolding unblock wake put
  unblock-Confined k ts told w a =
      let (found, left) = next_blocked-All k.tcbs ts a in
      elim (Bool-cases ((next_blocked k.tcbs ts).0 == null)) [
        | inl e ↦ rw e (Confined-refl P k w, refl, left)
        | inr e ↦
            rw e (
              wake-Confined k (next_blocked k.tcbs ts).0 told w (found (differs _ _ e)),
              refl,
              left,
            )
      ]

  pub signal-Confined : (k : Kernel) (h : Ptr) → Threads P k → ConfinedCall P k (signal k h)
  unfolding signal
  signal-Confined k h w = elim (Bool-cases (h == null)) [
    | inl e ↦ rw e (Confined-refl P k w)
    | inr e ↦ elim (Option-cases (k.sems h)) [
      | inl gone ↦ rw (e, gone) tt
      | inr (s, there) ↦
          let up = record s { value = s.value +ℤ pos 1 } in
          elim (Bool-cases (ltb_ℤ (pos 0) up.value)) [
            | inl z ↦ rw (e, there, z) (set_sem-Confined k h s up w there (w.blocked h s there))
            | inr z ↦
                let (c, sems, left) =
                  unblock-Confined k s.blocked_threads false w (w.blocked h s there) in
                let k1 = (unblock k s.blocked_threads false).0 in
                rw (e, there, z)
                  (Confined-trans P k k1 _ c (
                    set_sem-Confined k1 h s
                      (record up { blocked_threads = (unblock k s.blocked_threads false).1 })
                      c.threads (ap (λ f. f h) sems ∙ there) left))
          ]
    ]
  ]

  pub trywait-Confined : (k : Kernel) (h : Ptr) → Threads P k → ConfinedCall P k (trywait k h)
  unfolding trywait
  trywait-Confined k h w = elim (Bool-cases (h == null)) [
    | inl e ↦ rw e (Confined-refl P k w)
    | inr e ↦ elim (Option-cases (k.sems h)) [
      | inl gone ↦ rw (e, gone) tt
      | inr (s, there) ↦ elim (Bool-cases (is_one s.value)) [
        | inl z ↦ rw (e, there, z) (set_sem-Confined k h s _ w there (w.blocked h s there))
        | inr z ↦ rw (e, there, z) (Confined-refl P k w)
      ]
    ]
  ]

  -- The loop of Sem::close lets threads go, and leaves the semaphores as they are.
  pub close_loop-Confined :
      (fuel : ℕ) (k : Kernel) (ts : List Ptr) (k' : Kernel) (left : List Ptr)
      → Threads P k
      → All P ts
      → close_loop fuel k ts ≡ some (k', left)
      → Confined P k k' × (k'.sems ≡ k.sems)
  unfolding close_loop
  close_loop-Confined zero k ts k' left w a e = absurd (cc)
  close_loop-Confined (suc fuel) k [] k' left w a e =
      let same = ap (λ x. x.0) (some-injective _ _ e) in
      subst (λ x. Confined P k x × (x.sems ≡ k.sems)) same (Confined-refl P k w, refl)
  close_loop-Confined (suc fuel) k (t ∷ ts) k' left w a e =
      let (c, sems, rest) = unblock-Confined k (t ∷ ts) true w a in
      let k1 = (unblock k (t ∷ ts) true).0 in
      let left1 = (unblock k (t ∷ ts) true).1 in
      elim (Bool-cases (t == null)) [
        | inl z ↦
            let f : some (k, t ∷ ts) ≡ some (k', left) = sym (rw z refl) ∙ e in
            subst (λ x. Confined P k x × (x.sems ≡ k.sems)) (ap (λ x. x.0) (some-injective _ _ f))
              (Confined-refl P k w, refl)
        | inr z ↦
            let f : close_loop fuel k1 left1 ≡ some (k', left) = sym (rw z refl) ∙ e in
            let (d, sems') = close_loop-Confined fuel k1 left1 k' left c.threads rest f in
            (Confined-trans P k k1 k' c d, sems' ∙ sems)
      ]
