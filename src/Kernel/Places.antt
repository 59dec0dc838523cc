-- ===== src/Kernel/Places.antt =====
-- Where each thread goes on and in which mode: what the semaphores of src/Sem.cpp leave alone.
pub mod Modes
pub mod Calls
use os1_project.Prelude.{
  ℕ, zero, suc, ◌≡◌, ◌≢◌, refl, sym, ap, ◌∙◌, subst, inl, inr, Bool, true, false, Option, none,
  some, List, [], ◌∷◌, ◌++◌, Bool-cases, Option-cases, if◌then◌else◌, length, ◌==◌, ==_iff, not,
  ◌&&◌,
}
use mathlib.Core.Option.{some-injective}
use os1_project.Prelude.Int.{ℤ, pos, negsuc, ◌+ℤ◌, ◌-ℤ◌, ltb_ℤ}
use os1_project.Kernel.{Ptr, null, Resume, Tcb, Sem, Kernel, update, put}
use os1_project.Kernel.Semaphore.{
  Call, returns, dispatches, dangling, set_sem, with_sem, on_sem, block, wake, next_blocked,
  unblock, wait, signal, trywait, is_one, close_loop, close,
}
use os1_project.Kernel.Semaphore.Closing.{close-parts, left_kernel}

abbrev pub place_of : Tcb → Resume × Bool
place_of t = (t.context, t.system_thread)

pub record SamePlaces (k k' : Kernel) : Type 0 where
  pub same_running : k'.running ≡ k.running
  pub same_place : (t : Ptr) → place_of (k'.tcbs t) ≡ place_of (k.tcbs t)

abbrev pub SameCall : Kernel → Call → Type 0
SameCall k (returns k' code) = SamePlaces k k'
SameCall k (dispatches k') = SamePlaces k k'
SameCall k dangling = Unit

SamePlaces-refl : (k : Kernel) → SamePlaces k k
SamePlaces-refl k = record { same_running = refl; same_place = λ t. refl }

-- One thread gets other flags.
pub flagged-place :
    (tcbs : Ptr → Tcb) (t : Ptr) (new : Tcb)
    → place_of new ≡ place_of (tcbs t)
    → (u : Ptr) → place_of (update tcbs t new u) ≡ place_of (tcbs u)
unfolding update
flagged-place tcbs t new e u = elim (Bool-cases (u == t)) [
  | inl s ↦ rw s (e ∙ ap (λ x. place_of (tcbs x)) (sym ((==_iff u t).0 s)))
  | inr s ↦ rw s refl
]

block_after : (k : Kernel) (h : Ptr) (s : Sem) → SameCall k (block (set_sem k h s) h s)
unfolding block
block_after k h s = elim (Bool-cases (k.running == null)) [
  | inl e ↦ rw e (record { same_running = refl; same_place = λ t. refl })
  | inr e ↦ rw e (record {
    same_running = refl;
    same_place = flagged-place k.tcbs k.running (record (k.tcbs k.running) { blocked = true }) refl;
  })
]

pub wait-SamePlaces : (k : Kernel) (h : Ptr) → SameCall k (wait k h)
unfolding wait
wait-SamePlaces k h = elim (Bool-cases (h == null)) [
  | inl e ↦ rw e (SamePlaces-refl k)
  | inr e ↦ elim (Option-cases (k.sems h)) [
    | inl gone ↦ rw (e, gone) tt
    | inr (s, there) ↦
        let down = record s { value = s.value -ℤ pos 1 } in
        elim (Bool-cases (ltb_ℤ down.value (pos 0))) [
          | inl z ↦ rw (e, there, z) (block_after k h down)
          | inr z ↦ rw (e, there, z) (record { same_running = refl; same_place = λ t. refl })
        ]
  ]
]

unblock-SamePlaces : (k : Kernel) (ts : List Ptr) (told : Bool) → SamePlaces k (unblock k ts told).0
unfolding unblock wake put
unblock-SamePlaces k ts told =
    let t = (next_blocked k.tcbs ts).0 in
    elim (Bool-cases (t == null)) [
      | inl e ↦ rw e (SamePlaces-refl k)
      | inr e ↦ rw e (record {
        same_running = refl;
        same_place =
            flagged-place k.tcbs t (record (k.tcbs t) { blocked = false; semaphore_deleted = told })
              refl;
      })
    ]

pub signal-SamePlaces : (k : Kernel) (h : Ptr) → SameCall k (signal k h)
unfolding signal
signal-SamePlaces k h = elim (Bool-cases (h == null)) [
  | inl e ↦ rw e (SamePlaces-refl k)
  | inr e ↦ elim (Option-cases (k.sems h)) [
    | inl gone ↦ rw (e, gone) tt
    | inr (s, there) ↦ elim (Bool-cases (ltb_ℤ (pos 0) (s.value +ℤ pos 1))) [
      | inl z ↦ rw (e, there, z) (record { same_running = refl; same_place = λ t. refl })
      | inr z ↦
          let w = unblock-SamePlaces k s.blocked_threads false in
          rw (e, there, z) (record { same_running = w.same_running; same_place = w.same_place })
    ]
  ]
]

pub trywait-SamePlaces : (k : Kernel) (h : Ptr) → SameCall k (trywait k h)
unfolding trywait
trywait-SamePlaces k h = elim (Bool-cases (h == null)) [
  | inl e ↦ rw e (SamePlaces-refl k)
  | inr e ↦ elim (Option-cases (k.sems h)) [
    | inl gone ↦ rw (e, gone) tt
    | inr (s, there) ↦ elim (Bool-cases (is_one s.value)) [
      | inl z ↦ rw (e, there, z) (record { same_running = refl; same_place = λ t. refl })
      | inr z ↦ rw (e, there, z) (SamePlaces-refl k)
    ]
  ]
]

close_loop-SamePlaces :
    (fuel : ℕ) (k : Kernel) (ts : List Ptr) (k' : Kernel) (left : List Ptr)
    → close_loop fuel k ts ≡ some (k', left)
    → SamePlaces k k'
unfolding close_loop
close_loop-SamePlaces zero k ts k' left e = absurd (cc)
close_loop-SamePlaces (suc fuel) k [] k' left e =
    subst (SamePlaces k) (ap (λ x. x.0) (some-injective _ _ e)) (SamePlaces-refl k)
close_loop-SamePlaces (suc fuel) k (t ∷ ts) k' left e =
    let r = unblock k (t ∷ ts) true in
    elim (Bool-cases (t == null)) [
      | inl z ↦
          let f : some (k, t ∷ ts) ≡ some (k', left) = sym (rw z refl) ∙ e in
          subst (SamePlaces k) (ap (λ x. x.0) (some-injective _ _ f)) (SamePlaces-refl k)
      | inr z ↦
          let f : close_loop fuel r.0 r.1 ≡ some (k', left) = sym (rw z refl) ∙ e in
          let a = unblock-SamePlaces k (t ∷ ts) true in
          let b = close_loop-SamePlaces fuel r.0 r.1 k' left f in
          record {
            same_running = b.same_running ∙ a.same_running;
            same_place = λ u. b.same_place u ∙ a.same_place u;
          }
    ]

pub close-SamePlaces :
    (k : Kernel) (h : Ptr) (s : Sem) (k' : Kernel) (code : ℤ)
    → h ≢ null
    → k.sems h ≡ some s
    → close k h ≡ some (returns k' code)
    → SamePlaces k k'
close-SamePlaces k h s k' code z there e =
    let (k1, left, f, g) = close-parts k h s z there in
    let w = close_loop-SamePlaces (suc (length s.blocked_threads)) k s.blocked_threads k1 left f in
    subst (SamePlaces k) (ap (left_kernel k) (some-injective _ _ (sym g ∙ e)))
      (record { same_running = w.same_running; same_place = w.same_place })
