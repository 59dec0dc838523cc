-- ===== src/User.antt =====
-- The programs that run on the kernel: userMain of src/userMain.cpp, userMainWrapper of src/main.cpp and
-- the threads of src/workers.cpp. A test of the menu is an event: what it does is not followed.
pub mod Menu
pub mod Workers
pub mod Wrapper
mod Tests
use os1_project.Prelude.{
  ℕ, zero, suc, ◌+◌, ◌%◌, ◌^◌, Bool, true, false, ◌&&◌, ◌||◌, not, Option, none, some, List, [],
  ◌∷◌, ◌++◌, ◌==◌, leb, if◌then◌else◌, ◌>>=◌,
}
use os1_project.Prelude.Int.{ℤ, pos, negsuc, ◌-ℤ◌}
use os1_project.Allocator.{HeapBounds}
use os1_project.Kernel.{Ptr, Kernel}
use os1_project.Kernel.Trap.{Run}
use os1_project.Kernel.Interface.{Request, exit}
use os1_project.Kernel.Wrappers.{back, semaphore_signal}

-- LEVEL_2_IMPLEMENTED to LEVEL_4_IMPLEMENTED
pub record Levels : Type 0 where
  pub level_2 : Bool
  pub level_3 : Bool
  pub level_4 : Bool

abbrev pub levels : Levels
levels = record { level_2 = true; level_3 = true; level_4 = false }

-- What userMain does: it asks for a number and shows that it got one, says that a level is not
-- declared as implemented, runs a test, names the test that it ran, says that the last test went
-- wrong, or that there is no such test.
pub data Event : Type 0 where
  asked : Event
  got : Event
  undeclared : ℕ → Event
  ran : ℕ → Event
  named : ℕ → Event
  went_wrong : Event
  no_such_test : Event

abbrev is_between : ℕ → ℕ → ℤ → Bool
is_between a b (pos n) = leb a n && leb n b
is_between a b (negsuc n) = false

abbrev is_pos : ℕ → ℤ → Bool
is_pos a (pos n) = n == a
is_pos a (negsuc n) = false

abbrev when_declared : Bool → ℕ → List Event
when_declared declared n = if declared then ran n ∷ named n ∷ [] else []

-- The `switch` on the number of the test.
unfoldable pub select_test : Levels → ℤ → List Event
select_test l test =
    if is_pos 1 test
    then when_declared l.level_2 1
    else if is_pos 2 test
    then when_declared l.level_2 2
    else if is_pos 3 test
    then when_declared l.level_3 3
    else if is_pos 4 test
    then when_declared l.level_3 4
    else if is_pos 5 test
    then when_declared l.level_4 5
    else if is_pos 6 test
    then when_declared l.level_4 6
    else if is_pos 7 test
    then (if l.level_2 then ran 7 ∷ went_wrong ∷ named 7 ∷ [] else [])
    else no_such_test ∷ []

-- The tests of the levels in front of it.
unfoldable pub check_test : Levels → ℤ → List Event
check_test l test =
    if (is_between 1 2 test || is_pos 7 test) && not l.level_2
    then undeclared 2 ∷ []
    else if is_between 3 4 test && not l.level_3
    then undeclared 3 ∷ []
    else if is_between 5 6 test && not l.level_4
    then undeclared 4 ∷ []
    else select_test l test

-- userMain, where the first getc returns `c`; what the second one returns is dropped.
unfoldable pub user_main : Levels → ℕ → List Event
user_main l c = asked ∷ got ∷ check_test l (pos c -ℤ pos 48)

-- userMainWrapper behind its call of userMain: it signals the semaphore at `arg`, and exits.
unfoldable pub user_main_wrapper :
    HeapBounds → (Kernel → Request → Run) → Ptr → Kernel → Ptr → Option Run
user_main_wrapper heap trap caller k arg =
    back caller (semaphore_signal heap trap caller k arg) >>= λ (k', code). some (trap k' exit)

-- What a worker calls: printString, printInteger and TCB::yield. Its busy waits do nothing.
pub data Action : Type 0 where
  say : List ℕ → Action
  show : ℕ → Action
  yield : Action

-- printString("X: i="); printInteger(i); printString("\n");
abbrev line : ℕ → ℕ → List Action
line letter i = say (letter ∷ 58 ∷ 32 ∷ 105 ∷ 61 ∷ []) ∷ show i ∷ say (10 ∷ []) ∷ []

-- The loop over i, from `i` on and `n` times.
unfoldable pub rounds : ℕ → ℕ → ℕ → List Action
rounds letter i zero = []
rounds letter i (suc n) = line letter i ++ rounds letter (i + 1) n

unfoldable pub worker_body_a : List Action
worker_body_a = rounds 65 0 10

unfoldable pub worker_body_b : List Action
worker_body_b = rounds 66 0 16

-- The value in 64 bits, and the calls of TCB::yield on the way.
unfoldable pub fibonacci : ℕ → ℕ × List Action
fibonacci zero = (0, [])
fibonacci (suc zero) = (1, [])
fibonacci (suc (suc n)) =
    let (a, before) = fibonacci (suc n) in
    let (b, behind) = fibonacci n in
    ((a + b) % 2 ^ 64, (if (n + 2) % 10 == 0 then yield ∷ [] else []) ++ before ++ behind)

-- printString("X: fibonaci="); printInteger(result); printString("\n");
abbrev fibonacci_line : ℕ → ℕ → List Action
fibonacci_line letter result =
    say (letter ∷ 58 ∷ 32 ∷ 102 ∷ 105 ∷ 98 ∷ 111 ∷ 110 ∷ 97 ∷ 99 ∷ 105 ∷ 61 ∷ [])
    ∷ show result
    ∷ say (10 ∷ [])
    ∷ []

-- printString("X: yield\n"); TCB::yield();
abbrev yield_line : ℕ → List Action
yield_line letter = say (letter ∷ 58 ∷ 32 ∷ 121 ∷ 105 ∷ 101 ∷ 108 ∷ 100 ∷ 10 ∷ []) ∷ yield ∷ []

-- `t1` is what the register t1 has behind the yield.
unfoldable pub worker_body_c : ℕ → List Action
worker_body_c t1 =
    let (result, calls) = fibonacci 12 in
    rounds 67 0 3
    ++ yield_line 67
    ++ (say (67 ∷ 58 ∷ 32 ∷ 116 ∷ 49 ∷ 61 ∷ []) ∷ show t1 ∷ say (10 ∷ []) ∷ [])
    ++ calls
    ++ fibonacci_line 67 result
    ++ rounds 67 3 3

unfoldable pub worker_body_d : List Action
worker_body_d =
    let (result, calls) = fibonacci 16 in
    rounds 68 10 3 ++ yield_line 68 ++ calls ++ fibonacci_line 68 result ++ rounds 68 13 3
