-- ===== src/User/Tests.antt =====
-- The programs on the kernel, in one case each.
use os1_project.Prelude.{◌≡◌, [], ◌∷◌}
use os1_project.Kernel.{Kernel}
use os1_project.Kernel.System.Tests.{unblocked}
use os1_project.User.{levels, asked, got, ran, named, undeclared, user_main, fibonacci}
use os1_project.User.Menu.{user_main-expected}
use os1_project.User.Workers.{fibonacci-fib}

-- The digit 3
user_main-expected_example : user_main levels 51 ≡ asked ∷ got ∷ ran 3 ∷ named 3 ∷ []
user_main-expected_example = user_main-expected levels 51

-- The digit 5, whose level is not declared
level_4_undeclared : user_main levels 53 ≡ asked ∷ got ∷ undeclared 4 ∷ []
level_4_undeclared = user_main-expected levels 53

-- The result that worker C prints
fibonacci_12 : (fibonacci 12).0 ≡ 144
fibonacci_12 = fibonacci-fib 12

-- The handle of the semaphore object at 3000 stands at 3008.
abbrev with_object : Kernel
with_object = record unblocked { words = λ p. 88 }
