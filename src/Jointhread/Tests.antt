-- ===== src/Jointhread/Tests.antt =====
-- The theorem on jointhread.h at two objects.
use ubuntu_projects.Base.{ℕ, arith, none, List, [], ◌∷◌, refl}
use ubuntu_projects.Jointhread.{
  Threads, start, assign, destroy, check_join, thread_assign, thread_destroy, joinable, join,
}
use ubuntu_projects.Jointhread.Kept.{Op, started, perform_all, Keeps, perform_all-Keeps}

abbrev no_threads : Threads
no_threads = record { handle = λ i. none; joined = []; detached = [] }

-- Two objects start a thread each, the second is moved into the first, and the first goes.
abbrev calls : List (ℕ × Op)
calls = (0, Op.starts 0 10) ∷ (0, Op.starts 1 11) ∷ (0, Op.assigns 0 1) ∷ (0, Op.destroys 0) ∷ []

perform_all-Keeps_example : Keeps no_threads (started calls) (perform_all calls no_threads)
unfolding start assign destroy check_join thread_assign thread_destroy joinable join
perform_all-Keeps_example =
    perform_all-Keeps calls no_threads
      (refl, (refl, (λ e. ground (arith, e), (λ e. ground (arith, e), tt))))
