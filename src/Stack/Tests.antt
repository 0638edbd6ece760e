-- ===== src/Stack/Tests.antt =====
-- The theorems on threadsafe_stack.h at a stack of two numbers.
use ubuntu_projects.Waits.{untimed, wait, called, woken}
use ubuntu_projects.Waits.Wakeup.{Threads, Reach, here, later, call, check, sleep}
use ubuntu_projects.Stack.Wait.{can_go, wait_and_pop}
use ubuntu_projects.Stack.Wakeup.{stack_container, start, asleep-attended}
use ubuntu_projects.Stack.{is_empty, Stack, with_items}
use ubuntu_projects.Base.{◌≤◌, ◌+◌, arith, refl, ℕ, ◌≡◌, ◌==◌, true, false, List, [], ◌∷◌}
use ubuntu_projects.Base.Int.{pos}
use ubuntu_projects.Stack.Counted.{
  Section, pushes_range, pops, tries, waits_n, stops, Balanced, put_in_all, perform_all,
  perform_all-Balanced,
}

abbrev two_items : Stack ℕ
two_items = record { interrupt_waiting = false; items = 5 ∷ 4 ∷ [] }

abbrev no_items : Stack ℕ
no_items = with_items [] two_items

-- One thread waits, another pushes, the first one wakes up; a pop and a stop follow.
abbrev sections : List (Section ℕ)
sections =
    waits_n (pos 2) called
    ∷ pushes_range (7 ∷ 8 ∷ 9 ∷ [])
    ∷ waits_n (pos 2) woken
    ∷ pops
    ∷ stops
    ∷ tries true
    ∷ []

perform_all-Balanced_example :
    Balanced (λ n. n == 8) (put_in_all sections) no_items (perform_all 0 sections no_items)
perform_all-Balanced_example = perform_all-Balanced (λ n. n == 8) 0 sections no_items

-- One thread has found no item and sleeps.
abbrev sleeper : Threads (Stack ℕ)
sleeper = record {
  container = no_items;
  checking = false;
  asleep = 1;
  awake = 0;
  pending = 0;
  pending_all = 0;
}

one_asleep : Reach stack_container (start no_items) sleeper
unfolding wait_and_pop untimed wait can_go is_empty
one_asleep = later (later (later here call) (check refl)) sleep

asleep-attended_example : (sleeper.container.interrupt_waiting ≡ false) × (0 ≤ 0 + 0)
asleep-attended_example = asleep-attended no_items sleeper one_asleep (omega arith)
