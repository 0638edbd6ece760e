-- ===== src/Queue/Tests.antt =====
-- The theorems on threadsafe_queue.h at a queue of two numbers.
use ubuntu_projects.Base.{ℕ, refl, false, none, some, List, [], ◌∷◌, ◌==◌, if◌then◌else◌, arith}
use ubuntu_projects.Base.Int.{pos}
use ubuntu_projects.Queue.Memory.{Sized, node, Nodes}
use ubuntu_projects.Queue.Push.{Holds, Becomes, New, push_all}
use ubuntu_projects.Queue.PushRange.{push_range-Holds}
use ubuntu_projects.Queue.Pop.{PopsN, pop_n-PopsN}
use ubuntu_projects.Queue.Concurrent.{Pops, late_pop, late_pop-Pops}
use ubuntu_projects.Queue.Moves.{Moved, assign-Moved}
use ubuntu_projects.Queue.{Queue, assign, State, push_range, pop_n, get_tail_protected}

-- the size of an `int`
instance abbrev int_sized : Sized ℕ
int_sized = record { size_of = 4 }

-- Nodes stand at the addresses 5, 6 and 7.
abbrev nodes : Nodes ℕ
nodes p =
    if p == 5
    then some (node (some 1) 6)
    else if p == 6
    then some (node (some 2) 7)
    else if p == 7
    then some (node none 0)
    else none

abbrev two_items : State ℕ
two_items = (nodes, record { interrupt_waiting = false; head = 5; tail = 7 })

two_items-Holds : Holds two_items (1 ∷ 2 ∷ [])
two_items-Holds = record {
  cells = (5, 1) ∷ (6, 2) ∷ [];
  linked = (6, refl, refl, refl, omega arith, (7, refl, refl, refl, omega arith, refl));
  listed = refl;
  ended = refl;
  fits = omega arith;
}

abbrev no_items : State ℕ
no_items = (nodes, record { interrupt_waiting = false; head = 7; tail = 7 })

no_items-Holds : Holds no_items []
no_items-Holds = record {
  cells = [];
  linked = refl;
  listed = refl;
  ended = refl;
  fits = omega arith;
}

abbrev addresses : List (ℕ × ℕ)
addresses = (8, 3) ∷ (9, 4) ∷ []

addresses-New : New nodes addresses
addresses-New = (refl, omega arith, refl, (refl, omega arith, refl, tt))

push_range-Holds_example : Becomes (push_range addresses two_items) (1 ∷ 2 ∷ 3 ∷ 4 ∷ [])
push_range-Holds_example =
    push_range-Holds addresses two_items (1 ∷ 2 ∷ []) two_items-Holds addresses-New

pop_n-PopsN_example : PopsN (pos 1) (1 ∷ 2 ∷ []) (pop_n 3 (pos 1) two_items)
pop_n-PopsN_example = pop_n-PopsN 3 (pos 1) two_items (1 ∷ 2 ∷ []) two_items-Holds (omega arith)

late_pop-Pops_example :
    Pops 0
      (1 ∷ 2 ∷ [])
      (3 ∷ 4 ∷ [])
      (late_pop 0 (get_tail_protected two_items) (push_all addresses (some two_items)))
late_pop-Pops_example =
    late_pop-Pops 0 addresses two_items (1 ∷ 2 ∷ []) two_items-Holds addresses-New

-- Besides, the nodes of another queue stand at the addresses 10 and 11.
abbrev two_queues : Nodes ℕ
two_queues p =
    if p == 10 then some (node (some 3) 11) else if p == 11 then some (node none 0) else nodes p

abbrev target : Queue
target = record { interrupt_waiting = false; head = 5; tail = 7 }

abbrev source : Queue
source = record { interrupt_waiting = false; head = 10; tail = 11 }

abbrev target-Holds : Holds (two_queues, target) (1 ∷ 2 ∷ [])
target-Holds = record {
  cells = (5, 1) ∷ (6, 2) ∷ [];
  linked = (6, refl, refl, refl, omega arith, (7, refl, refl, refl, omega arith, refl));
  listed = refl;
  ended = refl;
  fits = omega arith;
}

abbrev source-Holds : Holds (two_queues, source) (3 ∷ [])
source-Holds = record {
  cells = (10, 3) ∷ [];
  linked = (11, refl, refl, refl, omega arith, refl);
  listed = refl;
  ended = refl;
  fits = omega arith;
}

assign-Moved_example : Moved (3 ∷ []) (assign 3 8 (two_queues, target) source)
assign-Moved_example =
    assign-Moved 3 8 two_queues target source (1 ∷ 2 ∷ []) (3 ∷ []) target-Holds source-Holds
      (λ b i. (ground (arith, i), ground (arith, i)), refl, omega arith) refl (omega arith)
      (omega arith)
