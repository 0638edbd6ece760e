-- ===== src/ExHashmap/Tests.antt =====
-- The theorems on threadsafe_extended_hashmap.h with numbers as keys.
use ubuntu_projects.Base.{
  ℕ, ◌+◌, ◌-◌, ◌*◌, ◌/◌, ◌≡◌, ◌↔◌, true, none, some, List, [], ◌∷◌, ◌==◌, arith,
}
use ubuntu_projects.Keys.{Keys}
use ubuntu_projects.Hashmap.{find_entry}
use ubuntu_projects.ExHashmap.{
  bucket, ExHashmap, ex_hashmap, size, sum_sizes, bucket_num, on_bucket, rehash, insert_or_assign,
  insert, remove, bucket_insert_or_assign, bucket_insert, bucket_remove, erase_entry, move_node,
  move_nodes, move_buckets,
}
use ubuntu_projects.ExHashmap.Placed.{IsValid}
use ubuntu_projects.ExHashmap.Rehash.{Rehashed, rehash-Rehashed}
use ubuntu_projects.ExHashmap.Refines.{
  Op, put, add, delete, resize, all_calls, updates, AllFit, Shows, ex_hashmap-Shows,
}

same_number : (a b : ℕ) → ((a == b) ≡ true) ↔ (a ≡ b)
same_number a b = (λ e. ground arith, λ e. ground arith)

-- A number is its own hash.
abbrev numbers : Keys ℕ
numbers = record { key_eq = ◌==◌; key_eq_iff = same_number; hasher = λ n. n }

-- the rounded up quotient by a percentage
abbrev percent : ℕ → ℕ → ℕ
percent sz p = (sz * 100 + (p - 1)) / p

abbrev some_calls : List (Op ℕ ℕ ℕ)
some_calls = put 1 10 ∷ add 3 30 ∷ resize 70 ∷ delete 3 ∷ []

some_calls-AllFit : AllFit numbers percent some_calls (some (ex_hashmap 2))
unfolding ex_hashmap size sum_sizes bucket_num on_bucket rehash insert_or_assign insert remove
    bucket_insert_or_assign bucket_insert bucket_remove erase_entry find_entry move_buckets
    move_nodes move_node
some_calls-AllFit = (tt, (tt, (omega arith, (tt, tt))))

ex_hashmap-Shows_example :
    Shows numbers percent
      (all_calls numbers percent some_calls (some (ex_hashmap 2)))
      (updates numbers percent some_calls (λ j. none))
ex_hashmap-Shows_example =
    ex_hashmap-Shows numbers percent 2 some_calls (omega arith) some_calls-AllFit

-- The table that a call of `insert_or_assign` makes.
abbrev one_entry : ExHashmap ℕ ℕ
one_entry = record { buckets_count = 2; buckets = bucket [] 0 ∷ bucket ((1, 10) ∷ []) 1 ∷ [] }

one_entry-IsValid : IsValid numbers one_entry
unfolding ex_hashmap bucket_num on_bucket insert_or_assign bucket_insert_or_assign find_entry
one_entry-IsValid = (ex_hashmap-Shows numbers percent 2 (put 1 10 ∷ []) (omega arith) (tt, tt)).0

rehash-Rehashed_example : Rehashed numbers one_entry 2 (rehash numbers percent 70 one_entry)
unfolding size sum_sizes
rehash-Rehashed_example =
    rehash-Rehashed numbers percent 70 one_entry one_entry-IsValid (omega arith)
