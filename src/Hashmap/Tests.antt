-- ===== src/Hashmap/Tests.antt =====
-- The theorems on threadsafe_hashmap.h with numbers as keys.
use ubuntu_projects.Base.{ℕ, ◌≡◌, ◌↔◌, refl, true, none, some, List, [], ◌∷◌, ◌==◌, arith}
use ubuntu_projects.Keys.{Keys}
use ubuntu_projects.Hashmap.{hashmap}
use ubuntu_projects.Hashmap.Copy.{Copies, copy_while, copy_while-Copies}
use ubuntu_projects.Hashmap.Refines.{Op, put, add, delete, all_calls, updates, Shows, hashmap-Shows}

same_number : (a b : ℕ) → ((a == b) ≡ true) ↔ (a ≡ b)
same_number a b = (λ e. ground arith, λ e. ground arith)

-- A number is its own hash.
abbrev numbers : Keys ℕ
numbers = record { key_eq = ◌==◌; key_eq_iff = same_number; hasher = λ n. n }

abbrev some_calls : List (Op ℕ ℕ)
some_calls = put 1 10 ∷ add 3 30 ∷ put 1 11 ∷ delete 3 ∷ []

hashmap-Shows_example :
    Shows numbers
      (all_calls numbers some_calls (some (hashmap 2)))
      (updates numbers some_calls (λ j. none))
hashmap-Shows_example = hashmap-Shows numbers 2 some_calls (omega arith)

-- Another thread makes calls before each of the two buckets is read.
abbrev rounds : List (List (Op ℕ ℕ))
rounds = (put 2 20 ∷ []) ∷ (delete 1 ∷ put 5 50 ∷ []) ∷ []

copy_while-Copies_example :
    Copies numbers 2 rounds
      (updates numbers some_calls (λ j. none))
      (copy_while numbers rounds 0 (all_calls numbers some_calls (some (hashmap 2))))
copy_while-Copies_example = copy_while-Copies numbers 2 some_calls rounds (omega arith) refl
