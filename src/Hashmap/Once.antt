-- ===== src/Hashmap/Once.antt =====
-- Every key has at most one entry in a table, and it is in the bucket of the key.
use mathlib.Core.Path.{subst}
use ubuntu_projects.Base.{
  ℕ, ◌%◌, ◌≡◌, refl, inl, inr, false, Option, none, some, List, [], ◌∷◌, ◌++◌, ◌==◌, if◌then◌else◌,
  arith, Option-cases, Bool-cases,
}
use ubuntu_projects.Keys.{Keys}
use ubuntu_projects.Hashmap.{
  find_entry, assign, bucket_insert_or_assign, bucket_insert, bucket_remove,
}
use ubuntu_projects.Hashmap.Entries.{find-assign, find-remove}

abbrev pub listed : {V : Type 0} → Option V → List V
listed none = []
listed (some v) = v ∷ []

module _ {K V : Type 0} (keys : Keys K) where
  open keys use {key_eq, key_eq_iff, hasher}

  -- the values of the entries for a key
  abbrev pub entries_for : K → List (K × V) → List V
  entries_for k [] = []
  entries_for k ((j, v) ∷ b) = if key_eq j k then v ∷ entries_for k b else entries_for k b

  pub entries_for-append :
      (k : K) (b c : List (K × V)) → entries_for k (b ++ c) ≡ entries_for k b ++ entries_for k c
  entries_for-append k [] c = refl
  entries_for-append k ((j, v) ∷ b) c = ground (arith, entries_for-append k b c)

  -- The bucket of number `i`, of `n`, has one entry for each of its keys that are found, and none else.
  abbrev pub Once : ℕ → ℕ → List (K × V) → Type 0
  Once n i b =
      (k : K) → entries_for k b ≡ (if hasher k % n == i then listed (find_entry keys k b) else [])

  entries_for-remove :
      (k j : K) (b : List (K × V))
      → entries_for j (bucket_remove keys k b) ≡ (if key_eq k j then [] else entries_for j b)
  unfolding bucket_remove
  entries_for-remove k j [] = ground arith
  entries_for-remove k j ((i, v) ∷ b) =
      ground (arith, key_eq_iff i k, key_eq_iff i j, key_eq_iff k j, entries_for-remove k j b)

  entries_for-assign_ne :
      (k j : K) (m : V) (b : List (K × V))
      → key_eq k j ≡ false
      → entries_for j (assign keys k m b) ≡ entries_for j b
  unfolding assign
  entries_for-assign_ne k j m [] ne = refl
  entries_for-assign_ne k j m ((i, v) ∷ b) ne =
      ground
        (arith, ne, key_eq_iff i k, key_eq_iff i j, key_eq_iff k j, entries_for-assign_ne k j m b)

  entries_for-assign_self :
      (k : K) (m v : V) (b : List (K × V))
      → entries_for k b ≡ v ∷ []
      → entries_for k (assign keys k m b) ≡ m ∷ []
  unfolding assign
  entries_for-assign_self k m v [] e = absurd (ground (arith, e))
  entries_for-assign_self k m v ((i, w) ∷ b) e = ground (arith, e, entries_for-assign_self k m v b)

  pub remove-Once :
      (n i : ℕ) (k : K) (b : List (K × V)) → Once n i b → Once n i (bucket_remove keys k b)
  remove-Once n i k b once =
      λ j. ground (arith, once j, entries_for-remove k j b, find-remove keys k j b)

  find-none :
      (n i : ℕ) (k : K) (b : List (K × V))
      → Once n i b
      → find_entry keys k b ≡ none
      → entries_for k b ≡ []
  find-none n i k b once new = ground (arith, once k, new)

  cons-Once :
      (n : ℕ) (k : K) (v : V) (b : List (K × V))
      → Once n (hasher k % n) b
      → find_entry keys k b ≡ none
      → Once n (hasher k % n) ((k, v) ∷ b)
  unfolding find_entry
  cons-Once n k v b once new =
      λ j. ground (arith, once j, key_eq_iff k j, find-none n (hasher k % n) k b once new)

  assign-Once :
      (n : ℕ) (k : K) (m v : V) (b : List (K × V))
      → Once n (hasher k % n) b
      → find_entry keys k b ≡ some v
      → Once n (hasher k % n) (assign keys k m b)
  assign-Once n k m v b once old = λ j. elim (Bool-cases (key_eq k j)) [
    | inl same ↦
        subst
          (λ i. entries_for i (assign keys k m b) ≡ (
            if hasher i % n == hasher k % n
            then listed (find_entry keys i (assign keys k m b))
            else []))
          ((key_eq_iff k j).0 same)
          (ground (
            arith,
            (key_eq_iff k k).1 refl,
            entries_for-assign_self k m v b (ground (arith, once k, old)),
            find-assign keys k k m v b old,
          ))
    | inr ne ↦
        ground (arith, ne, once j, entries_for-assign_ne k j m b ne, find-assign keys k j m v b old)
  ]

  pub insert_or_assign-Once :
      (n : ℕ) (k : K) (v : V) (b : List (K × V))
      → Once n (hasher k % n) b
      → Once n (hasher k % n) (bucket_insert_or_assign keys k v b).1
  unfolding bucket_insert_or_assign
  insert_or_assign-Once n k v b once = elim (Option-cases (find_entry keys k b)) [
    | inl new ↦ rw (new, bucket_insert_or_assign) (cons-Once n k v b once new)
    | inr (w, old) ↦ rw (old, bucket_insert_or_assign) (assign-Once n k v w b once old)
  ]

  pub insert-Once :
      (n : ℕ) (k : K) (v : V) (b : List (K × V))
      → Once n (hasher k % n) b
      → Once n (hasher k % n) (bucket_insert keys k v b).1
  unfolding bucket_insert
  insert-Once n k v b once = elim (Option-cases (find_entry keys k b)) [
    | inl new ↦ rw (new, bucket_insert) (cons-Once n k v b once new)
    | inr (w, old) ↦ rw (old, bucket_insert) once
  ]
