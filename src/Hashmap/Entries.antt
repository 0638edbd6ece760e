-- ===== src/Hashmap/Entries.antt =====
-- What is found in a bucket after each of its methods.
use ubuntu_projects.Base.{
  ◌≡◌, refl, ap, sym, inl, inr, Bool, true, false, Option, none, some, List, [], ◌∷◌, arith,
  if◌then◌else◌, Option-cases,
}
use ubuntu_projects.Keys.{Keys}
use ubuntu_projects.Hashmap.{
  find_entry, assign, bucket_insert_or_assign, bucket_insert, bucket_remove,
}

abbrev pub is_none {ℓ} : {A : Type ℓ} → Option A → Bool
is_none none = true
is_none (some a) = false

-- the value that an option holds, or a default
abbrev pub get_or {ℓ} : {A : Type ℓ} → A → Option A → A
get_or d none = d
get_or d (some a) = a

module _ {K V : Type 0} (keys : Keys K) where
  open keys use {key_eq, key_eq_iff}

  pub find-assign :
      (k j : K) (m v : V) (b : List (K × V))
      → find_entry keys k b ≡ some v
      → find_entry keys j (assign keys k m b) ≡ (if key_eq k j then some m else find_entry keys j b)
  unfolding find_entry assign
  find-assign k j m v [] e = cc
  find-assign k j m v ((i, w) ∷ b) e =
      ground (arith, key_eq_iff i k, key_eq_iff i j, key_eq_iff k j, find-assign k j m v b)

  pub find-remove :
      (k j : K) (b : List (K × V))
      → find_entry keys j (bucket_remove keys k b)
        ≡ (if key_eq k j then none else find_entry keys j b)
  unfolding find_entry bucket_remove
  find-remove k j [] = ground arith
  find-remove k j ((i, w) ∷ b) =
      ground (arith, key_eq_iff i k, key_eq_iff i j, key_eq_iff k j, find-remove k j b)

  find-cons :
      (k j : K) (m : V) (b : List (K × V))
      → find_entry keys j ((k, m) ∷ b) ≡ (if key_eq k j then some m else find_entry keys j b)
  unfolding find_entry
  find-cons k j m b = refl

  pub find-same :
      (k j : K) (b : List (K × V)) → key_eq k j ≡ true → find_entry keys j b ≡ find_entry keys k b
  find-same k j b e = ap (λ i. find_entry keys i b) (sym ((key_eq_iff k j).0 e))

  pub find-insert_or_assign :
      (k j : K) (m : V) (b : List (K × V))
      → find_entry keys j (bucket_insert_or_assign keys k m b).1
        ≡ (if key_eq k j then some m else find_entry keys j b)
  unfolding bucket_insert_or_assign
  find-insert_or_assign k j m b = elim (Option-cases (find_entry keys k b)) [
    | inl new ↦ rw (new, bucket_insert_or_assign) (find-cons k j m b)
    | inr (v, old) ↦ rw (old, bucket_insert_or_assign) (find-assign k j m v b old)
  ]

  pub find-insert :
      (k j : K) (m : V) (b : List (K × V))
      → find_entry keys j (bucket_insert keys k m b).1
        ≡ (if key_eq k j then some (get_or m (find_entry keys k b)) else find_entry keys j b)
  unfolding bucket_insert
  find-insert k j m b = elim (Option-cases (find_entry keys k b)) [
    | inl new ↦ rw (new, bucket_insert) (find-cons k j m b)
    | inr (v, old) ↦ rw (old, bucket_insert) (ground (arith, find-same k j b))
  ]

  -- Both say whether there was no entry for the key.
  pub inserted :
      (k : K) (m : V) (b : List (K × V))
      → ((bucket_insert_or_assign keys k m b).0 ≡ is_none (find_entry keys k b))
        × ((bucket_insert keys k m b).0 ≡ is_none (find_entry keys k b))
  unfolding bucket_insert_or_assign bucket_insert
  inserted k m b = (ground arith, ground arith)
