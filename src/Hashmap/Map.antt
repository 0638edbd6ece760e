-- ===== src/Hashmap/Map.antt =====
-- The table as a finite map: what `mapped_for` finds after each operation.
use ubuntu_projects.Base.{◌≡◌, refl, Option, none, some, if◌then◌else◌}
use ubuntu_projects.Keys.{Keys}
use ubuntu_projects.Hashmap.{
  Hashmap, bucket_insert_or_assign, bucket_insert, bucket_remove, insert_or_assign, insert, remove,
  mapped_for, find_entry,
}
use ubuntu_projects.Hashmap.Entries.{
  is_none, get_or, inserted, find-insert_or_assign, find-insert, find-remove,
}
use ubuntu_projects.Hashmap.Table.{IsValid, on_bucket-changes}

-- The operation returns `r`, and after it the table is a valid one that maps `j` to `found`.
abbrev pub Gives :
    {K V R : Type 0} → Keys K → Option (R × Hashmap K V) → R → K → Option (Option V) → Type 0
Gives keys none r j found = ⊥
Gives keys (some (q, n)) r j found = (q ≡ r) × IsValid n × (mapped_for keys j n ≡ found)

module _ {K V : Type 0} (keys : Keys K) where
  -- On a valid table `insert_or_assign` returns whether the key had no entry; the table stays
  -- valid, `mapped_for` finds the new value at the key and at any other key what it found before.
  pub insert_or_assign-mapped_for :
      (k j : K) (v : V) (m : Hashmap K V)
      → IsValid m
      → (old : Option V) × (mapped_for keys k m ≡ some old)
        × Gives keys
            (insert_or_assign keys k v m)
            (is_none old)
            j
            (if keys.key_eq k j then some (some v) else mapped_for keys j m)
  unfolding insert_or_assign
  insert_or_assign-mapped_for k j v m valid =
      let (b, n, ran, before, kept, now) =
        on_bucket-changes keys (bucket_insert_or_assign keys k v) (λ b. some v) k j m valid
          (λ b. find-insert_or_assign keys k j v b) in
      (find_entry keys k b, before, rw ran ((inserted keys k v b).0, kept, now))

  -- On a valid table `insert` returns whether the key had no entry; the table stays valid,
  -- `mapped_for` finds at the key the old value, or the new one if there was none, and at any
  -- other key what it found before.
  pub insert-mapped_for :
      (k j : K) (v : V) (m : Hashmap K V)
      → IsValid m
      → (old : Option V) × (mapped_for keys k m ≡ some old)
        × Gives keys
            (insert keys k v m)
            (is_none old)
            j
            (if keys.key_eq k j then some (some (get_or v old)) else mapped_for keys j m)
  unfolding insert
  insert-mapped_for k j v m valid =
      let (b, n, ran, before, kept, now) =
        on_bucket-changes keys (bucket_insert keys k v) (λ b. some (get_or v (find_entry keys k b)))
          k j m valid (λ b. find-insert keys k j v b) in
      (find_entry keys k b, before, rw ran ((inserted keys k v b).1, kept, now))

  -- On a valid table `remove` returns and the table stays valid; `mapped_for` finds nothing at the
  -- key, and at any other key what it found before.
  pub remove-mapped_for :
      (k j : K) (m : Hashmap K V)
      → IsValid m
      → Gives keys
          (remove keys k m)
          tt
          j
          (if keys.key_eq k j then some none else mapped_for keys j m)
  unfolding remove
  remove-mapped_for k j m valid =
      let (b, n, ran, before, kept, now) =
        on_bucket-changes keys (λ b. (tt, bucket_remove keys k b)) (λ b. none) k j m valid
          (λ b. find-remove keys k j b) in
      rw ran (refl, kept, now)
