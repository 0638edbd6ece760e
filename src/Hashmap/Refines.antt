-- ===== src/Hashmap/Refines.antt =====
-- Any sequence of operations on a new table, against a finite map that is a function. Since each
-- operation runs under the lock of its bucket, threads interleave their operations in some sequence.
use ubuntu_projects.Base.{◌≡◌, ◌∙◌, Option, none, some, List, [], ◌∷◌, ℕ, ◌<◌, if◌then◌else◌, arith}
use ubuntu_projects.Keys.{Keys}
use ubuntu_projects.Hashmap.{Hashmap, hashmap, insert_or_assign, insert, remove, mapped_for}
use ubuntu_projects.Hashmap.Entries.{is_none, get_or}
use ubuntu_projects.Hashmap.Table.{IsValid, hashmap-mapped_for}
use ubuntu_projects.Hashmap.Map.{
  Gives, insert_or_assign-mapped_for, insert-mapped_for, remove-mapped_for,
}

-- a call of one of the methods that change the table
pub data Op (K V : Type 0) : Type 0 where
  put : K → V → Op K V
  add : K → V → Op K V
  delete : K → Op K V

abbrev pub table : {K V R : Type 0} → Option (R × Hashmap K V) → Option (Hashmap K V)
table none = none
table (some (r, m)) = some m

module _ {K V : Type 0} (keys : Keys K) where
  abbrev pub call : Op K V → Hashmap K V → Option (Hashmap K V)
  call (put k v) m = table (insert_or_assign keys k v m)
  call (add k v) m = table (insert keys k v m)
  call (delete k) m = table (remove keys k m)

  abbrev pub all_calls : List (Op K V) → Option (Hashmap K V) → Option (Hashmap K V)
  all_calls ops none = none
  all_calls [] (some m) = some m
  all_calls (op ∷ ops) (some m) = all_calls ops (call op m)

  -- what the call does to the finite map
  abbrev pub update : Op K V → (K → Option V) → K → Option V
  update (put k v) f j = if keys.key_eq k j then some v else f j
  update (add k v) f j = if keys.key_eq k j then some (get_or v (f k)) else f j
  update (delete k) f j = if keys.key_eq k j then none else f j

  abbrev pub updates : List (Op K V) → (K → Option V) → K → Option V
  updates [] f = f
  updates (op ∷ ops) f = updates ops (update op f)

  -- a valid table with the entries of the finite map
  abbrev pub Shows : Option (Hashmap K V) → (K → Option V) → Type 0
  Shows none f = ⊥
  Shows (some m) f = IsValid m × ((j : K) → mapped_for keys j m ≡ some (f j))

  Gives-Shows :
      {R : Type 0} (o : Option (R × Hashmap K V)) (r : K → R) (k : K)
      (found : K → Option (Option V)) (f : K → Option V)
      → ((j : K) → Gives keys o (r j) j (found j))
      → ((j : K) → found j ≡ some (f j))
      → Shows (table o) f
  Gives-Shows none r k found f gives e = gives k
  Gives-Shows (some (q, n)) r k found f gives e = ((gives k).1, λ j. (gives j).2 ∙ e j)

  put_found :
      (k j : K) (v : V) (m : Hashmap K V) (f : K → Option V)
      → mapped_for keys j m ≡ some (f j)
      → (if keys.key_eq k j then some (some v) else mapped_for keys j m)
        ≡ some (update (put k v) f j)
  put_found k j v m f e = ground arith

  add_found :
      (k j : K) (v : V) (old : Option V) (m : Hashmap K V) (f : K → Option V)
      → mapped_for keys k m ≡ some old
      → mapped_for keys k m ≡ some (f k)
      → mapped_for keys j m ≡ some (f j)
      → (if keys.key_eq k j then some (some (get_or v old)) else mapped_for keys j m)
        ≡ some (update (add k v) f j)
  add_found k j v old m f before e e' = ground arith

  delete_found :
      (k j : K) (m : Hashmap K V) (f : K → Option V)
      → mapped_for keys j m ≡ some (f j)
      → (if keys.key_eq k j then some none else mapped_for keys j m) ≡ some (update (delete k) f j)
  delete_found k j m f e = ground arith

  pub call-Shows :
      (op : Op K V) (m : Hashmap K V) (f : K → Option V)
      → IsValid m
      → ((j : K) → mapped_for keys j m ≡ some (f j))
      → Shows (call op m) (update op f)
  call-Shows (put k v) m f valid e =
      let gives = λ (j : K). insert_or_assign-mapped_for keys k j v m valid in
      Gives-Shows (insert_or_assign keys k v m) (λ j. is_none (gives j).0) k
        (λ j. if keys.key_eq k j then some (some v) else mapped_for keys j m) (update (put k v) f)
        (λ j. (gives j).2) (λ j. put_found k j v m f (e j))
  call-Shows (add k v) m f valid e =
      let gives = λ (j : K). insert-mapped_for keys k j v m valid in
      Gives-Shows (insert keys k v m) (λ j. is_none (gives j).0) k
        (λ j. if keys.key_eq k j then some (some (get_or v (gives j).0)) else mapped_for keys j m)
        (update (add k v) f) (λ j. (gives j).2)
        (λ j. add_found k j v (gives j).0 m f (gives j).1 (e k) (e j))
  call-Shows (delete k) m f valid e =
      Gives-Shows (remove keys k m) (λ j. tt) k
        (λ j. if keys.key_eq k j then some none else mapped_for keys j m) (update (delete k) f)
        (λ j. remove-mapped_for keys k j m valid) (λ j. delete_found k j m f (e j))

  calls-Shows :
      (ops : List (Op K V)) (o : Option (Hashmap K V)) (f : K → Option V)
      → Shows o f
      → Shows (all_calls ops o) (updates ops f)
  calls-Shows ops none f shows = absurd shows
  calls-Shows [] (some m) f shows = shows
  calls-Shows (op ∷ ops) (some m) f shows =
      calls-Shows ops (call op m) (update op f) (call-Shows op m f shows.0 shows.1)

  -- No sequence of `insert_or_assign`, `insert` and `remove` on a new table of at least one bucket
  -- runs into undefined behaviour; after it the table is valid and `mapped_for` finds of every key
  -- what the finite map holds that starts empty and is changed by each call in turn.
  pub hashmap-Shows :
      (n : ℕ) (ops : List (Op K V))
      → 0 < n
      → Shows (all_calls ops (some (hashmap n))) (updates ops (λ j. none))
  hashmap-Shows n ops lt =
      calls-Shows ops (some (hashmap n)) (λ j. none) (hashmap-mapped_for keys n lt)
