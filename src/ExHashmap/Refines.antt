-- ===== src/ExHashmap/Refines.antt =====
-- Any sequence of operations on a new table, `rehash` too, against a finite map that is a function. The
-- lock of the table keeps `rehash` apart from the others, each of which runs under the lock of its bucket.
use ubuntu_projects.Base.{
  some-same, ℕ, ◌%◌, ◌<◌, ◌≤◌, ◌≡◌, refl, ap, sym, ◌∙◌, Option, none, some, List, [], ◌∷◌,
  if◌then◌else◌, length, replicate,
}
use ubuntu_projects.Keys.{Keys}
use ubuntu_projects.Hashmap.{find_entry}
use ubuntu_projects.Hashmap.Entries.{get_or}
use ubuntu_projects.ExHashmap.{
  word, Bucket, bucket, ExHashmap, ex_hashmap, copy, size, bucket_insert_or_assign, bucket_insert,
  bucket_remove, on_bucket, insert_or_assign, insert, remove, mapped_for, rehash,
}
use ubuntu_projects.ExHashmap.Entries.{
  count, Sets, bucket_insert_or_assign-Sets, bucket_insert-Sets, bucket_remove-Sets,
}
use ubuntu_projects.ExHashmap.Placed.{
  IsValid, find_home, mapped_for-home, on_bucket-Sets, replicate-IsPlaced, size-copy,
}
use ubuntu_projects.ExHashmap.Rehash.{Rehashed, rehash-Rehashed}

-- A call of one of the methods that change the table; `rehash` is given a load factor.
pub data Op (K V F : Type 0) : Type 0 where
  put : K → V → Op K V F
  add : K → V → Op K V F
  delete : K → Op K V F
  resize : F → Op K V F

abbrev pub table : {K V R : Type 0} → Option (R × ExHashmap K V) → Option (ExHashmap K V)
table none = none
table (some (r, m)) = some m

module _ {K V F : Type 0} (keys : Keys K) (quotient_up : ℕ → F → ℕ) where
  abbrev pub call : Op K V F → ExHashmap K V → Option (ExHashmap K V)
  call (put k v) m = table (insert_or_assign keys k v m)
  call (add k v) m = table (insert keys k v m)
  call (delete k) m = table (remove keys k m)
  call (resize load_factor) m = rehash keys quotient_up load_factor m

  abbrev pub all_calls : List (Op K V F) → Option (ExHashmap K V) → Option (ExHashmap K V)
  all_calls ops none = none
  all_calls [] (some m) = some m
  all_calls (op ∷ ops) (some m) = all_calls ops (call op m)

  -- what the call does to the finite map
  abbrev pub update : Op K V F → (K → Option V) → K → Option V
  update (put k v) f j = if keys.key_eq k j then some v else f j
  update (add k v) f j = if keys.key_eq k j then some (get_or v (f k)) else f j
  update (delete k) f j = if keys.key_eq k j then none else f j
  update (resize load_factor) f j = f j

  abbrev pub updates : List (Op K V F) → (K → Option V) → K → Option V
  updates [] f = f
  updates (op ∷ ops) f = updates ops (update op f)

  -- A call of `rehash` does not come out at no bucket.
  abbrev pub Fits : Op K V F → ExHashmap K V → Type 0
  Fits (resize load_factor) m = 0 < quotient_up (size m) load_factor
  Fits _ m = Unit {0}

  abbrev pub AllFit : List (Op K V F) → Option (ExHashmap K V) → Type 0
  AllFit ops none = Unit {0}
  AllFit [] (some m) = Unit {0}
  AllFit (op ∷ ops) (some m) = Fits op m × AllFit ops (call op m)

  -- A valid table with the entries of the finite map, whose size is the number of its entries.
  abbrev pub Shows : Option (ExHashmap K V) → (K → Option V) → Type 0
  Shows none f = ⊥
  Shows (some m) f =
      IsValid keys m
      × (size m ≡ length (copy m.buckets) % word)
      × ((j : K) → mapped_for keys j m ≡ some (f j))

  home-shown :
      (m : ExHashmap K V) (f : K → Option V) (j : K)
      → IsValid keys m
      → mapped_for keys j m ≡ some (f j)
      → find_home keys m.buckets_count j m.buckets ≡ f j
  home-shown m f j valid e = some-same _ _ (sym (mapped_for-home keys m j valid) ∙ e)

  on_bucket-Shows :
      {R : Type 0} (g : Bucket K V → R × Bucket K V) (new : Bucket K V → Option V) (k : K)
      (m : ExHashmap K V) (f after : K → Option V)
      → IsValid keys m
      → ((j : K) → mapped_for keys j m ≡ some (f j))
      → ((b : Bucket K V) → count keys k b.entries ≤ 1 → Sets keys k b (g b).1 (new b))
      → ((b : Bucket K V) (j : K)
          → f k ≡ find_entry keys k b.entries
          → (if keys.key_eq k j then new b else f j) ≡ after j)
      → Shows (table (on_bucket keys g k m)) after
  on_bucket-Shows g new k m f after valid e law agrees =
      let (b, n, ran, before, placed, found) = on_bucket-Sets keys g new k m valid law in
      let old = sym (home-shown m f k valid (e k)) ∙ before in
      rw ran (
        placed,
        size-copy keys n placed,
        λ j.
            mapped_for-home keys n j placed
            ∙ ap some (
                found j
                ∙ ap (λ o. if keys.key_eq k j then new b else o) (home-shown m f j valid (e j))
                ∙ agrees b j old),
      )

  Rehashed-Shows :
      (m : ExHashmap K V) (n : ℕ) (f : K → Option V) (o : Option (ExHashmap K V))
      → ((j : K) → mapped_for keys j m ≡ some (f j))
      → Rehashed keys m n o
      → Shows o f
  Rehashed-Shows m n f none e rehashed = rehashed
  Rehashed-Shows m n f (some r) e (buckets, valid, same, sized) =
      (valid, size-copy keys r valid, λ j. same j ∙ e j)

  call-Shows :
      (op : Op K V F) (m : ExHashmap K V) (f : K → Option V)
      → Shows (some m) f
      → Fits op m
      → Shows (call op m) (update op f)
  unfolding insert_or_assign insert remove
  call-Shows (put k v) m f (valid, sized, e) fits =
      on_bucket-Shows (bucket_insert_or_assign keys k v) (λ b. some v) k m f (update (put k v) f)
        valid e (bucket_insert_or_assign-Sets keys k v) (λ b j old. refl)
  call-Shows (add k v) m f (valid, sized, e) fits =
      on_bucket-Shows (bucket_insert keys k v) (λ b. some (get_or v (find_entry keys k b.entries)))
        k m f (update (add k v) f) valid e (bucket_insert-Sets keys k v)
        (λ b j old. ap (λ o. if keys.key_eq k j then some (get_or v o) else f j) (sym old))
  call-Shows (delete k) m f (valid, sized, e) fits =
      on_bucket-Shows (bucket_remove keys k) (λ b. none) k m f (update (delete k) f) valid e
        (bucket_remove-Sets keys k) (λ b j old. refl)
  call-Shows (resize load_factor) m f (valid, sized, e) fits =
      Rehashed-Shows m (quotient_up (size m) load_factor) f (rehash keys quotient_up load_factor m)
        e (rehash-Rehashed keys quotient_up load_factor m valid fits)

  calls-Shows :
      (ops : List (Op K V F)) (o : Option (ExHashmap K V)) (f : K → Option V)
      → Shows o f
      → AllFit ops o
      → Shows (all_calls ops o) (updates ops f)
  calls-Shows ops none f shows fit = absurd shows
  calls-Shows [] (some m) f shows fit = shows
  calls-Shows (op ∷ ops) (some m) f shows (fits, fit) =
      calls-Shows ops (call op m) (update op f) (call-Shows op m f shows fits) fit

  ex_hashmap-start : (n : ℕ) → 0 < n → Shows (some (ex_hashmap n)) (λ j. none)
  unfolding ex_hashmap
  ex_hashmap-start n lt =
      let (placed, empty) = replicate-IsPlaced keys n lt in
      let m : ExHashmap K V = record { buckets_count = n; buckets = replicate n (bucket [] 0) } in
      (placed, size-copy keys m placed, λ j. mapped_for-home keys m j placed ∙ ap some (empty j))

  -- After any sequence of `insert_or_assign`, `insert`, `remove` and `rehash` on a new table of at
  -- least one bucket, in which no `rehash` computes 0 as its number of buckets, nothing has been
  -- undefined and the table is valid: `mapped_for` finds of every key what the finite map holds
  -- that starts empty and is changed by each call in turn, and `size` is the number of the
  -- entries, modulo 2 ^ 64.
  pub ex_hashmap-Shows :
      (n : ℕ) (ops : List (Op K V F))
      → 0 < n
      → AllFit ops (some (ex_hashmap n))
      → Shows (all_calls ops (some (ex_hashmap n))) (updates ops (λ j. none))
  ex_hashmap-Shows n ops lt fit =
      calls-Shows ops (some (ex_hashmap n)) (λ j. none) (ex_hashmap-start n lt) fit
