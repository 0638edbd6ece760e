-- ===== src/Hashmap/Kept.antt =====
-- The methods keep every key once in the table.
use mathlib.Core.Path.{subst}
use native.Mathlib.Decide.{ℕ_discrete}
use ubuntu_projects.Base.{
  ℕ, zero, suc, ◌<◌, ◌≡◌, refl, ap, sym, ◌∙◌, Option, none, some, List, [], ◌∷◌, arith, length,
  get_elem?, set, replicate, get_elem?-some, get_elem?-set_self, get_elem?-set_ne, some-same,
}
use ubuntu_projects.Keys.{Keys}
use ubuntu_projects.Hashmap.{
  Bucket, Hashmap, hashmap, find_entry, on_bucket, insert_or_assign, insert, remove,
  bucket_insert_or_assign, bucket_insert, bucket_remove,
}
use ubuntu_projects.Hashmap.Table.{IsValid, index, index-lt, on_bucket-at, hashmap-mapped_for}
use ubuntu_projects.Hashmap.Refines.{
  Op, put, add, delete, table, call, all_calls, update, updates, Shows, call-Shows,
}
use ubuntu_projects.Hashmap.Once.{Once, remove-Once, insert_or_assign-Once, insert-Once}

module _ {K V : Type 0} (keys : Keys K) where
  -- Every bucket has its keys once.
  abbrev pub AllOnce : Hashmap K V → Type 0
  AllOnce m =
      (i : ℕ) (b : Bucket K V) → get_elem? m.buckets i ≡ some b → Once keys m.buckets_count i b

  -- the table, if there is one
  abbrev IfTable : (Hashmap K V → Type 0) → Option (Hashmap K V) → Type 0
  IfTable P none = Unit {0}
  IfTable P (some m) = P m

  abbrev Kept : ℕ → Hashmap K V → Type 0
  Kept n m = AllOnce m × (m.buckets_count ≡ n)

  set-AllOnce :
      (m : Hashmap K V) (i : ℕ) (b : Bucket K V)
      → i < length m.buckets
      → AllOnce m
      → Once keys m.buckets_count i b
      → AllOnce (record m { buckets = set m.buckets i b })
  set-AllOnce m i b lt once new = λ j c at. elim (ℕ_discrete i j) [
    | yes same ↦
        let e = some-same b c (
          sym (get_elem?-set_self m.buckets i b lt)
          ∙ ap (get_elem? (set m.buckets i b)) same
          ∙ at) in
        subst (λ k. Once keys m.buckets_count k c) same (subst (Once keys m.buckets_count i) e new)
    | no ne ↦ once j c (sym (get_elem?-set_ne m.buckets i j b ne) ∙ at)
  ]

  on_bucket-Kept :
      {R : Type 0} (f : Bucket K V → R × Bucket K V) (k : K) (m : Hashmap K V)
      → IsValid m
      → AllOnce m
      → ((b : Bucket K V)
          → Once keys m.buckets_count (index keys k m) b
          → Once keys m.buckets_count (index keys k m) (f b).1)
      → IfTable (Kept m.buckets_count) (table (on_bucket keys f k m))
  on_bucket-Kept f k m valid once keeps =
      let lt = index-lt keys k m valid in
      let (b, at) = get_elem?-some m.buckets (index keys k m) lt in
      subst (λ o. IfTable (Kept m.buckets_count) (table o))
        (sym (on_bucket-at keys f k m b valid at))
        (
          set-AllOnce m (index keys k m) (f b).1 lt once (keeps b (once (index keys k m) b at)),
          refl,
        )

  call-Kept :
      (op : Op K V) (m : Hashmap K V)
      → IsValid m
      → AllOnce m
      → IfTable (Kept m.buckets_count) (call keys op m)
  unfolding insert_or_assign insert remove
  call-Kept (put k v) m valid once =
      on_bucket-Kept (bucket_insert_or_assign keys k v) k m valid once
        (λ b. insert_or_assign-Once keys m.buckets_count k v b)
  call-Kept (add k v) m valid once =
      on_bucket-Kept (bucket_insert keys k v) k m valid once
        (λ b. insert-Once keys m.buckets_count k v b)
  call-Kept (delete k) m valid once =
      on_bucket-Kept (λ b. (tt, bucket_remove keys k b)) k m valid once
        (λ b. remove-Once keys m.buckets_count (index keys k m) k b)

  -- A table of so many buckets that shows the finite map, and has every key once.
  abbrev pub Holds : ℕ → (K → Option V) → Option (Hashmap K V) → Type 0
  Holds n f none = ⊥
  Holds n f (some m) = Shows keys (some m) f × AllOnce m × (m.buckets_count ≡ n)

  call-Holds :
      (n : ℕ) (op : Op K V) (f : K → Option V) (m : Hashmap K V)
      → Holds n f (some m)
      → Holds n (update keys op f) (call keys op m)
  call-Holds n op f m (shows, once, count) =
      go (call keys op m) (call-Shows keys op m f shows.0 shows.1) (call-Kept op m shows.0 once)
    where
      go :
          (o : Option (Hashmap K V))
          → Shows keys o (update keys op f)
          → IfTable (Kept m.buckets_count) o
          → Holds n (update keys op f) o
      go none s k = s
      go (some u) s k = (s, k.0, k.1 ∙ count)

  pub calls-Holds :
      (n : ℕ) (ops : List (Op K V)) (f : K → Option V) (o : Option (Hashmap K V))
      → Holds n f o
      → Holds n (updates keys ops f) (all_calls keys ops o)
  calls-Holds n ops f none h = absurd h
  calls-Holds n [] f (some m) h = h
  calls-Holds n (op ∷ ops) f (some m) h =
      calls-Holds n ops (update keys op f) (call keys op m) (call-Holds n op f m h)

  replicate-same : (n i : ℕ) (a b : Bucket K V) → get_elem? (replicate n a) i ≡ some b → a ≡ b
  replicate-same zero i a b e = absurd (ground (arith, e))
  replicate-same (suc n) zero a b e = some-same a b e
  replicate-same (suc n) (suc i) a b e = replicate-same n i a b e

  find-nil : (k : K) → find_entry {V = V} keys k [] ≡ none
  unfolding find_entry
  find-nil k = refl

  pub new-Holds : (n : ℕ) → 0 < n → Holds n (λ j. none) (some (hashmap n))
  unfolding hashmap
  new-Holds n lt = (hashmap-mapped_for keys n lt, λ i b at. new_once i b at, refl)
    where
      new_once : (i : ℕ) (b : Bucket K V) → get_elem? (replicate n []) i ≡ some b → Once keys n i b
      new_once i b at =
          subst (Once keys n i) (replicate-same n i [] b at) (λ k. ground (arith, find-nil k))
