-- ===== src/Hashmap.antt =====
-- cppprojects/include/ts_lib/threadsafe_hashmap.h: a hash table with a lock for each bucket. A method
-- of a bucket runs under its lock, so it is one step from the bucket before to the bucket after.
pub mod Entries
pub mod Table
pub mod Map
pub mod Refines
pub mod Once
pub mod Kept
pub mod Copy
mod Tests
use mathlib.Core.List.{filter}
use ubuntu_projects.Base.{
  ℕ, ◌%◌, Bool, true, false, not, Option, none, some, List, [], ◌∷◌, ◌++◌, ◌==◌, if◌then◌else◌,
  replicate, get_elem?, set,
}
use ubuntu_projects.Keys.{Keys}

-- `m_data` of a bucket, from the front
abbrev pub Bucket : Type 0 → Type 0 → Type 0
Bucket K V = List (K × V)

module _ {K V : Type 0} (keys : Keys K) where
  -- `find_entry`, with the mapped value of the entry that is found
  unfoldable pub find_entry : K → Bucket K V → Option V
  find_entry k [] = none
  find_entry k ((j, v) ∷ b) = if keys.key_eq j k then some v else find_entry k b

  -- the assignment through the iterator that `find_entry` returns
  unfoldable pub assign : K → V → Bucket K V → Bucket K V
  assign k m [] = []
  assign k m ((j, v) ∷ b) = if keys.key_eq j k then (j, m) ∷ b else (j, v) ∷ assign k m b

  unfoldable pub bucket_insert_or_assign : K → V → Bucket K V → Bool × Bucket K V
  bucket_insert_or_assign k m b = elim (find_entry k b) [
    | some _ ↦ (false, assign k m b)
    | none ↦ (true, (k, m) ∷ b)
  ]

  unfoldable pub bucket_insert : K → V → Bucket K V → Bool × Bucket K V
  bucket_insert k m b = elim (find_entry k b) [ some _ ↦ (false, b) | none ↦ (true, (k, m) ∷ b) ]

  -- `remove_if`
  unfoldable pub bucket_remove : K → Bucket K V → Bucket K V
  bucket_remove k [] = []
  bucket_remove k ((j, v) ∷ b) =
      if keys.key_eq j k then bucket_remove k b else (j, v) ∷ bucket_remove k b

-- `m_buckets_count` and `m_buckets`
pub record Hashmap (K V : Type 0) : Type 0 where
  pub buckets_count : ℕ
  pub buckets : List (Bucket K V)

unfoldable pub hashmap : {K V : Type 0} → ℕ → Hashmap K V
hashmap buckets_count = record {
  buckets_count = buckets_count;
  buckets = replicate buckets_count [];
}

module _ {K V : Type 0} (keys : Keys K) where
  -- The number of the bucket. A remainder by 0 is undefined behaviour, `none`.
  unfoldable pub bucket_for : K → Hashmap K V → Option ℕ
  bucket_for k m = if m.buckets_count == 0 then none else some (keys.hasher k % m.buckets_count)

  -- A method of the bucket for a key; an index out of range is undefined behaviour too.
  unfoldable pub on_bucket :
      {R : Type 0} → (Bucket K V → R × Bucket K V) → K → Hashmap K V → Option (R × Hashmap K V)
  on_bucket f k m = elim (bucket_for k m) [
    | none ↦ none
    | some i ↦ elim (get_elem? m.buckets i) [
      | none ↦ none
      | some b ↦ some ((f b).0, record m { buckets = set m.buckets i (f b).1 })
    ]
  ]

  unfoldable pub insert_or_assign : K → V → Hashmap K V → Option (Bool × Hashmap K V)
  insert_or_assign k v = on_bucket (bucket_insert_or_assign keys k v) k

  unfoldable pub insert : K → V → Hashmap K V → Option (Bool × Hashmap K V)
  insert k v = on_bucket (bucket_insert keys k v) k

  unfoldable pub remove : K → Hashmap K V → Option (Unit {0} × Hashmap K V)
  remove k = on_bucket (λ b. (tt, bucket_remove keys k b)) k

  unfoldable pub mapped_for : K → Hashmap K V → Option (Option V)
  mapped_for k m = elim (bucket_for k m) [
    | none ↦ none
    | some i ↦ elim (get_elem? m.buckets i) [ none ↦ none | some b ↦ some (find_entry keys k b) ]
  ]

-- `copy`: the values of the buckets, one bucket after another
unfoldable pub copy : {K V : Type 0} → List (Bucket K V) → List (K × V)
copy [] = []
copy (b ∷ bs) = b ++ copy bs
