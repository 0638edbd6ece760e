-- ===== src/ExHashmap.antt =====
-- cppprojects/include/ts_lib/threadsafe_extended_hashmap.h: a hash table with a lock for each bucket
-- that counts its entries and can be given another number of buckets. The search in a bucket is
-- written as in threadsafe_hashmap.h.
pub mod Entries
pub mod Placed
pub mod Rehash
pub mod Refines
mod Tests
use ubuntu_projects.Base.{
  ℕ, ◌+◌, ◌-◌, ◌%◌, ◌^◌, Bool, true, false, Option, none, some, List, [], ◌∷◌, ◌++◌, ◌==◌,
  if◌then◌else◌, replicate, get_elem?, set,
}
use ubuntu_projects.Keys.{Keys}
use ubuntu_projects.Hashmap.{find_entry, assign}

-- `std::size_t` wraps round at this number.
abbrev pub word : ℕ
word = 2 ^ 64

-- `m_data` and `m_size`
pub record Bucket (K V : Type 0) : Type 0 where
  pub entries : List (K × V)
  pub size : ℕ

abbrev pub bucket : {K V : Type 0} → List (K × V) → ℕ → Bucket K V
bucket es n = record { entries = es; size = n }

module _ {K V : Type 0} (keys : Keys K) where
  unfoldable pub bucket_insert_or_assign : K → V → Bucket K V → Unit {0} × Bucket K V
  bucket_insert_or_assign k m b = elim (find_entry keys k b.entries) [
    | some _ ↦ (tt, bucket (assign keys k m b.entries) b.size)
    | none ↦ (tt, bucket ((k, m) ∷ b.entries) ((b.size + 1) % word))
  ]

  unfoldable pub bucket_insert : K → V → Bucket K V → Bool × Bucket K V
  bucket_insert k m b = elim (find_entry keys k b.entries) [
    | some _ ↦ (false, b)
    | none ↦ (true, bucket ((k, m) ∷ b.entries) ((b.size + 1) % word))
  ]

  -- `find_before_entry` and `erase_after`: the first entry for the key is erased, if there is one.
  unfoldable pub erase_entry : K → List (K × V) → Option (List (K × V))
  erase_entry k [] = none
  erase_entry k ((j, v) ∷ es) =
      if keys.key_eq j k
      then some es
      else elim (erase_entry k es) [ none ↦ none | some rest ↦ some ((j, v) ∷ rest) ]

  unfoldable pub bucket_remove : K → Bucket K V → Unit {0} × Bucket K V
  bucket_remove k b = elim (erase_entry k b.entries) [
    | none ↦ (tt, b)
    | some es ↦ (tt, bucket es ((b.size + (word - 1)) % word))
  ]

-- `m_buckets_count` and `m_buckets`
pub record ExHashmap (K V : Type 0) : Type 0 where
  pub buckets_count : ℕ
  pub buckets : List (Bucket K V)

unfoldable pub ex_hashmap : {K V : Type 0} → ℕ → ExHashmap K V
ex_hashmap buckets_count = record {
  buckets_count = buckets_count;
  buckets = replicate buckets_count (bucket [] 0);
}

-- the loop over the buckets that adds up their sizes
unfoldable pub sum_sizes : {K V : Type 0} → List (Bucket K V) → ℕ → ℕ
sum_sizes [] sz = sz
sum_sizes (b ∷ bs) sz = sum_sizes bs ((sz + b.size) % word)

unfoldable pub size : {K V : Type 0} → ExHashmap K V → ℕ
size m = sum_sizes m.buckets 0

-- `copy`: the entries of the buckets, one bucket after another
unfoldable pub copy : {K V : Type 0} → List (Bucket K V) → List (K × V)
copy [] = []
copy (b ∷ bs) = b.entries ++ copy bs

-- The number of the bucket for a key, of so many. A remainder by 0 is undefined behaviour, `none`.
unfoldable pub bucket_num : {K : Type 0} → Keys K → K → ℕ → Option ℕ
bucket_num keys k n = if n == 0 then none else some (keys.hasher k % n)

module _ {K V : Type 0} (keys : Keys K) where
  -- a method of the bucket for a key; an index out of range is undefined behaviour too
  unfoldable pub on_bucket :
      {R : Type 0} → (Bucket K V → R × Bucket K V) → K → ExHashmap K V → Option (R × ExHashmap K V)
  on_bucket f k m = elim (bucket_num keys k m.buckets_count) [
    | none ↦ none
    | some i ↦ elim (get_elem? m.buckets i) [
      | none ↦ none
      | some b ↦ some ((f b).0, record m { buckets = set m.buckets i (f b).1 })
    ]
  ]

  unfoldable pub insert_or_assign : K → V → ExHashmap K V → Option (Unit {0} × ExHashmap K V)
  insert_or_assign k v = on_bucket (bucket_insert_or_assign keys k v) k

  unfoldable pub insert : K → V → ExHashmap K V → Option (Bool × ExHashmap K V)
  insert k v = on_bucket (bucket_insert keys k v) k

  unfoldable pub remove : K → ExHashmap K V → Option (Unit {0} × ExHashmap K V)
  remove k = on_bucket (bucket_remove keys k) k

  unfoldable pub mapped_for : K → ExHashmap K V → Option (Option V)
  mapped_for k m = elim (bucket_num keys k m.buckets_count) [
    | none ↦ none
    | some i ↦ elim (get_elem? m.buckets i) [
      | none ↦ none
      | some b ↦ some (find_entry keys k b.entries)
    ]
  ]

  -- the node of an entry is moved to the front of its new bucket
  unfoldable pub move_node : ℕ → K × V → List (Bucket K V) → Option (List (Bucket K V))
  move_node sz (k, v) tmp = elim (bucket_num keys k sz) [
    | none ↦ none
    | some i ↦ elim (get_elem? tmp i) [
      | none ↦ none
      | some b ↦ some (set tmp i (bucket ((k, v) ∷ b.entries) ((b.size + 1) % word)))
    ]
  ]

  -- the loop over the nodes of an old bucket
  unfoldable pub move_nodes : ℕ → List (K × V) → List (Bucket K V) → Option (List (Bucket K V))
  move_nodes sz [] tmp = some tmp
  move_nodes sz (e ∷ es) tmp = elim (move_node sz e tmp) [
    | none ↦ none
    | some next ↦ move_nodes sz es next
  ]

  -- the loop over the old buckets
  unfoldable pub move_buckets :
      ℕ → List (Bucket K V) → List (Bucket K V) → Option (List (Bucket K V))
  move_buckets sz [] tmp = some tmp
  move_buckets sz (b ∷ bs) tmp = elim (move_nodes sz b.entries tmp) [
    | none ↦ none
    | some next ↦ move_buckets sz bs next
  ]

  -- `F` are the numbers of type double, and `quotient_up` is the rounded up quotient by one of them.
  unfoldable pub rehash : {F : Type 0} → (ℕ → F → ℕ) → F → ExHashmap K V → Option (ExHashmap K V)
  rehash quotient_up load_factor m =
      let sz = quotient_up (sum_sizes m.buckets 0) load_factor in
      elim (move_buckets sz m.buckets (replicate sz (bucket [] 0))) [
        | none ↦ none
        | some tmp ↦ some (record { buckets_count = sz; buckets = tmp })
      ]
