-- ===== src/Hashmap/Table.antt =====
-- Which bucket of a table an operation changes, and what `mapped_for` finds in the table then.
use native.Mathlib.Omega.{arith}
use native.Mathlib.Decide.{ℕ_discrete}
use native.Mathlib.Nat.{mod-lt}
use ubuntu_projects.Base.{
  ℕ, ◌%◌, ◌<◌, ◌≡◌, ◌≢◌, ap, sym, ◌∙◌, Option, none, some, List, [], if◌then◌else◌, length,
  get_elem?, set, length-set, get_elem?-set_self, get_elem?-set_ne, get_elem?-some,
  get_elem?-replicate, length-replicate,
}
use ubuntu_projects.Keys.{Keys}
use ubuntu_projects.Hashmap.{Hashmap, find_entry, hashmap, bucket_for, on_bucket, mapped_for}

-- There is at least one bucket, and as many as the table says.
pub record IsValid {K V : Type 0} (m : Hashmap K V) : Type 0 where
  pub some_buckets : 0 < m.buckets_count
  pub counted : length m.buckets ≡ m.buckets_count

module _ {K V : Type 0} (keys : Keys K) where
  open keys use {key_eq, key_eq_iff, hasher}

  abbrev pub index : K → Hashmap K V → ℕ
  index k m = hasher k % m.buckets_count

  pub index-lt : (k : K) (m : Hashmap K V) → IsValid m → index k m < length m.buckets
  index-lt k m valid = omega arith

  pub mapped-at :
      (k : K) (m : Hashmap K V) (b : List (K × V))
      → IsValid m
      → get_elem? m.buckets (index k m) ≡ some b
      → mapped_for keys k m ≡ some (find_entry keys k b)
  unfolding mapped_for bucket_for
  mapped-at k m b valid at = ground (arith, at)

  pub on_bucket-at :
      {R : Type 0} (f : List (K × V) → R × List (K × V)) (k : K) (m : Hashmap K V)
      (b : List (K × V))
      → IsValid m
      → get_elem? m.buckets (index k m) ≡ some b
      → on_bucket keys f k m
        ≡ some ((f b).0, record m { buckets = set m.buckets (index k m) (f b).1 })
  unfolding on_bucket bucket_for
  on_bucket-at f k m b valid at = ground (arith, at)

  -- the table after the bucket for a key has changed
  abbrev pub changed : K → Hashmap K V → List (K × V) → Hashmap K V
  changed k m b = record m { buckets = set m.buckets (index k m) b }

  pub changed-IsValid :
      (k : K) (m : Hashmap K V) (b : List (K × V)) → IsValid m → IsValid (changed k m b)
  changed-IsValid k m b valid = record {
    some_buckets = valid.some_buckets;
    counted = length-set m.buckets (index k m) b ∙ valid.counted;
  }

  mapped-changed_same :
      (k j : K) (m : Hashmap K V) (b : List (K × V))
      → IsValid m
      → index k m ≡ index j m
      → mapped_for keys j (changed k m b) ≡ some (find_entry keys j b)
  mapped-changed_same k j m b valid same =
      mapped-at j (changed k m b) b (changed-IsValid k m b valid) (
        ap (λ i. get_elem? (set m.buckets (index k m) b) i) (sym same)
        ∙ get_elem?-set_self m.buckets (index k m) b (index-lt k m valid))

  mapped-changed_other :
      (k j : K) (m : Hashmap K V) (b : List (K × V))
      → IsValid m
      → index k m ≢ index j m
      → mapped_for keys j (changed k m b) ≡ mapped_for keys j m
  mapped-changed_other k j m b valid differ =
      let (c, at) = get_elem?-some m.buckets (index j m) (index-lt j m valid) in
      let kept = get_elem?-set_ne m.buckets (index k m) (index j m) b differ ∙ at in
      mapped-at j (changed k m b) c (changed-IsValid k m b valid) kept
      ∙ sym (mapped-at j m c valid at)

  -- A change of a bucket that maps its key to `new`, and no other key, does so in the table.
  mapped-changed :
      (k j : K) (new : Option V) (m : Hashmap K V) (b c : List (K × V))
      → IsValid m
      → get_elem? m.buckets (index k m) ≡ some b
      → find_entry keys j c ≡ (if key_eq k j then new else find_entry keys j b)
      → mapped_for keys j (changed k m c) ≡ (if key_eq k j then some new else mapped_for keys j m)
  mapped-changed k j new m b c valid at e = elim (ℕ_discrete (index k m) (index j m)) [
    | yes same ↦
        let before = mapped-at j m b valid (ap (λ i. get_elem? m.buckets i) (sym same) ∙ at) in
        let after = mapped-changed_same k j m c valid same in ground (arith, e, before, after)
    | no differ ↦
        let after = mapped-changed_other k j m c valid differ in
        ground (arith, after, key_eq_iff k j)
  ]

  -- An operation that changes the bucket of its key, with its result read off the bucket before.
  pub on_bucket-changes :
      {R : Type 0} (f : List (K × V) → R × List (K × V)) (new : List (K × V) → Option V) (k j : K)
      (m : Hashmap K V)
      → IsValid m
      → ((b : List (K × V))
          → find_entry keys j (f b).1 ≡ (if key_eq k j then new b else find_entry keys j b))
      → (b : List (K × V)) × (n : Hashmap K V) × (on_bucket keys f k m ≡ some ((f b).0, n))
        × (mapped_for keys k m ≡ some (find_entry keys k b))
        × IsValid n
        × (mapped_for keys j n ≡ (if key_eq k j then some (new b) else mapped_for keys j m))
  on_bucket-changes f new k j m valid law =
      let (b, at) = get_elem?-some m.buckets (index k m) (index-lt k m valid) in
      (
        b,
        changed k m (f b).1,
        on_bucket-at f k m b valid at,
        mapped-at k m b valid at,
        changed-IsValid k m (f b).1 valid,
        mapped-changed k j (new b) m b (f b).1 valid at (law b),
      )

  pub hashmap-mapped_for :
      (n : ℕ)
      → 0 < n
      → IsValid (hashmap {K = K} {V = V} n)
        × ((j : K) → mapped_for keys j (hashmap {K = K} {V = V} n) ≡ some none)
  unfolding hashmap find_entry
  hashmap-mapped_for n lt =
      let valid : IsValid (hashmap {K = K} {V = V} n) = record {
        some_buckets = lt;
        counted = length-replicate n [];
      } in
      (
        valid,
        λ j.
            mapped-at j (hashmap n) [] valid
              (get_elem?-replicate n (index j (hashmap n)) [] (mod-lt (hasher j) lt)),
      )
