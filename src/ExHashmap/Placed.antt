-- ===== src/ExHashmap/Placed.antt =====
-- A table in which every entry stands in the bucket for its key, and no key stands twice.
use mathlib.Core.Path.{subst}
use native.Mathlib.Decide.{ℕ_discrete}
use native.Mathlib.Nat.{mod-lt}
use ubuntu_projects.Base.{
  ℕ, zero, suc, ◌+◌, ◌%◌, ◌<◌, ◌≤◌, ◌≡◌, ◌≢◌, refl, ap, sym, ◌∙◌, ◌⊎◌, inl, inr, Option, none, some,
  List, [], ◌∷◌, if◌then◌else◌, arith, length, length-append, some-same, get_elem?, set, length-set,
  get_elem?-set_self, get_elem?-set_ne, get_elem?-some, get_elem?-replicate, length-replicate,
  replicate,
}
use ubuntu_projects.Keys.{Keys}
use ubuntu_projects.Hashmap.{find_entry}
use ubuntu_projects.ExHashmap.{
  word, Bucket, bucket, ExHashmap, sum_sizes, size, copy, bucket_num, on_bucket, mapped_for,
}
use ubuntu_projects.ExHashmap.Entries.{Sized, count, Sets}

replicate-elem :
    {A : Type 0} (n i : ℕ) {a : A} (b : A) → get_elem? (replicate n a) i ≡ some b → a ≡ b
replicate-elem zero i b e = absurd (ground (arith, e))
replicate-elem (suc n) zero b e = some-same _ b e
replicate-elem (suc n) (suc i) b e = replicate-elem n i b e

-- The size is the number of the entries, modulo the word.
total-Sized :
    {K V : Type 0} (bs : List (Bucket K V)) (sz : ℕ)
    → ((i : ℕ) (b : Bucket K V) → get_elem? bs i ≡ some b → Sized b)
    → sum_sizes bs (sz % word) ≡ (sz + length (copy bs)) % word
unfolding sum_sizes copy
total-Sized [] sz sized = omega arith
total-Sized (b ∷ bs) sz sized =
    let first = sized 0 b refl in
    let step : (sz % word + b.size) % word ≡ (sz + length b.entries) % word =
      omega (arith, first) in
    rw (step, length-append b.entries (copy bs))
      (omega (arith, total-Sized bs (sz + length b.entries) (λ i c e. sized (suc i) c e)))

module _ {K V : Type 0} (keys : Keys K) where
  open keys use {key_eq, key_eq_iff, hasher}

  pub record IsPlaced (n : ℕ) (bs : List (Bucket K V)) : Type 0 where
    pub some_buckets : 0 < n
    pub width : length bs ≡ n
    pub once :
        (k : K) (i : ℕ) (b : Bucket K V) → get_elem? bs i ≡ some b → count keys k b.entries ≤ 1
    pub apart :
        (k : K) (i : ℕ) (b : Bucket K V)
        → get_elem? bs i ≡ some b
        → i ≢ hasher k % n
        → count keys k b.entries ≡ 0
    pub sized : (i : ℕ) (b : Bucket K V) → get_elem? bs i ≡ some b → Sized b

  abbrev pub IsValid : ExHashmap K V → Type 0
  IsValid m = IsPlaced m.buckets_count m.buckets

  pub home-lt : (k : K) (n : ℕ) (bs : List (Bucket K V)) → IsPlaced n bs → hasher k % n < length bs
  home-lt k n bs placed = omega (arith, placed.some_buckets, placed.width)

  -- an element of a list of which one has been replaced
  set-cases :
      (bs : List (Bucket K V)) (h i : ℕ) (c d : Bucket K V)
      → h < length bs
      → get_elem? (set bs h c) i ≡ some d
      → ((h ≡ i) × (c ≡ d)) ⊎ ((h ≢ i) × (get_elem? bs i ≡ some d))
  set-cases bs h i c d lt e = elim (ℕ_discrete h i) [
    | yes same ↦
        let at = ap (λ j. get_elem? (set bs h c) j) same ∙ e in
        let self = get_elem?-set_self bs h c lt in inl (same, some-same c d (sym self ∙ at))
    | no differ ↦ inr (differ, sym (get_elem?-set_ne bs h i c differ) ∙ e)
  ]

  module _ (n : ℕ) (bs : List (Bucket K V)) (k : K) (b c : Bucket K V) (new : Option V)
      (placed : IsPlaced n bs) (at : get_elem? bs (hasher k % n) ≡ some b)
      (sets : Sets keys k b c new) where
    set-once :
        (j : K) (i : ℕ) (d : Bucket K V)
        → get_elem? (set bs (hasher k % n) c) i ≡ some d
        → count keys j d.entries ≤ 1
    set-once j i d e = elim (set-cases bs (hasher k % n) i c d (home-lt k n bs placed) e) [
      | inl (same, it) ↦
          subst (λ r. count keys j r.entries ≤ 1) it
            (ground (arith, sets.counted j, placed.once j (hasher k % n) b at))
      | inr (differ, there) ↦ placed.once j i d there
    ]

    set-apart :
        (j : K) (i : ℕ) (d : Bucket K V)
        → get_elem? (set bs (hasher k % n) c) i ≡ some d
        → i ≢ hasher j % n
        → count keys j d.entries ≡ 0
    set-apart j i d e ne = elim (set-cases bs (hasher k % n) i c d (home-lt k n bs placed) e) [
      | inl (same, it) ↦
          let away : hasher k % n ≢ hasher j % n = λ f. ne (sym same ∙ f) in
          let other : k ≢ j = λ f. away (ap (λ r. hasher r % n) f) in
          subst (λ r. count keys j r.entries ≡ 0) it
            (ground (
              arith,
              sets.counted j,
              key_eq_iff k j,
              other,
              placed.apart j (hasher k % n) b at away,
            ))
      | inr (differ, there) ↦ placed.apart j i d there ne
    ]

    set-Sized : (i : ℕ) (d : Bucket K V) → get_elem? (set bs (hasher k % n) c) i ≡ some d → Sized d
    set-Sized i d e = elim (set-cases bs (hasher k % n) i c d (home-lt k n bs placed) e) [
      | inl (same, it) ↦ subst (λ r. Sized r) it (sets.sized (placed.sized (hasher k % n) b at))
      | inr (differ, there) ↦ placed.sized i d there
    ]

    pub set-IsPlaced : IsPlaced n (set bs (hasher k % n) c)
    set-IsPlaced = record {
      some_buckets = placed.some_buckets;
      width = length-set bs (hasher k % n) c ∙ placed.width;
      once = set-once;
      apart = set-apart;
      sized = set-Sized;
    }

  -- what is found for a key in its bucket
  abbrev pub find_home : ℕ → K → List (Bucket K V) → Option V
  find_home n k bs = elim (get_elem? bs (hasher k % n)) [
    | none ↦ none
    | some b ↦ find_entry keys k b.entries
  ]

  pub find_home-at :
      (n : ℕ) (k : K) (bs : List (Bucket K V)) (b : Bucket K V)
      → get_elem? bs (hasher k % n) ≡ some b
      → find_home n k bs ≡ find_entry keys k b.entries
  find_home-at n k bs b at = rw (find_home, at)

  pub find_home-set :
      (n : ℕ) (bs : List (Bucket K V)) (k j : K) (b c : Bucket K V) (new : Option V)
      → IsPlaced n bs
      → get_elem? bs (hasher k % n) ≡ some b
      → Sets keys k b c new
      → find_home n j (set bs (hasher k % n) c) ≡ (if key_eq k j then new else find_home n j bs)
  find_home-set n bs k j b c new placed at sets = elim (ℕ_discrete (hasher k % n) (hasher j % n)) [
    | yes same ↦
        let after = find_home-at n j (set bs (hasher k % n) c) c (
          ap (λ i. get_elem? (set bs (hasher k % n) c) i) (sym same)
          ∙ get_elem?-set_self bs (hasher k % n) c (home-lt k n bs placed)) in
        let before = find_home-at n j bs b (ap (λ i. get_elem? bs i) (sym same) ∙ at) in
        ground (arith, after, before, sets.found j)
    | no differ ↦
        let other : k ≢ j = λ f. differ (ap (λ r. hasher r % n) f) in
        let kept =
          ap (λ o. elim o [ none ↦ none | some d ↦ find_entry keys j d.entries ])
            (get_elem?-set_ne bs (hasher k % n) (hasher j % n) c differ) in
        ground (arith, kept, key_eq_iff k j, other)
  ]

  pub mapped_for-home :
      (m : ExHashmap K V) (k : K)
      → IsValid m
      → mapped_for keys k m ≡ some (find_home m.buckets_count k m.buckets)
  unfolding mapped_for bucket_num
  mapped_for-home m k placed =
      let (b, at) =
        get_elem?-some m.buckets (hasher k % m.buckets_count)
          (home-lt k m.buckets_count m.buckets placed) in
      ground (arith, at, placed.some_buckets)

  -- An operation on the bucket for a key that sets the key there sets it in the table.
  pub on_bucket-Sets :
      {R : Type 0} (f : Bucket K V → R × Bucket K V) (new : Bucket K V → Option V) (k : K)
      (m : ExHashmap K V)
      → IsValid m
      → ((b : Bucket K V) → count keys k b.entries ≤ 1 → Sets keys k b (f b).1 (new b))
      → (b : Bucket K V) × (n : ExHashmap K V) × (on_bucket keys f k m ≡ some ((f b).0, n))
        × (find_home m.buckets_count k m.buckets ≡ find_entry keys k b.entries)
        × IsValid n
        × ((j : K)
            → find_home n.buckets_count j n.buckets
              ≡ (if key_eq k j then new b else find_home m.buckets_count j m.buckets))
  unfolding on_bucket bucket_num
  on_bucket-Sets f new k m placed law =
      let h = hasher k % m.buckets_count in
      let (b, at) = get_elem?-some m.buckets h (home-lt k m.buckets_count m.buckets placed) in
      let sets = law b (placed.once k h b at) in
      (
        b,
        record m { buckets = set m.buckets h (f b).1 },
        ground (arith, at, placed.some_buckets),
        find_home-at m.buckets_count k m.buckets b at,
        set-IsPlaced m.buckets_count m.buckets k b (f b).1 (new b) placed at sets,
        λ j. find_home-set m.buckets_count m.buckets k j b (f b).1 (new b) placed at sets,
      )

  -- A new table is valid and holds nothing.
  pub replicate-IsPlaced :
      (n : ℕ)
      → 0 < n
      → IsPlaced n (replicate n (bucket [] 0))
        × ((k : K) → find_home n k (replicate n (bucket [] 0)) ≡ none)
  unfolding find_entry
  replicate-IsPlaced n lt = (
    record {
      some_buckets = lt;
      width = length-replicate n (bucket [] 0);
      once =
          λ k i b e. subst (λ r. count keys k r.entries ≤ 1) (replicate-elem n i b e) (omega arith);
      apart = λ k i b e ne. subst (λ r. count keys k r.entries ≡ 0) (replicate-elem n i b e) refl;
      sized = λ i b e. subst (λ r. Sized r) (replicate-elem n i b e) (omega arith);
    },
    λ k.
        find_home-at n k (replicate n (bucket [] 0)) (bucket [] 0)
          (get_elem?-replicate n (hasher k % n) (bucket [] 0) (mod-lt (hasher k) lt)),
  )

  pub size-copy : (m : ExHashmap K V) → IsValid m → size m ≡ length (copy m.buckets) % word
  unfolding size
  size-copy m placed = omega (arith, total-Sized m.buckets 0 placed.sized)
