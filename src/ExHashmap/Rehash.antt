-- ===== src/ExHashmap/Rehash.antt =====
-- `rehash`: every entry is moved to the bucket for its key, of the new number of buckets.
pub mod Copy
use ubuntu_projects.Base.{
  ℕ, zero, suc, ◌+◌, ◌%◌, ◌<◌, ◌≤◌, ◌≡◌, ◌≢◌, refl, ap, sym, ◌∙◌, Bool, true, false, Option, none,
  some, List, [], ◌∷◌, ◌++◌, ◌==◌, if◌then◌else◌, arith, length, get_elem?, set, get_elem?-some,
  replicate,
}
use mathlib.Core.Path.{subst}
use ubuntu_projects.Keys.{Keys}
use ubuntu_projects.Hashmap.{find_entry}
use ubuntu_projects.ExHashmap.{
  word, Bucket, bucket, ExHashmap, sum_sizes, copy, bucket_num, move_node, move_nodes, move_buckets,
  rehash, mapped_for, size,
}
use ubuntu_projects.ExHashmap.Entries.{count, count-same, find-zero, Sets, push_front-Sets}
use ubuntu_projects.Hashmap.Entries.{find-same}
use ubuntu_projects.ExHashmap.Placed.{
  IsPlaced, IsValid, home-lt, find_home, find_home-at, find_home-set, set-IsPlaced,
  replicate-IsPlaced, mapped_for-home, size-copy,
}
use ubuntu_projects.ExHashmap.Rehash.Copy.{
  either, bind, move_buckets-copy, copy-home, either-none, length-copy-set, length-copy-replicate,
}

module _ {K V : Type 0} (keys : Keys K) where
  open keys use {key_eq, key_eq_iff, hasher}

  -- The buckets after some entries have been moved to them.
  abbrev Moved : ℕ → List (K × V) → List (Bucket K V) → Option (List (Bucket K V)) → Type 0
  Moved n es tmp none = ⊥
  Moved n es tmp (some bs) =
      IsPlaced keys n bs
      × ((k : K) → find_home keys n k bs ≡ either (find_entry keys k es) (find_home keys n k tmp))
      × (length (copy bs) ≡ length es + length (copy tmp))

  move_node-runs :
      (n : ℕ) (k : K) (v : V) (tmp : List (Bucket K V))
      → IsPlaced keys n tmp
      → find_home keys n k tmp ≡ none
      → (bs : List (Bucket K V)) × (move_node keys n (k, v) tmp ≡ some bs)
        × IsPlaced keys n bs
        × ((j : K)
            → find_home keys n j bs ≡ (if key_eq k j then some v else find_home keys n j tmp))
        × (length (copy bs) ≡ suc (length (copy tmp)))
  unfolding move_node bucket_num
  move_node-runs n k v tmp placed new =
      let (b, at) = get_elem?-some tmp (hasher k % n) (home-lt keys k n tmp placed) in
      let absent = sym (find_home-at keys n k tmp b at) ∙ new in
      let sets = push_front-Sets keys k v b absent in
      let c = bucket ((k, v) ∷ b.entries) ((b.size + 1) % word) in
      (
        set tmp (hasher k % n) c,
        ground (arith, at, placed.some_buckets),
        set-IsPlaced keys n tmp k b c (some v) placed at sets,
        λ j. find_home-set keys n tmp k j b c (some v) placed at sets,
        omega (arith, length-copy-set tmp (hasher k % n) b c at),
      )

  abbrev Joins : ℕ → K → V → List (K × V) → List (Bucket K V) → List (Bucket K V) → Type 0
  Joins n k v es tmp bs =
      ((j : K) → find_home keys n j bs ≡ (if key_eq k j then some v else find_home keys n j tmp))
      × (length (copy bs) ≡ suc (length (copy tmp)))

  Moved-first :
      (n : ℕ) (k : K) (v : V) (es : List (K × V)) (tmp bs : List (Bucket K V))
      (o : Option (List (Bucket K V)))
      → Joins n k v es tmp bs
      → count keys k es ≡ 0
      → Moved n es bs o
      → Moved n ((k, v) ∷ es) tmp o
  unfolding find_entry
  Moved-first n k v es tmp bs none joins gone moved = moved
  Moved-first n k v es tmp bs (some cs) (found, longer) gone (placed, there, total) = (
    placed,
    λ j. ground (
      arith,
      there j,
      found j,
      find-zero keys k es gone,
      count-same keys k j es,
      find-same keys k j es,
    ),
    omega (arith, total, longer),
  )

  move_nodes-Moved :
      (n : ℕ) (es : List (K × V)) (tmp : List (Bucket K V))
      → IsPlaced keys n tmp
      → ((k : K) → count keys k es ≤ 1)
      → ((k : K) → 0 < count keys k es → find_home keys n k tmp ≡ none)
      → Moved n es tmp (move_nodes keys n es tmp)
  unfolding move_nodes find_entry
  move_nodes-Moved n [] tmp placed once apart = (placed, λ k. refl, omega arith)
  move_nodes-Moved n ((k, v) ∷ es) tmp placed once apart =
      let same : key_eq k k ≡ true = (key_eq_iff k k).1 refl in
      let gone : count keys k es ≡ 0 = ground (arith, once k, same) in
      let (bs, ran, next, found, longer) =
        move_node-runs n k v tmp placed (apart k (ground (arith, same))) in
      let rest =
        move_nodes-Moved n es bs next (λ j. ground (arith, once j))
          (λ j lt. ground (arith, found j, once j, apart j, lt, count-same keys k j es, gone)) in
      Moved-first n k v es tmp bs (move_nodes keys n ((k, v) ∷ es) tmp) (found, longer) gone
        (rw (ran, move_nodes) rest)

  -- The table after `rehash`: it has the new number of buckets, and is valid with the same entries.
  abbrev pub Rehashed : ExHashmap K V → ℕ → Option (ExHashmap K V) → Type 0
  Rehashed m n none = ⊥
  Rehashed m n (some r) =
      (r.buckets_count ≡ n)
      × IsValid keys r
      × ((j : K) → mapped_for keys j r ≡ mapped_for keys j m)
      × (size r ≡ size m)

  -- A key stands in the list of all entries as in its bucket.
  copy-once :
      (m : ExHashmap K V) (k : K)
      → IsValid keys m
      → (count keys k (copy m.buckets) ≤ 1)
        × (find_entry keys k (copy m.buckets) ≡ find_home keys m.buckets_count k m.buckets)
  copy-once m k placed =
      let h = hasher k % m.buckets_count in
      let (b, at) = get_elem?-some m.buckets h (home-lt keys k m.buckets_count m.buckets placed) in
      let (counted, found) =
        copy-home keys k m.buckets h b at (λ i c e ne. placed.apart k i c e ne) in
      (
        omega (arith, counted, placed.once k h b at),
        found ∙ sym (find_home-at keys m.buckets_count k m.buckets b at),
      )

  abbrev table_of : ℕ → Option (List (Bucket K V)) → Option (ExHashmap K V)
  table_of n none = none
  table_of n (some tmp) = some (record { buckets_count = n; buckets = tmp })

  table_of-Rehashed :
      (m : ExHashmap K V) (n : ℕ) (o : Option (List (Bucket K V)))
      → IsValid keys m
      → ((k : K) → find_home keys n k (replicate n (bucket {K = K} {V = V} [] 0)) ≡ none)
      → Moved n (copy m.buckets) (replicate n (bucket [] 0)) o
      → Rehashed m n (table_of n o)
  table_of-Rehashed m n none valid empty moved = moved
  table_of-Rehashed m n (some tmp) valid empty (placed, found, total) =
      let after : ExHashmap K V = record { buckets_count = n; buckets = tmp } in
      let same : (j : K) → find_home keys n j tmp ≡ find_home keys m.buckets_count j m.buckets =
        λ j.
          found j
          ∙ ap (either (find_entry keys j (copy m.buckets))) (empty j)
          ∙ either-none (find_entry keys j (copy m.buckets))
          ∙ (copy-once m j valid).1 in
      (
        refl,
        placed,
        λ j.
            mapped_for-home keys after j placed
            ∙ ap some (same j)
            ∙ sym (mapped_for-home keys m j valid),
        omega (
          arith,
          size-copy keys after placed,
          size-copy keys m valid,
          total,
          length-copy-replicate K V n,
        ),
      )

  rehash-table_of :
      {F : Type 0} (quotient_up : ℕ → F → ℕ) (load_factor : F) (m : ExHashmap K V)
      → rehash keys quotient_up load_factor m
        ≡ table_of (quotient_up (size m) load_factor) (
            move_buckets keys
              (quotient_up (size m) load_factor)
              m.buckets
              (replicate (quotient_up (size m) load_factor) (bucket [] 0)))
  unfolding rehash size
  rehash-table_of quotient_up load_factor m = refl

  -- When the table is valid and the number of buckets that `rehash` computes is not 0, `rehash`
  -- does nothing undefined; the table then has that number of buckets and is valid, `mapped_for`
  -- finds of every key what it found before, and `size` is the same.
  pub rehash-Rehashed :
      {F : Type 0} (quotient_up : ℕ → F → ℕ) (load_factor : F) (m : ExHashmap K V)
      → IsValid keys m
      → 0 < quotient_up (size m) load_factor
      → Rehashed m (quotient_up (size m) load_factor) (rehash keys quotient_up load_factor m)
  rehash-Rehashed quotient_up load_factor m valid lt =
      let n = quotient_up (size m) load_factor in
      let (placed, empty) = replicate-IsPlaced keys n lt in
      rw
        (
          rehash-table_of quotient_up load_factor m,
          move_buckets-copy keys n m.buckets (replicate n (bucket [] 0)),
        )
        (table_of-Rehashed m n (move_nodes keys n (copy m.buckets) (replicate n (bucket [] 0)))
          valid empty
          (move_nodes-Moved n (copy m.buckets) (replicate n (bucket [] 0)) placed
            (λ k. (copy-once m k valid).0) (λ k lt. empty k)))
