-- ===== src/Hashmap/Copy.antt =====
-- `copy`, which locks one bucket after another, while other threads call the methods of the table.
use mathlib.Core.Path.{subst, transport}
use native.Mathlib.Decide.{ℕ_discrete, dec_lt}
use native.Mathlib.Nat.{mod-lt}
use ubuntu_projects.Base.{
  ℕ, zero, suc, ◌+◌, ◌-◌, ltb, ◌%◌, ◌<◌, ◌≡◌, refl, ap, sym, ◌∙◌, Option, none, some, List, [], ◌∷◌,
  ◌++◌, ◌==◌, if◌then◌else◌, arith, length, get_elem?, replicate, drop, get_elem?-some, some-same,
}
use ubuntu_projects.Keys.{Keys}
use ubuntu_projects.Hashmap.{Bucket, Hashmap, hashmap, find_entry, copy}
use ubuntu_projects.Hashmap.Kept.{Holds, calls-Holds, new-Holds}
use ubuntu_projects.Hashmap.Table.{index, mapped-at}
use ubuntu_projects.Hashmap.Refines.{Op, all_calls, updates}
use ubuntu_projects.Hashmap.Once.{listed, entries_for, entries_for-append, Once}

module _ {K V : Type 0} (keys : Keys K) where
  abbrev pub behind :
      Bucket K V → Option (List (K × V) × Hashmap K V) → Option (List (K × V) × Hashmap K V)
  behind b none = none
  behind b (some (out, m)) = some (b ++ out, m)

  -- `copy` from the bucket of number `i` on: before each bucket is read, other threads make calls.
  abbrev pub copy_while :
      List (List (Op K V)) → ℕ → Option (Hashmap K V) → Option (List (K × V) × Hashmap K V)
  copy_while rounds i none = none
  copy_while [] i (some m) = some ([], m)
  copy_while (ops ∷ rounds) i (some m) = elim (all_calls keys ops (some m)) [
    | none ↦ none
    | some n ↦ elim (get_elem? n.buckets i) [
      | none ↦ none
      | some b ↦ behind b (copy_while rounds (i + 1) (some n))
    ]
  ]

  -- what the finite map is when the bucket of a round has been reached
  abbrev pub seen : List (List (Op K V)) → ℕ → (K → Option V) → K → Option V
  seen [] d f = f
  seen (ops ∷ rounds) zero f = updates keys ops f
  seen (ops ∷ rounds) (suc d) f = seen rounds d (updates keys ops f)

  -- Of every key with a bucket from `i` on, the copy has what the map holds when that bucket is reached.
  abbrev CopiedFrom :
      ℕ → List (List (Op K V)) → ℕ → (K → Option V) → Option (List (K × V) × Hashmap K V) → Type 0
  CopiedFrom n rounds i f none = ⊥
  CopiedFrom n rounds i f (some (out, m)) =
      (k : K)
      → entries_for keys k out ≡ (
          if ltb (keys.hasher k % n) i
          then []
          else listed (seen rounds (keys.hasher k % n - i) f k))

  -- in the bucket of a key is found what the finite map holds
  found_there :
      (n : ℕ) (g : K → Option V) (u : Hashmap K V) (k : K) (b : Bucket K V)
      → Holds keys n g (some u)
      → get_elem? u.buckets (keys.hasher k % n) ≡ some b
      → find_entry keys k b ≡ g k
  found_there n g u k b (shows, once, count) at =
      let here : get_elem? u.buckets (index keys k u) ≡ some b =
        ap (λ c. get_elem? u.buckets (keys.hasher k % c)) count ∙ at in
      some-same (find_entry keys k b) (g k) (sym (mapped-at keys k u b shows.0 here) ∙ shows.1 k)

  append-listed : (o : Option V) → listed o ++ [] ≡ listed o
  append-listed none = refl
  append-listed (some v) = refl

  read-CopiedFrom :
      (n : ℕ) (ops : List (Op K V)) (rounds : List (List (Op K V))) (i : ℕ) (f : K → Option V)
      (u : Hashmap K V) (b : Bucket K V) (o : Option (List (K × V) × Hashmap K V))
      → Holds keys n (updates keys ops f) (some u)
      → get_elem? u.buckets i ≡ some b
      → CopiedFrom n rounds (i + 1) (updates keys ops f) o
      → CopiedFrom n (ops ∷ rounds) i f (behind b o)
  read-CopiedFrom n ops rounds i f u b none h at c = c
  read-CopiedFrom n ops rounds i f u b (some (out, m)) h at c = λ k.
      let idx = keys.hasher k % n in
      let once = ap (λ d. Once keys d i b) h.2 in
      let mine : entries_for keys k b ≡ (if idx == i then listed (find_entry keys k b) else []) =
        transport once (h.1 i b at) k in
      entries_for-append keys k b out ∙ elim (dec_lt idx i) [
        | yes before ↦ ground (arith, before, mine, c k)
        | no late ↦ elim (ℕ_discrete idx i) [
          | yes here ↦
              let there =
                found_there n (updates keys ops f) u k b h (ap (get_elem? u.buckets) here ∙ at) in
              let start : idx - i ≡ 0 = omega (arith, here) in
              ground (arith, here, mine, c k, there, append-listed (updates keys ops f k), start)
          | no other ↦
              let next : idx - i ≡ suc (idx - (i + 1)) = omega (arith, late, other) in
              ground (arith, late, other, mine, c k, next)
        ]
      ]

  copy_while-CopiedFrom :
      (n : ℕ) (rounds : List (List (Op K V))) (i : ℕ) (f : K → Option V) (o : Option (Hashmap K V))
      → 0 < n
      → Holds keys n f o
      → i + length rounds ≡ n
      → CopiedFrom n rounds i f (copy_while rounds i o)
  copy_while-CopiedFrom n rounds i f none pos h e = h
  copy_while-CopiedFrom n [] i f (some m) pos h e =
      λ k. ground (arith, e, mod-lt (keys.hasher k) pos)
  copy_while-CopiedFrom n (ops ∷ rounds) i f (some m) pos h e =
      let rest = λ (o : Option (Hashmap K V)) (g : Holds keys n (updates keys ops f) o).
        copy_while-CopiedFrom n rounds (i + 1) (updates keys ops f) o pos g (omega (arith, e)) in
      go (all_calls keys ops (some m)) (calls-Holds keys n ops f (some m) h) rest
    where
      go :
          (o : Option (Hashmap K V))
          → Holds keys n (updates keys ops f) o
          → ((o : Option (Hashmap K V))
              → Holds keys n (updates keys ops f) o
              → CopiedFrom n rounds (i + 1) (updates keys ops f) (copy_while rounds (i + 1) o))
          → CopiedFrom n (ops ∷ rounds) i f (elim o [
            | none ↦ none
            | some n ↦ elim (get_elem? n.buckets i) [
              | none ↦ none
              | some b ↦ behind b (copy_while rounds (i + 1) (some n))
            ]
          ])
      go none h more = h
      go (some u) h more =
          let lt : i < length u.buckets = omega (arith, e, h.0.0.counted, h.2) in
          let (b, at) = get_elem?-some u.buckets i lt in
          subst
            (λ c.
              CopiedFrom n (ops ∷ rounds) i f
                (elim c [ none ↦ none | some b ↦ behind b (copy_while rounds (i + 1) (some u)) ]))
            (sym at)
            (read-CopiedFrom n ops rounds i f u b (copy_while rounds (i + 1) (some u)) h at
              (more (some u) h))

  -- The copy is one, and of every key it has what the finite map holds when the bucket of that key is read:
  -- its value once, or nothing.
  abbrev pub Copies :
      ℕ → List (List (Op K V)) → (K → Option V) → Option (List (K × V) × Hashmap K V) → Type 0
  Copies n rounds f none = ⊥
  Copies n rounds f (some (out, m)) =
      (k : K) → entries_for keys k out ≡ listed (seen rounds (keys.hasher k % n) f k)

  -- After any sequence `ops` of `insert_or_assign`, `insert` and `remove` on a new table of at
  -- least one bucket, a `copy` that locks one bucket after another, while other threads make any
  -- such calls before each bucket is read, does nothing undefined. Of every key `k` it has what
  -- the finite map holds at the moment at which the bucket of that key is read: its value once, or
  -- nothing.
  pub copy_while-Copies :
      (n : ℕ) (ops : List (Op K V)) (rounds : List (List (Op K V)))
      → 0 < n
      → length rounds ≡ n
      → Copies n rounds
          (updates keys ops (λ j. none))
          (copy_while rounds 0 (all_calls keys ops (some (hashmap n))))
  copy_while-Copies n ops rounds pos e =
      go (copy_while rounds 0 (all_calls keys ops (some (hashmap n)))) (
        copy_while-CopiedFrom n rounds 0 (updates keys ops (λ j. none)) _ pos
          (calls-Holds keys n ops (λ j. none) (some (hashmap n)) (new-Holds keys n pos))
          (omega (arith, e)))
    where
      go :
          (o : Option (List (K × V) × Hashmap K V))
          → CopiedFrom n rounds 0 (updates keys ops (λ j. none)) o
          → Copies n rounds (updates keys ops (λ j. none)) o
      go none c = c
      go (some (out, m)) c = λ k.
          let same : keys.hasher k % n - 0 ≡ keys.hasher k % n = omega arith in
          ground (arith, c k, same)

  drop-at :
      (bs : List (Bucket K V)) (i : ℕ) (b : Bucket K V)
      → get_elem? bs i ≡ some b
      → drop i bs ≡ b ∷ drop (suc i) bs
  drop-at [] i b e = absurd (ground (arith, e))
  drop-at (c ∷ bs) zero b e = ap (λ d. d ∷ bs) (some-same c b e)
  drop-at (c ∷ bs) (suc i) b e = drop-at bs i b e

  drop_all : (bs : List (Bucket K V)) → drop (length bs) bs ≡ []
  drop_all [] = refl
  drop_all (b ∷ bs) = drop_all bs

  copy_while-drop :
      (l i : ℕ) (m : Hashmap K V)
      → i + l ≡ length m.buckets
      → copy_while (replicate l []) i (some m) ≡ some (copy (drop i m.buckets), m)
  unfolding copy
  copy_while-drop zero i m e =
      ap (λ bs. some (copy bs, m))
        (sym (drop_all m.buckets) ∙ ap (λ j. drop j m.buckets) (omega (arith, e)))
  copy_while-drop (suc l) i m e =
      let (b, at) = get_elem?-some m.buckets i (omega (arith, e)) in
      let more = copy_while-drop l (i + 1) m (omega (arith, e)) in
      let step : suc i ≡ i + 1 = omega arith in
      let split : b ∷ drop (i + 1) m.buckets ≡ drop i m.buckets =
        sym (drop-at m.buckets i b at ∙ ap (λ j. b ∷ drop j m.buckets) step) in
      subst
        (λ o.
          elim o [ none ↦ none | some c ↦ behind c (copy_while (replicate l []) (i + 1) (some m)) ]
          ≡ some (copy (drop i m.buckets), m))
        (sym at) (ap (behind b) more ∙ ap (λ cs. some (copy cs, m)) split)

  -- With no calls in between it is `copy`.
  pub copy_while-copy :
      (m : Hashmap K V)
      → copy_while (replicate (length m.buckets) []) 0 (some m) ≡ some (copy m.buckets, m)
  copy_while-copy m = copy_while-drop (length m.buckets) 0 m (omega arith)
