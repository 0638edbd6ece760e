-- ===== src/ExHashmap/Entries.antt =====
-- A bucket after each of its methods: what is found, how often a key stands there, and the size.
use mathlib.Core.Path.{subst}
use ubuntu_projects.Base.{
  ℕ, suc, ◌+◌, ◌-◌, ◌%◌, ◌≤◌, ◌≡◌, refl, ap, sym, inl, inr, true, false, Option, none, some, List,
  [], ◌∷◌, arith, if◌then◌else◌, length, Bool-cases, Option-cases,
}
use ubuntu_projects.Keys.{Keys}
use ubuntu_projects.Hashmap.{find_entry, assign}
use ubuntu_projects.Hashmap.Entries.{get_or, find-assign, find-same}
use ubuntu_projects.ExHashmap.{
  word, Bucket, bucket, bucket_insert_or_assign, bucket_insert, erase_entry, bucket_remove,
}

-- The size is the number of the entries, modulo the word.
abbrev pub Sized : {K V : Type 0} → Bucket K V → Type 0
Sized b = b.size ≡ length b.entries % word

-- how many entries an option stands for
abbrev pub present {ℓ} : {A : Type ℓ} → Option A → ℕ
present none = 0
present (some a) = 1

module _ {K V : Type 0} (keys : Keys K) where
  open keys use {key_eq, key_eq_iff}

  -- how many entries there are for a key
  abbrev pub count : K → List (K × V) → ℕ
  count k [] = 0
  count k ((j, v) ∷ es) = if key_eq j k then suc (count k es) else count k es

  -- The method gives the key the value `new`, or none, and no other key anything.
  pub record Sets (k : K) (b c : Bucket K V) (new : Option V) : Type 0 where
    pub found :
        (j : K)
        → find_entry keys j c.entries ≡ (if key_eq k j then new else find_entry keys j b.entries)
    pub counted :
        (j : K) → count j c.entries ≡ (if key_eq k j then present new else count j b.entries)
    pub sized : Sized b → Sized c

  pub count-none : (k : K) (es : List (K × V)) → find_entry keys k es ≡ none → count k es ≡ 0
  unfolding find_entry
  count-none k [] e = refl
  count-none k ((j, v) ∷ es) e = ground (arith, count-none k es)

  count-some :
      (k : K) (v : V) (es : List (K × V))
      → find_entry keys k es ≡ some v
      → count k es ≤ 1
      → count k es ≡ 1
  unfolding find_entry
  count-some k v [] e le = ground (arith, e)
  count-some k v ((j, w) ∷ es) e le = ground (arith, count-some k v es)

  pub count-same : (k j : K) (es : List (K × V)) → key_eq k j ≡ true → count j es ≡ count k es
  count-same k j es e = ap (λ i. count i es) (sym ((key_eq_iff k j).0 e))

  count-assign : (k j : K) (m : V) (es : List (K × V)) → count j (assign keys k m es) ≡ count j es
  unfolding assign
  count-assign k j m [] = refl
  count-assign k j m ((i, w) ∷ es) = ground (arith, count-assign k j m es)

  length-assign : (k : K) (m : V) (es : List (K × V)) → length (assign keys k m es) ≡ length es
  unfolding assign
  length-assign k m [] = refl
  length-assign k m ((i, w) ∷ es) = ground (arith, length-assign k m es)

  pub push_front-Sets :
      (k : K) (m : V) (b : Bucket K V)
      → find_entry keys k b.entries ≡ none
      → Sets k b (bucket ((k, m) ∷ b.entries) ((b.size + 1) % word)) (some m)
  unfolding find_entry
  push_front-Sets k m b new = record {
    found = λ j. refl;
    counted = λ j. ground (arith, count-none k b.entries new, count-same k j b.entries);
    sized = λ e. ground (arith, e);
  }

  assign-Sets :
      (k : K) (m v : V) (b : Bucket K V)
      → find_entry keys k b.entries ≡ some v
      → count k b.entries ≤ 1
      → Sets k b (bucket (assign keys k m b.entries) b.size) (some m)
  assign-Sets k m v b old once = record {
    found = λ j. find-assign keys k j m v b.entries old;
    counted = λ j. ground (
      arith,
      count-assign k j m b.entries,
      count-some k v b.entries old once,
      count-same k j b.entries,
    );
    sized = λ e. ground (arith, e, length-assign k m b.entries);
  }

  keep-Sets :
      (k : K) (b : Bucket K V) (o : Option V)
      → find_entry keys k b.entries ≡ o
      → count k b.entries ≡ present o
      → Sets k b b o
  keep-Sets k b o e n = record {
    found = λ j. ground (arith, e, find-same keys k j b.entries);
    counted = λ j. ground (arith, n, count-same k j b.entries);
    sized = λ s. s;
  }

  pub bucket_insert_or_assign-Sets :
      (k : K) (m : V) (b : Bucket K V)
      → count k b.entries ≤ 1
      → Sets k b (bucket_insert_or_assign keys k m b).1 (some m)
  unfolding bucket_insert_or_assign
  bucket_insert_or_assign-Sets k m b once = elim (Option-cases (find_entry keys k b.entries)) [
    | inl new ↦ rw (new, bucket_insert_or_assign) (push_front-Sets k m b new)
    | inr (v, old) ↦ rw (old, bucket_insert_or_assign) (assign-Sets k m v b old once)
  ]

  pub bucket_insert-Sets :
      (k : K) (m : V) (b : Bucket K V)
      → count k b.entries ≤ 1
      → Sets k b (bucket_insert keys k m b).1 (some (get_or m (find_entry keys k b.entries)))
  unfolding bucket_insert
  bucket_insert-Sets k m b once = elim (Option-cases (find_entry keys k b.entries)) [
    | inl new ↦ rw (new, bucket_insert) (push_front-Sets k m b new)
    | inr (v, old) ↦
        rw (old, bucket_insert) (keep-Sets k b (some v) old (count-some k v b.entries old once))
  ]

  erase-none :
      (k : K) (es : List (K × V))
      → erase_entry keys k es ≡ none
      → (find_entry keys k es ≡ none) × (count k es ≡ 0)
  unfolding erase_entry find_entry
  erase-none k [] e = (refl, refl)
  erase-none k ((j, v) ∷ es) e = ground (arith, erase-none k es, e)

  -- One entry for the key is gone, and nothing else has changed.
  abbrev Erased : K → K → List (K × V) → Option (List (K × V)) → Type 0
  Erased k j es none = Unit {0}
  Erased k j es (some rest) =
      (find_entry keys j rest ≡ (if key_eq k j then none else find_entry keys j es))
      × (count j rest ≡ (if key_eq k j then 0 else count j es))
      × (length es ≡ suc (length rest))

  pub find-zero : (k : K) (es : List (K × V)) → count k es ≡ 0 → find_entry keys k es ≡ none
  unfolding find_entry
  find-zero k [] e = refl
  find-zero k ((j, v) ∷ es) e = ground (arith, find-zero k es, e)

  erase-first :
      (k j i : K) (v : V) (es : List (K × V))
      → key_eq i k ≡ true
      → count k ((i, v) ∷ es) ≤ 1
      → Erased k j ((i, v) ∷ es) (some es)
  unfolding find_entry
  erase-first k j i v es e once =
      let gone : count k es ≡ 0 = ground (arith, e, once) in
      (
        ground (
          arith,
          key_eq_iff i k,
          key_eq_iff i j,
          key_eq_iff k j,
          find-zero k es gone,
          find-same keys k j es,
          e,
        ),
        ground (arith, key_eq_iff i k, key_eq_iff i j, key_eq_iff k j, gone, count-same k j es, e),
        refl,
      )

  erase-later :
      (k j i : K) (v : V) (es : List (K × V)) (o : Option (List (K × V)))
      → key_eq i k ≡ false
      → Erased k j es o
      → Erased k j ((i, v) ∷ es) (elim o [ none ↦ none | some rest ↦ some ((i, v) ∷ rest) ])
  unfolding find_entry
  erase-later k j i v es none e erased = tt
  erase-later k j i v es (some rest) e (found, counted, shorter) = (
    ground (arith, key_eq_iff i k, key_eq_iff i j, key_eq_iff k j, found, e),
    ground (arith, key_eq_iff i k, key_eq_iff i j, key_eq_iff k j, counted, e),
    omega (arith, shorter),
  )

  erase_entry-Erased :
      (k j : K) (es : List (K × V)) → count k es ≤ 1 → Erased k j es (erase_entry keys k es)
  unfolding erase_entry
  erase_entry-Erased k j [] once = tt
  erase_entry-Erased k j ((i, v) ∷ es) once = elim (Bool-cases (key_eq i k)) [
    | inl e ↦ rw (e, erase_entry) (erase-first k j i v es e once)
    | inr e ↦
        rw (e, erase_entry)
          (erase-later k j i v es (erase_entry keys k es) e
            (erase_entry-Erased k j es (ground (arith, once, e))))
  ]

  Erased-Sets :
      (k : K) (b : Bucket K V) (rest : List (K × V))
      → ((j : K) → Erased k j b.entries (some rest))
      → Sets k b (bucket rest ((b.size + (word - 1)) % word)) none
  Erased-Sets k b rest erased = record {
    found = λ j. (erased j).0;
    counted = λ j. ground (arith, (erased j).1);
    sized = λ e. omega (arith, e, (erased k).2);
  }

  pub bucket_remove-Sets :
      (k : K) (b : Bucket K V) → count k b.entries ≤ 1 → Sets k b (bucket_remove keys k b).1 none
  unfolding bucket_remove
  bucket_remove-Sets k b once = elim (Option-cases (erase_entry keys k b.entries)) [
    | inl absent ↦
        let (none_found, none_counted) = erase-none k b.entries absent in
        rw (absent, bucket_remove) (keep-Sets k b none none_found none_counted)
    | inr (rest, there) ↦
        rw (there, bucket_remove)
          (Erased-Sets k b rest (λ j.
            subst (λ o. Erased k j b.entries o) there (erase_entry-Erased k j b.entries once)))
  ]
