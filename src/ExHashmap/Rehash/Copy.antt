-- ===== src/ExHashmap/Rehash/Copy.antt =====
-- The entries of all buckets as one list.
use ubuntu_projects.Base.{
  some-same, ℕ, zero, suc, ◌+◌, ◌≡◌, ◌≢◌, refl, ap, sym, ◌∙◌, Option, none, some, List, [], ◌∷◌,
  ◌++◌, arith, length, length-append, get_elem?, set, replicate,
}
use ubuntu_projects.Keys.{Keys}
use ubuntu_projects.Hashmap.{find_entry}
use ubuntu_projects.ExHashmap.{Bucket, bucket, copy, move_node, move_nodes, move_buckets}
use ubuntu_projects.ExHashmap.Entries.{count, find-zero}

-- the first of two options that holds something
abbrev pub either : {A : Type 0} → Option A → Option A → Option A
either none p = p
either (some a) p = some a

abbrev pub bind : {A B : Type 0} → Option A → (A → Option B) → Option B
bind none f = none
bind (some a) f = f a

pub either-none : {A : Type 0} (o : Option A) → either o none ≡ o
either-none none = refl
either-none (some a) = refl

bind-same :
    {A B : Type 0} (o : Option A) (f g : A → Option B) → ((a : A) → f a ≡ g a) → bind o f ≡ bind o g
bind-same none f g e = refl
bind-same (some a) f g e = e a

bind-elim :
    {A B : Type 0} (o : Option A) (f : A → Option B)
    → elim o [ none ↦ none | some a ↦ f a ] ≡ bind o f
bind-elim none f = refl
bind-elim (some a) f = refl

bind-bind :
    {A B C : Type 0} (o : Option A) (f : A → Option B) (g : B → Option C)
    → bind (bind o f) g ≡ bind o (λ a. bind (f a) g)
bind-bind none f g = refl
bind-bind (some a) f g = refl

pub length-copy-set :
    {K V : Type 0} (bs : List (Bucket K V)) (i : ℕ) (b c : Bucket K V)
    → get_elem? bs i ≡ some b
    → length (copy (set bs i c)) + length b.entries ≡ length (copy bs) + length c.entries
unfolding copy
length-copy-set [] i b c at = absurd (ground (arith, at))
length-copy-set (d ∷ bs) zero b c at =
    let same : length d.entries ≡ length b.entries =
      ap {B = ℕ} (λ o. elim o [ none ↦ 0 | some r ↦ length r.entries ]) at in
    omega (arith, length-append d.entries (copy bs), length-append c.entries (copy bs), same)
length-copy-set (d ∷ bs) (suc i) b c at = omega (
  arith,
  length-append d.entries (copy bs),
  length-append d.entries (copy (set bs i c)),
  length-copy-set bs i b c at,
)

pub length-copy-replicate :
    (K V : Type 0) (n : ℕ) → length (copy (replicate n (bucket {K = K} {V = V} [] 0))) ≡ 0
unfolding copy
length-copy-replicate K V zero = refl
length-copy-replicate K V (suc n) = length-copy-replicate K V n

module _ {K V : Type 0} (keys : Keys K) where
  open keys use {key_eq}

  move_nodes-cons :
      (n : ℕ) (e : K × V) (es : List (K × V)) (tmp : List (Bucket K V))
      → move_nodes keys n (e ∷ es) tmp ≡ bind (move_node keys n e tmp) (move_nodes keys n es)
  unfolding move_nodes
  move_nodes-cons n e es tmp = bind-elim (move_node keys n e tmp) (move_nodes keys n es)

  move_nodes-done : (n : ℕ) (tmp : List (Bucket K V)) → move_nodes keys n [] tmp ≡ some tmp
  unfolding move_nodes
  move_nodes-done n tmp = refl

  move_nodes-append :
      (n : ℕ) (es fs : List (K × V)) (tmp : List (Bucket K V))
      → move_nodes keys n (es ++ fs) tmp ≡ bind (move_nodes keys n es tmp) (move_nodes keys n fs)
  move_nodes-append n [] fs tmp =
      ap (λ o. bind o (move_nodes keys n fs)) (sym (move_nodes-done n tmp))
  move_nodes-append n (e ∷ es) fs tmp =
      move_nodes-cons n e (es ++ fs) tmp
      ∙ bind-same (move_node keys n e tmp) _ _ (λ t. move_nodes-append n es fs t)
      ∙ sym (bind-bind (move_node keys n e tmp) (move_nodes keys n es) (move_nodes keys n fs))
      ∙ ap (λ o. bind o (move_nodes keys n fs)) (sym (move_nodes-cons n e es tmp))

  -- The two loops are one loop over the entries of all buckets.
  pub move_buckets-copy :
      (n : ℕ) (bs tmp : List (Bucket K V))
      → move_buckets keys n bs tmp ≡ move_nodes keys n (copy bs) tmp
  unfolding move_buckets copy
  move_buckets-copy n [] tmp = sym (move_nodes-done n tmp)
  move_buckets-copy n (b ∷ bs) tmp =
      bind-elim (move_nodes keys n b.entries tmp) (move_buckets keys n bs)
      ∙ bind-same (move_nodes keys n b.entries tmp) _ _ (λ t. move_buckets-copy n bs t)
      ∙ sym (move_nodes-append n b.entries (copy bs) tmp)

  count-append :
      (k : K) (es fs : List (K × V)) → count keys k (es ++ fs) ≡ count keys k es + count keys k fs
  count-append k [] fs = omega arith
  count-append k ((j, v) ∷ es) fs = ground (arith, count-append k es fs)

  find-append :
      (k : K) (es fs : List (K × V))
      → find_entry keys k (es ++ fs) ≡ either (find_entry keys k es) (find_entry keys k fs)
  unfolding find_entry
  find-append k [] fs = refl
  find-append k ((j, v) ∷ es) fs = ground (arith, find-append k es fs)

  copy-zero :
      (k : K) (bs : List (Bucket K V))
      → ((i : ℕ) (b : Bucket K V) → get_elem? bs i ≡ some b → count keys k b.entries ≡ 0)
      → count keys k (copy bs) ≡ 0
  unfolding copy
  copy-zero k [] zeros = refl
  copy-zero k (b ∷ bs) zeros = omega (
    arith,
    count-append k b.entries (copy bs),
    zeros 0 b refl,
    copy-zero k bs (λ i c at. zeros (suc i) c at),
  )

  -- A key that stands in one bucket only stands in the list of all entries as it does there.
  pub copy-home :
      (k : K) (bs : List (Bucket K V)) (h : ℕ) (b : Bucket K V)
      → get_elem? bs h ≡ some b
      → ((i : ℕ) (c : Bucket K V) → get_elem? bs i ≡ some c → i ≢ h → count keys k c.entries ≡ 0)
      → (count keys k (copy bs) ≡ count keys k b.entries)
        × (find_entry keys k (copy bs) ≡ find_entry keys k b.entries)
  unfolding copy
  copy-home k [] h b at zeros = absurd (ground (arith, at))
  copy-home k (d ∷ bs) zero b at zeros =
      let rest = copy-zero k bs (λ i c e. zeros (suc i) c e (λ f. ground (arith, f))) in
      let here = ap (λ r. r.entries) (some-same d b at) in
      (
        omega (arith, count-append k d.entries (copy bs), rest, ap (λ es. count keys k es) here),
        find-append k d.entries (copy bs)
            ∙ ap (λ o. either (find_entry keys k d.entries) o) (find-zero keys k (copy bs) rest)
            ∙ either-none (find_entry keys k d.entries)
            ∙ ap (λ es. find_entry keys k es) here,
      )
  copy-home k (d ∷ bs) (suc h) b at zeros =
      let first : count keys k d.entries ≡ 0 = zeros 0 d refl (λ e. ground (arith, e)) in
      let (counted, found) =
        copy-home k bs h b at (λ i c e ne. zeros (suc i) c e (λ f. ne (omega (arith, f)))) in
      (
        omega (arith, count-append k d.entries (copy bs), first, counted),
        ground (arith, find-append k d.entries (copy bs), find-zero keys k d.entries first, found),
      )
