-- ===== src/Stack/Range.antt =====
-- Several items at once: `push_range`, `pop_n` and `clear`.
use ubuntu_projects.Base.{
  ℕ, zero, suc, ◌≡◌, refl, some, List, [], ◌∷◌, ◌++◌, length, take, drop, take-append, ◌+◌, arith,
}
use ubuntu_projects.Base.Int.{pos, negsuc}
use ubuntu_projects.Stack.{
  Stack, with_items, pop_unprotected, pop_loop, pop_n, pop_n_unprotected, push_range,
  push_range_unprotected, clear, clear_loop,
}

module _ {A : Type 0} where
  -- the items with the last one first, in front of others
  abbrev pub reverse_onto : List A → List A → List A
  reverse_onto [] ys = ys
  reverse_onto (x ∷ xs) ys = reverse_onto xs (x ∷ ys)

  pop_loop-pos : (n : ℕ) (xs : List A) → pop_loop (pos n) xs ≡ (take n xs, drop n xs)
  unfolding pop_loop
  pop_loop-pos zero [] = refl
  pop_loop-pos (suc n) [] = refl
  pop_loop-pos zero (x ∷ xs) = refl
  pop_loop-pos (suc n) (x ∷ xs) = rw (pop_loop-pos n xs) (ground arith)

  pop_loop-negsuc : (n : ℕ) (xs : List A) → pop_loop (negsuc n) xs ≡ (xs, [])
  unfolding pop_loop
  pop_loop-negsuc n [] = refl
  pop_loop-negsuc n (x ∷ xs) = rw (pop_loop-negsuc (suc n) xs)

  -- `pop_n` with a count that is not negative takes that many items from the top, in order, or all
  -- if there are fewer; with a negative count it takes all.
  pub pop_n_lem :
      (n : ℕ) (s : Stack A)
      → (pop_n (pos n) s ≡ (take n s.items, with_items (drop n s.items) s))
        × (pop_n (negsuc n) s ≡ (s.items, with_items [] s))
  unfolding pop_n pop_n_unprotected
  pop_n_lem n s = (rw (pop_loop-pos n s.items), rw (pop_loop-negsuc n s.items))

  push_range_items :
      (xs : List A) (s : Stack A)
      → push_range_unprotected xs s ≡ with_items (reverse_onto xs s.items) s
  unfolding push_range_unprotected
  push_range_items [] s = refl
  push_range_items (x ∷ xs) s = push_range_items xs (with_items (x ∷ s.items) s)

  reverse_onto-append : (xs ys zs : List A) → reverse_onto xs (ys ++ zs) ≡ reverse_onto xs ys ++ zs
  reverse_onto-append [] ys zs = refl
  reverse_onto-append (x ∷ xs) ys zs = reverse_onto-append xs (x ∷ ys) zs

  length-reverse_onto : (xs ys : List A) → length (reverse_onto xs ys) ≡ length xs + length ys
  length-reverse_onto [] ys = omega arith
  length-reverse_onto (x ∷ xs) ys = omega (arith, length-reverse_onto xs (x ∷ ys))

  drop-append : (xs ys : List A) → drop (length xs) (xs ++ ys) ≡ ys
  drop-append [] ys = refl
  drop-append (x ∷ xs) ys = drop-append xs ys

  -- What is pushed from a range is popped in the opposite order by `pop_n` with the length of the
  -- range, and the stack is as it was.
  pub pop_n-push_range :
      (xs : List A) (s : Stack A)
      → pop_n (pos (length xs)) (push_range xs s) ≡ (reverse_onto xs [], s)
  unfolding push_range
  pop_n-push_range xs s =
      let r = reverse_onto xs [] in
      let counted : length xs ≡ length r = omega (arith, length-reverse_onto xs []) in
      rw (
        push_range_items xs s,
        (pop_n_lem (length xs) (with_items (reverse_onto xs s.items) s)).0,
        reverse_onto-append xs [] s.items,
        counted,
        take-append r s.items,
        drop-append r s.items,
      )

  clear_loop_lem :
      (xs : List A) (s : Stack A)
      → clear_loop (length xs) (with_items xs s) ≡ some (with_items [] s)
  unfolding clear_loop pop_unprotected
  clear_loop_lem [] s = refl
  clear_loop_lem (x ∷ xs) s = clear_loop_lem xs s

  -- `clear` takes every item off, pops no empty stack and leaves the flag.
  pub clear_lem : (s : Stack A) → clear s ≡ some (with_items [] s)
  unfolding clear
  clear_lem s = clear_loop_lem s.items s
