-- ===== src/AsmInC/Fromc/Text.antt =====
-- The text in the array of `main`, in front of `sreverse` and behind it.
use native.Mathlib.Omega.{arith}
use ubuntu_projects.Base.{
  ℕ, zero, suc, ◌+◌, ◌-◌, ◌≤◌, ◌<◌, ◌≡◌, ◌∙◌, ap, refl, Bool-cases, inl, inr, false, some, [], ◌∷◌,
  ◌++◌, ◌==◌, length, get_or, length-append,
}
use ubuntu_projects.Sys.{Bytes}
use ubuntu_projects.AsmInC.{store_byte}
use ubuntu_projects.AsmInC.Fromc.{put_string, cons, c_string}

-- the bytes of a text, none of which is zero
abbrev pub IsText : Bytes → Type 0
IsText [] = Unit {0}
IsText (c ∷ s) = (0 < c) × (c < 256) × IsText s

abbrev pub backwards : Bytes → Bytes
backwards [] = []
backwards (c ∷ s) = backwards s ++ c ∷ []

pub length-backwards : (s : Bytes) → length (backwards s) ≡ length s
length-backwards [] = refl
length-backwards (c ∷ s) = omega (arith, length-append (backwards s) (c ∷ []), length-backwards s)

get_or-front : (s : Bytes) (c i : ℕ) → i < length s → get_or (s ++ c ∷ []) i 0 ≡ get_or s i 0
get_or-front [] c i lt = absurd (omega arith)
get_or-front (x ∷ s) c zero lt = refl
get_or-front (x ∷ s) c (suc i) lt = get_or-front s c i (omega arith)

get_or-last : (s : Bytes) (c i : ℕ) → i ≡ length s → get_or (s ++ c ∷ []) i 0 ≡ c
get_or-last [] c i e = rw e refl
get_or-last (x ∷ s) c zero e = absurd (omega arith)
get_or-last (x ∷ s) c (suc i) e = get_or-last s c i (omega arith)

pub get_or-backwards :
    (s : Bytes) (i : ℕ) → i < length s → get_or (backwards s) i 0 ≡ get_or s (length s - 1 - i) 0
get_or-backwards [] i lt = absurd (omega arith)
get_or-backwards (c ∷ s) i lt = elim (Bool-cases (i == length s)) [
  | inl last ↦
      let at : i ≡ length (backwards s) = ground (arith, last, length-backwards s) in
      let first : 0 ≡ suc (length s) - 1 - i = ground (arith, last) in
      get_or-last (backwards s) c i at ∙ ap (λ j. get_or (c ∷ s) j 0) first
  | inr more ↦
      let inside : i < length s = ground (arith, more) in
      let step : suc (length s - 1 - i) ≡ suc (length s) - 1 - i = omega (arith, inside) in
      get_or-front (backwards s) c i (omega (arith, inside, length-backwards s))
      ∙ (get_or-backwards s i inside ∙ ap (λ j. get_or (c ∷ s) j 0) step)
]

pub IsText-get_or :
    (s : Bytes) (i : ℕ) → i < length s → IsText s → (0 < get_or s i 0) × (get_or s i 0 < 256)
IsText-get_or [] i lt h = absurd (omega arith)
IsText-get_or (c ∷ s) zero lt h = (h.0, h.1)
IsText-get_or (c ∷ s) (suc i) lt h = IsText-get_or s i (omega arith) h.2

put_string-below : (s : Bytes) (a : ℕ) (mem : ℕ → ℕ) (i : ℕ) → i < a → put_string s a mem i ≡ mem i
put_string-below [] a mem i lt = ground arith
put_string-below (c ∷ s) a mem i lt =
    put_string-below s (a + 1) (store_byte a c mem) i (omega arith) ∙ ground arith

-- `get_or` gives the zero byte at the end of the text, too.
pub put_string-at :
    (s : Bytes) (a : ℕ) (mem : ℕ → ℕ) (i : ℕ)
    → i ≤ length s
    → put_string s a mem (a + i) ≡ get_or s i 0
put_string-at [] a mem i le = ground arith
put_string-at (c ∷ s) a mem zero le =
    let here : a + 0 ≡ a = omega arith in
    let same : store_byte a c mem a ≡ c = ground arith in
    put_string-below s (a + 1) (store_byte a c mem) (a + 0) (omega arith)
    ∙ (ap (store_byte a c mem) here ∙ same)
put_string-at (c ∷ s) a mem (suc i) le =
    let here : a + suc i ≡ a + 1 + i = omega arith in
    ap (put_string s (a + 1) (store_byte a c mem)) here
    ∙ put_string-at s (a + 1) (store_byte a c mem) i (omega arith)

shifted : (a i : ℕ) → a + 1 + i ≡ a + suc i
shifted a i = omega arith

pub c_string-reads :
    (s : Bytes) (n : ℕ) (mem : ℕ → ℕ) (a : ℕ)
    → length s < n
    → ((i : ℕ) → i < length s → (mem (a + i) ≡ get_or s i 0) × (0 < mem (a + i)))
    → mem (a + length s) ≡ 0
    → c_string n mem a ≡ some s
unfolding c_string
c_string-reads s zero mem a lt same end = absurd (omega arith)
c_string-reads [] (suc n) mem a lt same end =
    let here : a ≡ a + 0 = omega arith in let stops : mem a ≡ 0 = ap mem here ∙ end in rw stops refl
c_string-reads (c ∷ s) (suc n) mem a lt same end =
    let here : a ≡ a + 0 = omega arith in
    let next = λ (i : ℕ). shifted a i in
    let first : mem a ≡ c = ap mem here ∙ (same 0 (omega arith)).0 in
    let goes_on : (c == 0) ≡ false = ground (arith, first, ap mem here, (same 0 (omega arith)).1) in
    let rest =
      c_string-reads s n mem (a + 1) (omega arith)
        (λ i inside.
          let there = same (suc i) (omega arith) in
          (ap mem (next i) ∙ there.0, omega (arith, ap mem (next i), there.1)))
        (ap mem (next (length s)) ∙ end) in
    rw (first, goes_on) (ap (cons c) rest)
