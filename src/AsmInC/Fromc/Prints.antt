-- ===== src/AsmInC/Fromc/Prints.antt =====
-- What `main` of fromc.c prints.
use native.Mathlib.Omega.{arith}
use ubuntu_projects.Base.{
  ℕ, zero, suc, ◌+◌, ◌-◌, ◌*◌, ◌%◌, ◌^◌, ◌<◌, ◌≡◌, ◌∙◌, ap, refl, false, true, none, Option, some,
  [], ◌∷◌, ◌==◌, ltb, length, get_or, List, ◌++◌,
}
use ubuntu_projects.Sys.{Bytes}
use ubuntu_projects.AsmInC.{
  word, Cpu, enter, sreverse, rarea, rcircum, Doubles, inc, dec, sloop, asum, carea, ccircum,
}
use ubuntu_projects.AsmInC.Reverse.{Reverses, sreverse-Reverses, leave_lem}
use ubuntu_projects.AsmInC.Fromc.{
  put_string, c_string, int_of, reverse_typed, Typed, prints, main, say, Print, int, double, string,
  size,
}
use ubuntu_projects.AsmInC.Fromc.Text.{
  IsText, backwards, length-backwards, get_or-backwards, IsText-get_or, put_string-at,
  c_string-reads,
}

-- the processor at the call of `sreverse`
abbrev called : ℕ → Bytes → Cpu → Cpu
called p chars c = record c { mem = put_string chars p c.mem; rdi = p; rsi = length chars }

get_or-end : (s : Bytes) → get_or s (length s) 0 ≡ 0
get_or-end [] = refl
get_or-end (c ∷ s) = get_or-end s

reads_back :
    (p : ℕ) (chars : Bytes) (c : Cpu) (o : Option Cpu)
    → length chars < 64
    → IsText chars
    → Reverses p (length chars) (called p chars c) o
    → (elim o [ none ↦ none | some d ↦ c_string 64 d.mem p ]) ≡ some (backwards chars)
reads_back p chars c none short ok r = absurd r
reads_back p chars c (some d) short ok r =
    let len = length-backwards chars in
    c_string-reads (backwards chars) 64 d.mem p (omega (arith, len))
      (λ i lt.
        let inside : i < length chars = omega (arith, len) in
        let j = length chars - 1 - i in
        let char = IsText-get_or chars j (omega (arith, inside)) ok in
        let old = put_string-at chars p c.mem j (omega (arith, inside)) in
        let new = r.reversed i inside in
        let back = get_or-backwards chars i inside in
        (omega (arith, char, old, new, back), omega (arith, char, old, new)))
      (ap (λ n. d.mem (p + n)) len
        ∙ (r.behind (p + length chars) (omega arith)
            ∙ (put_string-at chars p c.mem (length chars) (omega arith) ∙ get_or-end chars)))

reverse_typed_lem :
    (fuel m p : ℕ) (chars : Bytes) (c : Cpu)
    → m < fuel
    → length chars ≡ suc m
    → length chars < 64
    → p + 64 < word
    → IsText chars
    → reverse_typed fuel p chars c ≡ some (backwards chars)
unfolding reverse_typed
reverse_typed_lem fuel m p chars c lt count short fits ok =
    let inside : ltb (length chars) 64 ≡ true = ground arith in
    rw inside (
      reads_back p chars c (sreverse fuel (called p chars c)) short ok
        (sreverse-Reverses fuel m (called p chars c) lt count (omega arith)))

rarea_lem : (c : Cpu) → rarea c ≡ some (record c { rdi = c.rax; rax = c.rax * c.rsi % word })
unfolding rarea
rarea_lem c =
    leave_lem (record (enter c) { rdi = c.rax; rax = c.rax * c.rsi % word }) c.rbp c.stack refl refl

rcircum_lem :
    (c : Cpu) → rcircum c ≡ some (record c { rdi = c.rax; rax = (c.rax + c.rsi) % word * 2 % word })
unfolding rcircum
rcircum_lem c =
    leave_lem (record (enter c) { rdi = c.rax; rax = (c.rax + c.rsi) % word * 2 % word }) c.rbp
      c.stack refl refl

ap4 :
    {A B C D E : Type 0} (f : A → B → C → D → E) {a a' : A} {b b' : B} {c c' : C} {d d' : D}
    → a ≡ a'
    → b ≡ b'
    → c ≡ c'
    → d ≡ d'
    → f a b c d ≡ f a' b' c' d'
ap4 f p q r s = cc

module _ (d : Doubles) where
  open d use {F, add_sd, mul_sd, pi}

  -- the numbers up to the one with the given index, added from the left
  abbrev pub total : (ℕ → F) → ℕ → F
  total a zero = a 0
  total a (suc n) = add_sd (total a n) (a (suc n))

  sloop-total :
      (m fuel r : ℕ) (a : ℕ → F)
      → m < fuel
      → r + suc m < word
      → sloop d fuel a (suc m) r (total a r) ≡ some (total a (r + suc m))
  unfolding sloop
  sloop-total m zero r a lt fits = absurd (omega arith)
  sloop-total zero (suc fuel) r a lt fits =
      let next : inc r ≡ suc r = omega (arith, fits) in
      let end : r + 1 ≡ suc r = omega arith in rw (next, end) refl
  sloop-total (suc m) (suc fuel) r a lt fits =
      let more : dec (suc (suc m)) ≡ suc m = omega (arith, fits) in
      let next : inc r ≡ suc r = omega (arith, fits) in
      let goes : (suc m == 0) ≡ false = ground arith in
      let end : suc r + suc m ≡ r + suc (suc m) = omega arith in
      let rest = sloop-total m fuel (suc r) a (omega arith) (omega (arith, fits)) in
      rw (more, next, goes) (rest ∙ ap (λ n. some (total a n)) end)

  -- `asum` of two numbers or more is their sum.
  pub asum-total :
      (m fuel : ℕ) (a : ℕ → F)
      → m < fuel
      → suc (suc m) < word
      → asum d fuel a (suc (suc m)) ≡ some (total a (suc m))
  unfolding asum
  asum-total m fuel a lt fits =
      let count : dec (suc (suc m)) ≡ suc m = omega arith in
      let end : 0 + suc m ≡ suc m = omega arith in
      rw count (sloop-total m fuel 0 a lt (omega arith) ∙ ap (λ n. some (total a n)) end)

  -- the lines on the rectangle
  abbrev pub rectangle : (rax1 rax2 side2 : ℕ) → List (Print F)
  rectangle rax1 rax2 side2 =
      say d "Compute area and circumference of a rectangle\n" []
      ∷ say d "Enter the length of one side: " []
      ∷ say d "\nEnter the length of second side: " []
      ∷ say d "\n" []
      ∷ say d "The area of rectangle is %d.\n" (int (rax1 * side2 % 2 ^ 32) ∷ [])
      ∷ say d "The circumference of rectangle is %d.\n" (int ((rax2 + side2) * 2 % 2 ^ 32) ∷ [])
      ∷ []

  -- the lines on the circle: `radius * radius * pi` and `(radius + radius) * pi`
  abbrev pub circle : F → List (Print F)
  circle radius =
      say d "Compute area and circumference of a circle\n" []
      ∷ say d "Enter the radius: " []
      ∷ say d "\n" []
      ∷ say d "%lf\n" (double radius ∷ [])
      ∷ say d "%lf\n" (double (mul_sd (mul_sd radius radius) pi) ∷ [])
      ∷ say d "The area of circle is %lf.\n" (double (mul_sd (mul_sd radius radius) pi) ∷ [])
      ∷ say d "The circumference of circle is %lf.\n"
          (double (mul_sd (add_sd radius radius) pi) ∷ [])
      ∷ []

  -- the lines on the text
  abbrev pub reversed : Bytes → List (Print F)
  reversed chars =
      say d "Reverse a string\n" []
      ∷ say d "Enter a string(max length is 64 chars): " []
      ∷ say d "Reversed string is: %s\n" (string (backwards chars) ∷ [])
      ∷ []

  -- the lines on the array
  abbrev pub summed : F → List (Print F)
  summed sum =
      say d "Some array manipulations\n" []
      ∷ say d "The array has %lu elements\n" (size 5 ∷ [])
      ∷ say d "The sum of elements is %lf\n" (double sum ∷ [])
      ∷ []

  -- When the text that is typed has 1 to 63 bytes, none of them zero, the array for it does not
  -- stand at the end of the memory, and there is fuel for 4 rounds and for each byte, `main` of
  -- fromc.c prints the text reversed by `sreverse`, the sum of the five numbers of the array added
  -- from the left, and for the circle `radius * radius * pi` and `(radius + radius) * pi`,
  -- multiplied from the left; for the rectangle it prints, modulo 2 ^ 32, `rax` times the second
  -- side, and twice the sum of `rax` and the second side, where `rax` is what that register holds
  -- at each call and takes the place of the first side.
  pub main-prints_reversed :
      (fuel : ℕ) (darray : ℕ → F) (typed : Typed F) (rax1 rax2 p m : ℕ) (c : Cpu)
      → m < fuel
      → 3 < fuel
      → length typed.chars ≡ suc m
      → length typed.chars < 64
      → p + 64 < word
      → IsText typed.chars
      → main d fuel darray typed rax1 rax2 p c
        ≡ some (
            rectangle rax1 rax2 typed.side2
            ++ (circle typed.radius ++ (reversed typed.chars ++ summed (total darray 4))))
  unfolding main carea ccircum
  main-prints_reversed fuel darray typed rax1 rax2 p m c lt four count short fits ok =
      let area =
        ap int_of (rarea_lem (record c { rdi = typed.side1; rsi = typed.side2; rax = rax1 })) in
      let circum =
        ap int_of (rcircum_lem (record c { rdi = typed.side1; rsi = typed.side2; rax = rax2 })) in
      let low : rax1 * typed.side2 % word % 2 ^ 32 ≡ rax1 * typed.side2 % 2 ^ 32 = omega arith in
      let low' : (rax2 + typed.side2) % word * 2 % word % 2 ^ 32
          ≡ (rax2 + typed.side2) * 2 % 2 ^ 32 =
        omega arith in
      ap4 (prints d typed (carea d typed.radius) (ccircum d typed.radius)) (area ∙ ap some low)
        (circum ∙ ap some low') (reverse_typed_lem fuel m p typed.chars c lt count short fits ok)
        (asum-total 3 fuel darray four (omega arith))
