-- ===== src/AsmInC/Fromc.antt =====
-- asmprojects/asm_in_c/fromc.c: `main`, which calls the routines. Every `scanf` has converted what
-- was typed. At the calls of the routines of rect.asm the register `rax` holds what the compiler
-- has left there.
pub mod Text
pub mod Prints
mod Tests
use Prim.Native.String.{String}
use ubuntu_projects.Base.{
  ℕ, zero, suc, ◌+◌, ◌%◌, ◌^◌, Option, none, some, List, [], ◌∷◌, ◌++◌, ltb, ◌==◌, if◌then◌else◌,
  length,
}
use ubuntu_projects.Sys.{Bytes, text}
use ubuntu_projects.AsmInC.{
  Cpu, store_byte, sreverse, rarea, rcircum, Doubles, carea, ccircum, asum,
}

pub data Arg (F : Type 0) : Type 0 where
  int : ℕ → Arg F  -- the bit pattern of an `int`
  size : ℕ → Arg F
  double : F → Arg F
  string : Bytes → Arg F

-- a call of `printf`
pub record Print (F : Type 0) : Type 0 where
  pub format : Bytes
  pub args : List (Arg F)

pub record Typed (F : Type 0) : Type 0 where
  pub side1 : ℕ
  pub side2 : ℕ
  pub radius : F
  pub chars : Bytes

-- `scanf("%s", rstring)`: the text and a zero byte, at the address of the array
abbrev pub put_string : Bytes → ℕ → (ℕ → ℕ) → ℕ → ℕ
put_string [] a mem = store_byte a 0 mem
put_string (c ∷ s) a mem = put_string s (a + 1) (store_byte a c mem)

abbrev pub cons : ℕ → Option Bytes → Option Bytes
cons c none = none
cons c (some s) = some (c ∷ s)

-- The bytes of an array of so many up to its zero byte; to read on behind it is undefined.
unfoldable pub c_string : ℕ → (ℕ → ℕ) → ℕ → Option Bytes
c_string zero mem a = none
c_string (suc n) mem a = if mem a == 0 then some [] else cons (mem a) (c_string n mem (a + 1))

-- `char rstring[64]`
abbrev pub array : ℕ
array = 64

-- the lower half of `rax`, as an `int`
abbrev pub int_of : Option Cpu → Option ℕ
int_of none = none
int_of (some c) = some (c.rax % 2 ^ 32)

-- the text that was typed, reversed in its array
unfoldable pub reverse_typed : ℕ → ℕ → Bytes → Cpu → Option Bytes
reverse_typed fuel p chars c =
    if ltb (length chars) array
    then elim (sreverse fuel
        (record c { mem = put_string chars p c.mem; rdi = p; rsi = length chars })) [
          | none ↦ none
          | some d ↦ c_string array d.mem p
        ]
    else none

module _ (d : Doubles) where
  open d use {F}

  abbrev pub say : String → List (Arg F) → Print F
  say s args = record { format = text s; args = args }

  -- the `printf` calls of `main`, by what the routines return
  abbrev pub prints :
      Typed F
      → (area circum : F) → Option ℕ
      → Option ℕ
      → Option Bytes
      → Option F
      → Option (List (Print F))
  prints typed area circum (some r_area) (some r_circum) (some rstring) (some sum) = some (
      say "Compute area and circumference of a rectangle\n" []
      ∷ say "Enter the length of one side: " []
      ∷ say "\nEnter the length of second side: " []
      ∷ say "\n" []
      ∷ say "The area of rectangle is %d.\n" (int r_area ∷ [])
      ∷ say "The circumference of rectangle is %d.\n" (int r_circum ∷ [])
      ∷ say "Compute area and circumference of a circle\n" []
      ∷ say "Enter the radius: " []
      ∷ say "\n" []
      ∷ say "%lf\n" (double typed.radius ∷ [])
      ∷ say "%lf\n" (double area ∷ [])
      ∷ say "The area of circle is %lf.\n" (double area ∷ [])
      ∷ say "The circumference of circle is %lf.\n" (double circum ∷ [])
      ∷ say "Reverse a string\n" []
      ∷ say "Enter a string(max length is 64 chars): " []
      ∷ say "Reversed string is: %s\n" (string rstring ∷ [])
      ∷ say "Some array manipulations\n" []
      ∷ say "The array has %lu elements\n" (size 5 ∷ [])
      ∷ say "The sum of elements is %lf\n" (double sum ∷ [])
      ∷ [])
  prints typed area circum _ _ _ _ = none

  -- `rax1` and `rax2` are what `rax` holds at the calls of `rarea` and `rcircum`, `p` is the address of
  -- `rstring`, and `darray` the array of five numbers.
  unfoldable pub main : ℕ → (ℕ → F) → Typed F → (rax1 rax2 p : ℕ) → Cpu → Option (List (Print F))
  main fuel darray typed rax1 rax2 p c =
      prints typed (carea d typed.radius) (ccircum d typed.radius)
        (int_of (rarea (record c { rdi = typed.side1; rsi = typed.side2; rax = rax1 })))
        (int_of (rcircum (record c { rdi = typed.side1; rsi = typed.side2; rax = rax2 })))
        (reverse_typed fuel p typed.chars c) (asum d fuel darray 5)
