-- ===== src/Common/CString.antt =====
-- Bytes and C strings. A `std::string`, a `String8` or a `const char *` argument is the list of its
-- bytes without the final NUL; a buffer in memory is the list of all its bytes.
use Prim.Native.Char.{code}
use Prim.Native.String.{String}
use Prim.Native.Nat.{ℕ, ◌-◌, ◌≤◌, ◌<◌}
use mathlib.Core.Path.{◌≡◌, refl}
use mathlib.Core.Logic.{◌↔◌, ◌≢◌}
use mathlib.Core.Bool.{Bool, true, false, ◌&&◌}
use mathlib.Core.List.{List, [], ◌∷◌, ◌++◌}
use mathlib.Core.Option.{Option, none, some}
use native.Mathlib.Omega.{arith}
use java_iotwrap.Common.Tests.{leb, ◌==◌, if◌then◌else◌}
use java_iotwrap.Common.Lists.{length, take, drop, replicate, All}

abbrev pub Bytes : Type 0
Bytes = List ℕ

-- The bytes of an ASCII text.
abbrev pub codes : String → Bytes
codes String.[] = []
codes (String.◌∷◌ c s) = code c ∷ codes s

-- `a == b` on strings.
unfoldable pub same : Bytes → Bytes → Bool
same [] [] = true
same [] (y ∷ ys) = false
same (x ∷ xs) [] = false
same (x ∷ xs) (y ∷ ys) = (x == y) && same xs ys

pub same_iff : (a b : Bytes) → (same a b ≡ true) ↔ (a ≡ b)
unfolding same
same_iff [] [] = ground arith
same_iff [] (y ∷ ys) = ground arith
same_iff (x ∷ xs) [] = ground arith
same_iff (x ∷ xs) (y ∷ ys) = ground (arith, same_iff xs ys)

pub same_refl : (a : Bytes) → same a a ≡ true
same_refl a = (same_iff a a).1 refl

-- The C string that starts a buffer; `none` where no NUL ends it and a reader would run on.
unfoldable pub c_str : Bytes → Option Bytes
c_str [] = none
c_str (b ∷ bs) = if b == 0 then some [] else elim (c_str bs) [ none ↦ none | some s ↦ some (b ∷ s) ]

-- `memcpy(dst, src, n)`; `none` where it would read or write outside.
unfoldable pub memcpy : Bytes → Bytes → ℕ → Option Bytes
memcpy dst src n =
    if leb n (length dst) && leb n (length src) then some (take n src ++ drop n dst) else none

-- `strncpy(dst, src, n)`: the first `n` bytes of the string, and NULs if it is shorter. It adds no
-- NUL of its own. `none` where it would write outside.
unfoldable pub strncpy : Bytes → Bytes → ℕ → Option Bytes
strncpy dst src n =
    if leb n (length dst)
    then some (take n src ++ (replicate (n - length src) 0 ++ drop n dst))
    else none

-- Inside both objects the copy is made.
pub memcpy_inside :
    (dst src : Bytes) (n : ℕ)
    → n ≤ length dst
    → n ≤ length src
    → memcpy dst src n ≡ some (take n src ++ drop n dst)
unfolding memcpy
memcpy_inside dst src n h k = ground arith

pub strncpy_inside :
    (dst src : Bytes) (n : ℕ)
    → n ≤ length dst
    → strncpy dst src n ≡ some (take n src ++ (replicate (n - length src) 0 ++ drop n dst))
unfolding strncpy
strncpy_inside dst src n h = ground arith

pub strncpy_outside : (dst src : Bytes) (n : ℕ) → length dst < n → strncpy dst src n ≡ none
unfolding strncpy
strncpy_outside dst src n h = ground arith

-- No byte of a C string is NUL.
abbrev pub NoNul : Bytes → Type 0
NoNul = All (λ b. b ≢ 0)

-- A string followed by a NUL reads back.
pub c_str-append : (s rest : Bytes) → NoNul s → c_str (s ++ 0 ∷ rest) ≡ some s
unfolding c_str
c_str-append [] rest h = refl
c_str-append (b ∷ s) rest h = ground (arith, c_str-append s rest h.1)
