-- ===== src/Shadow/ShortText.antt =====
-- Short texts: a buffer that ends in NULs holds one, and atoi reads nine bytes of any text.
use java_iotwrap.Common.{
  ℕ, zero, suc, ◌-◌, ◌+◌, ◌*◌, ◌^◌, ◌≤◌, ◌<◌, inl, inr, Bool, true, false, [], ◌∷◌, Option, none,
  some, Succeeds, arith, ◌==◌, Bool-cases, Bytes, length, c_str,
}
use java_iotwrap.Service.ShortAnswers.{ZerosFrom}
use java_iotwrap.Shadow.Value.{is_digit, skip_spaces, digits_value, to_int32, atoi_sign, atoi}

-- A buffer whose tail is NUL holds a C string.
pub c_str-short :
    (k : ℕ) (v : Bytes) → k < length v → ZerosFrom k v → Succeeds (λ t. length t ≤ k) (c_str v)
unfolding c_str
c_str-short k [] h z = absurd (omega arith)
c_str-short zero (b ∷ v) h z = ground (arith, z.0)
c_str-short (suc k) (b ∷ v) h z = elim (Bool-cases (b == 0)) [
  | inl e ↦ rw e (omega arith)
  | inr e ↦ rw e (go (c_str v) (c_str-short k v (omega arith) z))
]
  where
    go :
        (o : Option Bytes)
        → Succeeds (λ t. length t ≤ k) o
        → Succeeds (λ t. length t ≤ suc k) (elim o [ none ↦ none | some s ↦ some (b ∷ s) ])
    go none p = p
    go (some s) p = omega arith

-- `b` times ten to the power of `n`.
abbrev tens : ℕ → ℕ → ℕ
tens zero b = b
tens (suc n) b = tens n (10 * b)

tens_ge : (n b : ℕ) → b ≤ tens n b
tens_ge zero b = omega arith
tens_ge (suc n) b = omega (arith, tens_ge n (10 * b))

tens_mono : (n m b : ℕ) → n ≤ m → tens n b ≤ tens m b
tens_mono zero m b h = tens_ge m b
tens_mono (suc n) zero b h = absurd (omega arith)
tens_mono (suc n) (suc m) b h = tens_mono n m (10 * b) (omega arith)

digits_value-lt : (acc b : ℕ) (s : Bytes) → acc < b → digits_value acc s < tens (length s) b
unfolding digits_value is_digit
digits_value-lt acc b [] h = h
digits_value-lt acc b (c ∷ s) h = elim (Bool-cases (is_digit c)) [
  | inl e ↦
      let low : 10 * acc + (c - b'0') < 10 * b = ground arith in
      rw e (digits_value-lt (10 * acc + (c - b'0')) (10 * b) s low)
  | inr e ↦ rw e (omega (arith, tens_ge (length s) (10 * b)))
]

digits_value-short : (s : Bytes) → length s ≤ 9 → digits_value 0 s < 1000000000
digits_value-short s h =
    omega (arith, digits_value-lt 0 1 s (omega arith), tens_mono (length s) 9 1 h)

length-skip_spaces : (s : Bytes) → length (skip_spaces s) ≤ length s
unfolding skip_spaces
length-skip_spaces [] = omega arith
length-skip_spaces (c ∷ s) = ground (arith, length-skip_spaces s)

abbrev pub Word : ℕ → Type 0
Word w = w < 2 ^ 32

to_int32-Word : (negative : Bool) (n : ℕ) → n < 1000000000 → Succeeds Word (to_int32 negative n)
unfolding to_int32
to_int32-Word true n h = ground arith
to_int32-Word false n h = ground arith

atoi_sign-Word : (s : Bytes) → length s ≤ 9 → Succeeds Word (atoi_sign s)
unfolding atoi_sign
atoi_sign-Word [] h = omega arith
atoi_sign-Word (c ∷ s) h =
    let tail = digits_value-short s (omega arith) in
    let whole = digits_value-short (c ∷ s) h in
    elim (Bool-cases (c == b'-')) [
      | inl e ↦ rw e (to_int32-Word true _ tail)
      | inr e ↦ rw e (elim (Bool-cases (c == b'+')) [
        | inl p ↦ rw p (to_int32-Word false _ tail)
        | inr p ↦ rw p (to_int32-Word false _ whole)
      ])
    ]

pub atoi-Word : (s : Bytes) → length s ≤ 9 → Succeeds Word (atoi s)
unfolding atoi
atoi-Word s h = atoi_sign-Word (skip_spaces s) (omega (arith, length-skip_spaces s))
