-- ===== src/Command/Complete.antt =====
-- Which messages give a command name: the callback finds the name of a well-formed one, and none
-- where no comma follows.
use java_iotwrap.Common.{
  ℕ, suc, ◌+◌, ◌-◌, ◌≤◌, ◌≡◌, ◌≢◌, refl, ap, sym, ◌∙◌, inl, inr, true, [], ◌∷◌, ◌++◌, none, some,
  Bool-cases, arith, leb, ◌==◌, Bytes, length, drop, take-length-append, drop-length-append, All,
  Has,
}
use java_iotwrap.Command.{
  command_max_len, command_token, strstr, index_of, strchr, quoted_name, command_name,
}
use java_iotwrap.Command.Sound.{drop-drop}

index_of-append :
    (c : ℕ) (v w : Bytes) → All (λ b. b ≢ c) v → index_of c (v ++ c ∷ w) ≡ some (length v)
unfolding index_of
index_of-append c [] w h = ground arith
index_of-append c (b ∷ v) w h = ground (arith, index_of-append c v w h.1)

-- A byte that stands behind a part without it is found behind that part.
index_of-behind :
    (c : ℕ) (v w : Bytes)
    → All (λ b. b ≢ c) v
    → Has c w
    → (n : ℕ) × (index_of c (v ++ w) ≡ some n) × (length v ≤ n)
unfolding index_of
index_of-behind c [] (b ∷ w) h (inl e) = (0, ground arith, omega arith)
index_of-behind c [] (b ∷ w) h (inr m) =
    let (n, e, k) = index_of-behind c [] w tt m in
    elim (Bool-cases (b == c)) [
      | inl t ↦ (0, rw t, omega arith)
      | inr t ↦ (n + 1, rw (t, e), omega arith)
    ]
index_of-behind c [] [] h m = absurd m
index_of-behind c (b ∷ v) w h m =
    let (n, e, k) = index_of-behind c v w h.1 m in (n + 1, ground (arith, e), omega arith)

index_of-none : (c : ℕ) (s : Bytes) → All (λ b. b ≢ c) s → index_of c s ≡ none
unfolding index_of
index_of-none c [] h = refl
index_of-none c (b ∷ s) h = ground (arith, index_of-none c s h.1)

strchr_of_drop :
    (text : Bytes) (p c : ℕ) (v w : Bytes)
    → drop p text ≡ v ++ c ∷ w
    → All (λ b. b ≢ c) v
    → strchr text p c ≡ some (p + length v)
unfolding strchr
strchr_of_drop text p c v w e h = rw (e, index_of-append c v w h)

drop_of_drop :
    (text : Bytes) (p : ℕ) (v w : Bytes) → drop p text ≡ v ++ w → drop (p + length v) text ≡ w
drop_of_drop text p v w e =
    sym (drop-drop (length v) p text) ∙ ap (drop (length v)) e ∙ drop-length-append v w

quoted_name_complete :
    (text : Bytes) (q1 : ℕ) (name rest : Bytes)
    → drop (q1 + 1) text ≡ name ++ b'"' ∷ rest
    → All (λ b. b ≢ b'"') name
    → length name + 1 ≤ command_max_len
    → quoted_name text q1 ≡ some name
unfolding quoted_name
quoted_name_complete text q1 name rest e h short =
    let found = strchr_of_drop text (q1 + 1) b'"' name rest e h in
    let order : leb q1 (q1 + 1 + length name) ≡ true = ground arith in
    let fits : leb (q1 + 1 + length name - q1) command_max_len ≡ true = ground arith in
    let count : q1 + 1 + length name - q1 - 1 ≡ length name = omega arith in
    rw (found, order, fits, count, e, take-length-append name (b'"' ∷ rest))

-- A message whose first `"command"` is followed by a colon, then an opening quote before any comma,
-- a name without quotes of at most 63 bytes and a closing quote, and that has a comma somewhere
-- behind the opening quote, gives that name.
pub command_name_complete :
    (text head gap name rest : Bytes) (ptr : ℕ)
    → strstr text command_token ≡ some ptr
    → drop ptr text ≡ head ++ b':' ∷ (gap ++ b'"' ∷ (name ++ b'"' ∷ rest))
    → All (λ b. b ≢ b':') head
    → All (λ b. b ≢ b'"') gap
    → All (λ b. b ≢ b',') gap
    → All (λ b. b ≢ b'"') name
    → length name + 1 ≤ command_max_len
    → Has b',' (name ++ b'"' ∷ rest)
    → command_name text ≡ some name
unfolding command_name
command_name_complete text head gap name rest ptr e d hh gq gc hn short comma =
    let tail : Bytes = name ++ b'"' ∷ rest in
    let p1 : ℕ = ptr + length head in
    let d1 = drop_of_drop text ptr head (b':' ∷ (gap ++ b'"' ∷ tail)) d in
    let q1 : ℕ = p1 + suc (length gap) in
    let d2 = drop_of_drop text p1 (b':' ∷ gap) (b'"' ∷ tail) d1 in
    let d3 = drop_of_drop text q1 (b'"' ∷ []) tail d2 in
    let (n, there, behind) =
      index_of-behind b',' (b':' ∷ gap) (b'"' ∷ tail) ((λ h. absurd (omega arith)), gc)
        (inr comma) in
    let at_comma : strchr text p1 b',' ≡ some (p1 + n) = unfold strchr in (rw (d1, there)) in
    let order : leb q1 (p1 + n) ≡ true = ground arith in
    rw
      (
        e,
        strchr_of_drop text ptr b':' head (gap ++ b'"' ∷ tail) d hh,
        at_comma,
        strchr_of_drop text p1 b'"' (b':' ∷ gap) tail d1 ((λ h. absurd (omega arith)), gq),
        order,
      )
      (quoted_name_complete text q1 name rest d3 hn short)

-- A message with no comma behind the colon that follows `"command"` gives no command, whatever name
-- it holds.
pub command_needs_comma :
    (text : Bytes) (ptr p1 : ℕ)
    → strstr text command_token ≡ some ptr
    → strchr text ptr b':' ≡ some p1
    → All (λ b. b ≢ b',') (drop p1 text)
    → command_name text ≡ none
unfolding command_name
command_needs_comma text ptr p1 e d h =
    let none_found : strchr text p1 b',' ≡ none =
      unfold strchr in (rw (index_of-none b',' (drop p1 text) h)) in
    rw (e, d, none_found)
