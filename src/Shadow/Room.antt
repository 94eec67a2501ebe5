-- ===== src/Shadow/Room.antt =====
-- updateProperties of jni/server/IOT_DeviceShadow.cpp, again and again: answers of nine bytes at most
-- leave an attribute the room that the next one needs, since the tenth byte and what follows stay.
use java_iotwrap.Common.{
  ℕ, zero, suc, ◌-◌, ◌≤◌, ◌<◌, ◌≡◌, refl, ap, sym, subst, ◌∙◌, inl, inr, Bool, true, false, [], ◌∷◌,
  ◌++◌, append_assoc, Option, none, some, ◌>>=◌, Succeeds, Ensures, Ensures-bind, Ensures-any,
  arith, ◌==◌, if◌then◌else◌, Bool-cases, Bytes, length, length-append, length-take,
  length-replicate, take, drop, replicate, c_str, same, strncpy, strncpy_inside, leb, memcpy,
}
use java_iotwrap.Shadow.{AttrType, int32, string, other}
use java_iotwrap.Shadow.Value.{read_int32, write_int32, atoi}
use java_iotwrap.Shadow.Update.{changed_int32, changed_string, changed_value}

abbrev HasNul : Bytes → Type 0
HasNul p = Succeeds (λ _. Unit) (c_str p)

-- Four bytes for a number; for a text, a NUL that no answer of nine bytes reaches.
abbrev pub Roomy : AttrType → Bytes → Type 0
Roomy int32 p = 4 ≤ length p
Roomy string p = HasNul (drop 9 p)
Roomy (other n) p = 4 ≤ length p

drop-append-drop :
    (m n : ℕ) (xs ys : Bytes)
    → length xs ≡ n
    → n ≤ m
    → n ≤ length ys
    → drop m (xs ++ drop n ys) ≡ drop m ys
drop-append-drop m zero [] ys e h k = refl
drop-append-drop m zero (x ∷ xs) ys e h k = absurd (omega arith)
drop-append-drop m (suc n) [] ys e h k = absurd (omega arith)
drop-append-drop m (suc n) (x ∷ xs) [] e h k = absurd (omega arith)
drop-append-drop zero (suc n) (x ∷ xs) (y ∷ ys) e h k = absurd (omega arith)
drop-append-drop (suc m) (suc n) (x ∷ xs) (y ∷ ys) e h k =
    drop-append-drop m n xs ys (omega arith) (omega arith) (omega arith)

nul_behind : (n : ℕ) (p : Bytes) → HasNul (drop n p) → n < length p
unfolding c_str
nul_behind zero [] h = absurd h
nul_behind zero (b ∷ p) h = omega arith
nul_behind (suc n) [] h = absurd h
nul_behind (suc n) (b ∷ p) h = omega (arith, nul_behind n p h)

pub nul_after : (n : ℕ) (p : Bytes) → HasNul (drop n p) → HasNul p
unfolding c_str
nul_after zero p h = h
nul_after (suc n) [] h = absurd h
nul_after (suc n) (b ∷ p) h = go (c_str p) (nul_after n p h)
  where
    go :
        (o : Option Bytes)
        → Succeeds (λ _. Unit) o
        → Succeeds {A = Bytes}
            (λ _. Unit)
            (if b == 0 then some [] else elim o [ none ↦ none | some s ↦ some (b ∷ s) ])
    go (some s) k = elim (Bool-cases (b == 0)) [ inl t ↦ rw t tt | inr t ↦ rw t tt ]
    go none k = absurd k

pub Roomy-length : (p : Bytes) → Roomy string p → 9 ≤ length p
Roomy-length p h = omega (arith, nul_behind 9 p h)

strncpy-Roomy :
    (p t : Bytes) (n : ℕ) → n ≤ 9 → Roomy string p → Ensures (Roomy string) (strncpy p t n)
strncpy-Roomy p t n h r =
    let inside : n ≤ length p = omega (arith, Roomy-length p r) in
    let head = take n t ++ replicate (n - length t) 0 in
    let size : length head ≡ n = omega (
      arith,
      length-append (take n t) (replicate (n - length t) 0),
      length-take n t,
      length-replicate {A = ℕ} (n - length t) 0,
    ) in
    rw (strncpy_inside p t n inside) (
      subst HasNul
        (sym (
          ap (drop 9) (sym (append_assoc (take n t) (replicate (n - length t) 0) (drop n p)))
          ∙ drop-append-drop 9 n head p size h inside))
        r)

write_int32-room : (p : Bytes) (w : ℕ) → Ensures (λ q. 4 ≤ length q) (write_int32 p w)
unfolding write_int32 memcpy
write_int32-room p w = elim (Bool-cases (leb 4 (length p))) [
  | inl t ↦ rw t (omega arith)
  | inr t ↦ rw t tt
]

-- The new memory, if there is one, has room.
abbrev NewIsRoomy : AttrType → Option Bytes → Type 0
NewIsRoomy t c = Ensures (Roomy t) c

either-NewIsRoomy :
    (t : AttrType) (b : Bool) (o : Option Bytes)
    → Ensures (Roomy t) o
    → Ensures (NewIsRoomy t) (if b then some none else (o >>= λ q. some (some q)))
either-NewIsRoomy t true o h = tt
either-NewIsRoomy t false o h =
    Ensures-bind (Roomy t) (NewIsRoomy t) o (λ q. some (some q)) (λ q k. k) h

pub changed_value-NewIsRoomy :
    (t : AttrType) (p value : Bytes) (n : ℕ)
    → Roomy t p
    → n ≤ 9
    → Ensures (NewIsRoomy t) (changed_value t p value n)
unfolding changed_value changed_int32 changed_string
changed_value-NewIsRoomy int32 p value n h l =
    Ensures-bind (λ _. Unit) (NewIsRoomy int32) (read_int32 p) _
      (λ told _.
        Ensures-bind (λ _. Unit) (NewIsRoomy int32) (c_str value) _
          (λ text _.
            Ensures-bind (λ _. Unit) (NewIsRoomy int32) (atoi text) _
              (λ tnew _.
                either-NewIsRoomy int32 (told == tnew) (write_int32 p tnew)
                  (write_int32-room p tnew))
              (Ensures-any (atoi text)))
          (Ensures-any (c_str value)))
      (Ensures-any (read_int32 p))
changed_value-NewIsRoomy string p value n h l =
    Ensures-bind (λ _. Unit) (NewIsRoomy string) (c_str p) _
      (λ told _.
        Ensures-bind (λ _. Unit) (NewIsRoomy string) (c_str value) _
          (λ tnew _.
            either-NewIsRoomy string (same told tnew) (strncpy p tnew n)
              (strncpy-Roomy p tnew n l h))
          (Ensures-any (c_str value)))
      (Ensures-any (c_str p))
changed_value-NewIsRoomy (other k) p value n h l = tt
