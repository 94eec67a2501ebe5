-- ===== src/Command/Sound.antt =====
-- What a command name that the callback accepts is.
use mathlib.Core.Option
use mathlib.Core.Option.{some-injective}
use java_iotwrap.Common.{
  ℕ, zero, suc, ◌+◌, ◌-◌, ◌≤◌, ◌<◌, ◌≡◌, ◌≢◌, refl, ap, subst, sym, ◌∙◌, true, [], ◌∷◌, ◌++◌,
  Option, none, some, ◌>>=◌, >>=-eq-some, guard, ◌>>◌, guard-eq-some, arith, leb, Bytes, length,
  length-take, length-drop, take, drop, take-append-drop, All,
}
use java_iotwrap.Command.{
  command_max_len, command_token, strstr, index_of, strchr, quoted_name, command_name,
}

-- The text up to a byte that `index_of` finds.
index_of-split :
    (c : ℕ) (s : Bytes) (n : ℕ)
    → index_of c s ≡ some n
    → (s ≡ take n s ++ c ∷ drop (suc n) s) × All (λ b. b ≢ c) (take n s) × (n < length s)
unfolding index_of
index_of-split c [] n h = cc
index_of-split c (b ∷ bs) zero h = ground arith
index_of-split c (b ∷ bs) (suc n) h =
    let e : (b ≢ c) × (index_of c bs ≡ some n) = ground arith in
    let (split, fresh, inside) = index_of-split c bs n e.1 in
    (ap (◌∷◌ b) split, (e.0, fresh), omega arith)

Option-map-eq-some :
    (f : ℕ → ℕ) (o : Option ℕ) (m : ℕ)
    → Option.map f o ≡ some m
    → (n : ℕ) × (o ≡ some n) × (f n ≡ m)
Option-map-eq-some f none m h = cc
Option-map-eq-some f (some n) m h = (n, refl, some-injective _ _ h)

-- `strchr` from `p`: the byte stands at the offset found, and not between.
strchr-split :
    (text : Bytes) (p c q : ℕ)
    → strchr text p c ≡ some q
    → (p ≤ q)
      × (drop p text ≡ take (q - p) (drop p text) ++ c ∷ drop (suc (q - p)) (drop p text))
      × All (λ b. b ≢ c) (take (q - p) (drop p text))
      × (q < length text)
unfolding strchr
strchr-split text p c q h =
    let (n, e, k) = Option-map-eq-some (λ n. p + n) (index_of c (drop p text)) q h in
    let d : n ≡ q - p = omega arith in
    let (split, fresh, inside) = index_of-split c (drop p text) (q - p) (e ∙ ap some d) in
    (omega arith, split, fresh, omega (arith, length-drop p text))

drop-nil : (k : ℕ) → drop {A = ℕ} k [] ≡ []
drop-nil zero = refl
drop-nil (suc k) = refl

pub drop-drop : (m n : ℕ) (xs : Bytes) → drop m (drop n xs) ≡ drop (n + m) xs
drop-drop m zero xs = ap (λ k. drop k xs) (omega arith)
drop-drop m (suc n) [] = drop-nil m ∙ sym (drop-nil (suc n + m))
drop-drop m (suc n) (x ∷ xs) =
    drop-drop m n xs
    ∙ (let e : suc (n + m) ≡ suc n + m = omega arith in ap (λ k. drop k (x ∷ xs)) e)

index_of-at : (c : ℕ) (s : Bytes) (n : ℕ) → index_of c s ≡ some n → drop n s ≡ c ∷ drop (suc n) s
unfolding index_of
index_of-at c [] n h = cc
index_of-at c (b ∷ bs) zero h = ground arith
index_of-at c (b ∷ bs) (suc n) h = index_of-at c bs n (ground arith)

strchr-at :
    (text : Bytes) (p c q : ℕ) → strchr text p c ≡ some q → drop q text ≡ c ∷ drop (q + 1) text
unfolding strchr
strchr-at text p c q h =
    let (n, e, k) = Option-map-eq-some (λ n. p + n) (index_of c (drop p text)) q h in
    let k' : p + suc n ≡ q + 1 = omega arith in
    ap (λ j. drop j text) (sym k)
    ∙ sym (drop-drop n p text)
    ∙ index_of-at c (drop p text) n e
    ∙ ap (◌∷◌ c) (drop-drop (suc n) p text ∙ ap (λ j. drop j text) k')

leb-le : (a b : ℕ) → leb a b ≡ true → a ≤ b
leb-le a b h = ground arith

-- What the callback has found when it accepts a name.
pub record Quoted (text name : Bytes) (q1 : ℕ) : Type 0 where
  pub q2 : ℕ
  pub at_close : strchr text (q1 + 1) b'"' ≡ some q2
  pub short : q2 - q1 ≤ command_max_len
  pub is_name : take (q2 - q1 - 1) (drop (q1 + 1) text) ≡ name

quoted_name-Quoted :
    (text name : Bytes) (q1 : ℕ) → quoted_name text q1 ≡ some name → Quoted text name q1
unfolding quoted_name
quoted_name-Quoted text name q1 h = go (strchr text (q1 + 1) b'"') refl h
  where
    go :
        (o : Option ℕ)
        → strchr text (q1 + 1) b'"' ≡ o
        → (o >>= λ q2.
            guard (leb q1 q2)
            >> (guard (leb (q2 - q1) command_max_len)
                >> some (take (q2 - q1 - 1) (drop (q1 + 1) text))))
          ≡ some name
        → Quoted text name q1
    go none e k = absurd (cc k)
    go (some q2) e k =
        let (_, k1) = guard-eq-some (leb q1 q2) _ k in
        let (b, k2) = guard-eq-some (leb (q2 - q1) command_max_len) _ k1 in
        record {
          q2 = q2;
          at_close = e;
          short = leb-le (q2 - q1) command_max_len b;
          is_name = some-injective _ _ k2;
        }

pub record Found (text name : Bytes) : Type 0 where
  pub ptr : ℕ
  pub p1 : ℕ
  pub p2 : ℕ
  pub q1 : ℕ
  pub at_token : strstr text command_token ≡ some ptr
  pub at_colon : strchr text ptr b':' ≡ some p1
  pub at_comma : strchr text p1 b',' ≡ some p2
  pub at_open : strchr text p1 b'"' ≡ some q1
  pub open_first : q1 ≤ p2
  pub quoted : Quoted text name q1

command_name-Found : (text name : Bytes) → command_name text ≡ some name → Found text name
unfolding command_name
command_name-Found text name h =
    let (ptr, e1, h1) = >>=-eq-some (strstr text command_token) _ h in
    let (p1, e2, h2) = >>=-eq-some (strchr text ptr b':') _ h1 in
    let (p2, e3, h3) = >>=-eq-some (strchr text p1 b',') _ h2 in
    let (q1, e4, h4) = >>=-eq-some (strchr text p1 b'"') _ h3 in
    let (b, k) = guard-eq-some (leb q1 p2) (quoted_name text q1) h4 in
    record {
      ptr = ptr;
      p1 = p1;
      p2 = p2;
      q1 = q1;
      at_token = e1;
      at_colon = e2;
      at_comma = e3;
      at_open = e4;
      open_first = leb-le q1 p2 b;
      quoted = quoted_name-Quoted text name q1 k;
    }

-- A name that the callback accepts stands in the text between two double quotes, holds no double
-- quote, and fits with its NUL into the 64 bytes of the callback's buffer.
pub command_name_sound :
    (text name : Bytes)
    → command_name text ≡ some name
    → (before : Bytes) × (after : Bytes) × (text ≡ before ++ b'"' ∷ (name ++ b'"' ∷ after))
      × All (λ b. b ≢ b'"') name
      × (length name + 1 ≤ command_max_len)
command_name_sound text name h =
    let f = command_name-Found text name h in
    let g = f.quoted in
    let rest = drop (f.q1 + 1) text in
    let (low, split, fresh, inside) = strchr-split text (f.q1 + 1) b'"' g.q2 g.at_close in
    let e : g.q2 - (f.q1 + 1) ≡ g.q2 - f.q1 - 1 = omega arith in
    let named : take (g.q2 - (f.q1 + 1)) rest ≡ name = ap (λ k. take k rest) e ∙ g.is_name in
    (
      take f.q1 text,
      drop (suc (g.q2 - (f.q1 + 1))) rest,
      (sym (take-append-drop f.q1 text)
          ∙ ap (◌++◌ (take f.q1 text)) (
              strchr-at text f.p1 b'"' f.q1 f.at_open
              ∙ ap (◌∷◌ b'"')
                  (split ∙ ap (λ x. x ++ b'"' ∷ drop (suc (g.q2 - (f.q1 + 1))) rest) named))),
      subst (All (λ b. b ≢ b'"')) named fresh,
      omega (arith, ap length named, length-take (g.q2 - (f.q1 + 1)) rest, g.short),
    )
