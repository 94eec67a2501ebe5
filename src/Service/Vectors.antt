-- ===== src/Service/Vectors.antt =====
-- The vectors of clients in jni/server/IOT_Service.cpp: membership after a removal or an addition.
use java_iotwrap.Common.{
  ℕ, ◌≡◌, refl, subst, ◌≢◌, ◌⊎◌, inl, inr, true, List, [], ◌∷◌, ◌++◌, arith, Bool-cases, All,
  All-append, Has, Distinct, Has-append,
}
use java_iotwrap.Service.{remove_at, contains, add_target}

-- The lemmas on vectors of clients.
pub Has-remove_at : (a c : ℕ) (xs : List ℕ) → Has a (remove_at c xs) → Has a xs
unfolding remove_at
Has-remove_at a c [] h = h
Has-remove_at a c (x ∷ xs) h = ground (arith, Has-remove_at a c xs)

pub remove_at-Distinct : (c : ℕ) (xs : List ℕ) → Distinct xs → Distinct (remove_at c xs)
unfolding remove_at
remove_at-Distinct c [] d = tt
remove_at-Distinct c (x ∷ xs) d = ground (arith, remove_at-Distinct c xs d.1, Has-remove_at x c xs)

-- Where no client stands twice, one removal is enough.
pub not-Has-remove_at : (c : ℕ) (xs : List ℕ) → Distinct xs → ¬ Has c (remove_at c xs)
unfolding remove_at
not-Has-remove_at c [] d h = h
not-Has-remove_at c (x ∷ xs) d h = ground (arith, not-Has-remove_at c xs d.1)

pub Has-remove_at_ne : (a c : ℕ) (xs : List ℕ) → a ≢ c → Has a xs → Has a (remove_at c xs)
unfolding remove_at
Has-remove_at_ne a c [] n h = h
Has-remove_at_ne a c (x ∷ xs) n h = ground (arith, Has-remove_at_ne a c xs n)

pub contains-Has : (c : ℕ) (xs : List ℕ) → contains c xs ≡ true → Has c xs
unfolding contains
contains-Has c [] h = cc
contains-Has c (x ∷ xs) h = ground (arith, contains-Has c xs)

pub Has-contains : (c : ℕ) (xs : List ℕ) → Has c xs → contains c xs ≡ true
unfolding contains
Has-contains c [] h = elim h [ ]
Has-contains c (x ∷ xs) h = ground (arith, Has-contains c xs)

pub append-Distinct :
    {A : Type 0} (c : A) (xs : List A) → ¬ Has c xs → Distinct xs → Distinct (xs ++ c ∷ [])
append-Distinct c [] n d = (λ h. h, tt)
append-Distinct c (x ∷ xs) n d =
    (λ h. fresh (Has-append x xs (c ∷ []) h), append-Distinct c xs (λ h. n (inr h)) d.1)
  where
    fresh : ¬ (Has x xs ⊎ Has x (c ∷ []))
    fresh (inl h) = d.0 h
    fresh (inr (inl e)) = n (inl (ground arith))
    fresh (inr (inr h)) = h

pub add_target-Distinct : (c : ℕ) (xs : List ℕ) → Distinct xs → Distinct (add_target c xs)
unfolding add_target
add_target-Distinct c xs d = ground (arith, append-Distinct c xs, Has-contains c xs)

pub add_target-All :
    (P : ℕ → Type 0) (c : ℕ) (xs : List ℕ) → P c → All P xs → All P (add_target c xs)
unfolding add_target
add_target-All P c xs p h = elim (Bool-cases (contains c xs)) [
  | inl e ↦ rw e h
  | inr e ↦ rw e (All-append P xs (c ∷ []) h (p, tt))
]

pub All-remove_at : (P : ℕ → Type 0) (c : ℕ) (xs : List ℕ) → All P xs → All P (remove_at c xs)
unfolding remove_at
All-remove_at P c [] h = tt
All-remove_at P c (x ∷ xs) h = ground (arith, All-remove_at P c xs h.1)

pub All-of_Has : (P : ℕ → Type 0) (xs : List ℕ) → ((a : ℕ) → Has a xs → P a) → All P xs
All-of_Has P [] f = tt
All-of_Has P (x ∷ xs) f = (f x (inl refl), All-of_Has P xs (λ a h. f a (inr h)))

pub Has-of_All : (P : ℕ → Type 0) (a : ℕ) (xs : List ℕ) → All P xs → Has a xs → P a
Has-of_All P a (x ∷ xs) h (inl e) = subst P e h.0
Has-of_All P a (x ∷ xs) h (inr m) = Has-of_All P a xs h.1 m
Has-of_All P a [] h m = absurd m

pub Has-add_target : (c : ℕ) (xs : List ℕ) → Has c (add_target c xs)
unfolding add_target
Has-add_target c xs = elim (Bool-cases (contains c xs)) [
  | inl e ↦ rw e (contains-Has c xs e)
  | inr e ↦ rw e (last xs)
]
  where
    last : (ys : List ℕ) → Has c (ys ++ c ∷ [])
    last [] = inl refl
    last (y ∷ ys) = inr (last ys)
