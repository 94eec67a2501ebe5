-- ===== src/Locks/Progress.antt =====
-- Threads that keep the order of the two locks always come to their end.
use java_iotwrap.Common.{
  ℕ, ◌≡◌, inl, inr, refl, Bool, true, false, List, [], ◌∷◌, some, ◌&&◌, not, length, ◌+◌, arith,
  Bool-cases, ltb, ◌<◌, ◌≤◌, ◌↔◌, All,
}
use java_iotwrap.Locks.Order.{ordered, IsOrdered, quiet, starting-IsOrdered, Acts-IsOrdered}
use java_iotwrap.Locks.{
  Lock, lock_clis, lock_attrs, Action, takes, gives, Operation, Thread, holds, any_thread, is_free,
  advance_todo, advance, Acts, here, there, Run, done, act, starting_all, remaining,
}

-- Where some thread of a kind that can act is there, one acts.
some-Acts :
    (free : Lock → Bool) (p : Thread → Bool) (ts : List Thread)
    → ((t : Thread) → p t ≡ true → IsOrdered t → (t' : Thread) × (advance free t ≡ some t'))
    → any_thread p ts ≡ true
    → All IsOrdered ts
    → (ts' : List Thread) × Acts free ts ts'
some-Acts free p [] f h os = cc
some-Acts free p (t ∷ ts) f h (o, os) = elim (Bool-cases (p t)) [
  | inl q ↦ let (t', e) = f t q o in (t' ∷ ts, here ts e)
  | inr q ↦ let (ts', a) = some-Acts free p ts f (rw q at h) os in (t ∷ ts', there t a)
]

-- Who holds m_lockClis can act; who holds m_lockAttrs can act if m_lockClis is free; and who has
-- something left can act if both are.
clis_acts :
    (free : Lock → Bool) (t : Thread) (r : List Action)
    → t.clis ≡ true
    → ordered t.clis t.attrs r ≡ true
    → (t' : Thread) × (advance_todo free t r ≡ some t')
clis_acts free t [] h o = let q : false ≡ true = rw h at o in cc
clis_acts free t (takes lock_clis ∷ r) h o = let q : false ≡ true = rw h at o in cc
clis_acts free t (takes lock_attrs ∷ r) h o = let q : false ≡ true = rw h at o in cc
clis_acts free t (gives l ∷ r) h o = (_, refl)

attrs_acts :
    (free : Lock → Bool) (t : Thread) (r : List Action)
    → free lock_clis ≡ true
    → t.attrs ≡ true
    → ordered t.clis t.attrs r ≡ true
    → (t' : Thread) × (advance_todo free t r ≡ some t')
attrs_acts free t [] f h o =
    let q : not t.clis && false ≡ true = rw h at o in absurd (ground (arith, q))
attrs_acts free t (takes lock_clis ∷ r) f h o = (record t { clis = true; todo = r }, rw f refl)
attrs_acts free t (takes lock_attrs ∷ r) f h o =
    let q : not t.clis && false ≡ true = rw h at o in absurd (ground (arith, q))
attrs_acts free t (gives l ∷ r) f h o = (_, refl)

idle_acts :
    (free : Lock → Bool) (t : Thread) (r : List Action)
    → free lock_clis ≡ true
    → free lock_attrs ≡ true
    → (0 < length r)
    → (t' : Thread) × (advance_todo free t r ≡ some t')
idle_acts free t [] f g h = absurd (omega (arith, h))
idle_acts free t (takes lock_clis ∷ r) f g h = (record t { clis = true; todo = r }, rw f refl)
idle_acts free t (takes lock_attrs ∷ r) f g h = (record t { attrs = true; todo = r }, rw g refl)
idle_acts free t (gives l ∷ r) f g h = (_, refl)

not-true : (b : Bool) → b ≡ false → not b ≡ true
not-true b e = ground arith

has_more : Thread → Bool
has_more t = ltb 0 (length t.todo)

remaining-has_more : (ts : List Thread) → 0 < remaining ts → any_thread has_more ts ≡ true
unfolding has_more
remaining-has_more [] h = absurd (omega (arith, h))
remaining-has_more (t ∷ ts) h = elim (Bool-cases (ltb 0 (length t.todo))) [
  | inl q ↦ rw q refl
  | inr q ↦ rw q (remaining-has_more ts (ground (arith, q, h)))
]

-- Some thread can act, as long as something is left to do.
progress :
    (ts : List Thread)
    → All IsOrdered ts
    → 0 < remaining ts
    → (ts' : List Thread) × Acts (is_free ts) ts ts'
unfolding has_more
progress ts os h = elim (Bool-cases (any_thread (holds lock_clis) ts)) [
  | inl c ↦
      some-Acts (is_free ts) (holds lock_clis) ts (λ t q o. clis_acts (is_free ts) t t.todo q o) c
        os
  | inr c ↦
      let f : is_free ts lock_clis ≡ true = not-true (any_thread (holds lock_clis) ts) c in
      elim (Bool-cases (any_thread (holds lock_attrs) ts)) [
        | inl a ↦
            some-Acts (is_free ts) (holds lock_attrs) ts
              (λ t q o. attrs_acts (is_free ts) t t.todo f q o) a os
        | inr a ↦
            let g : is_free ts lock_attrs ≡ true = not-true (any_thread (holds lock_attrs) ts) a in
            some-Acts (is_free ts) has_more ts
              (λ t q o. idle_acts (is_free ts) t t.todo f g (ground (arith, q)))
              (remaining-has_more ts h) os
      ]
]

Run-IsOrdered :
    {n : ℕ} {ts us : List Thread}
    → Run n ts us
    → All IsOrdered ts
    → All IsOrdered us × (remaining ts ≡ n + remaining us)
Run-IsOrdered (done ts) os = (os, omega arith)
Run-IsOrdered (act r a) os =
    let (us, e) = Run-IsOrdered r os in
    let (vs, n) = Acts-IsOrdered _ a us in (vs, omega (arith, e, n))

-- If the callbacks ask nothing of the service while they are called: threads that make any operations,
-- in any interleaving, never come to a deadlock. As long as an action is left some thread can act, and
-- after as many actions as the operations have none is left.
pub operations_end :
    (jobs : List (List Operation)) {n : ℕ} {ts : List Thread}
    → Run n (starting_all quiet jobs) ts
    → (n ≤ remaining (starting_all quiet jobs))
      × (n ≡ remaining (starting_all quiet jobs) ↔ remaining ts ≡ 0)
      × (n < remaining (starting_all quiet jobs) → (us : List Thread) × Acts (is_free ts) ts us)
operations_end jobs {n = n} {ts = ts} r =
    let (os, e) = Run-IsOrdered r (starting-IsOrdered jobs) in
    (
      omega (arith, e),
      ((λ h. omega (arith, e, h)), (λ h. omega (arith, e, h))),
      (λ h. progress ts os (omega (arith, e, h))),
    )
