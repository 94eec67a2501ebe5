-- ===== src/Locks/Reentry.antt =====
-- A callback that asks the service for something while the service calls it: the mutexes of
-- jni/server/IOT_Service.cpp and jni/server/IOT_DeviceShadow.cpp are not recursive.
use java_iotwrap.Common.{
  ℕ, ◌≡◌, ◌≢◌, refl, ap, ◌∙◌, inl, inr, Bool, true, false, not, ◌&&◌, List, [], ◌∷◌, ◌++◌,
  append_assoc, append-nil, sym, Bool-cases, Ensures, Ensures-some, Has, arith,
}
use java_iotwrap.Service.Calls.{Call}
use java_iotwrap.Locks.{
  Lock, lock_clis, lock_attrs, Action, takes, gives, Request, needed, within, each, request_actions,
  Operation, requests, tells, updates, pushes, call_actions, actions, Thread, holds, is_free,
  advance_todo, advance, Acts, here, there, Run, done, act, starting,
}

-- Whether a thread that holds these locks could go through its actions if no other thread were there.
abbrev alone : Bool → Bool → List Action → Bool
alone c a [] = true
alone c a (takes lock_clis ∷ r) = not c && alone true a r
alone c a (takes lock_attrs ∷ r) = not a && alone c true r
alone c a (gives lock_clis ∷ r) = alone false a r
alone c a (gives lock_attrs ∷ r) = alone c false r

-- Actions behind which a thread that cannot go on still cannot, and actions that no thread gets through.
abbrev Passes : Bool → Bool → List Action → Type 0
Passes c a xs = (r : List Action) → alone c a r ≡ false → alone c a (xs ++ r) ≡ false

abbrev Blocks : Bool → Bool → List Action → Type 0
Blocks c a xs = (r : List Action) → alone c a (xs ++ r) ≡ false

Passes-append :
    (c a : Bool) (xs ys : List Action) → Passes c a xs → Passes c a ys → Passes c a (xs ++ ys)
Passes-append c a xs ys p q r h = ap (alone c a) (append_assoc xs ys r) ∙ p (ys ++ r) (q r h)

each-Passes :
    {A : Type 0} (c a : Bool) (f : A → List Action)
    → ((x : A) → Passes c a (f x))
    → (xs : List A) → Passes c a (each f xs)
each-Passes c a f p [] r h = h
each-Passes c a f p (x ∷ xs) r h =
    Passes-append c a (f x) (each f xs) (p x) (each-Passes c a f p xs) r h

each-Blocks :
    {A : Type 0} (c a : Bool) (f : A → List Action) (y : A)
    → ((x : A) → Passes c a (f x))
    → Blocks c a (f y)
    → (xs : List A) → Has y xs
    → Blocks c a (each f xs)
each-Blocks c a f y p b [] w r = absurd w
each-Blocks c a f y p b (x ∷ xs) (inl e) r =
    ap (alone c a) (append_assoc (f x) (each f xs) r)
    ∙ ap (λ z. alone c a (f z ++ (each f xs ++ r))) e
    ∙ b (each f xs ++ r)
each-Blocks c a f y p b (x ∷ xs) (inr w) r =
    ap (alone c a) (append_assoc (f x) (each f xs) r)
    ∙ p x (each f xs ++ r) (each-Blocks c a f y p b xs w r)

-- A lock that is not held, around actions.
within-clis :
    (a : Bool) (inner r : List Action)
    → alone true a (inner ++ gives lock_clis ∷ r) ≡ false
    → alone false a (within lock_clis inner ++ r) ≡ false
within-clis a inner r h = ap (alone true a) (append_assoc inner (gives lock_clis ∷ []) r) ∙ h

within-attrs :
    (inner r : List Action)
    → alone false true (inner ++ gives lock_attrs ∷ r) ≡ false
    → alone false false (within lock_attrs inner ++ r) ≡ false
within-attrs inner r h = ap (alone false true) (append_assoc inner (gives lock_attrs ∷ []) r) ∙ h

clis-Passes : (l : Lock) (c a : Bool) → Passes c a (within l [])
clis-Passes lock_clis true a r h = refl
clis-Passes lock_clis false a r h = h
clis-Passes lock_attrs c true r h = refl
clis-Passes lock_attrs c false r h = h

clis-Blocks : (q : Request) (a : Bool) → needed q ≡ lock_clis → Blocks true a (request_actions q)
clis-Blocks q a e r = rw e refl

all-Blocks : (l : Lock) → Blocks true true (within l [])
all-Blocks lock_clis r = refl
all-Blocks lock_attrs r = refl

module _ (react : Call → List Request) where
  abbrev reaction : Call → List Action
  reaction x = each request_actions (react x)

  reaction-Passes : (c a : Bool) (x : Call) → Passes c a (reaction x)
  reaction-Passes c a x =
      each-Passes c a request_actions (λ q. clis-Passes (needed q) c a) (react x)

  call_actions-Passes : (a : Bool) (calls : List Call) → Passes false a (call_actions react calls)
  call_actions-Passes a calls r h =
      within-clis a (each reaction calls) r
        (each-Passes true a reaction (reaction-Passes true a) calls (gives lock_clis ∷ r) h)

  actions-Passes : (op : Operation) → Passes false false (actions react op)
  actions-Passes (requests q) r h = clis-Passes (needed q) false false r h
  actions-Passes (tells calls) r h = call_actions-Passes false calls r h
  actions-Passes (updates groups) r h = within-attrs (each (call_actions react) groups) r (
      each-Passes false true (call_actions react) (call_actions-Passes true) groups
        (gives lock_attrs ∷ r) h)
  actions-Passes pushes r h = clis-Passes lock_attrs false false r h

  -- A callback of callCommandCB, callPropertySet or callPropertyGet that creates or removes a client, adds
  -- a follower or registers a property callback; or a callback of callPropertyGet in updateProperties that asks
  -- for anything.
  abbrev IsReentrant : Operation → Type 0
  IsReentrant (requests q) = ⊥
  IsReentrant (tells calls) =
      (x : Call) × Has x calls × ((q : Request) × Has q (react x) × (needed q ≡ lock_clis))
  IsReentrant (updates groups) =
      (calls : List Call) × Has calls groups
      × ((x : Call) × Has x calls × ((q : Request) × Has q (react x)))
  IsReentrant pushes = ⊥

  actions-Blocks : (op : Operation) → IsReentrant op → Blocks false false (actions react op)
  actions-Blocks (requests q) w r = absurd w
  actions-Blocks pushes w r = absurd w
  actions-Blocks (tells calls) (x, i, (q, j, e)) r = within-clis false (each reaction calls) r (
      each-Blocks true false reaction x (reaction-Passes true false)
        (each-Blocks true false request_actions q (λ p. clis-Passes (needed p) true false)
          (clis-Blocks q false e) (react x) j)
        calls i (gives lock_clis ∷ r))
  actions-Blocks (updates groups) (calls, k, (x, i, (q, j))) r =
      within-attrs (each (call_actions react) groups) r (
        each-Blocks false true (call_actions react) calls (call_actions-Passes true)
          (λ s. within-clis true (each reaction calls) s (
            each-Blocks true true reaction x (reaction-Passes true true)
              (each-Blocks true true request_actions q (λ p. clis-Passes (needed p) true true)
                (all-Blocks (needed q)) (react x) j)
              calls i (gives lock_clis ∷ s)))
          groups k (gives lock_attrs ∷ r))

-- A thread that cannot go through alone never comes through, whatever the others do.
IsCaught : Thread → Type 0
IsCaught t = alone t.clis t.attrs t.todo ≡ false

advance-IsCaught :
    (free : Lock → Bool) (t : Thread) (r : List Action)
    → ((l : Lock) → free l ≡ true → holds l t ≡ false)
    → alone t.clis t.attrs r ≡ false
    → Ensures IsCaught (advance_todo free t r)
unfolding IsCaught
advance-IsCaught free t [] f h = tt
advance-IsCaught free t (takes lock_clis ∷ r) f h = elim (Bool-cases (free lock_clis)) [
  | inl q ↦ rw q (rw (f lock_clis q) at h)
  | inr q ↦ rw q tt
]
advance-IsCaught free t (takes lock_attrs ∷ r) f h = elim (Bool-cases (free lock_attrs)) [
  | inl q ↦ rw q (rw (f lock_attrs q) at h)
  | inr q ↦ rw q tt
]
advance-IsCaught free t (gives lock_clis ∷ r) f h = h
advance-IsCaught free t (gives lock_attrs ∷ r) f h = h

-- The first thread is caught.
abbrev FirstIsCaught : List Thread → Type 0
FirstIsCaught [] = ⊥
FirstIsCaught (t ∷ ts) = IsCaught t

free-first :
    (t : Thread) (ts : List Thread) (l : Lock) → is_free (t ∷ ts) l ≡ true → holds l t ≡ false
free-first t ts l h = ground (arith, h)

Acts-FirstIsCaught :
    {ts us : List Thread} → Acts (is_free ts) ts us → FirstIsCaught ts → FirstIsCaught us
unfolding IsCaught
Acts-FirstIsCaught (here {t = t} ts e) h =
    Ensures-some IsCaught (advance (is_free (t ∷ ts)) t) e
      (advance-IsCaught (is_free (t ∷ ts)) t t.todo (free-first t ts) h)
Acts-FirstIsCaught (there t a) h = h

Run-FirstIsCaught :
    {n : ℕ} {ts us : List Thread} → Run n ts us → FirstIsCaught ts → FirstIsCaught us
Run-FirstIsCaught (done ts) h = h
Run-FirstIsCaught (act r a) h = Acts-FirstIsCaught a (Run-FirstIsCaught r h)

-- What a thread has left to do, the first one of a list.
abbrev pub first_todo : List Thread → List Action
first_todo [] = []
first_todo (t ∷ ts) = t.todo

caught-todo : (ts : List Thread) → FirstIsCaught ts → first_todo ts ≢ []
unfolding IsCaught
caught-todo [] h e = h
caught-todo (t ∷ ts) h e = let q : true ≡ false = rw e at h in cc

-- If among a thread's operations is a callCommandCB, callPropertySet or callPropertyGet of which a
-- callback, before it returns, creates or removes a client, follows something or registers a property
-- callback, or an updateProperties of which a callback asks the service for anything that needs one of
-- the two locks, a report too: that thread never finishes, whatever the other threads do.
pub reentry_blocks :
    (react : Call → List Request) (ops : List Operation) (op : Operation) (others : List Thread)
    {n : ℕ} {ts : List Thread}
    → Has op ops
    → IsReentrant react op
    → Run n (starting react ops ∷ others) ts
    → first_todo ts ≢ []
unfolding IsCaught
reentry_blocks react ops op others {ts = ts} i w r =
    let blocked =
      each-Blocks false false (actions react) op (actions-Passes react) (actions-Blocks react op w)
        ops i [] in
    caught-todo ts (
      Run-FirstIsCaught r
        (ap (alone false false) (sym (append-nil (each (actions react) ops))) ∙ blocked))
