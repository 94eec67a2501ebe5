-- ===== src/Locks/Order.antt =====
-- The order of the two locks, m_lockAttrs before m_lockClis, as each operation of the service keeps it.
use java_iotwrap.Common.{
  ◌≡◌, inl, inr, refl, Bool, true, false, List, [], ◌∷◌, ◌++◌, ◌&&◌, not, length, suc, arith,
  Bool-cases, Ensures, Ensures-some, ap, ◌∙◌, append_assoc, All,
}
use java_iotwrap.Service.Calls.{Call}
use java_iotwrap.Locks.{
  Lock, lock_clis, lock_attrs, Action, takes, gives, Request, creates, removes, follows, signals,
  adds, reports, each, request_actions, Operation, requests, tells, updates, pushes, call_actions,
  actions, Thread, advance_todo, advance, Acts, here, there, starting_all, remaining,
}

-- The locks that are held, and the actions behind them: m_lockAttrs is never taken under m_lockClis,
-- and what is taken is given back.
abbrev pub ordered : Bool → Bool → List Action → Bool
ordered c a [] = not c && not a
ordered c a (takes lock_clis ∷ r) = not c && ordered true a r
ordered c a (takes lock_attrs ∷ r) = not c && (not a && ordered c true r)
ordered c a (gives lock_clis ∷ r) = c && ordered false a r
ordered c a (gives lock_attrs ∷ r) = not c && (a && ordered c false r)

abbrev pub IsOrdered : Thread → Type 0
IsOrdered t = ordered t.clis t.attrs t.todo ≡ true

-- Callbacks that ask nothing of the service.
abbrev pub quiet : Call → List Request
quiet x = []

each-quiet : (calls : List Call) → each (λ x. each request_actions (quiet x)) calls ≡ []
each-quiet [] = refl
each-quiet (x ∷ xs) = each-quiet xs

ordered-request :
    (q : Request) (r : List Action)
    → ordered false false (request_actions q ++ r) ≡ ordered false false r
ordered-request creates r = refl
ordered-request removes r = refl
ordered-request follows r = refl
ordered-request signals r = refl
ordered-request adds r = refl
ordered-request reports r = refl

ordered-call :
    (a : Bool) (calls : List Call) (r : List Action)
    → ordered false a (call_actions quiet calls ++ r) ≡ ordered false a r
ordered-call a calls r = rw (each-quiet calls) refl

ordered-calls :
    (groups : List (List Call)) (r : List Action)
    → ordered false true (each (call_actions quiet) groups ++ r) ≡ ordered false true r
ordered-calls [] r = refl
ordered-calls (calls ∷ groups) r =
    ap (ordered false true)
      (append_assoc (call_actions quiet calls) (each (call_actions quiet) groups) r)
    ∙ ordered-call true calls (each (call_actions quiet) groups ++ r)
    ∙ ordered-calls groups r

ordered-operation :
    (op : Operation) (r : List Action)
    → ordered false false (actions quiet op ++ r) ≡ ordered false false r
ordered-operation (requests q) r = ordered-request q r
ordered-operation (tells calls) r = ordered-call false calls r
ordered-operation (updates groups) r =
    rw (append_assoc (each (call_actions quiet) groups) (gives lock_attrs ∷ []) r)
      (ordered-calls groups (gives lock_attrs ∷ r))
ordered-operation pushes r = refl

ordered-operations : (ops : List Operation) → ordered false false (each (actions quiet) ops) ≡ true
ordered-operations [] = refl
ordered-operations (op ∷ ops) =
    rw (ordered-operation op (each (actions quiet) ops)) (ordered-operations ops)

pub starting-IsOrdered : (jobs : List (List Operation)) → All IsOrdered (starting_all quiet jobs)
starting-IsOrdered [] = tt
starting-IsOrdered (ops ∷ jobs) = (ordered-operations ops, starting-IsOrdered jobs)

and-left : (a b : Bool) → a && b ≡ true → a ≡ true
and-left a b h = ground arith

and-right : (a b : Bool) → a && b ≡ true → b ≡ true
and-right a b h = ground arith

-- A thread that acts keeps the order, and has one action less to do.
advance-IsOrdered :
    (free : Lock → Bool) (t : Thread) (r : List Action)
    → ordered t.clis t.attrs r ≡ true
    → Ensures (λ t'. IsOrdered t' × (length r ≡ suc (length t'.todo))) (advance_todo free t r)
advance-IsOrdered free t [] o = tt
advance-IsOrdered free t (takes lock_clis ∷ r) o = elim (Bool-cases (free lock_clis)) [
  | inl f ↦ rw f (and-right (not t.clis) (ordered true t.attrs r) o, refl)
  | inr f ↦ rw f tt
]
advance-IsOrdered free t (takes lock_attrs ∷ r) o = elim (Bool-cases (free lock_attrs)) [
  | inl f ↦ rw f (
    and-right (not t.attrs) (ordered t.clis true r)
        (and-right (not t.clis) (not t.attrs && ordered t.clis true r) o),
    refl,
  )
  | inr f ↦ rw f tt
]
advance-IsOrdered free t (gives lock_clis ∷ r) o =
    (and-right t.clis (ordered false t.attrs r) o, refl)
advance-IsOrdered free t (gives lock_attrs ∷ r) o = (
  and-right t.attrs (ordered t.clis false r)
      (and-right (not t.clis) (t.attrs && ordered t.clis false r) o),
  refl,
)

pub Acts-IsOrdered :
    (free : Lock → Bool) {ts ts' : List Thread}
    → Acts free ts ts'
    → All IsOrdered ts
    → All IsOrdered ts' × (remaining ts ≡ suc (remaining ts'))
Acts-IsOrdered free (here {t = t} ts e) (o, os) =
    let (k, n) = Ensures-some _ (advance free t) e (advance-IsOrdered free t t.todo o) in
    ((k, os), omega (arith, n))
Acts-IsOrdered free (there t p) (o, os) =
    let (ks, n) = Acts-IsOrdered free p os in ((o, ks), omega (arith, n))
