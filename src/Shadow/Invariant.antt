-- ===== src/Shadow/Invariant.antt =====
-- The invariant of the attributes of jni/server/IOT_DeviceShadow.cpp: the map is in the order of its
-- keys, each attribute is named by its key, and its type is INT32 or STRING.
use java_iotwrap.Common.{
  ◌≡◌, ap, sym, subst, ◌∙◌, ◌⊎◌, inl, inr, Bool, [], ◌∷◌, some, Bool-cases, Bytes, same,
}
use java_iotwrap.StdMap.{StdMap, before, find, insert, modify}
use java_iotwrap.StdMap.Laws.{After, IsSorted, modify-IsSorted}
use java_iotwrap.Shadow.{AttrType, int32, string, DsAttr}
use java_iotwrap.Shadow.PushLaws.{none_due}
use java_iotwrap.Shadow.UpdateLaws.{IsRefreshed, AreRefreshed}

abbrev pub IsKnown : AttrType → Type 0
IsKnown t = (t ≡ int32) ⊎ (t ≡ string)

abbrev pub EntryIsValid : Bytes → DsAttr → Type 0
EntryIsValid k e = (e.attr.name ≡ k) × IsKnown e.attr.attr_type

abbrev pub EntriesAreValid : StdMap DsAttr → Type 0
EntriesAreValid [] = Unit
EntriesAreValid ((k, e) ∷ m) = EntryIsValid k e × EntriesAreValid m

abbrev pub MapIsValid : StdMap DsAttr → Type 0
MapIsValid m = IsSorted m × EntriesAreValid m

-- An entry keeps its name and type.
abbrev pub SameKind : DsAttr → DsAttr → Type 0
SameKind e e' = (e'.attr.name ≡ e.attr.name) × (e'.attr.attr_type ≡ e.attr.attr_type)

SameKind-valid : (k : Bytes) (e e' : DsAttr) → SameKind e e' → EntryIsValid k e → EntryIsValid k e'
SameKind-valid k e e' s h = (s.0 ∙ h.0, subst IsKnown (sym s.1) h.1)

modify-EntriesAreValid :
    (k : Bytes) (f : DsAttr → DsAttr) (m : StdMap DsAttr)
    → ((e : DsAttr) → find k m ≡ some e → SameKind e (f e))
    → EntriesAreValid m
    → EntriesAreValid (modify k f m)
unfolding find modify
modify-EntriesAreValid k f [] s h = tt
modify-EntriesAreValid k f ((j, e) ∷ m) s h = elim (Bool-cases (same k j)) [
  | inl t ↦ rw t (SameKind-valid j e (f e) (s e (rw t)) h.0, h.1)
  | inr t ↦ rw t (h.0, modify-EntriesAreValid k f m (λ e' p. s e' (rw t p)) h.1)
]

pub modify-MapIsValid :
    (k : Bytes) (f : DsAttr → DsAttr) (m : StdMap DsAttr)
    → ((e : DsAttr) → find k m ≡ some e → SameKind e (f e))
    → MapIsValid m
    → MapIsValid (modify k f m)
modify-MapIsValid k f m s h = (modify-IsSorted k f m h.0, modify-EntriesAreValid k f m s h.1)

pub insert-EntriesAreValid :
    (k : Bytes) (e : DsAttr) (m : StdMap DsAttr)
    → EntryIsValid k e
    → EntriesAreValid m
    → EntriesAreValid (insert k e m)
unfolding insert
insert-EntriesAreValid k e [] n h = (n, tt)
insert-EntriesAreValid k e ((j, w) ∷ m) n h = elim (Bool-cases (same k j)) [
  | inl t ↦ rw t h
  | inr t ↦ elim (Bool-cases (before k j)) [
    | inl u ↦ rw (t, u) (n, h)
    | inr u ↦ rw (t, u) (h.0, insert-EntriesAreValid k e m n h.1)
  ]
]

none_due-After : (k : Bytes) (m : StdMap DsAttr) → After k m → After k (none_due m)
none_due-After k [] h = tt
none_due-After k ((j, e) ∷ m) h = (h.0, none_due-After k m h.1)

pub none_due-MapIsValid : (m : StdMap DsAttr) → MapIsValid m → MapIsValid (none_due m)
none_due-MapIsValid [] h = (tt, tt)
none_due-MapIsValid ((k, e) ∷ m) (s, n) =
    let rest = none_due-MapIsValid m (s.1, n.1) in ((none_due-After k m s.0, rest.0), (n.0, rest.1))

IsRefreshed-SameKind : (b : Bool) (e e' : DsAttr) → IsRefreshed b e e' → SameKind e e'
IsRefreshed-SameKind b e e' (inl p) = (ap (λ x. x.attr.name) p, ap (λ x. x.attr.attr_type) p)
IsRefreshed-SameKind b e e' (inr (q, p, l, t)) =
    (ap (λ x. x.attr.name) p, ap (λ x. x.attr.attr_type) p)

AreRefreshed-After :
    (b : Bool) (k : Bytes) (m m' : StdMap DsAttr) → AreRefreshed b m m' → After k m → After k m'
AreRefreshed-After b k [] [] r h = tt
AreRefreshed-After b k [] (x ∷ m') r h = absurd r
AreRefreshed-After b k (x ∷ m) [] r h = absurd r
AreRefreshed-After b k ((j, e) ∷ m) ((j', e') ∷ m') r h =
    (rw r.0 h.0, AreRefreshed-After b k m m' r.2 h.1)

pub AreRefreshed-MapIsValid :
    (b : Bool) (m m' : StdMap DsAttr) → AreRefreshed b m m' → MapIsValid m → MapIsValid m'
AreRefreshed-MapIsValid b [] [] r h = h
AreRefreshed-MapIsValid b [] (x ∷ m') r h = absurd r
AreRefreshed-MapIsValid b (x ∷ m) [] r h = absurd r
AreRefreshed-MapIsValid b ((j, e) ∷ m) ((j', e') ∷ m') r (s, n) =
    let rest = AreRefreshed-MapIsValid b m m' r.2 (s.1, n.1) in
    (
      (rw r.0 (AreRefreshed-After b j m m' r.2 s.0), rest.0),
      (rw r.0 (SameKind-valid j e e' (IsRefreshed-SameKind b e e' r.1) n.0), rest.1),
    )
