-- ===== src/Shadow/Fit.antt =====
-- What the thread of jni/server/IOT_DeviceShadow.cpp keeps of the attributes: their names, their types,
-- and the room in their memory, over a refresh and a push.
use java_iotwrap.Common.{
  ℕ, zero, suc, ◌≤◌, ◌≡◌, refl, ap, sym, subst, inl, inr, Bool, true, false, List, [], ◌∷◌, Option,
  none, some, Succeeds, Succeeds-mono, Succeeds-Ensures, Ensures, Ensures-bind, if◌then◌else◌,
  Bool-cases, Bytes, ℤ, pos, negsuc, length, replicate, same, same_iff,
}
use mathlib.Core.Option.{some-injective}
use java_iotwrap.StdMap.{StdMap, find, modify}
use java_iotwrap.Service.{Service}
use java_iotwrap.Service.Calls.{Call, call_property_get}
use java_iotwrap.Service.ShortAnswers.{ShortAnswer, call_property_get-ShortAnswer}
use java_iotwrap.Shadow.{AttrType, int32, string, other, DsAttr, Shadow}
use java_iotwrap.Shadow.PushLaws.{none_due}
use java_iotwrap.Shadow.Update.{
  Refreshed, put_change, changed_value, refresh_with, refresh_type, refresh, refresh_all,
  update_properties,
}
use java_iotwrap.Shadow.Total.{Room, HaveRoom, update_properties_total}
use java_iotwrap.Shadow.Room.{Roomy, nul_after, Roomy-length, changed_value-NewIsRoomy}

abbrev pub keys : StdMap DsAttr → List Bytes
keys [] = []
keys ((k, e) ∷ m) = k ∷ keys m

pub modify-keys :
    (k : Bytes) (f : DsAttr → DsAttr) (m : StdMap DsAttr) → keys (modify k f m) ≡ keys m
unfolding modify
modify-keys k f [] = refl
modify-keys k f ((j, e) ∷ m) = elim (Bool-cases (same k j)) [
  | inl t ↦ rw t refl
  | inr t ↦ rw t (ap (λ ks. j ∷ ks) (modify-keys k f m))
]

pub none_due-keys : (m : StdMap DsAttr) → keys (none_due m) ≡ keys m
none_due-keys [] = refl
none_due-keys ((k, e) ∷ m) = ap (λ ks. k ∷ ks) (none_due-keys m)

Roomy-Room : (t : AttrType) (p : Bytes) → Roomy t p → Room t p
Roomy-Room int32 p h = h
Roomy-Room string p h = (Roomy-length p h, nul_after 9 p h)
Roomy-Room (other n) p h = tt

Succeeds-Ensured : {A : Type 0} (P : A → Type 0) (o : Option A) → Succeeds P o → Ensures P o
Succeeds-Ensured P none h = tt
Succeeds-Ensured P (some a) h = h

-- `type_of` is the type of the attribute with each name.
module _ (type_of : Bytes → AttrType) where
  abbrev EntryFits : Bytes → DsAttr → Type 0
  EntryFits k e =
      (e.attr.name ≡ k)
      × (e.attr.attr_type ≡ type_of k)
      × Succeeds (Roomy e.attr.attr_type) e.attr.mem

  abbrev pub AttrsFit : StdMap DsAttr → Type 0
  AttrsFit [] = Unit
  AttrsFit ((k, e) ∷ m) = EntryFits k e × AttrsFit m

  AttrsFit-HaveRoom : (m : StdMap DsAttr) → AttrsFit m → HaveRoom m
  AttrsFit-HaveRoom [] h = tt
  AttrsFit-HaveRoom ((k, e) ∷ m) h = (
    Succeeds-mono (Roomy e.attr.attr_type) (Room e.attr.attr_type) e.attr.mem
        (Roomy-Room e.attr.attr_type) h.0.2,
    AttrsFit-HaveRoom m h.1,
  )

  pub find-EntryFits :
      (k : Bytes) (e : DsAttr) (m : StdMap DsAttr) → find k m ≡ some e → AttrsFit m → EntryFits k e
  unfolding find
  find-EntryFits k e [] q h = cc
  find-EntryFits k e ((j, e') ∷ m) q h = elim (Bool-cases (same k j)) [
    | inl t ↦
        let at : some e' ≡ some e = rw t at q in
        let k_is : j ≡ k = sym ((same_iff k j).0 t) in
        subst (EntryFits k) (some-injective e' e at) (subst (λ i. EntryFits i e') k_is h.0)
    | inr t ↦ find-EntryFits k e m (rw t at q) h.1
  ]

  pub modify-AttrsFit :
      (k : Bytes) (f : DsAttr → DsAttr) (m : StdMap DsAttr)
      → ((e : DsAttr) → EntryFits k e → EntryFits k (f e))
      → AttrsFit m
      → AttrsFit (modify k f m)
  unfolding modify
  modify-AttrsFit k f [] s h = tt
  modify-AttrsFit k f ((j, e) ∷ m) s h = elim (Bool-cases (same k j)) [
    | inl t ↦
        let k_is : k ≡ j = (same_iff k j).0 t in
        rw t (
          subst (λ i. EntryFits i (f e)) k_is (s e (subst (λ i. EntryFits i e) (sym k_is) h.0)),
          h.1,
        )
    | inr t ↦ rw t (h.0, modify-AttrsFit k f m s h.1)
  ]

  pub none_due-AttrsFit : (m : StdMap DsAttr) → AttrsFit m → AttrsFit (none_due m)
  none_due-AttrsFit [] h = tt
  none_due-AttrsFit ((k, e) ∷ m) h = (h.0, none_due-AttrsFit m h.1)

  -- The shadow has its handle, its attributes' names and what was asked of the SDK, and the
  -- attributes fit.
  abbrev pub Keeps : Shadow → Shadow → Type 0
  Keeps d d' =
      (d'.shadow ≡ d.shadow)
      × (d'.calls ≡ d.calls)
      × (keys d'.attrs ≡ keys d.attrs)
      × AttrsFit d'.attrs

  module _ (answer : ℕ → Bytes → Option Bytes)
      (short : (cb : ℕ) (key : Bytes) → Ensures (λ t. length t ≤ 9) (answer cb key)) where
    abbrev StillFits : Bytes → Refreshed → Type 0
    StillFits k (e', changed, calls) = EntryFits k e'

    refresh_with-StillFits :
        (k : Bytes) (e : DsAttr) (size : ℕ) (r : ℤ × Bytes × List Call)
        → EntryFits k e
        → ShortAnswer size 9 r
        → Ensures (StillFits k) (refresh_with e r)
    unfolding refresh_with put_change
    refresh_with-StillFits k e size (pos zero, value, calls) h s = h
    refresh_with-StillFits k e size (pos (suc n), value, calls) h s =
        Ensures-bind (Roomy e.attr.attr_type) (StillFits k) e.attr.mem _
          (λ p room.
            Ensures-bind (λ c. Ensures (Roomy e.attr.attr_type) c) (StillFits k)
              (changed_value e.attr.attr_type p value (suc n)) _ changed
              (changed_value-NewIsRoomy e.attr.attr_type p value (suc n) room s.0))
          (Succeeds-Ensured _ e.attr.mem h.2)
      where
        changed :
            (c : Option Bytes)
            → Ensures (Roomy e.attr.attr_type) c
            → Ensures (StillFits k) (some (put_change e calls c))
        changed none q = h
        changed (some p) q = (h.0, h.1, q)
    refresh_with-StillFits k e size (negsuc n, value, calls) h s = h

    refresh_type-StillFits :
        (s : Service) (k : Bytes) (e : DsAttr) (t : AttrType)
        → EntryFits k e
        → Ensures (StillFits k) (refresh_type answer s e t)
    unfolding refresh_type
    refresh_type-StillFits s k e (other n) h = h
    refresh_type-StillFits s k e int32 h =
        Ensures-bind (ShortAnswer 32 9) (StillFits k) _ (refresh_with e)
          (λ r. refresh_with-StillFits k e 32 r h)
          (Succeeds-Ensured (ShortAnswer 32 9)
            (call_property_get answer s (some e.attr.name) (some (replicate 32 0)) 32)
            (call_property_get-ShortAnswer answer 9 short s e.attr.name 32))
    refresh_type-StillFits s k e string h =
        Ensures-bind (ShortAnswer 256 9) (StillFits k) _ (refresh_with e)
          (λ r. refresh_with-StillFits k e 256 r h)
          (Succeeds-Ensured (ShortAnswer 256 9)
            (call_property_get answer s (some e.attr.name) (some (replicate 256 0)) 256)
            (call_property_get-ShortAnswer answer 9 short s e.attr.name 256))

    refresh-StillFits :
        (s : Service) (k : Bytes) (e : DsAttr)
        → EntryFits k e
        → Ensures (StillFits k) (refresh answer s e)
    unfolding refresh
    refresh-StillFits s k e h = go e.is_local
      where
        go :
            (b : Bool)
            → Ensures
                (StillFits k)
                (if b then some (e, false, []) else refresh_type answer s e e.attr.attr_type)
        go true = h
        go false = refresh_type-StillFits s k e e.attr.attr_type h

    abbrev StillFit : StdMap DsAttr → StdMap DsAttr × Bool × List Call → Type 0
    StillFit m (m', changed, calls) = (keys m' ≡ keys m) × AttrsFit m'

    refresh_all-StillFit :
        (s : Service) (m : StdMap DsAttr)
        → AttrsFit m
        → Ensures (StillFit m) (refresh_all answer s m)
    unfolding refresh_all
    refresh_all-StillFit s [] h = (refl, tt)
    refresh_all-StillFit s ((k, e) ∷ m) h =
        Ensures-bind (StillFits k) (StillFit ((k, e) ∷ m)) (refresh answer s e) _
          (λ (e', changed, calls) f.
            Ensures-bind (StillFit m) (StillFit ((k, e) ∷ m)) (refresh_all answer s m) _
              (λ (m', more, others) r. (ap (λ ks. k ∷ ks) r.0, (f, r.1)))
              (refresh_all-StillFit s m h.1))
          (refresh-StillFits s k e h.0)

    update_properties-StillFit :
        (d : Shadow)
        → AttrsFit d.attrs
        → Ensures
            (λ ((d', ret, calls) : Shadow × ℤ × List Call). Keeps d d')
            (update_properties answer d)
    unfolding update_properties
    update_properties-StillFit d h =
        Ensures-bind (StillFit d.attrs) _ (refresh_all answer d.service d.attrs) _
          (λ (m', changed, calls) r. (refl, refl, r.0, r.1))
          (refresh_all-StillFit d.service d.attrs h)

    pub update_properties-Keeps :
        (d : Shadow)
        → AttrsFit d.attrs
        → Succeeds
            (λ ((d', ret, calls) : Shadow × ℤ × List Call). Keeps d d')
            (update_properties answer d)
    update_properties-Keeps d h =
        Succeeds-mono _ _ (update_properties answer d) (λ r q. q.1)
          (Succeeds-Ensures _ (λ ((d', ret, calls) : Shadow × ℤ × List Call). Keeps d d')
            (update_properties answer d)
            (update_properties_total answer short d (AttrsFit-HaveRoom d.attrs h))
            (update_properties-StillFit d h))
