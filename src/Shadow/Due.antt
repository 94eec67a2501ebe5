-- ===== src/Shadow/Due.antt =====
-- The reminder of jni/server/IOT_DeviceShadow.cpp: while an attribute waits for its report, m_reportFlag
-- or g_forceReport is up, so that pushProperties does not return at once.
use java_iotwrap.Common.{
  ◌≡◌, refl, ap, ◌⊎◌, inl, inr, Bool, true, false, [], ◌∷◌, Bool-cases, arith, ◌||◌, Bytes, same,
}
use java_iotwrap.StdMap.{StdMap, before, insert, modify}
use java_iotwrap.Shadow.{DsAttr, Shadow}
use java_iotwrap.Shadow.UpdateLaws.{AreRefreshed}
use java_iotwrap.Shadow.PushLaws.{none_due}

-- Whether some attribute waits for its report.
abbrev pub any_due : StdMap DsAttr → Bool
any_due [] = false
any_due ((k, e) ∷ m) = e.report || any_due m

abbrev pub IsRemembered : Shadow → Type 0
IsRemembered d = any_due d.attrs ≡ true → d.report_flag || d.force_report ≡ true

pub any_due-none_due : (m : StdMap DsAttr) → any_due (none_due m) ≡ false
any_due-none_due [] = refl
any_due-none_due ((k, e) ∷ m) = any_due-none_due m

or-left : (a b c : Bool) → (a ≡ true → b ≡ true) → a || c ≡ true → b || c ≡ true
or-left true b c f h = ground (arith, f refl)
or-left false b c f h = ground (arith, h)

or-right : (a b c : Bool) → (b ≡ true → c ≡ true) → a || b ≡ true → a || c ≡ true
or-right true b c f h = refl
or-right false b c f h = f h

-- A change that leaves the report mark, and one that takes it away.
pub any_due-modify :
    (k : Bytes) (f : DsAttr → DsAttr) (m : StdMap DsAttr)
    → ((e : DsAttr) → (f e).report ≡ true → e.report ≡ true)
    → any_due (modify k f m) ≡ true
    → any_due m ≡ true
unfolding modify
any_due-modify k f [] g h = h
any_due-modify k f ((j, e) ∷ m) g h = elim (Bool-cases (same k j)) [
  | inl t ↦ or-left (f e).report e.report (any_due m) (g e) (rw t at h)
  | inr t ↦
      or-right e.report (any_due (modify k f m)) (any_due m) (any_due-modify k f m g) (rw t at h)
]

-- An entry that is put down after it was put up.
pub any_due-put_down :
    (k : Bytes) (f g : DsAttr → DsAttr) (m : StdMap DsAttr)
    → ((e : DsAttr) → (g (f e)).report ≡ false)
    → any_due (modify k g (modify k f m)) ≡ true
    → any_due m ≡ true
unfolding modify
any_due-put_down k f g [] d h = h
any_due-put_down k f g ((j, e) ∷ m) d h = elim (Bool-cases (same k j)) [
  | inl t ↦ ground (arith, rw (t, t) at h, d e)
  | inr t ↦
      or-right e.report (any_due (modify k g (modify k f m))) (any_due m)
        (any_due-put_down k f g m d) (rw (t, t) at h)
]

pub any_due-insert :
    (k : Bytes) (e : DsAttr) (m : StdMap DsAttr)
    → e.report ≡ false
    → any_due (insert k e m) ≡ true
    → any_due m ≡ true
unfolding insert
any_due-insert k e [] n h = ground (arith, h, n)
any_due-insert k e ((j, w) ∷ m) n h = elim (Bool-cases (same k j)) [
  | inl t ↦ rw t at h
  | inr t ↦ elim (Bool-cases (before k j)) [
    | inl u ↦ ground (arith, rw (t, u) at h, n)
    | inr u ↦
        or-right w.report (any_due (insert k e m)) (any_due m) (any_due-insert k e m n)
          (rw (t, u) at h)
  ]
]

pub any_due-AreRefreshed :
    (b : Bool) (m m' : StdMap DsAttr)
    → AreRefreshed b m m'
    → any_due m' ≡ true
    → (any_due m ≡ true) ⊎ (b ≡ true)
any_due-AreRefreshed b [] [] r h = inl h
any_due-AreRefreshed b [] (x ∷ m') r h = absurd r
any_due-AreRefreshed b (x ∷ m) [] r h = absurd r
any_due-AreRefreshed b ((k, e) ∷ m) ((k', e') ∷ m') (p, inl q, r) h =
    ground (arith, ap (λ (x : DsAttr). x.report) q, any_due-AreRefreshed b m m' r, h)
any_due-AreRefreshed b ((k, e) ∷ m) ((k', e') ∷ m') (p, inr (q, w, l, t), r) h = inr t
