-- ===== src/Shadow/UpdateLaws.antt =====
-- updateProperties of jni/server/IOT_DeviceShadow.cpp: what a refresh changes, and what it reads from
-- a client.
use java_iotwrap.Common.{
  ℕ, ◌≡◌, refl, ◌⊎◌, inl, inr, Bool, true, false, List, [], ◌∷◌, Option, none, some, ◌>>=◌, arith,
  ◌||◌, if◌then◌else◌, Bytes, ℤ, pos, Ensures, Ensures-bind, Ensures-any,
}
use java_iotwrap.StdMap.{StdMap}
use java_iotwrap.Service.{Service}
use java_iotwrap.Service.Calls.{Call}
use java_iotwrap.Shadow.{AttrType, int32, string, other, DsAttr, Shadow}
use java_iotwrap.Shadow.Update.{
  Refreshed, put_change, positive_ret, changed_value, refresh_with, refresh_type, refresh,
  refresh_all, update_properties,
}

-- A refreshed entry is as it was, or has new memory and is due; then it is not local, and the loop
-- knows of the change.
abbrev pub IsRefreshed : Bool → DsAttr → DsAttr → Type 0
IsRefreshed flag e e' =
    (e' ≡ e)
    ⊎ ((q : Bytes) × (e' ≡ record e { report = true; attr = record e.attr { mem = some q } })
        × (e.is_local ≡ false)
        × (flag ≡ true))

-- The same keys in the same order, each with a refreshed entry.
abbrev pub AreRefreshed : Bool → StdMap DsAttr → StdMap DsAttr → Type 0
AreRefreshed flag [] [] = Unit
AreRefreshed flag [] (x ∷ m') = ⊥
AreRefreshed flag (x ∷ m) [] = ⊥
AreRefreshed flag ((k, e) ∷ m) ((k', e') ∷ m') =
    (k' ≡ k) × IsRefreshed flag e e' × AreRefreshed flag m m'

put_change-IsRefreshed :
    (e : DsAttr) (calls : List Call) (c : Option Bytes)
    → e.is_local ≡ false
    → let (e', changed, calls') = put_change e calls c in IsRefreshed changed e e'
unfolding put_change
put_change-IsRefreshed e calls none l = inl refl
put_change-IsRefreshed e calls (some q) l = inr (q, refl, l, refl)

abbrev Fine : DsAttr → Refreshed → Type 0
Fine e (e', changed, calls) = IsRefreshed changed e e'

refresh_with-Fine :
    (e : DsAttr) (r : ℤ × Bytes × List Call)
    → e.is_local ≡ false
    → Ensures (Fine e) (refresh_with e r)
unfolding refresh_with
refresh_with-Fine e (ret, value, calls) l = go (positive_ret ret)
  where
    body : (n : ℕ) → Bytes → Option Refreshed
    body n p = changed_value e.attr.attr_type p value n >>= λ c. some (put_change e calls c)

    go :
        (o : Option ℕ)
        → Ensures
            (Fine e)
            (elim o [ none ↦ some (e, false, calls) | some n ↦ (e.attr.mem >>= body n) ])
    go none = inl refl
    go (some n) =
        Ensures-bind (λ _. Unit) (Fine e) e.attr.mem (body n)
          (λ p _.
            Ensures-bind (λ _. Unit) (Fine e) (changed_value e.attr.attr_type p value n)
              (λ c. some (put_change e calls c)) (λ c _. put_change-IsRefreshed e calls c l)
              (Ensures-any (changed_value e.attr.attr_type p value n)))
          (Ensures-any e.attr.mem)

module _ (answer : ℕ → Bytes → Option Bytes) where
  refresh_type-Fine :
      (s : Service) (e : DsAttr) (t : AttrType)
      → e.is_local ≡ false
      → Ensures (Fine e) (refresh_type answer s e t)
  unfolding refresh_type
  refresh_type-Fine s e (other n) l = inl refl
  refresh_type-Fine s e int32 l =
      Ensures-bind (λ _. Unit) (Fine e) _ (refresh_with e) (λ r _. refresh_with-Fine e r l)
        (Ensures-any _)
  refresh_type-Fine s e string l =
      Ensures-bind (λ _. Unit) (Fine e) _ (refresh_with e) (λ r _. refresh_with-Fine e r l)
        (Ensures-any _)

  refresh-Fine : (s : Service) (e : DsAttr) → Ensures (Fine e) (refresh answer s e)
  unfolding refresh
  refresh-Fine s e = go e.is_local refl
    where
      go :
          (b : Bool)
          → e.is_local ≡ b
          → Ensures
              (Fine e)
              (if b then some (e, false, []) else refresh_type answer s e e.attr.attr_type)
      go true l = inl refl
      go false l = refresh_type-Fine s e e.attr.attr_type l

  IsRefreshed-mono :
      (a b : Bool) (e e' : DsAttr) → (a ≡ true → b ≡ true) → IsRefreshed a e e' → IsRefreshed b e e'
  IsRefreshed-mono a b e e' f (inl p) = inl p
  IsRefreshed-mono a b e e' f (inr (q, p, l, t)) = inr (q, p, l, f t)

  AreRefreshed-mono :
      (a b : Bool) (m m' : StdMap DsAttr)
      → (a ≡ true → b ≡ true)
      → AreRefreshed a m m'
      → AreRefreshed b m m'
  AreRefreshed-mono a b [] [] f h = tt
  AreRefreshed-mono a b [] (x ∷ m') f h = h
  AreRefreshed-mono a b (x ∷ m) [] f h = h
  AreRefreshed-mono a b ((k, e) ∷ m) ((k', e') ∷ m') f h =
      (h.0, IsRefreshed-mono a b e e' f h.1, AreRefreshed-mono a b m m' f h.2)

  abbrev FineMap : StdMap DsAttr → StdMap DsAttr × Bool × List Call → Type 0
  FineMap m (m', changed, calls) = AreRefreshed changed m m'

  refresh_all-FineMap :
      (s : Service) (m : StdMap DsAttr) → Ensures (FineMap m) (refresh_all answer s m)
  unfolding refresh_all
  refresh_all-FineMap s [] = tt
  refresh_all-FineMap s ((k, e) ∷ m) =
      let ih = refresh_all-FineMap s m in
      Ensures-bind (Fine e) (FineMap ((k, e) ∷ m)) (refresh answer s e) _
        (λ (e', changed, calls) h.
          Ensures-bind (FineMap m) (FineMap ((k, e) ∷ m)) (refresh_all answer s m) _
            (λ (m', more, others) r. (
              refl,
              IsRefreshed-mono changed (changed || more) e e' (λ t. ground arith) h,
              AreRefreshed-mono more (changed || more) m m' (λ t. ground arith) r,
            ))
            ih)
        (refresh-Fine s e)

  -- updateProperties, when its copies stay inside their objects, returns 0 and keeps the attributes
  -- and their order; each one is as it was, or it is not local, only its value is new, it is due, and
  -- m_reportFlag is set. The flag is not lowered.
  pub update_properties_lem :
      (d : Shadow)
      → Ensures
          (λ ((d', ret, calls) : Shadow × ℤ × List Call).
            (ret ≡ pos 0)
            × AreRefreshed d'.report_flag d.attrs d'.attrs
            × (d.report_flag ≡ true → d'.report_flag ≡ true)
            × (d'.service ≡ d.service)
            × (d'.force_report ≡ d.force_report))
          (update_properties answer d)
  unfolding update_properties
  update_properties_lem d =
      Ensures-bind (FineMap d.attrs) _ (refresh_all answer d.service d.attrs) _
        (λ (m', changed, calls) r. (
          refl,
          AreRefreshed-mono changed (d.report_flag || changed) d.attrs m' (λ t. ground arith) r,
          (λ t. ground arith),
          refl,
          refl,
        ))
        (refresh_all-FineMap d.service d.attrs)
