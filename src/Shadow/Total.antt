-- ===== src/Shadow/Total.antt =====
-- updateProperties of jni/server/IOT_DeviceShadow.cpp: where the answers are short and the attributes
-- have room for them, every read and write stays inside its object.
use java_iotwrap.Common.{
  ℕ, zero, suc, ◌≤◌, ◌<◌, ◌≡◌, inl, inr, Bool, true, false, List, [], ◌∷◌, Option, none, some,
  ◌>>=◌, Succeeds, Succeeds-bind, Succeeds-mono, Succeeds-Ensures, Ensures, arith, ◌==◌,
  if◌then◌else◌, Bool-cases, Bytes, ℤ, pos, negsuc, length, All, c_str, same, strncpy,
  strncpy_inside,
}
use java_iotwrap.StdMap.{StdMap}
use java_iotwrap.Service.{Service}
use java_iotwrap.Service.Calls.{Call}
use java_iotwrap.Service.ShortAnswers.{ShortAnswer, call_property_get-ShortAnswer}
use java_iotwrap.Shadow.{AttrType, int32, string, other, DsAttr, Shadow}
use java_iotwrap.Shadow.Value.{read_int32, write_int32, atoi}
use java_iotwrap.Shadow.Update.{
  changed_int32, changed_string, changed_value, refresh_with, refresh_type, refresh, refresh_all,
  update_properties,
}
use java_iotwrap.Shadow.UpdateLaws.{AreRefreshed, update_properties_lem}
use java_iotwrap.Shadow.ValueLaws.{read-write_int32}
use java_iotwrap.Shadow.ShortText.{c_str-short, Word, atoi-Word}

-- Memory that a refresh with at most nine bytes of text can use.
abbrev pub Room : AttrType → Bytes → Type 0
Room int32 p = 4 ≤ length p
Room string p = (9 ≤ length p) × Succeeds (λ _. Unit) (c_str p)
Room (other n) p = Unit

abbrev HasRoom : DsAttr → Type 0
HasRoom e = Succeeds (Room e.attr.attr_type) e.attr.mem

abbrev pub HaveRoom : StdMap DsAttr → Type 0
HaveRoom = All (λ ((k, e) : Bytes × DsAttr). HasRoom e)

abbrev Ends : {A : Type 0} → Option A → Type 0
Ends o = Succeeds (λ _. Unit) o

either-Ends : {A : Type 0} (b : Bool) (x y : Option A) → Ends x → Ends y → Ends (if b then x else y)
either-Ends true x y h k = h
either-Ends false x y h k = k

pub read_int32-Ends : (p : Bytes) → 4 ≤ length p → Ends (read_int32 p)
unfolding read_int32
read_int32-Ends [] h = absurd (omega arith)
read_int32-Ends (a ∷ []) h = absurd (omega arith)
read_int32-Ends (a ∷ b ∷ []) h = absurd (omega arith)
read_int32-Ends (a ∷ b ∷ c ∷ []) h = absurd (omega arith)
read_int32-Ends (a ∷ b ∷ c ∷ d ∷ p) h = tt

changed_int32-Ends :
    (p value : Bytes)
    → 4 ≤ length p
    → Succeeds (λ t. length t ≤ 9) (c_str value)
    → Ends (changed_int32 p value)
unfolding changed_int32
changed_int32-Ends p value h s =
    Succeeds-bind (λ _. Unit) (λ _. Unit) (read_int32 p) _
      (λ told _.
        Succeeds-bind (λ t. length t ≤ 9) (λ _. Unit) (c_str value) _
          (λ text l.
            Succeeds-bind Word (λ _. Unit) (atoi text) _ (λ tnew w. stores told tnew w)
              (atoi-Word text l))
          s)
      (read_int32-Ends p h)
  where
    stores :
        (told tnew : ℕ)
        → Word tnew
        → Ends (if told == tnew then some none else (write_int32 p tnew >>= λ q. some (some q)))
    stores told tnew w = elim (Bool-cases (told == tnew)) [
      | inl e ↦ rw e tt
      | inr e ↦ rw (e, (read-write_int32 p tnew h w).0) tt
    ]

changed_string-Ends :
    (p value : Bytes) (n : ℕ)
    → Room string p
    → Succeeds (λ t. length t ≤ 9) (c_str value)
    → n ≤ 9
    → Ends (changed_string p value n)
unfolding changed_string
changed_string-Ends p value n (h, ended) s l =
    Succeeds-bind (λ _. Unit) (λ _. Unit) (c_str p) _
      (λ told _.
        Succeeds-bind (λ t. length t ≤ 9) (λ _. Unit) (c_str value) _ (λ tnew _. stores told tnew)
          s)
      ended
  where
    stores :
        (told tnew : Bytes)
        → Ends (if same told tnew then some none else (strncpy p tnew n >>= λ q. some (some q)))
    stores told tnew = elim (Bool-cases (same told tnew)) [
      | inl e ↦ rw e tt
      | inr e ↦ rw (e, strncpy_inside p tnew n (omega arith)) tt
    ]

changed_value-Ends :
    (t : AttrType) (p value : Bytes) (n : ℕ)
    → Room t p
    → Succeeds (λ s. length s ≤ 9) (c_str value)
    → n ≤ 9
    → Ends (changed_value t p value n)
unfolding changed_value
changed_value-Ends int32 p value n h s l = changed_int32-Ends p value h s
changed_value-Ends string p value n h s l = changed_string-Ends p value n h s l
changed_value-Ends (other k) p value n h s l = tt

refresh_with-Ends :
    (e : DsAttr) (size : ℕ) (r : ℤ × Bytes × List Call)
    → HasRoom e
    → 9 < size
    → ShortAnswer size 9 r
    → Ends (refresh_with e r)
unfolding refresh_with
refresh_with-Ends e size (pos zero, value, calls) h lt s = tt
refresh_with-Ends e size (pos (suc n), value, calls) h lt s =
    Succeeds-bind (Room e.attr.attr_type) (λ _. Unit) e.attr.mem _
      (λ p room.
        Succeeds-bind (λ _. Unit) (λ _. Unit) (changed_value e.attr.attr_type p value (suc n)) _
          (λ c _. tt)
          (changed_value-Ends e.attr.attr_type p value (suc n) room
            (c_str-short 9 value (omega (arith, s.1)) s.2) s.0))
      h
refresh_with-Ends e size (negsuc n, value, calls) h lt s = tt

module _ (answer : ℕ → Bytes → Option Bytes)
    (short : (cb : ℕ) (key : Bytes) → Ensures (λ t. length t ≤ 9) (answer cb key)) where
  refresh_type-Ends :
      (s : Service) (e : DsAttr) (t : AttrType) → HasRoom e → Ends (refresh_type answer s e t)
  unfolding refresh_type
  refresh_type-Ends s e (other n) h = tt
  refresh_type-Ends s e int32 h =
      Succeeds-bind (ShortAnswer 32 9) (λ _. Unit) _ (refresh_with e)
        (λ r. refresh_with-Ends e 32 r h (omega arith))
        (call_property_get-ShortAnswer answer 9 short s e.attr.name 32)
  refresh_type-Ends s e string h =
      Succeeds-bind (ShortAnswer 256 9) (λ _. Unit) _ (refresh_with e)
        (λ r. refresh_with-Ends e 256 r h (omega arith))
        (call_property_get-ShortAnswer answer 9 short s e.attr.name 256)

  refresh-Ends : (s : Service) (e : DsAttr) → HasRoom e → Ends (refresh answer s e)
  unfolding refresh
  refresh-Ends s e h =
      either-Ends e.is_local (some (e, false, [])) _ tt (refresh_type-Ends s e e.attr.attr_type h)

  refresh_all-Ends : (s : Service) (m : StdMap DsAttr) → HaveRoom m → Ends (refresh_all answer s m)
  unfolding refresh_all
  refresh_all-Ends s [] h = tt
  refresh_all-Ends s ((k, e) ∷ m) h =
      Succeeds-bind (λ _. Unit) (λ _. Unit) (refresh answer s e) _
        (λ r _.
          Succeeds-bind (λ _. Unit) (λ _. Unit) (refresh_all answer s m) _ (λ q _. tt)
            (refresh_all-Ends s m h.1))
        (refresh-Ends s e h.0)

  -- Where no client answers more than nine bytes, every INT32 attribute has four bytes or more, and
  -- every STRING attribute has nine or more with a NUL among them, updateProperties ends with no read
  -- or write outside an object. It returns 0 and keeps the attributes and their order; each one is as
  -- it was, or it is not local, only its value is new, it is due, and m_reportFlag is set. The flag is
  -- not lowered.
  pub update_properties_total :
      (d : Shadow)
      → HaveRoom d.attrs
      → Succeeds
          (λ ((d', ret, calls) : Shadow × ℤ × List Call).
            (ret ≡ pos 0)
            × AreRefreshed d'.report_flag d.attrs d'.attrs
            × (d.report_flag ≡ true → d'.report_flag ≡ true)
            × (d'.service ≡ d.service)
            × (d'.force_report ≡ d.force_report))
          (update_properties answer d)
  update_properties_total d h =
      Succeeds-mono _ _ (update_properties answer d) (λ r q. q.1)
        (Succeeds-Ensures (λ _. Unit) _ (update_properties answer d) ends
          (update_properties_lem answer d))
    where
      ends : Ends (update_properties answer d)
      ends =
          unfold update_properties in
          (Succeeds-bind (λ _. Unit) (λ _. Unit) (refresh_all answer d.service d.attrs) _
            (λ r _. tt) (refresh_all-Ends d.service d.attrs h))
