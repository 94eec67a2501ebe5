-- ===== src/Shadow/RefreshText.antt =====
-- updateProperties of jni/server/IOT_DeviceShadow.cpp on one STRING attribute: the text that a client
-- answers.
use java_iotwrap.Common.{
  ℕ, ◌≤◌, ◌<◌, ◌≡◌, ◌≢◌, refl, ap, ◌∙◌, Bool, true, false, not, List, [], ◌∷◌, ◌++◌, Option, none,
  some, ◌>>=◌, Succeeds, arith, if◌then◌else◌, ◌-◌, Bytes, pos, length, take_all, drop, replicate,
  c_str, NoNul, same, strncpy_inside,
}
use java_iotwrap.StdMap.{find}
use java_iotwrap.Service.{Service}
use java_iotwrap.Service.Calls.{Call, property_get, call_property_get}
use java_iotwrap.Shadow.{AttrType, string, DsAttr}
use java_iotwrap.Shadow.Update.{
  changed_string, Refreshed, put_change, changed_value, refresh_with, refresh_type, refresh,
}
use java_iotwrap.Shadow.Refresh.{read_zeros, positive_ret-pos, get_one_value}

changed_string_lem :
    (p old t value : Bytes)
    → c_str p ≡ some old
    → c_str value ≡ some t
    → length t ≤ length p
    → changed_string p value (length t)
      ≡ some (if same old t then none else some (t ++ drop (length t) p))
unfolding changed_string
changed_string_lem p old t value o v le =
    let z : length t - length t ≡ 0 = omega arith in
    rw (o, v, strncpy_inside p t (length t) le, take_all (length t) t (omega arith), z)
      (ground arith)

refresh_with_string :
    (e : DsAttr) (value : Bytes) (calls : List Call) (p : Bytes) (n : ℕ)
    → 0 < n
    → e.attr.attr_type ≡ string
    → e.attr.mem ≡ some p
    → refresh_with e (pos n, value, calls)
      ≡ (changed_string p value n >>= λ c. some (put_change e calls c))
unfolding refresh_with changed_value
refresh_with_string e value calls p n h ty m =
    ap
      (λ (o : Option ℕ). elim o [
        | none ↦ some (e, false, calls)
        | some k ↦
            (e.attr.mem >>= λ r.
            changed_value e.attr.attr_type r value k >>= λ c. some (put_change e calls c))
      ])
      (positive_ret-pos n h)
    ∙ ap
        (λ (o : Option Bytes).
          o >>= λ r. changed_value e.attr.attr_type r value n >>= λ c. some (put_change e calls c))
        m
    ∙ ap (λ (u : AttrType). changed_value u p value n >>= λ c. some (put_change e calls c)) ty

put_text :
    (e : DsAttr) (calls : List Call) (p q : Bytes) (b : Bool)
    → e.attr.mem ≡ some p
    → let (e', changed, calls') = put_change e calls (if b then none else some q) in
      (e'.attr.mem ≡ some (if b then p else q))
      × (e'.report ≡ (if b then e.report else true))
      × (changed ≡ not b)
unfolding put_change
put_text e calls p q true m = (m, refl, refl)
put_text e calls p q false m = (refl, refl, refl)

module _ (answer : ℕ → Bytes → Option Bytes) where
  refresh_string-asks :
      (s : Service) (e : DsAttr)
      → e.is_local ≡ false
      → e.attr.attr_type ≡ string
      → refresh answer s e ≡ (
          call_property_get answer s (some e.attr.name) (some (replicate 256 0)) 256
          >>= refresh_with e)
  unfolding refresh refresh_type
  refresh_string-asks s e l ty =
      ap (λ (b : Bool). if b then some (e, false, []) else refresh_type answer s e e.attr.attr_type)
        l
      ∙ ap (λ (u : AttrType). refresh_type answer s e u) ty

  -- Where one client follows a STRING property whose attribute is not local and has memory with a NUL in
  -- it, and the client's callback answers a text of 1 to 255 characters without a NUL that the memory has
  -- room for: if the text is the attribute's value, the characters before the first NUL, the memory and
  -- the report mark stay and the result says that nothing changed; otherwise the text, without a NUL
  -- behind it, is put over the start of the memory, the attribute is marked for the next report, and the
  -- result says that it changed.
  pub refresh_string :
      (s : Service) (e : DsAttr) (p old t : Bytes) (c : ℕ)
      → e.is_local ≡ false
      → e.attr.attr_type ≡ string
      → e.attr.mem ≡ some p
      → c_str p ≡ some old
      → length t ≤ length p
      → find e.attr.name s.key_follow ≡ some (some (c ∷ []))
      → (s.objects c).property ≢ 0
      → answer (s.objects c).property e.attr.name ≡ some t
      → NoNul t
      → 0 < length t
      → length t < 256
      → Succeeds
          (λ ((e', changed, calls) : Refreshed).
            (e'.attr.mem ≡ some (if same old t then p else t ++ drop (length t) p))
            × (e'.report ≡ (if same old t then e.report else true))
            × (changed ≡ not (same old t)))
          (refresh answer s e)
  refresh_string s e p old t c l ty m o le f n a nn pos_t lt =
      let zeros : Bytes = replicate 256 0 in
      let value : Bytes = t ++ drop (length t) zeros in
      let calls : List Call = property_get (s.objects c).property e.attr.name ∷ [] in
      let got =
        get_one_value answer s e.attr.name t zeros c 256 (omega arith) f n a refl (omega arith) in
      rw
        (
          refresh_string-asks s e l ty,
          got,
          refresh_with_string e value calls p (length t) pos_t ty m,
          changed_string_lem p old t value o (read_zeros t 256 nn lt) le,
        )
        (put_text e calls p (t ++ drop (length t) p) (same old t) m)
