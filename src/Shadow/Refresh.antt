-- ===== src/Shadow/Refresh.antt =====
-- updateProperties of jni/server/IOT_DeviceShadow.cpp on one attribute: the number that a client
-- answers arrives, and the answer of a client that does not follow the property is dropped.
use java_iotwrap.Common.{
  ℕ, zero, suc, ◌-◌, ◌≤◌, ◌<◌, ◌≡◌, ◌≢◌, refl, ap, ◌∙◌, inl, inr, Bool, true, false, List, [], ◌∷◌,
  ◌++◌, Option, none, some, ◌>>=◌, Succeeds, Succeeds-bind, Ensures, Ensures-bind, Ensures-any,
  Succeeds-Ensures, Bool-cases, arith, ◌==◌, ==_iff, if◌then◌else◌, Bytes, ℤ, pos, ◌^◌, length,
  drop, replicate, drop-replicate, length-replicate, c_str, c_str-append, NoNul,
}
use java_iotwrap.StdMap.{find}
use java_iotwrap.Service.{Service}
use java_iotwrap.Service.Calls.{
  Call, Query, property_get, first_client, get_one, get_all, get_default, start_query,
  call_property_get,
}
use java_iotwrap.Service.PropertyGet.{InBounds, call_property_get-InBounds}
use java_iotwrap.Service.LastAnswer.{call_property_get_followed, get_one_whole}
use java_iotwrap.Shadow.{AttrType, int32, string, other, DsAttr}
use java_iotwrap.Shadow.Value.{read_int32, atoi}
use java_iotwrap.Shadow.ValueLaws.{read-write_int32}
use java_iotwrap.Shadow.Update.{
  changed_int32, Refreshed, put_change, positive_ret, buffer_size, changed_value, refresh_with,
  refresh_type, refresh,
}

read_some : (p : Bytes) → 4 ≤ length p → (r : ℕ) × (read_int32 p ≡ some r)
unfolding read_int32
read_some [] h = absurd (omega arith)
read_some (a ∷ []) h = absurd (omega arith)
read_some (a ∷ b ∷ []) h = absurd (omega arith)
read_some (a ∷ b ∷ c ∷ []) h = absurd (omega arith)
read_some (a ∷ b ∷ c ∷ d ∷ p) h = (_, refl)

pub read_zeros :
    (t : Bytes) (size : ℕ)
    → NoNul t
    → length t < size
    → c_str (t ++ drop (length t) (replicate size 0)) ≡ some t
read_zeros t size n h =
    let e : size - length t ≡ suc (size - length t - 1) = omega arith in
    rw (drop-replicate {A = ℕ} (length t) size 0, e)
      (c_str-append t (replicate (size - length t - 1) 0) n)

changed_int32-reads :
    (p t : Bytes) (w : ℕ) (value : Bytes)
    → 4 ≤ length p
    → c_str value ≡ some t
    → atoi t ≡ some w
    → w < 2 ^ 32
    → Succeeds
        (λ (c : Option Bytes). (elim c [ none ↦ read_int32 p | some q ↦ read_int32 q ]) ≡ some w)
        (changed_int32 p value)
unfolding changed_int32
changed_int32-reads p t w value h c a b =
    let (told, r) = read_some p h in
    let (written, reads) = read-write_int32 p w h b in
    elim (Bool-cases (told == w)) [
      | inl e ↦ rw (r, c, a, e) (r ∙ ap some ((==_iff told w).0 e))
      | inr e ↦ rw (r, c, a, e, written) reads
    ]

pub positive_ret-pos : (n : ℕ) → 0 < n → positive_ret (pos n) ≡ some n
positive_ret-pos zero h = absurd (omega arith)
positive_ret-pos (suc n) h = refl

refresh_with_int32 :
    (e : DsAttr) (value : Bytes) (calls : List Call) (p : Bytes) (n : ℕ)
    → 0 < n
    → e.attr.attr_type ≡ int32
    → e.attr.mem ≡ some p
    → refresh_with e (pos n, value, calls)
      ≡ (changed_int32 p value >>= λ c. some (put_change e calls c))
unfolding refresh_with changed_value
refresh_with_int32 e value calls p n h ty m =
    ap
      (λ (o : Option ℕ). elim o [
        | none ↦ some (e, false, calls)
        | some k ↦
            (e.attr.mem >>= λ r.
            changed_value e.attr.attr_type r value k >>= λ c. some (put_change e calls c))
      ])
      (positive_ret-pos n h)
    ∙ ap
        (λ (o : Option Bytes).
          o >>= λ r. changed_value e.attr.attr_type r value n >>= λ c. some (put_change e calls c))
        m
    ∙ ap (λ (u : AttrType). changed_value u p value n >>= λ c. some (put_change e calls c)) ty

-- The memory after a change, or without one, reads as `w`.
abbrev Holds : Bytes → ℕ → Option Bytes → Type 0
Holds p w c = (elim c [ none ↦ read_int32 p | some q ↦ read_int32 q ]) ≡ some w

-- What is said to have changed is marked for the next report; what is not is as it was.
abbrev pub Marked : DsAttr → Refreshed → Type 0
Marked e (e', changed, calls) = (changed ≡ true → e'.report ≡ true) × (changed ≡ false → e' ≡ e)

put_change-Holds :
    (e : DsAttr) (calls : List Call) (p : Bytes) (w : ℕ) (c : Option Bytes)
    → e.attr.mem ≡ some p
    → Holds p w c
    → (((put_change e calls c).0.attr.mem >>= read_int32) ≡ some w)
      × Marked e (put_change e calls c)
unfolding put_change
put_change-Holds e calls p w none m k =
    (ap (λ (o : Option Bytes). o >>= read_int32) m ∙ k, ((λ q. cc q), (λ q. refl)))
put_change-Holds e calls p w (some q) m k = (k, ((λ z. refl), (λ z. cc z)))

module _ (answer : ℕ → Bytes → Option Bytes) where
  -- Where nobody ever followed a property, callPropertyGet returns -1 or 0.
  unfollowed_ret :
      (s : Service) (key val : Bytes) (size : ℕ)
      → find key s.key_follow ≡ none
      → Ensures
          (λ ((ret, out, calls) : ℤ × Bytes × List Call). positive_ret ret ≡ none)
          (call_property_get answer s (some key) (some val) size)
  unfolding call_property_get get_default
  unfollowed_ret s key val size e = elim (Bool-cases (size == 0)) [
    | inl z ↦ rw z refl
    | inr z ↦
        rw (z, e)
          (elim (Bool-cases (first_client s.clients == 0)) [
            | inl n ↦ rw n refl
            | inr n ↦ rw n (
                Ensures-bind (λ _. Unit) _ asked (λ q'. some (pos 0, q'.val, q'.calls))
                  (λ q' _. refl) (Ensures-any asked))
          ])
  ]
    where
      asked : Option Query
      asked = get_one answer (s.objects (first_client s.clients)) key size (start_query val)

  -- A client that does not follow the property but is asked for it, as the first client, is asked in
  -- vain: the attribute stays as it was, whatever the client answers.
  refresh_unfollowed :
      (s : Service) (e : DsAttr)
      → find e.attr.name s.key_follow ≡ none
      → Succeeds
          (λ ((e', changed, calls) : Refreshed). (e' ≡ e) × (changed ≡ false))
          (refresh answer s e)
  unfolding refresh refresh_type refresh_with
  refresh_unfollowed s e h = go e.is_local
    where
      Same : Refreshed → Type 0
      Same (e', changed, calls) = (e' ≡ e) × (changed ≡ false)

      Dropped : ℤ × Bytes × List Call → Type 0
      Dropped (ret, out, calls) = positive_ret ret ≡ none

      ignores : (r : ℤ × Bytes × List Call) → Dropped r → Succeeds Same (refresh_with e r)
      ignores (ret, out, calls) n = unfold refresh_with in (rw (n, refresh_with) (refl, refl))

      asks :
          (size : ℕ)
          → Succeeds Same (
              call_property_get answer s (some e.attr.name) (some (replicate size 0)) size
              >>= refresh_with e)
      asks size =
          Succeeds-bind (λ r. InBounds answer size r × Dropped r) Same _ (refresh_with e)
            (λ r k. ignores r k.1)
            (Succeeds-Ensures (InBounds answer size) Dropped _
              (call_property_get-InBounds answer s e.attr.name (replicate size 0) size
                (length-replicate size 0))
              (unfollowed_ret s e.attr.name (replicate size 0) size h))

      typed : (t : AttrType) → Succeeds Same (refresh_type answer s e t)
      typed int32 = asks (buffer_size int32)
      typed string = asks (buffer_size string)
      typed (other n) = (refl, refl)

      go :
          (b : Bool)
          → Succeeds Same
              (if b then some (e, false, []) else refresh_type answer s e e.attr.attr_type)
      go true = (refl, refl)
      go false = typed e.attr.attr_type

  refresh_asks :
      (s : Service) (e : DsAttr)
      → e.is_local ≡ false
      → e.attr.attr_type ≡ int32
      → refresh answer s e ≡ (
          call_property_get answer s (some e.attr.name) (some (replicate 32 0)) 32
          >>= refresh_with e)
  unfolding refresh refresh_type
  refresh_asks s e l ty =
      ap (λ (b : Bool). if b then some (e, false, []) else refresh_type answer s e e.attr.attr_type)
        l
      ∙ ap (λ (u : AttrType). refresh_type answer s e u) ty

  pub get_one_value :
      (s : Service) (key t val : Bytes) (c size : ℕ)
      → 0 < size
      → find key s.key_follow ≡ some (some (c ∷ []))
      → (s.objects c).property ≢ 0
      → answer (s.objects c).property key ≡ some t
      → length val ≡ size
      → length t ≤ size
      → call_property_get answer s (some key) (some val) size
        ≡ some
            (pos (length t), t ++ drop (length t) val, property_get (s.objects c).property key ∷ [])
  unfolding get_all start_query
  get_one_value s key t val c size z f n a h le = rw (
    call_property_get_followed answer s key val size (c ∷ []) z f,
    get_one_whole answer (s.objects c) key t size (start_query val) n a h le,
  )

  -- Where one client follows an INT32 property whose attribute is not local, as the period of reports is,
  -- and has memory of at least four bytes, and the client's callback answers the text of a number of an
  -- `int`, of 1 to 31 characters and without a NUL, the attribute holds that number after the
  -- refresh; it is marked for the next report if the result says that it changed, and otherwise it is as
  -- it was.
  pub refresh_int32 :
      (s : Service) (e : DsAttr) (p t : Bytes) (c w : ℕ)
      → e.is_local ≡ false
      → e.attr.attr_type ≡ int32
      → e.attr.mem ≡ some p
      → 4 ≤ length p
      → find e.attr.name s.key_follow ≡ some (some (c ∷ []))
      → (s.objects c).property ≢ 0
      → answer (s.objects c).property e.attr.name ≡ some t
      → NoNul t
      → 0 < length t
      → length t < 32
      → atoi t ≡ some w
      → w < 2 ^ 32
      → Succeeds
          (λ ((e', changed, calls) : Refreshed).
            ((e'.attr.mem >>= read_int32) ≡ some w) × Marked e (e', changed, calls))
          (refresh answer s e)
  refresh_int32 s e p t c w l ty m h f n a nn pos_t lt at b =
      let zeros : Bytes = replicate 32 0 in
      let value : Bytes = t ++ drop (length t) zeros in
      let calls : List Call = property_get (s.objects c).property e.attr.name ∷ [] in
      let got = get_one_value s e.attr.name t zeros c 32 (omega arith) f n a refl (omega arith) in
      rw (refresh_asks s e l ty, got, refresh_with_int32 e value calls p (length t) pos_t ty m)
        (Succeeds-bind (Holds p w) _ (changed_int32 p value) (λ c'. some (put_change e calls c'))
          (λ c' k. put_change-Holds e calls p w c' m k)
          (changed_int32-reads p t w value h (read_zeros t 32 nn lt) at b))
