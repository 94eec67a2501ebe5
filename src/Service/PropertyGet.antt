-- ===== src/Service/PropertyGet.antt =====
-- callPropertyGet of jni/server/IOT_Service.cpp: it stays inside the caller's buffer, and of several
-- followers the last one decides.
use java_iotwrap.Common.{
  ℕ, ◌≤◌, ◌≡◌, refl, inl, inr, List, [], ◌∷◌, Option, none, some, ◌>>=◌, Succeeds, Succeeds-bind,
  arith, ◌==◌, Bool-cases, Bytes, ℤ, pos, negsuc, minus_one, length, take, drop, length-append,
  length-take, length-drop, memcpy_inside,
}
use java_iotwrap.StdMap.{find}
use java_iotwrap.Service.{Client, Service}
use java_iotwrap.Service.Calls.{
  Call, Query, clip, first_client, ask, keep_answer, get_one, get_all, get_default, start_query,
  call_property_get,
}

pub clip_le : (size len : ℕ) → (clip size len ≤ size) × (clip size len ≤ len)
clip_le size len = ground arith

-- The state of the loop: the buffer has its size, and `len` fits in it.
abbrev pub Fits : ℕ → Query → Type 0
Fits size q = (length q.val ≡ size) × (q.len ≤ size)

keep_answer-Fits :
    (size : ℕ) (q : Query)
    → length q.val ≡ size
    → q.len ≡ length q.str
    → Succeeds (Fits size) (keep_answer size q)
unfolding keep_answer
keep_answer-Fits size q h e = elim (Bool-cases (q.len == 0)) [
  | inl z ↦ rw z (h, ground arith)
  | inr z ↦
      rw (z, memcpy_inside q.val q.str (clip size q.len) (ground arith) (ground arith))
        (
          omega (
            arith,
            length-append (take (clip size q.len) q.str) (drop (clip size q.len) q.val),
            length-take (clip size q.len) q.str,
            length-drop (clip size q.len) q.val,
            clip_le size q.len,
          ),
          (clip_le size q.len).0,
        )
]

pub start_query-Fits : (size : ℕ) (val : Bytes) → length val ≡ size → Fits size (start_query val)
unfolding start_query
start_query-Fits size val h = (h, omega arith)

module _ (answer : ℕ → Bytes → Option Bytes) where
  get_one-Fits :
      (o : Client) (key : Bytes) (size : ℕ) (q : Query)
      → Fits size q
      → Succeeds (Fits size) (get_one answer o key size q)
  unfolding get_one ask
  get_one-Fits o key size q f = elim (Bool-cases (o.property == 0)) [
    | inl e ↦ rw e f
    | inr e ↦ rw e (keep_answer-Fits size (ask answer o.property key q) f.0 refl)
  ]

  pub get_all-Fits :
      (m : ℕ → Client) (key : Bytes) (size : ℕ) (cs : List ℕ) (q : Query)
      → Fits size q
      → Succeeds (Fits size) (get_all answer m key size cs q)
  unfolding get_all
  get_all-Fits m key size [] q f = f
  get_all-Fits m key size (c ∷ cs) q f =
      Succeeds-bind (Fits size) (Fits size) (get_one answer (m c) key size q)
        (λ q'. get_all answer m key size cs q') (λ q'. get_all-Fits m key size cs q')
        (get_one-Fits (m c) key size q f)

  -- A result of callPropertyGet: at most `size`, and a buffer as long as it was.
  abbrev pub InBounds : ℕ → ℤ × Bytes × List Call → Type 0
  InBounds size (pos n, val, calls) = (n ≤ size) × (length val ≡ size)
  InBounds size (negsuc n, val, calls) = (n ≡ 0) × (length val ≡ size)

  get_default-InBounds :
      (s : Service) (key : Bytes) (size : ℕ) (q : Query)
      → Fits size q
      → Succeeds (InBounds size) (get_default answer s key size q)
  unfolding get_default
  get_default-InBounds s key size q f = elim (Bool-cases (first_client s.clients == 0)) [
    | inl e ↦ rw e (refl, f.0)
    | inr e ↦ rw e (
        Succeeds-bind (Fits size) (InBounds size)
          (get_one answer (s.objects (first_client s.clients)) key size q)
          (λ q'. some (pos 0, q'.val, q'.calls)) (λ q' g. (omega arith, g.0))
          (get_one-Fits (s.objects (first_client s.clients)) key size q f))
  ]

  -- Given a buffer of `size` bytes, callPropertyGet ends without a write outside it, whatever the
  -- clients answer; it leaves the buffer as long as it was and returns -1 or at most `size`.
  pub call_property_get-InBounds :
      (s : Service) (key val : Bytes) (size : ℕ)
      → length val ≡ size
      → Succeeds (InBounds size) (call_property_get answer s (some key) (some val) size)
  unfolding call_property_get
  call_property_get-InBounds s key val size h = elim (Bool-cases (size == 0)) [
    | inl z ↦ rw z (refl, h)
    | inr z ↦ rw z (go (find key s.key_follow))
  ]
    where
      go :
          (o : Option (Option (List ℕ)))
          → Succeeds (InBounds size) (elim o [
            | none ↦ get_default answer s key size (start_query val)
            | some none ↦ some (minus_one, val, [])
            | some (some cs) ↦
                (get_all answer s.objects key size cs (start_query val) >>= λ q.
                some (pos q.len, q.val, q.calls))
          ])
      go none = get_default-InBounds s key size (start_query val) (start_query-Fits size val h)
      go (some none) = (refl, h)
      go (some (some cs)) =
          Succeeds-bind (Fits size) (InBounds size)
            (get_all answer s.objects key size cs (start_query val))
            (λ q. some (pos q.len, q.val, q.calls)) (λ q g. (g.1, g.0))
            (get_all-Fits s.objects key size cs (start_query val) (start_query-Fits size val h))
