-- ===== src/Service/ShortAnswers.antt =====
-- callPropertyGet of jni/server/IOT_Service.cpp where no client answers more than `k` bytes: the
-- buffer keeps what was behind them.
use java_iotwrap.Common.{
  ℕ, zero, suc, ◌-◌, ◌≤◌, ◌≡◌, refl, sym, inl, inr, List, [], ◌∷◌, ◌++◌, Option, none, some, ◌>>=◌,
  Succeeds, Succeeds-bind, Ensures, arith, ◌==◌, Bool-cases, Bytes, ℤ, pos, negsuc, minus_one,
  length, take, drop, replicate, All, drop-replicate, length-replicate, length-append, length-take,
  length-drop, memcpy_inside, subst,
}
use java_iotwrap.StdMap.{find}
use java_iotwrap.Service.{Client, Service}
use java_iotwrap.Service.Calls.{
  Call, Query, clip, first_client, ask, keep_answer, get_one, get_all, get_default, start_query,
  call_property_get,
}
use java_iotwrap.Service.PropertyGet.{clip_le}

-- Every byte from position `k` on is NUL.
abbrev pub ZerosFrom : ℕ → Bytes → Type 0
ZerosFrom k v = All (λ b. b ≡ 0) (drop k v)

ZerosFrom-append :
    (k : ℕ) (xs ys : Bytes) → length xs ≤ k → ZerosFrom (k - length xs) ys → ZerosFrom k (xs ++ ys)
ZerosFrom-append k [] ys h z = subst (λ j. ZerosFrom j ys) (omega arith) z
ZerosFrom-append zero (x ∷ xs) ys h z = absurd (omega arith)
ZerosFrom-append (suc k) (x ∷ xs) ys h z =
    ZerosFrom-append k xs ys (omega arith) (subst (λ j. ZerosFrom j ys) (omega arith) z)

ZerosFrom-drop : (k n : ℕ) (ys : Bytes) → n ≤ k → ZerosFrom k ys → ZerosFrom (k - n) (drop n ys)
ZerosFrom-drop k zero ys h z = subst (λ j. ZerosFrom j ys) (omega arith) z
ZerosFrom-drop zero (suc n) ys h z = absurd (omega arith)
ZerosFrom-drop (suc k) (suc n) [] h z = none_left (suc k - suc n)
  where
    none_left : (j : ℕ) → ZerosFrom j []
    none_left zero = tt
    none_left (suc j) = tt
ZerosFrom-drop (suc k) (suc n) (y ∷ ys) h z =
    subst (λ j. ZerosFrom j (drop n ys)) (omega arith) (ZerosFrom-drop k n ys (omega arith) z)

All-replicate : (n : ℕ) → All (λ (b : ℕ). b ≡ 0) (replicate n 0)
All-replicate zero = tt
All-replicate (suc n) = (refl, All-replicate n)

ZerosFrom-replicate : (k n : ℕ) → ZerosFrom k (replicate n 0)
ZerosFrom-replicate k n =
    subst (All (λ (b : ℕ). b ≡ 0)) (sym (drop-replicate k n 0)) (All-replicate (n - k))

ZerosFrom-copy :
    (k n : ℕ) (str val : Bytes)
    → n ≤ length str
    → n ≤ k
    → ZerosFrom k val
    → ZerosFrom k (take n str ++ drop n val)
ZerosFrom-copy k n str val h l z =
    let e : length (take n str) ≡ n = omega (arith, length-take n str) in
    ZerosFrom-append k (take n str) (drop n val) (omega arith)
      (subst (λ j. ZerosFrom (k - j) (drop n val)) (sym e) (ZerosFrom-drop k n val l z))

-- The state of the loop.
abbrev IsShort : ℕ → ℕ → Query → Type 0
IsShort size k q = (length q.val ≡ size) × (length q.str ≤ k) × (q.len ≤ k) × ZerosFrom k q.val

-- A result of callPropertyGet.
abbrev pub ShortAnswer : ℕ → ℕ → ℤ × Bytes × List Call → Type 0
ShortAnswer size k (pos n, val, calls) = (n ≤ k) × (length val ≡ size) × ZerosFrom k val
ShortAnswer size k (negsuc n, val, calls) = (length val ≡ size) × ZerosFrom k val

keep_answer-IsShort :
    (size k : ℕ) (q : Query)
    → IsShort size k q
    → q.len ≡ length q.str
    → Succeeds (IsShort size k) (keep_answer size q)
unfolding keep_answer
keep_answer-IsShort size k q (h, s, l, z) e = elim (Bool-cases (q.len == 0)) [
  | inl n ↦ rw n (h, s, l, z)
  | inr n ↦
      let m = clip size q.len in
      let inside : m ≤ length q.str = omega (arith, clip_le size q.len) in
      let room : m ≤ length q.val = omega (arith, clip_le size q.len) in
      rw (n, memcpy_inside q.val q.str m room inside)
        (
          omega (
            arith,
            length-append (take m q.str) (drop m q.val),
            length-take m q.str,
            length-drop m q.val,
          ),
          s,
          omega (arith, clip_le size q.len),
          ZerosFrom-copy k m q.str q.val inside (omega (arith, clip_le size q.len)) z,
        )
]

module _ (answer : ℕ → Bytes → Option Bytes) (k : ℕ)
    (short : (cb : ℕ) (key : Bytes) → Ensures (λ t. length t ≤ k) (answer cb key)) where
  ask_str :
      (o : Option Bytes) (str : Bytes)
      → Ensures (λ t. length t ≤ k) o
      → length str ≤ k
      → length {A = ℕ} (elim o [ none ↦ str | some t ↦ t ]) ≤ k
  ask_str none str h l = l
  ask_str (some t) str h l = h

  get_one-IsShort :
      (o : Client) (key : Bytes) (size : ℕ) (q : Query)
      → IsShort size k q
      → Succeeds (IsShort size k) (get_one answer o key size q)
  unfolding get_one ask
  get_one-IsShort o key size q f = elim (Bool-cases (o.property == 0)) [
    | inl e ↦ rw e f
    | inr e ↦
        let l = ask_str (answer o.property key) q.str (short o.property key) f.1 in
        rw e (keep_answer-IsShort size k (ask answer o.property key q) (f.0, l, l, f.3) refl)
  ]

  get_all-IsShort :
      (m : ℕ → Client) (key : Bytes) (size : ℕ) (cs : List ℕ) (q : Query)
      → IsShort size k q
      → Succeeds (IsShort size k) (get_all answer m key size cs q)
  unfolding get_all
  get_all-IsShort m key size [] q f = f
  get_all-IsShort m key size (c ∷ cs) q f =
      Succeeds-bind (IsShort size k) (IsShort size k) (get_one answer (m c) key size q)
        (λ q'. get_all answer m key size cs q') (λ q'. get_all-IsShort m key size cs q')
        (get_one-IsShort (m c) key size q f)

  get_default-ShortAnswer :
      (s : Service) (key : Bytes) (size : ℕ) (q : Query)
      → IsShort size k q
      → Succeeds (ShortAnswer size k) (get_default answer s key size q)
  unfolding get_default
  get_default-ShortAnswer s key size q f = elim (Bool-cases (first_client s.clients == 0)) [
    | inl e ↦ rw e (f.0, f.3)
    | inr e ↦ rw e (
        Succeeds-bind (IsShort size k) (ShortAnswer size k)
          (get_one answer (s.objects (first_client s.clients)) key size q)
          (λ q'. some (pos 0, q'.val, q'.calls)) (λ q' g. (omega arith, g.0, g.3))
          (get_one-IsShort (s.objects (first_client s.clients)) key size q f))
  ]

  -- Into a buffer of NULs, callPropertyGet copies `k` bytes at most, and returns `k` at most.
  pub call_property_get-ShortAnswer :
      (s : Service) (key : Bytes) (size : ℕ)
      → Succeeds
          (ShortAnswer size k)
          (call_property_get answer s (some key) (some (replicate size 0)) size)
  unfolding call_property_get
  call_property_get-ShortAnswer s key size = elim (Bool-cases (size == 0)) [
    | inl z ↦ rw z (length-replicate size 0, ZerosFrom-replicate k size)
    | inr z ↦ rw z (go (find key s.key_follow))
  ]
    where
      val : Bytes
      val = replicate size 0

      started : IsShort size k (start_query val)
      started =
          unfold start_query in
          (length-replicate size 0, omega arith, omega arith, ZerosFrom-replicate k size)

      go :
          (o : Option (Option (List ℕ)))
          → Succeeds (ShortAnswer size k) (elim o [
            | none ↦ get_default answer s key size (start_query val)
            | some none ↦ some (minus_one, val, [])
            | some (some cs) ↦
                (get_all answer s.objects key size cs (start_query val) >>= λ q.
                some (pos q.len, q.val, q.calls))
          ])
      go none = get_default-ShortAnswer s key size (start_query val) started
      go (some none) = (length-replicate size 0, ZerosFrom-replicate k size)
      go (some (some cs)) =
          Succeeds-bind (IsShort size k) (ShortAnswer size k)
            (get_all answer s.objects key size cs (start_query val))
            (λ q. some (pos q.len, q.val, q.calls)) (λ q g. (g.2, g.0, g.3))
            (get_all-IsShort s.objects key size cs (start_query val) started)
