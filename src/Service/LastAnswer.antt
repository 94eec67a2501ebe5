-- ===== src/Service/LastAnswer.antt =====
-- Several followers of one property: which answer callPropertyGet of jni/server/IOT_Service.cpp
-- gives, and what it leaves in the buffer.
use java_iotwrap.Common.{
  ℕ, zero, suc, ◌≤◌, ◌<◌, ◌≡◌, refl, ◌∙◌, ap, ◌≢◌, true, false, All, List, [], ◌∷◌, ◌++◌, Option,
  none, some, ◌>>=◌, Succeeds, Succeeds-bind, arith, ◌==◌, Bytes, ℤ, pos, length, take, drop,
  length-append, length-drop, take_all, drop-append_le, memcpy_inside,
}
use java_iotwrap.StdMap.{find}
use java_iotwrap.Service.{Client, Service}
use java_iotwrap.Service.Calls.{
  Call, property_get, Query, clip, ask, keep_answer, get_one, get_all, start_query,
  call_property_get,
}
use java_iotwrap.Service.PropertyGet.{Fits, clip_le, get_all-Fits, start_query-Fits}

take-take-append : (n : ℕ) (xs ys : Bytes) → n ≤ length xs → take n (take n xs ++ ys) ≡ take n xs
take-take-append zero xs ys h = refl
take-take-append (suc n) [] ys h = absurd (omega arith)
take-take-append (suc n) (x ∷ xs) ys h = ap (◌∷◌ x) (take-take-append n xs ys (omega arith))

module _ (answer : ℕ → Bytes → Option Bytes) where
  get_all-append :
      (m : ℕ → Client) (key : Bytes) (size : ℕ) (cs ds : List ℕ) (q : Query)
      → get_all answer m key size (cs ++ ds) q
        ≡ (get_all answer m key size cs q >>= get_all answer m key size ds)
  unfolding get_all
  get_all-append m key size [] ds q = refl
  get_all-append m key size (d ∷ cs) ds q =
      go (get_one answer (m d) key size q) (get_all-append m key size cs ds)
    where
      go :
          (o : Option Query)
          → ((q' : Query)
              → get_all answer m key size (cs ++ ds) q'
                ≡ (get_all answer m key size cs q' >>= get_all answer m key size ds))
          → (o >>= λ q'. get_all answer m key size (cs ++ ds) q')
            ≡ (o >>= (λ q'. get_all answer m key size cs q') >>= get_all answer m key size ds)
      go none ih = refl
      go (some q') ih = ih q'

  -- Clients without a callback leave the loop's state as it is.
  get_all-silent :
      (m : ℕ → Client) (key : Bytes) (size : ℕ) (ds : List ℕ) (q : Query)
      → All (λ d. (m d).property ≡ 0) ds
      → get_all answer m key size ds q ≡ some q
  unfolding get_all get_one
  get_all-silent m key size [] q h = refl
  get_all-silent m key size (d ∷ ds) q h =
      let e : ((m d).property == 0) ≡ true = ground (arith, h.0) in
      rw (e, get_all-silent m key size ds q h.1) refl

  -- One answer, put into the buffer over what is there.
  get_one_answer :
      (o : Client) (key t : Bytes) (size : ℕ) (q : Query)
      → o.property ≢ 0
      → answer o.property key ≡ some t
      → length q.val ≡ size
      → get_one answer o key size q
        ≡ some (record {
          len = clip size (length t);
          str = t;
          val = take (clip size (length t)) t ++ drop (clip size (length t)) q.val;
          calls = q.calls ++ property_get o.property key ∷ [];
        })
  unfolding get_one ask keep_answer
  get_one_answer o key [] size q n a h = ground arith
  get_one_answer o key (b ∷ t) size q n a h = ground (
    arith,
    memcpy_inside q.val (b ∷ t) (clip size (length (b ∷ t))),
    clip_le size (length (b ∷ t)),
  )

  pub call_property_get_followed :
      (s : Service) (key val : Bytes) (size : ℕ) (cs : List ℕ)
      → 0 < size
      → find key s.key_follow ≡ some (some cs)
      → call_property_get answer s (some key) (some val) size ≡ (
          get_all answer s.objects key size cs (start_query val) >>= λ q.
          some (pos q.len, q.val, q.calls))
  unfolding call_property_get
  call_property_get_followed s key val size cs z e =
      let z' : (size == 0) ≡ false = ground arith in rw (z', e)

  pub get_one_whole :
      (o : Client) (key t : Bytes) (size : ℕ) (q : Query)
      → o.property ≢ 0
      → answer o.property key ≡ some t
      → length q.val ≡ size
      → length t ≤ size
      → get_one answer o key size q
        ≡ some (record {
          len = length t;
          str = t;
          val = t ++ drop (length t) q.val;
          calls = q.calls ++ property_get o.property key ∷ [];
        })
  get_one_whole o key t size q n a h le =
      let e : clip size (length t) ≡ length t = ground arith in
      get_one_answer o key t size q n a h ∙ rw (e, take_all (length t) t (omega arith))

  -- Of the clients that follow a property and have a callback, the last one decides, wherever it stands
  -- among followers that have none: given a buffer of `size` bytes, more than 0, if it answers
  -- `t`, callPropertyGet returns the length of `t`, cut to the buffer's size (so 0 if `t` is empty,
  -- whatever the others answered), and the buffer starts with that much of `t`.
  pub call_property_get_last :
      (s : Service) (key val t : Bytes) (size c : ℕ) (cs ds : List ℕ)
      → 0 < size
      → length val ≡ size
      → find key s.key_follow ≡ some (some (cs ++ c ∷ ds))
      → All (λ d. (s.objects d).property ≡ 0) ds
      → (s.objects c).property ≢ 0
      → answer (s.objects c).property key ≡ some t
      → let n = clip size (length t) in
        Succeeds
          (λ ((ret, out, calls) : ℤ × Bytes × List Call). (ret ≡ pos n) × (take n out ≡ take n t))
          (call_property_get answer s (some key) (some val) size)
  call_property_get_last s key val t size c cs ds z h e silent n a =
      rw (call_property_get_followed s key val size (cs ++ c ∷ ds) z e) (
        Succeeds-bind Last _ (get_all answer s.objects key size (cs ++ c ∷ ds) (start_query val)) _
          (λ q l. (ap pos l.0, l.1))
          (rw (get_all-append s.objects key size cs (c ∷ ds) (start_query val)) (
            Succeeds-bind (Fits size) Last (get_all answer s.objects key size cs (start_query val))
              (get_all answer s.objects key size (c ∷ ds)) (λ q f. last q f.0)
              (get_all-Fits answer s.objects key size cs (start_query val)
                (start_query-Fits size val h)))))
    where
      Last : Query → Type 0
      Last q =
          (q.len ≡ clip size (length t))
          × (take (clip size (length t)) q.val ≡ take (clip size (length t)) t)

      start :
          (q : Query)
          → take
              (clip size (length t))
              (take (clip size (length t)) t ++ drop (clip size (length t)) q.val)
            ≡ take (clip size (length t)) t
      start q =
          take-take-append (clip size (length t)) t (drop (clip size (length t)) q.val)
            (clip_le size (length t)).1

      last :
          (q : Query)
          → length q.val ≡ size
          → Succeeds Last (get_all answer s.objects key size (c ∷ ds) q)
      last q f =
          unfold get_all in
          rw
            (
              get_one_answer (s.objects c) key t size q n a f,
              get_all-silent s.objects key size ds _ silent,
            )
            (refl, start q)

  -- Where two clients with a callback follow a property, the answer of the first one fits into the buffer
  -- and the second answers a shorter text, the buffer keeps the rest of the first answer behind the
  -- second one.
  pub call_property_get_overlay :
      (s : Service) (key val t u : Bytes) (size c d : ℕ)
      → length val ≡ size
      → find key s.key_follow ≡ some (some (c ∷ d ∷ []))
      → (s.objects c).property ≢ 0
      → (s.objects d).property ≢ 0
      → answer (s.objects c).property key ≡ some t
      → answer (s.objects d).property key ≡ some u
      → length u < length t
      → length t ≤ size
      → Succeeds
          (λ ((ret, out, calls) : ℤ × Bytes × List Call).
            (ret ≡ pos (length u)) × (out ≡ u ++ (drop (length u) t ++ drop (length t) val)))
          (call_property_get answer s (some key) (some val) size)
  unfolding get_all start_query
  call_property_get_overlay s key val t u size c d h e n m a b lt le =
      let first : Query = record {
        len = length t;
        str = t;
        val = t ++ drop (length t) val;
        calls = property_get (s.objects c).property key ∷ [];
      } in
      rw
        (
          call_property_get_followed s key val size (c ∷ d ∷ []) (omega arith) e,
          get_one_whole (s.objects c) key t size (start_query val) n a h le,
          get_one_whole (s.objects d) key u size first m b
              (omega (arith, length-append t (drop (length t) val), length-drop (length t) val))
              (omega arith),
          drop-append_le (length u) t (drop (length t) val) (omega arith),
        )
        (refl, refl)
