-- ===== src/ClientJni/Keys.antt =====
-- The lists of jni/client/IOT_ClientJNI.cpp through every history of the library.
use java_iotwrap.Common.{
  ℕ, ◌≡◌, refl, sym, ap, ◌∙◌, inl, inr, false, List, [], ◌∷◌, ◌++◌, some, ◌>>=◌, Bool-cases, arith,
  ◌==◌, if◌then◌else◌, Bytes, ℤ, is_zero, is_negative, All, All-append, Has, Distinct, same_iff,
  subst, Ensures, Ensures-bind, Ensures-any, Ensures-some, minus_one,
}
use java_iotwrap.Service.Vectors.{append-Distinct}
use java_iotwrap.ClientJni.{
  Remote, Tries, PropertyInfo, ClientJni, new_client_jni, init, has_key, has_cmd, is_empty,
  follow_property, follow_command, try_count, wait_service, connect, post_follow, conn_service,
}

abbrev keys_of : List PropertyInfo → List Bytes
keys_of [] = []
keys_of (i ∷ is) = i.key ∷ keys_of is

abbrev NamesAreValid : List Bytes → Type 0
NamesAreValid xs = Distinct xs × All (λ x. is_empty x ≡ false) xs

abbrev pub IsValid : ClientJni → Type 0
IsValid j = NamesAreValid (keys_of j.property_list) × NamesAreValid j.command_list

has_cmd-Has : (x : Bytes) (xs : List Bytes) → has_cmd x xs ≡ false → ¬ Has x xs
unfolding has_cmd
has_cmd-Has x [] h p = p
has_cmd-Has x (y ∷ ys) h (inl e) = cc (h, (same_iff x y).1 (sym e))
has_cmd-Has x (y ∷ ys) h (inr p) = has_cmd-Has x ys (ground arith) p

has_key-cmd : (x : Bytes) (is : List PropertyInfo) → has_key x is ≡ has_cmd x (keys_of is)
unfolding has_key has_cmd
has_key-cmd x [] = refl
has_key-cmd x (i ∷ is) = rw (has_key-cmd x is) refl

keys_of-append :
    (is : List PropertyInfo) (i : PropertyInfo) → keys_of (is ++ i ∷ []) ≡ keys_of is ++ i.key ∷ []
keys_of-append [] i = refl
keys_of-append (x ∷ is) i = ap (◌∷◌ x.key) (keys_of-append is i)

add_name-NamesAreValid :
    (x : Bytes) (xs : List Bytes)
    → is_empty x ≡ false
    → has_cmd x xs ≡ false
    → NamesAreValid xs
    → NamesAreValid (xs ++ x ∷ [])
add_name-NamesAreValid x xs e n v =
    (append-Distinct x xs (has_cmd-Has x xs n) v.0, All-append _ xs (x ∷ []) v.1 (e, tt))

follow_property-IsValid :
    (j : ClientJni) (key : Bytes) (type size : ℤ)
    → IsValid j
    → IsValid (follow_property j key type size).0
unfolding follow_property
follow_property-IsValid j key type size v = elim (Bool-cases (is_empty key)) [
  | inl e ↦ rw e v
  | inr e ↦ elim (Bool-cases (has_key key j.property_list)) [
    | inl k ↦ rw (e, k) v
    | inr k ↦
        rw (e, k)
          (
            subst NamesAreValid (sym (keys_of-append j.property_list _)) (
                add_name-NamesAreValid key (keys_of j.property_list) e
                  (sym (has_key-cmd key j.property_list) ∙ k) v.0),
            v.1,
          )
  ]
]

follow_command-IsValid :
    (j : ClientJni) (cmd : Bytes) → IsValid j → IsValid (follow_command j cmd).0
unfolding follow_command
follow_command-IsValid j cmd v = elim (Bool-cases (is_empty cmd)) [
  | inl e ↦ rw e v
  | inr e ↦ elim (Bool-cases (has_cmd cmd j.command_list)) [
    | inl k ↦ rw (e, k) v
    | inr k ↦ rw (e, k) (v.0, add_name-NamesAreValid cmd j.command_list e k v.1)
  ]
]

module _ {D : Type 0} (r : Remote D) where
  abbrev SameLists : ClientJni → ClientJni × D × ℤ → Type 0
  SameLists j (j', d', ret) =
      (j'.property_list ≡ j.property_list) × (j'.command_list ≡ j.command_list)

  connect-SameLists :
      (t : Tries) (n : ℕ) (j : ClientJni) (d : D) → Ensures (SameLists j) (connect r t n j d)
  unfolding connect
  connect-SameLists t n j d = elim (Bool-cases (is_zero (wait_service t n 0 false minus_one))) [
    | inl z ↦ rw z (
        Ensures-bind (λ _. Unit) (SameLists j) (r.create_client d j.client_id) _
          (λ q _. (refl, refl)) (Ensures-any (r.create_client d j.client_id)))
    | inr z ↦ rw z (refl, refl)
  ]

  conn_service-SameLists :
      (t : Tries) (j : ClientJni) (d : D) (timeout : ℤ)
      → Ensures (SameLists j) (conn_service r t j d timeout)
  unfolding conn_service
  conn_service-SameLists t j d timeout = elim (Bool-cases (j.proxy == 0)) [
    | inr e ↦ rw e (refl, refl)
    | inl e ↦ rw e (
        Ensures-bind (λ _. Unit) (SameLists j) (try_count timeout) _
          (λ n _.
            Ensures-bind (SameLists j) (SameLists j) (connect r t n j d) _
              (λ (j', d', ret) k. made j' d' ret k) (connect-SameLists t n j d))
          (Ensures-any (try_count timeout)))
  ]
    where
      made :
          (j' : ClientJni) (d' : D) (ret : ℤ)
          → SameLists j (j', d', ret)
          → Ensures (SameLists j) (
              if is_negative ret
              then some (j', d', ret)
              else (post_follow r j' d' >>= λ (d'', ret'). some (j', d'', ret')))
      made j' d' ret k = elim (Bool-cases (is_negative ret)) [
        | inl z ↦ rw z k
        | inr z ↦ rw z (
            Ensures-bind (λ _. Unit) (SameLists j) (post_follow r j' d') _ (λ q _. k)
              (Ensures-any (post_follow r j' d')))
      ]

  -- Every history of the library.
  pub data Step (j : ClientJni) : ClientJni → Type 0 where
    inits : (id : Bytes) (p c : ℕ) → Step j (init j id p c).0
    follows_property : (key : Bytes) (type size : ℤ) → Step j (follow_property j key type size).0
    follows_command : (cmd : Bytes) → Step j (follow_command j cmd).0
    connects :
        (t : Tries) (d : D) (timeout : ℤ) {j' : ClientJni} {d' : D} {ret : ℤ}
        → conn_service r t j d timeout ≡ some (j', d', ret)
        → Step j j'
    loses : Step j (record j { proxy = 0; listening = false })

  pub data Reach : ClientJni → Type 0 where
    start : Reach new_client_jni
    next : {j k : ClientJni} → Reach j → Step j k → Reach k

  Step-IsValid : {j k : ClientJni} → Step j k → IsValid j → IsValid k
  unfolding init
  Step-IsValid {j} (inits id p c) v = v
  Step-IsValid {j} (follows_property key type size) v = follow_property-IsValid j key type size v
  Step-IsValid {j} (follows_command cmd) v = follow_command-IsValid j cmd v
  Step-IsValid {j} (connects t d timeout e) v =
      let (p, c) =
        Ensures-some (SameLists j) (conn_service r t j d timeout) e
          (conn_service-SameLists t j d timeout) in
      rw (p, c) v
  Step-IsValid {j} loses v = v

  -- After any history of init, followProperty, followCommand, connService and losses of the service
  -- the library's keys are different and not empty, and so are its commands.
  pub Reach-NamesAreValid : {j : ClientJni} → Reach j → IsValid j
  Reach-NamesAreValid start = unfold new_client_jni in ((tt, tt), (tt, tt))
  Reach-NamesAreValid (next q st) = Step-IsValid st (Reach-NamesAreValid q)
