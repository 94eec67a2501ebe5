-- ===== src/ClientJni/Grows.antt =====
-- What a connected client follows in jni/server/IOT_Service.cpp only grows while it follows more.
use java_iotwrap.Common.{
  ℕ, ◌≡◌, ◌≢◌, refl, sym, inl, inr, List, [], ◌∷◌, ◌++◌, ◌⊎◌, some, Bool-cases, if◌then◌else◌,
  Bytes, Has, same, same_refl, subst,
}
use java_iotwrap.Service.{
  Service, FollowType, follow_property, follow_command, follow_other, add_following, add_target,
  contains,
}
use java_iotwrap.Service.Vectors.{Has-add_target, Has-of_All}
use java_iotwrap.Service.Invariant.{
  IsObject, IsValid, SameTables, SameTables-IsValid, add_following-IsValid,
}
use java_iotwrap.Service.Follow.{followers, table, add_following_lem}

-- The client follows the key.
abbrev pub Follows : ℕ → Service → FollowType → Bytes → Type 0
Follows c s type k = Has c (followers k (table type s))

-- From `s` to `t` the client stays connected and follows no less.
abbrev pub Grows : ℕ → Service → Service → Type 0
Grows c s t =
    IsValid t
    × Has c t.clients
    × ((type : FollowType) (k : Bytes) → Follows c s type k → Follows c t type k)

pub Grows-trans : (c : ℕ) (s t u : Service) → Grows c s t → Grows c t u → Grows c s u
Grows-trans c s t u (v, h, f) (w, k, g) = (w, k, λ type j x. g type j (f type j x))

Has-add_target_other : (a c : ℕ) (xs : List ℕ) → Has a xs → Has a (add_target c xs)
unfolding add_target
Has-add_target_other a c xs h = elim (Bool-cases (contains c xs)) [
  | inl e ↦ rw e h
  | inr e ↦ rw e (right a xs (c ∷ []) h)
]
  where
    right : (a : ℕ) (xs ys : List ℕ) → Has a xs → Has a (xs ++ ys)
    right a (x ∷ xs) ys (inl e) = inl e
    right a (x ∷ xs) ys (inr k) = inr (right a xs ys k)
    right a [] ys k = absurd k

FollowType-cases : (u v : FollowType) → (u ≡ v) ⊎ (u ≢ v)
FollowType-cases follow_property follow_property = inl refl
FollowType-cases follow_command follow_command = inl refl
FollowType-cases follow_other follow_other = inl refl
FollowType-cases follow_property follow_command = inr (λ e. cc e)
FollowType-cases follow_property follow_other = inr (λ e. cc e)
FollowType-cases follow_command follow_property = inr (λ e. cc e)
FollowType-cases follow_command follow_other = inr (λ e. cc e)
FollowType-cases follow_other follow_property = inr (λ e. cc e)
FollowType-cases follow_other follow_command = inr (λ e. cc e)

pub add_following-Grows :
    (s : Service) (type : FollowType) (k : Bytes) (c : ℕ)
    → type ≢ follow_other
    → IsValid s
    → Has c s.clients
    → let t = (add_following s type (some k) c).0 in Grows c s t × Follows c t type k
add_following-Grows s type k c n v h =
    let (z, vectors, others, same_clients) = add_following_lem s type k c n v in
    let here : Follows c (add_following s type (some k) c).0 type k =
      rw (vectors k, same_refl k) (Has-add_target c (followers k (table type s))) in
    (
      (
        add_following-IsValid s type (some k) c (Has-of_All (IsObject s) c s.clients v.allocated h)
            v,
        rw same_clients h,
        grow vectors others,
      ),
      here,
    )
  where
    grow :
        ((j : Bytes)
          → followers j (table type (add_following s type (some k) c).0) ≡ (
              if same j k
              then add_target c (followers j (table type s))
              else followers j (table type s)))
        → ((u : FollowType) → u ≢ type → table u (add_following s type (some k) c).0 ≡ table u s)
        → (u : FollowType) (j : Bytes) → Follows c s u j
        → Follows c (add_following s type (some k) c).0 u j
    grow vectors others u j f = elim (FollowType-cases u type) [
      | inr e ↦ rw (others u e) f
      | inl e ↦
          subst (λ w. Follows c s w j → Follows c (add_following s type (some k) c).0 w j) (sym e)
            (λ f'. rw (vectors j) (elim (Bool-cases (same j k)) [
              | inl q ↦ rw q (Has-add_target_other c c (followers j (table type s)) f')
              | inr q ↦ rw q f'
            ]))
            f
    ]

pub SameTables-Grows :
    (c : ℕ) (s t : Service) → SameTables s t → IsValid s → Has c s.clients → Grows c s t
SameTables-Grows c s t e v h = (SameTables-IsValid e v, rw e.clients h, λ type k f. go type k f)
  where
    go : (type : FollowType) (k : Bytes) → Follows c s type k → Follows c t type k
    go follow_property k f = rw e.keys f
    go follow_command k f = rw e.cmds f
    go follow_other k f = f
