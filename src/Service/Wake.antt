-- ===== src/Service/Wake.antt =====
-- waitForClient and clientActive of jni/server/IOT_Service.cpp: what ends the wait of the shadow's thread.
use java_iotwrap.Common.{
  ℕ, zero, suc, ◌+◌, ◌≡◌, ◌≢◌, ◌↔◌, ◌⊎◌, none, refl, sym, ◌∙◌, inl, inr, true, false, Bool-cases,
  Option, some, arith, Bytes, ℤ, is_zero, ◌==◌, if◌then◌else◌,
}
use java_iotwrap.Service.Session.{regist_command_cb, regist_property_cb, binder_died}
use java_iotwrap.Service.Reach.{
  Step, creates, follows, regists_command, regists_property, dies, waits,
}
use java_iotwrap.Service.{
  Service, FollowType, follow_property, follow_command, follow_other, create_client, add_following,
  remove_client, may_create, add_client, wait_for_client, client_active,
}

-- 1 for a property callback that is registered, where registPropertyCB returns 0.
abbrev registered : {s t : Service} → Step s t → ℕ
registered (regists_property c cb {t} {ret} p e) = if is_zero ret then 1 else 0
registered _ = 0

-- A step of another thread than the one that waits.
abbrev IsOther : {s t : Service} → Step s t → Type 0
IsOther waits = ⊥
IsOther _ = Unit

-- What the other threads do while the shadow's thread waits; the first number counts the
-- registrations. A wait of a condition may also end without a signal, and waitForClient does not wait
-- again: the second number counts these ends.
pub data Run (s : Service) : ℕ → ℕ → Service → Type 0 where
  begin : Run s 0 0 s
  next :
      {n m : ℕ} {t u : Service}
      → Run s n m t
      → (st : Step t u) → IsOther st
      → Run s (registered st + n) m u
  spurious : {n m : ℕ} {t : Service} → Run s n m t → Run s n (suc m) (record t { waiting = false })

registers_or_not :
    (s : Service) (c cb : ℕ) {t : Service} {ret : ℤ}
    → regist_property_cb s c cb ≡ some (t, ret)
    → t.waiting ≡ (if is_zero ret then false else s.waiting)
unfolding regist_property_cb client_active
registers_or_not s c cb h = ground arith

-- The thread still waits after a step that registers nothing, and no longer after one that does.
abbrev Wakes : Service → Service → ℕ → Type 0
Wakes s t n = (n ≡ 0 → t.waiting ≡ s.waiting) × (n ≢ 0 → t.waiting ≡ false)

same_waiting : (s t : Service) → t.waiting ≡ s.waiting → Wakes s t 0
same_waiting s t e = ((λ z. e), (λ z. absurd (z refl)))

create_client-waiting : (s : Service) (name : Bytes) → (create_client s name).0.waiting ≡ s.waiting
unfolding create_client add_client
create_client-waiting s name = elim (Bool-cases (may_create s)) [
  | inl t ↦ rw t refl
  | inr t ↦ rw t refl
]

add_following-waiting :
    (s : Service) (type : FollowType) (key : Option Bytes) (c : ℕ)
    → (add_following s type key c).0.waiting ≡ s.waiting
unfolding add_following
add_following-waiting s type none c = refl
add_following-waiting s follow_property (some k) c = refl
add_following-waiting s follow_command (some k) c = refl
add_following-waiting s follow_other (some k) c = refl

regist_command_cb-waiting :
    (s : Service) (c cb : ℕ) → (regist_command_cb s c cb).0.waiting ≡ s.waiting
unfolding regist_command_cb
regist_command_cb-waiting s c cb = elim (Bool-cases ((s.objects c).command == 0)) [
  | inl t ↦ rw t refl
  | inr t ↦ rw t refl
]

registered-Wakes :
    (s t : Service) (ret : ℤ)
    → t.waiting ≡ (if is_zero ret then false else s.waiting)
    → Wakes s t (if is_zero ret then 1 else 0)
registered-Wakes s t ret e = elim (Bool-cases (is_zero ret)) [
  | inl z ↦ rw z ((λ q. absurd (omega (arith, q))), (λ q. rw z at e))
  | inr z ↦ rw z ((λ q. rw z at e), (λ q. absurd (q refl)))
]

Step-Wakes : {s t : Service} (st : Step s t) → IsOther st → Wakes s t (registered st)
unfolding binder_died remove_client
Step-Wakes {s} (creates name) o =
    same_waiting s (create_client s name).0 (create_client-waiting s name)
Step-Wakes {s} (follows type key c p) o =
    same_waiting s (add_following s type key c).0 (add_following-waiting s type key c)
Step-Wakes {s} (regists_command c cb p) o =
    same_waiting s (regist_command_cb s c cb).0 (regist_command_cb-waiting s c cb)
Step-Wakes {s} (regists_property c cb {t} {ret} p e) o =
    registered-Wakes s t ret (registers_or_not s c cb e)
Step-Wakes {s} (dies c) o = same_waiting s (binder_died s c) refl
Step-Wakes {s} waits o = absurd o

zero-or : (n : ℕ) → (n ≡ 0) ⊎ (n ≢ 0)
zero-or zero = inl refl
zero-or (suc n) = inr (λ e. omega (arith, e))

false-true : false ≡ true → ⊥
false-true e = cc

-- The shadow's thread, once it waits in waitForClient, waits as long as no property callback is
-- registered and the wait does not end by itself, and no longer once one of the two has happened,
-- whatever else the other threads do; a callback that was
-- registered before the wait began does not count, however many clients are connected.
pub wait_lem :
    (s : Service) {t : Service} {n m : ℕ}
    → Run (wait_for_client s) n m t
    → (t.waiting ≡ true) ↔ ((n ≡ 0) × (m ≡ 0))
unfolding wait_for_client
wait_lem s begin = ((λ e. (refl, refl)), (λ e. refl))
wait_lem s (spurious {n} {m} {t} r) =
    ((λ e. absurd (false-true e)), (λ e. absurd (omega (arith, e.1))))
wait_lem s (next {n} {m} {t} {u} r st o) =
    let (stays, wakes) = Step-Wakes st o in
    let (a, b) = wait_lem s r in
    elim (zero-or (registered st)) [
      | inl z ↦
          let sum : registered st + n ≡ n = omega (arith, z) in
          (
            (λ e. let (p, q) = a (sym (stays z) ∙ e) in (sum ∙ p, q)),
            (λ e. stays z ∙ b (sym sum ∙ e.0, e.1)),
          )
      | inr z ↦
          ((λ e. absurd (false-true (sym (wakes z) ∙ e))), (λ e. absurd (z (omega (arith, e.0)))))
    ]
