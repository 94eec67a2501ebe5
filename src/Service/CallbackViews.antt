-- ===== src/Service/CallbackViews.antt =====
-- The callbacks of the clients of jni/server/IOT_Service.cpp in the abstract description.
use mathlib.Core.Path.{fun_ext}
use mathlib.Core.Option.{some-injective}
use java_iotwrap.Common.{ℕ, ◌≡◌, refl, ap, sym, ◌∙◌, inl, inr, some, Bool-cases, arith, ◌==◌, ℤ}
use java_iotwrap.StdMap.{find}
use java_iotwrap.Service.Views.{table-same}
use java_iotwrap.Service.Follow.{followers}
use java_iotwrap.Service.Session.{regist_command_cb, regist_property_cb}
use java_iotwrap.Service.Subscriptions.{gave_command, gave_property, put, apply, is_some, view}
use java_iotwrap.Service.{Service, Client, store, contains, client_active}

-- Only the objects may differ: then only the callbacks are seen otherwise.
pub view-objects :
    (s t : Service) (f g : ℕ → ℕ)
    → t.clients ≡ s.clients
    → t.key_follow ≡ s.key_follow
    → t.cmd_follow ≡ s.cmd_follow
    → ((a : ℕ) → (t.objects a).command ≡ f a)
    → ((a : ℕ) → (t.objects a).property ≡ g a)
    → view t ≡ record (view s) { command = f; property = g }
view-objects s t f g cs ks ms h k i = record {
  connected = λ a. contains a (cs i);
  follows = λ type key a. contains a (followers key (table-same s t ks ms type i));
  known = λ type key. is_some (find key (table-same s t ks ms type i));
  command = fun_ext h i;
  property = fun_ext k i;
}

stored : Service → ℕ → Client → Service
stored s c o = record s { objects = store s.objects c o }

-- A callback is given once: a second one is not taken.
view-stored_command :
    (s : Service) (c cb : ℕ)
    → view (stored s c (record (s.objects c) { command = cb }))
      ≡ record (view s) { command = put (view s).command c cb }
unfolding stored
view-stored_command s c cb =
    view-objects s (stored s c (record (s.objects c) { command = cb }))
      (put (λ b. (s.objects b).command) c cb) (λ b. (s.objects b).property) refl refl refl
      (λ a. ground arith) kept
  where
    kept :
        (a : ℕ)
        → (store s.objects c (record (s.objects c) { command = cb }) a).property
          ≡ (s.objects a).property
    kept a = elim (Bool-cases (a == c)) [
      | inl t ↦ let q : a ≡ c = ground arith in rw t (ap (λ x. (s.objects x).property) (sym q))
      | inr t ↦ rw t refl
    ]

view-stored_property :
    (s : Service) (c cb : ℕ)
    → view (client_active (stored s c (record (s.objects c) { property = cb })))
      ≡ record (view s) { property = put (view s).property c cb }
unfolding stored client_active
view-stored_property s c cb =
    view-objects s (client_active (stored s c (record (s.objects c) { property = cb })))
      (λ b. (s.objects b).command) (put (λ b. (s.objects b).property) c cb) refl refl refl kept
      (λ a. ground arith)
  where
    kept :
        (a : ℕ)
        → (store s.objects c (record (s.objects c) { property = cb }) a).command
          ≡ (s.objects a).command
    kept a = elim (Bool-cases (a == c)) [
      | inl t ↦ let q : a ≡ c = ground arith in rw t (ap (λ x. (s.objects x).command) (sym q))
      | inr t ↦ rw t refl
    ]

pub view-regist_command_cb :
    (s : Service) (c cb : ℕ)
    → view (regist_command_cb s c cb).0 ≡ apply (gave_command c cb) (view s)
unfolding regist_command_cb stored
view-regist_command_cb s c cb = elim (Bool-cases ((s.objects c).command == 0)) [
  | inl t ↦ rw (t, regist_command_cb) (view-stored_command s c cb)
  | inr t ↦ rw (t, regist_command_cb) refl
]

pub view-regist_property_cb :
    (s : Service) (c cb : ℕ) {t : Service} {ret : ℤ}
    → regist_property_cb s c cb ≡ some (t, ret)
    → view t ≡ apply (gave_property c cb) (view s)
unfolding regist_property_cb stored
view-regist_property_cb s c cb {t} {ret} h = elim (Bool-cases ((s.objects c).property == 0)) [
  | inl p ↦ elim (Bool-cases (cb == 0)) [
    | inl z ↦ cc (rw (p, z) at h)
    | inr z ↦
        let q = some-injective _ _ (rw (p, z) at h) in
        rw p (ap (λ (x : Service × ℤ). view x.0) (sym q) ∙ view-stored_property s c cb)
  ]
  | inr p ↦
      let q = some-injective _ _ (rw p at h) in rw p (ap (λ (x : Service × ℤ). view x.0) (sym q))
]
