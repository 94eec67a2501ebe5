-- ===== src/Service/Removal.antt =====
-- A client that is gone is not called: removeClient and the calls of jni/server/IOT_Service.cpp.
use java_iotwrap.Common.{
  ℕ, ◌≡◌, refl, sym, ◌∙◌, ◌≢◌, inl, inr, List, [], ◌∷◌, Option, none, some, ◌==◌, false, Bool-cases,
  Bytes, Has, Has-append, ◌++◌, ◌⊎◌,
}
use java_iotwrap.StdMap.{find}
use java_iotwrap.Service.{
  Client, Service, FollowType, follow_property, follow_command, remove_client,
}
use java_iotwrap.Service.Calls.{
  Call, command_callback, property_set, first_client, command_one, command_default, call_command_cb,
  set_one, set_default, call_property_set,
}
use java_iotwrap.Service.Invariant.{IsValid, remove_client-IsValid}
use java_iotwrap.Service.Follow.{followers, table, remove_client_lem}
use java_iotwrap.Service.Delivery.{
  CallTo, one_iff, SetCall, CommandCall, call_property_set_followed, call_command_cb_followed,
}

CallTo-mono :
    (make : ℕ → Call) (slot : Client → ℕ) (m : ℕ → Client) (cs ds : List ℕ) (x : Call)
    → ((a : ℕ) → Has a cs → Has a ds)
    → CallTo make slot m cs x
    → CallTo make slot m ds x
CallTo-mono make slot m cs ds x f (c, h, q) = (c, f c h, q)

first-Has : (cs : List ℕ) → (first_client cs == 0) ≡ false → Has (first_client cs) cs
unfolding first_client
first-Has [] h = cc
first-Has (c ∷ cs) h = inl refl

-- The branch for a key or a command that nobody ever followed calls the first client at most.
set_default-CallTo :
    (s : Service) (key val : Bytes) (x : Call)
    → Has x (set_default s key val).1
    → SetCall s key val s.clients x
unfolding set_default set_one
set_default-CallTo s key val x h = elim (Bool-cases (first_client s.clients == 0)) [
  | inl e ↦ absurd (rw e at h)
  | inr e ↦ (
    first_client s.clients,
    first-Has s.clients e,
    (one_iff (λ cb. property_set cb key val) _ x).0 (rw e at h),
  )
]

command_default-CallTo :
    (s : Service) (cmd text : Bytes) (x : Call)
    → Has x (command_default s cmd text).1
    → CommandCall s cmd text s.clients x
unfolding command_default command_one
command_default-CallTo s cmd text x h = elim (Bool-cases (first_client s.clients == 0)) [
  | inl e ↦ absurd (rw e at h)
  | inr e ↦ (
    first_client s.clients,
    first-Has s.clients e,
    (one_iff (λ cb. command_callback cb cmd text) _ x).0 (rw e at h),
  )
]

Has-append_right : (a : ℕ) (xs ys : List ℕ) → Has a ys → Has a (xs ++ ys)
Has-append_right a [] ys h = h
Has-append_right a (x ∷ xs) ys h = inr (Has-append_right a xs ys h)

Has-append_left : (a : ℕ) (xs ys : List ℕ) → Has a xs → Has a (xs ++ ys)
Has-append_left a [] ys h = absurd h
Has-append_left a (x ∷ xs) ys (inl e) = inl e
Has-append_left a (x ∷ xs) ys (inr h) = inr (Has-append_left a xs ys h)

-- Followed or not, only connected clients and followers are called.
call_property_set-known :
    (s : Service) (key val : Bytes) (x : Call)
    → IsValid s
    → Has x (call_property_set s (some key) (some val)).1
    → SetCall s key val (s.clients ++ followers key s.key_follow) x
call_property_set-known s key val x v h = go (find key s.key_follow) refl
  where
    go :
        (o : Option (Option (List ℕ)))
        → find key s.key_follow ≡ o
        → SetCall s key val (s.clients ++ followers key s.key_follow) x
    go none e =
        CallTo-mono (λ cb. property_set cb key val) (λ o. o.property) s.objects s.clients
          (s.clients ++ followers key s.key_follow) x
          (λ a. Has-append_left a s.clients (followers key s.key_follow))
          (set_default-CallTo s key val x
            (unfold call_property_set in (rw (e, call_property_set) at h)))
    go (some w) e =
        CallTo-mono (λ cb. property_set cb key val) (λ o. o.property) s.objects
          (followers key s.key_follow) (s.clients ++ followers key s.key_follow) x
          (λ a. Has-append_right a s.clients (followers key s.key_follow))
          ((call_property_set_followed s key val x v (λ n. cc (sym e ∙ n))).1.0 h)

call_command_cb-known :
    (s : Service) (cmd text : Bytes) (x : Call)
    → IsValid s
    → Has x (call_command_cb s (some cmd) (some text)).1
    → CommandCall s cmd text (s.clients ++ followers cmd s.cmd_follow) x
call_command_cb-known s cmd text x v h = go (find cmd s.cmd_follow) refl
  where
    go :
        (o : Option (Option (List ℕ)))
        → find cmd s.cmd_follow ≡ o
        → CommandCall s cmd text (s.clients ++ followers cmd s.cmd_follow) x
    go none e =
        CallTo-mono (λ cb. command_callback cb cmd text) (λ o. o.command) s.objects s.clients
          (s.clients ++ followers cmd s.cmd_follow) x
          (λ a. Has-append_left a s.clients (followers cmd s.cmd_follow))
          (command_default-CallTo s cmd text x
            (unfold call_command_cb in (rw (e, call_command_cb) at h)))
    go (some w) e =
        CallTo-mono (λ cb. command_callback cb cmd text) (λ o. o.command) s.objects
          (followers cmd s.cmd_follow) (s.clients ++ followers cmd s.cmd_follow) x
          (λ a. Has-append_right a s.clients (followers cmd s.cmd_follow))
          ((call_command_cb_followed s cmd text x v (λ n. cc (sym e ∙ n))).1.0 h)

objects-remove_client : (s : Service) (c : ℕ) → (remove_client s c).0.objects ≡ s.objects
unfolding remove_client
objects-remove_client s c = refl

-- The clients that are left when `c` is gone.
CallTo-removed :
    (make : ℕ → Call) (slot : Client → ℕ) (s : Service) (c : ℕ) (type : FollowType) (key : Bytes)
    (x : Call)
    → IsValid s
    → let t = (remove_client s c).0 in
      CallTo make slot t.objects (t.clients ++ followers key (table type t)) x
      → (d : ℕ) × (Has d s.clients ⊎ Has d (followers key (table type s)))
        × (d ≢ c)
        × (slot (s.objects d) ≢ 0)
        × (x ≡ make (slot (s.objects d)))
CallTo-removed make slot s c type key x v (d, h, q) =
    let t : Service = (remove_client s c).0 in
    let q' : (slot (s.objects d) ≢ 0) × (x ≡ make (slot (s.objects d))) =
      rw (objects-remove_client s c) at q in
    let (clients, vectors, ret) = remove_client_lem s c v in
    elim (Has-append d t.clients (followers key (table type t)) h) [
      | inl m ↦ let (there, other) = (clients d).0 m in (d, inl there, other, q'.0, q'.1)
      | inr m ↦ let (there, other) = (vectors type key d).0 m in (d, inr there, other, q'.0, q'.1)
    ]

-- In a state that meets the invariant (no vector of followers is NULL, neither a vector nor the
-- list of clients holds a client twice, and all are objects that createClient has made): after removeClient(c), every call that callPropertySet or
-- callCommandCB makes, for any key or command, goes to the callback of another client than `c`, which
-- is connected or follows that key or command.
pub removed_not_called :
    (s : Service) (c : ℕ) (key val : Bytes) (x : Call)
    → IsValid s
    → let t = (remove_client s c).0 in
      (Has x (call_property_set t (some key) (some val)).1
        → (d : ℕ) × (Has d s.clients ⊎ Has d (followers key s.key_follow))
          × (d ≢ c)
          × ((s.objects d).property ≢ 0)
          × (x ≡ property_set (s.objects d).property key val))
      × (Has x (call_command_cb t (some key) (some val)).1
          → (d : ℕ) × (Has d s.clients ⊎ Has d (followers key s.cmd_follow))
            × (d ≢ c)
            × ((s.objects d).command ≢ 0)
            × (x ≡ command_callback (s.objects d).command key val))
removed_not_called s c key val x v = (
  (λ h.
      CallTo-removed (λ cb. property_set cb key val) (λ o. o.property) s c follow_property key x v
        (call_property_set-known _ key val x (remove_client-IsValid s c v) h)),
  (λ h.
      CallTo-removed (λ cb. command_callback cb key val) (λ o. o.command) s c follow_command key x v
        (call_command_cb-known _ key val x (remove_client-IsValid s c v) h)),
)
