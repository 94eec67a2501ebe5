-- ===== src/Service/Delivery.antt =====
-- Who is called: callPropertySet and callCommandCB of jni/server/IOT_Service.cpp against the tables
-- of followers.
use java_iotwrap.Common.{
  ℕ, ◌≡◌, refl, sym, subst, ◌≢◌, ◌↔◌, inl, inr, List, [], ◌∷◌, ◌++◌, none, some, arith, ◌==◌,
  if◌then◌else◌, Bytes, pos, Has, Has-append,
}
use java_iotwrap.StdMap.{find}
use java_iotwrap.Service.{Client, Service}
use java_iotwrap.Service.Calls.{
  Call, command_callback, property_set, command_all, call_command_cb, set_all, call_property_set,
}
use java_iotwrap.Service.Invariant.{IsObject, IsValid}
use java_iotwrap.Service.Follow.{followers, find-eq-vector}

-- `x` is the call, `make` of its callback's address, to a callback that a client among `cs` has
-- registered; `slot` is the client's field with that address.
abbrev pub CallTo : (ℕ → Call) → (Client → ℕ) → (ℕ → Client) → List ℕ → Call → Type 0
CallTo make slot m cs x = (c : ℕ) × Has c cs × ((slot (m c) ≢ 0) × (x ≡ make (slot (m c))))

Has-append_left : {A : Type 0} (a : A) (xs ys : List A) → Has a xs → Has a (xs ++ ys)
Has-append_left a (x ∷ xs) ys (inl e) = inl e
Has-append_left a (x ∷ xs) ys (inr h) = inr (Has-append_left a xs ys h)
Has-append_left a [] ys h = absurd h

Has-append_right : {A : Type 0} (a : A) (xs ys : List A) → Has a ys → Has a (xs ++ ys)
Has-append_right a [] ys h = h
Has-append_right a (x ∷ xs) ys h = inr (Has-append_right a xs ys h)

pub one_iff :
    (make : ℕ → Call) (cb : ℕ) (x : Call)
    → Has x (if cb == 0 then [] else make cb ∷ []) ↔ ((cb ≢ 0) × (x ≡ make cb))
one_iff make cb x = (forward, backward)
  where
    forward : Has x (if cb == 0 then [] else make cb ∷ []) → (cb ≢ 0) × (x ≡ make cb)
    forward h = ground arith

    backward : (cb ≢ 0) × (x ≡ make cb) → Has x (if cb == 0 then [] else make cb ∷ [])
    backward h = ground arith

-- A loop over the clients that calls them one by one.
module _ (make : ℕ → Call) (slot : Client → ℕ) (m : ℕ → Client) (all : List ℕ → List Call)
    (empty : all [] ≡ [])
    (step : (c : ℕ) (cs : List ℕ)
      → all (c ∷ cs) ≡ (if slot (m c) == 0 then [] else make (slot (m c)) ∷ []) ++ all cs)
    (x : Call) where
  loop-CallTo : (cs : List ℕ) → Has x (all cs) → CallTo make slot m cs x
  loop-CallTo [] h = absurd (subst (Has x) empty h)
  loop-CallTo (c ∷ cs) h = elim (Has-append x _ (all cs) (subst (Has x) (step c cs) h)) [
    | inl l ↦ (c, inl refl, (one_iff make (slot (m c)) x).0 l)
    | inr r ↦ let (d, p, q) = loop-CallTo cs r in (d, inr p, q)
  ]

  CallTo-loop : (cs : List ℕ) → CallTo make slot m cs x → Has x (all cs)
  CallTo-loop [] (d, h, q) = absurd h
  CallTo-loop (c ∷ cs) (d, inl p, q) = rw (step c cs) (
      Has-append_left x _ (all cs) (
        (one_iff make (slot (m c)) x).1
          (subst (λ a. (slot (m a) ≢ 0) × (x ≡ make (slot (m a)))) (sym p) q)))
  CallTo-loop (c ∷ cs) (d, inr h, q) =
      rw (step c cs) (Has-append_right x _ (all cs) (CallTo-loop cs (d, h, q)))

  loop_iff : (cs : List ℕ) → Has x (all cs) ↔ CallTo make slot m cs x
  loop_iff cs = (loop-CallTo cs, CallTo-loop cs)

-- The calls of callPropertySet(key, val), and of callCommandCB(cmd, text), to the clients `cs`.
abbrev pub SetCall : Service → Bytes → Bytes → List ℕ → Call → Type 0
SetCall s key val = CallTo (λ cb. property_set cb key val) (λ o. o.property) s.objects

abbrev pub CommandCall : Service → Bytes → Bytes → List ℕ → Call → Type 0
CommandCall s cmd text = CallTo (λ cb. command_callback cb cmd text) (λ o. o.command) s.objects

set_all_iff :
    (s : Service) (key val : Bytes) (cs : List ℕ) (x : Call)
    → Has x (set_all s.objects key val cs) ↔ SetCall s key val cs x
unfolding set_all
set_all_iff s key val cs x =
    loop_iff (λ cb. property_set cb key val) (λ o. o.property) s.objects (set_all s.objects key val)
      refl (λ c cs. refl) x cs

command_all_iff :
    (s : Service) (cmd text : Bytes) (cs : List ℕ) (x : Call)
    → Has x (command_all s.objects cmd text cs) ↔ CommandCall s cmd text cs x
unfolding command_all
command_all_iff s cmd text cs x =
    loop_iff (λ cb. command_callback cb cmd text) (λ o. o.command) s.objects
      (command_all s.objects cmd text) refl (λ c cs. refl) x cs

-- For a property that was ever followed, callPropertySet returns 0, and the calls that it makes are
-- exactly those of the registered property callbacks of the clients that follow it.
pub call_property_set_followed :
    (s : Service) (key val : Bytes) (x : Call)
    → IsValid s
    → find key s.key_follow ≢ none
    → ((call_property_set s (some key) (some val)).0 ≡ pos 0)
      × (Has x (call_property_set s (some key) (some val)).1
          ↔ SetCall s key val (followers key s.key_follow) x)
unfolding call_property_set
call_property_set_followed s key val x v n =
    rw (find-eq-vector (IsObject s) key s.key_follow v.keys n, call_property_set)
      (refl, set_all_iff s key val (followers key s.key_follow) x)

-- For a command that was ever followed, callCommandCB returns 0, and the calls that it makes are
-- exactly those of the registered command callbacks of the clients that follow it.
pub call_command_cb_followed :
    (s : Service) (cmd text : Bytes) (x : Call)
    → IsValid s
    → find cmd s.cmd_follow ≢ none
    → ((call_command_cb s (some cmd) (some text)).0 ≡ pos 0)
      × (Has x (call_command_cb s (some cmd) (some text)).1
          ↔ CommandCall s cmd text (followers cmd s.cmd_follow) x)
unfolding call_command_cb
call_command_cb_followed s cmd text x v n =
    rw (find-eq-vector (IsObject s) cmd s.cmd_follow v.cmds n, call_command_cb)
      (refl, command_all_iff s cmd text (followers cmd s.cmd_follow) x)
