-- ===== src/Service/Refines.antt =====
-- Every history of jni/server/IOT_Service.cpp as a list of events: the description that the events give
-- is what is seen of the service, and decides who is called.
use mathlib.Core.Path.{fun_ext}
use java_iotwrap.Common.{
  ℕ, ◌≡◌, ◌≢◌, refl, ap, sym, subst, ◌↔◌, ◌∙◌, inl, inr, true, false, List, [], ◌∷◌, ◌++◌, none,
  some, Bool-cases, if◌then◌else◌, Bytes, Has,
}
use java_iotwrap.StdMap.{find}
use java_iotwrap.Service.Vectors.{contains-Has, Has-contains}
use java_iotwrap.Service.Invariant.{IsValid}
use java_iotwrap.Service.Follow.{followers, table}
use java_iotwrap.Service.Session.{binder_died}
use java_iotwrap.Service.Reach.{
  Step, creates, follows, regists_command, regists_property, dies, waits, Reach, start, next,
  Reach-IsValid,
}
use java_iotwrap.Service.Subscriptions.{
  Subscriptions, Event, joined, left, followed, gave_command, gave_property, nobody, apply, after,
  is_some, view,
}
use java_iotwrap.Service.{
  Service, FollowType, follow_property, follow_command, follow_other, new_service, create_client,
  may_create, add_following, contains, wait_for_client,
}
use java_iotwrap.Service.Views.{view-add_client, view-add_following, view-remove_client}
use java_iotwrap.Service.CallbackViews.{
  view-objects, view-regist_command_cb, view-regist_property_cb,
}
use java_iotwrap.Service.Calls.{
  Call, property_set, command_callback, call_property_set, call_command_cb,
}
use java_iotwrap.Service.Delivery.{call_property_set_followed, call_command_cb_followed}

-- What a step is to the description: an event, or nothing.
abbrev happened : {s t : Service} → Step s t → List Event
happened {s} (creates name) = if may_create s then joined s.next_client ∷ [] else []
happened (follows type none c p) = []
happened (follows type (some key) c p) = followed type key c ∷ []
happened (regists_command c cb p) = gave_command c cb ∷ []
happened (regists_property c cb p e) = gave_property c cb ∷ []
happened (dies c) = left c ∷ []
happened waits = []

abbrev history : {s : Service} → Reach s → List Event
history start = []
history (next r st) = happened st ++ history r

Step-view : {s t : Service} (st : Step s t) → IsValid s → view t ≡ after (happened st) (view s)
unfolding create_client binder_died wait_for_client
Step-view {s} (creates name) v = elim (Bool-cases (may_create s)) [
  | inl t ↦ rw t (view-add_client s name)
  | inr t ↦ rw t refl
]
Step-view {s} (follows type none c p) v = unfold add_following in refl
Step-view {s} (follows type (some key) c p) v = view-add_following s type key c v
Step-view {s} (regists_command c cb p) v = view-regist_command_cb s c cb
Step-view {s} (regists_property c cb p e) v = view-regist_property_cb s c cb e
Step-view {s} (dies c) v = view-remove_client s c v
Step-view {s} waits v =
    view-objects s (wait_for_client s) (view s).command (view s).property refl refl refl (λ a. refl)
      (λ a. refl)

after-append : (es fs : List Event) (r : Subscriptions) → after (es ++ fs) r ≡ after es (after fs r)
after-append [] fs r = refl
after-append (e ∷ es) fs r = ap (apply e) (after-append es fs r)

view-new_service : view new_service ≡ nobody
unfolding new_service contains find
view-new_service i = record {
  connected = λ a. false;
  follows = fun_ext (λ u. fun_ext (λ j. fun_ext (λ a. empty u j a))) i;
  known = fun_ext (λ u. fun_ext (λ j. unknown u j)) i;
  command = λ a. 0;
  property = λ a. 0;
}
  where
    empty :
        (u : FollowType) (j : Bytes) (a : ℕ)
        → contains a (followers j (table u new_service)) ≡ false
    empty follow_property j a = refl
    empty follow_command j a = refl
    empty follow_other j a = refl

    unknown : (u : FollowType) (j : Bytes) → is_some (find j (table u new_service)) ≡ false
    unknown follow_property j = refl
    unknown follow_command j = refl
    unknown follow_other j = refl

-- What is seen of a service is what the events of its history make of nobody, whatever the order of its
-- vectors and maps is: a client is connected from its creation to its death, follows a name from its
-- first followProperty or followCommand on until it dies, and keeps the first callback that it gives.
pub Reach-view : {s : Service} (r : Reach s) → view s ≡ after (history r) nobody
Reach-view start = view-new_service
Reach-view (next r st) =
    Step-view st (Reach-IsValid r).0
    ∙ ap (after (happened st)) (Reach-view r)
    ∙ sym (after-append (happened st) (history r) nobody)

-- The calls by which the service tells the followers of a name.
abbrev pub deliver : FollowType → Service → Bytes → Bytes → List Call
deliver follow_property s name text = (call_property_set s (some name) (some text)).1
deliver follow_command s name text = (call_command_cb s (some name) (some text)).1
deliver follow_other s name text = []

abbrev pub callback : FollowType → Subscriptions → ℕ → ℕ
callback follow_property d c = d.property c
callback follow_command d c = d.command c
callback follow_other d c = 0

abbrev pub told : FollowType → ℕ → Bytes → Bytes → Call
told follow_command cb name text = command_callback cb name text
told _ cb name text = property_set cb name text

-- A call to a follower that has a callback.
abbrev pub IsTold : FollowType → Subscriptions → Bytes → Bytes → Call → Type 0
IsTold type d name text x =
    (c : ℕ) × (d.follows type name c ≡ true)
    × (callback type d c ≢ 0)
    × (x ≡ told type (callback type d c) name text)

known-found :
    (type : FollowType) (s : Service) (name : Bytes)
    → (view s).known type name ≡ true
    → find name (table type s) ≢ none
known-found type s name h e = cc (ap is_some e)

deliver-view :
    (type : FollowType) (s : Service) (name text : Bytes) (x : Call)
    → IsValid s
    → (view s).known type name ≡ true
    → Has x (deliver type s name text) ↔ IsTold type (view s) name text x
deliver-view follow_property s name text x v k =
    let (z, (to, from)) =
      call_property_set_followed s name text x v (known-found follow_property s name k) in
    (
      (λ h. let (c, f, n) = to h in (c, Has-contains c (followers name s.key_follow) f, n.0, n.1)),
      (λ (c, f, n, e). from (c, contains-Has c (followers name s.key_follow) f, (n, e))),
    )
deliver-view follow_command s name text x v k =
    let (z, (to, from)) =
      call_command_cb_followed s name text x v (known-found follow_command s name k) in
    (
      (λ h. let (c, f, n) = to h in (c, Has-contains c (followers name s.cmd_follow) f, n.0, n.1)),
      (λ (c, f, n, e). from (c, contains-Has c (followers name s.cmd_follow) f, (n, e))),
    )
deliver-view follow_other s name text x v k =
    absurd (known-found follow_other s name k (unfold find in refl))

-- After any history, a change of a property, or a command, whose name was followed once is told to
-- exactly the registered callbacks of those that follow it by the events of the history.
pub deliver-history :
    {s : Service} (r : Reach s) (type : FollowType) (name text : Bytes) (x : Call)
    → (after (history r) nobody).known type name ≡ true
    → Has x (deliver type s name text) ↔ IsTold type (after (history r) nobody) name text x
deliver-history {s} r type name text x k =
    subst
      (λ (d : Subscriptions).
        d.known type name ≡ true → Has x (deliver type s name text) ↔ IsTold type d name text x)
      (Reach-view r) (deliver-view type s name text x (Reach-IsValid r).0) k
