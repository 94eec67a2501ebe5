-- ===== src/Shadow/Journey.antt =====
-- From end to end: a client's followProperty (jni/server/IOT_Service.cpp), and the cloud's changes and
-- commands (jni/server/IOT_DeviceShadow.cpp) on their way to the clients that follow.
use java_iotwrap.Common.{
  ℕ, ◌<◌, ◌≡◌, ◌≢◌, ◌↔◌, refl, ap, sym, ◌∙◌, inl, inr, true, false, List, [], Option, none, some,
  ◌>>=◌, Succeeds, Option-cases, ◌∷◌, ◌++◌, ◌==◌, arith, if◌then◌else◌, Bytes, ℤ, pos, length, same,
  same_refl, Has, c_str,
}
use java_iotwrap.StdMap.{find, modify}
use java_iotwrap.Service.{Service, follow_property, add_following, add_target}
use java_iotwrap.Service.Calls.{Call}
use java_iotwrap.Service.Session.{Backend, client_follow_property}
use java_iotwrap.Service.Invariant.{IsValid}
use java_iotwrap.Service.Follow.{followers, add_following_lem}
use java_iotwrap.Service.Delivery.{
  SetCall, CommandCall, call_property_set_followed, call_command_cb_followed,
}
use java_iotwrap.Command.{command_name}
use java_iotwrap.Shadow.{
  AttrType, int32, string, other, Attr, AttrCallback, default_property, register_attribute, DsAttr,
  Sdk, Shadow, Alloc,
}
use java_iotwrap.Shadow.Value.{read_int32}
use java_iotwrap.Shadow.Report.{property_type, positive_size, do_add_property}
use java_iotwrap.Shadow.Subclass.{shadow_backend}
use java_iotwrap.Shadow.Registry.{HasMemory, new_attr, do_add_property_lem}
use java_iotwrap.Shadow.Cloud.{
  Hal, attr_value_max_len, value_text, tell_clients, default_property_cb, run_callback,
  attr_changed, default_command_cb,
}

-- What a client's followProperty does to any service: with the subclass's doAddProperty behind it.
client_follow_property_lem :
    {D : Type 0} (b : Backend D) (d : D) (c : ℕ) (key : Bytes) (type size : ℤ)
    → IsValid (b.service d)
    → let s = (add_following (b.service d) follow_property (some key) c).0 in
      let (d', ret) = client_follow_property b d c key type size in
      (ret ≡ (b.do_add_property (b.with_service d s) (some key) type size).1)
      × (followers key (b.service d').key_follow
          ≡ add_target c (followers key (b.service d).key_follow))
unfolding client_follow_property
client_follow_property_lem b d c key type size v =
    let s = (add_following (b.service d) follow_property (some key) c).0 in
    let (z, tables, others, cs) =
      add_following_lem (b.service d) follow_property key c (λ e. cc) v in
    rw z (
      refl,
      ap (λ (x : Service). followers key x.key_follow)
            (b.service-do_add_property (b.with_service d s) (some key) type size
              ∙ b.service-with_service d s)
          ∙ tables key
          ∙ rw (same_refl key),
    )

add_property_present :
    (sdk : Sdk) (m : Alloc) (d : Shadow) (key : Bytes) (type size : ℤ) (t : AttrType) (n : ℕ)
    → property_type type ≡ some t
    → positive_size size ≡ some n
    → HasMemory m
    → let (d', ret) = do_add_property sdk m d (some key) type size in
      (ret ≡ pos 0) × (find key d'.attrs ≢ none)
add_property_present sdk m d key type size t n ht hn hm =
    let (z, fresh, known) = do_add_property_lem sdk m d key type size t n ht hn hm in
    (z, present fresh known)
  where
    d' : Shadow
    d' = (do_add_property sdk m d (some key) type size).0

    present :
        (find key d.attrs ≡ none
          → (find key d'.attrs
              ≡ some (record { report = false; is_local = false; attr = new_attr key t n }))
            × ((j : Bytes) → same j key ≡ false → find j d'.attrs ≡ find j d.attrs)
            × (d'.calls ≡ (
                if d.shadow == 0
                then d.calls
                else d.calls ++ register_attribute d.shadow key ∷ [])))
        → (find key d.attrs ≢ none → d' ≡ d)
        → find key d'.attrs ≢ none
    present fresh known e = elim (Option-cases (find key d.attrs)) [
      | inl h ↦ cc ((fresh h).0)
      | inr (x, h) ↦
          cc (sym (ap (λ (y : Shadow). find key y.attrs) (known (λ q. cc (sym h ∙ q)))) ∙ e)
    ]

-- Where the service meets its invariant (no vector of followers is NULL, neither a vector nor the
-- list of clients holds a client twice, and all are objects that createClient has made), a client's followProperty of a known type and a
-- positive size, with memory for what it allocates, returns 0; afterwards the client is a follower of the property, the others still are, and the property is an
-- attribute of the shadow.
pub follow_property_lem :
    (sdk : Sdk) (m : Alloc) (d : Shadow) (c : ℕ) (key : Bytes) (type size : ℤ) (t : AttrType)
    (n : ℕ)
    → IsValid d.service
    → property_type type ≡ some t
    → positive_size size ≡ some n
    → HasMemory m
    → let (d', ret) = client_follow_property (shadow_backend sdk m) d c key type size in
      (ret ≡ pos 0)
      × (followers key d'.service.key_follow ≡ add_target c (followers key d.service.key_follow))
      × (find key d'.attrs ≢ none)
unfolding shadow_backend client_follow_property
follow_property_lem sdk m d c key type size t n v ht hn hm =
    let s = (add_following d.service follow_property (some key) c).0 in
    let followed = client_follow_property_lem (shadow_backend sdk m) d c key type size v in
    let added = add_property_present sdk m (record d { service = s }) key type size t n ht hn hm in
    let z = (add_following_lem d.service follow_property key c (λ e. cc) v).0 in
    (followed.0 ∙ added.0, followed.1, rw z added.1)

-- A command message from the cloud whose command was ever followed is given, name and text, to
-- exactly the registered command callbacks of the clients that follow the command; a message without
-- a command name is given to nobody.
default_command_cb_lem :
    (d : Shadow) (text : Bytes)
    → IsValid d.service
    → ((cmd : Bytes) (x : Call)
        → command_name text ≡ some cmd
        → find cmd d.service.cmd_follow ≢ none
        → Has x (default_command_cb d text)
          ↔ CommandCall d.service cmd text (followers cmd d.service.cmd_follow) x)
      × (command_name text ≡ none → default_command_cb d text ≡ [])
unfolding default_command_cb
default_command_cb_lem d text v = (
  (λ cmd x e n. rw (e, default_command_cb) (call_command_cb_followed d.service cmd text x v n).1),
  (λ e. rw (e, default_command_cb)),
)

changed_path :
    (hal : Hal) (d : Shadow) (key p value : Bytes) (t : AttrType) (e : DsAttr)
    → find key d.attrs ≡ some e
    → e.attr.name ≡ key
    → e.attr.attr_type ≡ t
    → e.attr.callback ≡ default_property
    → value_text hal t p ≡ some (some value)
    → let a : Attr = record e.attr { mem = some p } in
      attr_changed hal d key p
      ≡ some (
          tell_clients
            (record d { attrs = modify key (λ e'. record e' { attr = a }) d.attrs })
            key
            (some value))
unfolding attr_changed run_callback default_property_cb
changed_path hal d key p value t e h n ty cb text =
    let a : Attr = record e.attr { mem = some p } in
    let d' : Shadow = record d { attrs = modify key (λ e'. record e' { attr = a }) d.attrs } in
    rw (h, attr_changed)
      (ap (λ (c : AttrCallback). run_callback hal c d' a) cb
        ∙ ap (λ (u : AttrType). value_text hal u p >>= λ v. some (tell_clients d' e.attr.name v)) ty
        ∙ ap (λ (o : Option (Option Bytes)). o >>= λ v. some (tell_clients d' e.attr.name v)) text
        ∙ ap (λ (k : Bytes). some (tell_clients d' k (some value))) n)

-- The text of an attribute's memory: the number as "%d" prints it, or the C string as "%s" does.
abbrev pub Prints : Hal → AttrType → Bytes → Bytes → Type 0
Prints hal int32 p value =
    (w : ℕ) × (read_int32 p ≡ some w) × (value ≡ hal.print_int32 attr_value_max_len w)
Prints hal string p value =
    (s : Bytes) × (c_str p ≡ some s) × (value ≡ hal.print_string attr_value_max_len s)
Prints hal (other n) p value = ⊥

value_text-Prints :
    (hal : Hal) (t : AttrType) (p value : Bytes)
    → Prints hal t p value
    → (value_text hal t p ≡ some (some value)) × (length value < attr_value_max_len)
unfolding value_text
value_text-Prints hal int32 p value (w, r, q) =
    rw (q, r, value_text) (refl, hal.length-print_int32 attr_value_max_len w (omega arith))
value_text-Prints hal string p value (s, r, q) =
    rw (q, r, value_text) (refl, hal.length-print_string attr_value_max_len s (omega arith))
value_text-Prints hal (other n) p value h = absurd h

-- Where the service meets its invariant (no vector of followers is NULL, neither a vector nor the
-- list of clients holds a client twice, and all are objects that createClient has made): when the cloud changes a property that was ever followed and whose attribute is
-- INT32 or STRING, stands under its own name and has the default callback, as doAddProperty gives it to
-- every attribute that it adds (the period of reports has another one), and the new bytes are four or
-- more, or have a NUL in them, its text, cut by snprintf to
-- less than 256 characters, is given to exactly the registered property callbacks of the clients that
-- follow it, and the next report is forced. The text is the number as "%d" prints it, or the C string as
-- "%s" does.
pub attr_changed_lem :
    (hal : Hal) (d : Shadow) (key p value : Bytes) (t : AttrType) (e : DsAttr) (x : Call)
    → IsValid d.service
    → find key d.attrs ≡ some e
    → e.attr.name ≡ key
    → e.attr.attr_type ≡ t
    → e.attr.callback ≡ default_property
    → find key d.service.key_follow ≢ none
    → Prints hal t p value
    → (length value < attr_value_max_len)
      × Succeeds
          (λ ((d', calls) : Shadow × List Call).
            (d'.force_report ≡ true)
            × (Has x calls ↔ SetCall d.service key value (followers key d.service.key_follow) x))
          (attr_changed hal d key p)
unfolding tell_clients
attr_changed_lem hal d key p value t e x v h n ty cb f printed =
    let (text, short) = value_text-Prints hal t p value printed in
    (
      short,
      rw (changed_path hal d key p value t e h n ty cb text)
          (refl, (call_property_set_followed d.service key value x v f).1),
    )
