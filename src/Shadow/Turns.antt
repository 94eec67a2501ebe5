-- ===== src/Shadow/Turns.antt =====
-- The turns of the thread of jni/server/IOT_DeviceShadow.cpp: they stay inside their objects, and what
-- they ask of the SDK, in order.
use java_iotwrap.Common.{
  ℕ, suc, ◌≤◌, ◌≡◌, refl, ap, sym, subst, ◌∙◌, inl, inr, List, [], ◌∷◌, ◌++◌, append_assoc,
  append-nil, Option, none, some, Succeeds, Succeeds-bind, Ensures, arith, ◌||◌, Bool-cases, Bytes,
  ℤ, length, length-append, All,
}
use java_iotwrap.Service.Calls.{Call}
use java_iotwrap.Shadow.{AttrType, Attr, SdkCall, push, yield_to, Sdk, Shadow, ask_sdk}
use java_iotwrap.Shadow.Push.{push_properties}
use java_iotwrap.Shadow.PushLaws.{PushedOnce, due_attrs, push_properties_lem}
use java_iotwrap.Shadow.Update.{update_properties}
use java_iotwrap.Shadow.Cloud.{Hal}
use java_iotwrap.Shadow.Room.{Roomy}
use java_iotwrap.Shadow.Fit.{
  keys, none_due-keys, AttrsFit, none_due-AttrsFit, Keeps, update_properties-Keeps,
}
use java_iotwrap.Shadow.Change.{attr_changed-Keeps}
use java_iotwrap.Shadow.Loop.{is_due, round}
use java_iotwrap.Shadow.Thread.{
  Event, changed, commanded, handle_event, handle_events, yield_shadow, Turn, turn, turns,
}

abbrev push_calls : ℕ → Option Bytes → List SdkCall
push_calls h none = []
push_calls h (some p) = push h p ∷ []

-- What turns ask of the SDK: each a yield, and a push of a text or none.
abbrev pub turns_calls : ℕ → List (Option Bytes) → List SdkCall
turns_calls h [] = []
turns_calls h (o ∷ os) = yield_to h ∷ (push_calls h o ++ turns_calls h os)

turns_calls-append :
    (h : ℕ) (os os' : List (Option Bytes))
    → turns_calls h (os ++ os') ≡ turns_calls h os ++ turns_calls h os'
turns_calls-append h [] os' = refl
turns_calls-append h (o ∷ os) os' =
    ap (λ x. yield_to h ∷ x)
      (ap (λ x. push_calls h o ++ x) (turns_calls-append h os os')
        ∙ sym (append_assoc (push_calls h o) (turns_calls h os) (turns_calls h os')))

module _ (type_of : Bytes → AttrType) where
  -- Every answer has nine bytes at most, and a change has bytes that the attribute's type has room for.
  abbrev EventFits : Event → Type 0
  EventFits (changed key p) = Roomy (type_of key) p
  EventFits (commanded text) = Unit

  abbrev pub TurnFits : Turn → Type 0
  TurnFits t =
      ((cb : ℕ) (key : Bytes) → Ensures (λ s. length s ≤ 9) (t.answer cb key))
      × All EventFits t.events

  handle_events-Keeps :
      (hal : Hal) (vs : List Event) (d : Shadow)
      → All EventFits vs
      → AttrsFit type_of d.attrs
      → Succeeds (λ ((d', calls) : Shadow × List Call). Keeps type_of d d') (handle_events hal vs d)
  unfolding handle_events handle_event
  handle_events-Keeps hal [] d f h = (refl, refl, refl, h)
  handle_events-Keeps hal (changed key p ∷ vs) d f h =
      Succeeds-bind (λ ((d', calls) : Shadow × List Call). Keeps type_of d d') _
        (handle_event hal d (changed key p)) _
        (λ (d1, calls) k.
          Succeeds-bind (λ ((d', calls) : Shadow × List Call). Keeps type_of d1 d') _
            (handle_events hal vs d1) _
            (λ (d2, others) k'. (k'.0 ∙ k.0, k'.1 ∙ k.1, k'.2 ∙ k.2, k'.3))
            (handle_events-Keeps hal vs d1 f.1 k.3))
        (attr_changed-Keeps type_of hal d key p f.0 h)
  handle_events-Keeps hal (commanded text ∷ vs) d f h =
      Succeeds-bind (λ ((d', calls) : Shadow × List Call). Keeps type_of d d') _
        (handle_events hal vs d) _ (λ r k. k) (handle_events-Keeps hal vs d f.1 h)

  -- The handle and the names are as they were, and the attributes fit.
  abbrev KeepsAttrs : Shadow → Shadow → Type 0
  KeepsAttrs d d' =
      (d'.shadow ≡ d.shadow) × (keys d'.attrs ≡ keys d.attrs) × AttrsFit type_of d'.attrs

  -- The SDK was asked for one push or none.
  abbrev Pushed : Shadow → Shadow → Type 0
  Pushed d d' =
      KeepsAttrs d d' × ((o : Option Bytes) × (d'.calls ≡ d.calls ++ push_calls d.shadow o))

  module _ (sdk : Sdk) (hal : Hal) where
    pushed_once :
        (d : Shadow) (as' : List Attr) (r : Shadow × ℤ)
        → PushedOnce sdk d as' r
        → (o : Option Bytes) × (r.0.calls ≡ d.calls ++ push_calls d.shadow o)
    pushed_once d [] r p = (none, p.0 ∙ sym (append-nil d.calls))
    pushed_once d (a ∷ as') r p = (some _, p.0)

    push_properties-Pushed :
        (d : Shadow) → AttrsFit type_of d.attrs → Pushed d (push_properties sdk d).0
    unfolding push_properties
    push_properties-Pushed d h = elim (Bool-cases (d.report_flag || d.force_report)) [
      | inl t ↦
          let (p, c) = push_properties_lem sdk d t in
          (
            (
              c.3,
              ap keys c.0 ∙ none_due-keys d.attrs,
              subst (AttrsFit type_of) (sym c.0) (none_due-AttrsFit type_of d.attrs h),
            ),
            pushed_once d (due_attrs d.force_report d.attrs) (push_properties sdk d) p,
          )
      | inr t ↦ rw (t, push_properties) ((refl, refl, h), (none, sym (append-nil d.calls)))
    ]

    round-Pushed :
        (answer : ℕ → Bytes → Option Bytes) (now later : ℕ) (d : Shadow) (started : ℕ)
        → ((cb : ℕ) (key : Bytes) → Ensures (λ s. length s ≤ 9) (answer cb key))
        → AttrsFit type_of d.attrs
        → Succeeds
            (λ ((d', s, calls) : Shadow × ℕ × List Call). Pushed d d')
            (round sdk answer now later d started)
    unfolding round
    round-Pushed answer now later d started short h =
        elim (Bool-cases (is_due d.report_period now started)) [
          | inl t ↦ rw t (
              Succeeds-bind (λ ((d', ret, calls) : Shadow × ℤ × List Call). Keeps type_of d d') _
                (update_properties answer d) _
                (λ (d1, ret, calls) k.
                  let ((a, b, f), (o, c)) = push_properties-Pushed d1 k.3 in
                  ((a ∙ k.0, b ∙ k.2, f), (o, c ∙ rw (k.0, k.1) refl)))
                (update_properties-Keeps type_of answer short d h))
          | inr t ↦ rw t (push_properties-Pushed d h)
        ]

    -- A turn's calls, and those of turns in order.
    abbrev pub Ran : ℕ → Shadow → Shadow → Type 0
    Ran n d d' =
        KeepsAttrs d d'
        × ((os : List (Option Bytes)) × (length os ≡ n)
            × (d'.calls ≡ d.calls ++ turns_calls d.shadow os))

    turn-Ran :
        (t : Turn) (d : Shadow) (started : ℕ)
        → TurnFits t
        → AttrsFit type_of d.attrs
        → Succeeds
            (λ ((d', s, calls) : Shadow × ℕ × List Call). Ran 1 d d')
            (turn sdk hal t d started)
    unfolding turn yield_shadow ask_sdk
    turn-Ran t d started f h =
        let d0 : Shadow = record d { calls = d.calls ++ yield_to d.shadow ∷ [] } in
        Succeeds-bind (λ ((d', calls) : Shadow × List Call). Keeps type_of d0 d') _
          (handle_events hal t.events d0) _
          (λ (d1, calls) k.
            Succeeds-bind (λ ((d', s, calls) : Shadow × ℕ × List Call). Pushed d1 d') _
              (round sdk t.answer t.now t.later d1 started) _
              (λ (d2, s, others) p.
                let ((a, b, g), (o, c)) = p in
                (
                  (a ∙ k.0, b ∙ k.2, g),
                  (o ∷ [], refl, c ∙ rw (k.0, k.1) (simp (append_assoc, append-nil) refl)),
                ))
              (round-Pushed t.answer t.now t.later d1 started f.0 k.3))
          (handle_events-Keeps hal t.events d0 f.1 h)

    pub turns-Ran :
        (ts : List Turn) (t : Turn) (d : Shadow) (started : ℕ)
        → All TurnFits (t ∷ ts)
        → AttrsFit type_of d.attrs
        → Succeeds
            (λ ((d', calls) : Shadow × List Call). Ran (suc (length ts)) d d')
            (turns sdk hal ts t d started)
    unfolding turns
    turns-Ran [] t d started f h =
        Succeeds-bind (λ ((d', s, calls) : Shadow × ℕ × List Call). Ran 1 d d') _
          (turn sdk hal t d started) _ (λ r p. p) (turn-Ran t d started f.0 h)
    turns-Ran (t' ∷ ts) t d started f h =
        Succeeds-bind (λ ((d', s, calls) : Shadow × ℕ × List Call). Ran 1 d d') _
          (turn sdk hal t d started) _
          (λ (d1, started', calls) ((a, b, g), (os, l, c)).
            Succeeds-bind (λ ((d', calls) : Shadow × List Call). Ran (suc (length ts)) d1 d') _
              (turns sdk hal ts t' d1 started') _
              (λ (d2, others) ((a', b', g'), (os', l', c')). (
                (a' ∙ a, b' ∙ b, g'),
                (
                  os ++ os',
                  length-append os os' ∙ omega (arith, l, l'),
                  c'
                      ∙ rw (a, c)
                          (append_assoc d.calls _ _
                            ∙ ap (λ x. d.calls ++ x) (sym (turns_calls-append d.shadow os os'))),
                ),
              ))
              (turns-Ran ts t' d1 started' f.1 g))
          (turn-Ran t d started f.0 h)
