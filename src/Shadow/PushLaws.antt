-- ===== src/Shadow/PushLaws.antt =====
-- pushProperties of jni/server/IOT_DeviceShadow.cpp against its description: one push of the
-- attributes that are due, in the order of their names, after which none is due.
use java_iotwrap.Common.{
  ℕ, ◌≡◌, refl, ap, Bool, true, false, List, [], ◌∷◌, ◌++◌, Option, none, some, Bool-cases, arith,
  ◌||◌, if◌then◌else◌, ℤ, pos, inl, inr,
}
use java_iotwrap.StdMap.{StdMap}
use java_iotwrap.Shadow.{Attr, DsAttr, push, Sdk, Shadow, set_report}
use java_iotwrap.Shadow.Push.{
  add_format, push_entries, push_format, send_due, lower_flags, push_due, push_properties,
}

-- The attributes that a push takes: all of them if a report is forced, otherwise those that are due.
abbrev pub due_attrs : Bool → StdMap DsAttr → List Attr
due_attrs force [] = []
due_attrs force ((k, e) ∷ m) =
    let rest = due_attrs force m in if force || e.report then e.attr ∷ rest else rest

-- The map with no attribute due.
abbrev pub none_due : StdMap DsAttr → StdMap DsAttr
none_due [] = []
none_due ((k, e) ∷ m) = (k, set_report false e) ∷ none_due m

or-false : (a b : Bool) → a || b ≡ false → b ≡ false
or-false a b h = ground arith

module _ (sdk : Sdk) where
  open sdk use {Format, format_init, format_add, format_finalize, payload, result}

  -- A format to which attributes are added one by one.
  abbrev pub add_all : Format → List Attr → Format
  add_all f [] = f
  add_all f (a ∷ as') = add_all (format_add f a) as'

  abbrev pub add_opt : ℕ → Option Format → List Attr → Option Format
  add_opt h f [] = f
  add_opt h none (a ∷ as') = some (add_all (format_add (format_init h) a) as')
  add_opt h (some f) (a ∷ as') = some (add_all (format_add f a) as')

  add_opt-some :
      (h : ℕ) (f : Format) (as' : List Attr) → add_opt h (some f) as' ≡ some (add_all f as')
  add_opt-some h f [] = refl
  add_opt-some h f (a ∷ as') = refl

  add_opt-step :
      (h : ℕ) (f : Option Format) (a : Attr) (as' : List Attr)
      → add_opt h (add_format sdk h f a) as' ≡ add_opt h f (a ∷ as')
  unfolding add_format
  add_opt-step h none a as' = add_opt-some h _ as'
  add_opt-step h (some f) a as' = add_opt-some h _ as'

  pub push_entries_lem :
      (h : ℕ) (force : Bool) (m : StdMap DsAttr) (f : Option Format)
      → push_entries sdk h force m f ≡ (none_due m, add_opt h f (due_attrs force m))
  unfolding push_entries
  push_entries_lem h force [] f = refl
  push_entries_lem h force ((k, e) ∷ m) f = elim (Bool-cases (force || e.report)) [
    | inl t ↦
        rw (t, push_entries_lem h force m (add_format sdk h f e.attr))
          (ap (λ o. ((k, set_report false e) ∷ none_due m, o)) (add_opt-step h f e.attr _))
    | inr t ↦
        let same_entry : e ≡ set_report false e =
          ap (λ b. set_report b e) (or-false force e.report t) in
        rw (t, push_entries_lem h force m f)
          (ap (λ e'. ((k, e') ∷ none_due m, add_opt h f (due_attrs force m))) same_entry)
  ]

  -- What is asked of the SDK for the attributes that are due, and the result.
  abbrev pub PushedOnce : Shadow → List Attr → Shadow × ℤ → Type 0
  PushedOnce d [] (d', ret) = (d'.calls ≡ d.calls) × (ret ≡ pos 0)
  PushedOnce d (a ∷ as') (d', ret) =
      let c =
        push d.shadow
          (payload (format_finalize (add_all (format_add (format_init d.shadow) a) as'))) in
      (d'.calls ≡ d.calls ++ c ∷ []) × (ret ≡ result d.calls c)

  push_format-PushedOnce :
      (d : Shadow) (m : StdMap DsAttr) (as' : List Attr)
      → PushedOnce d as' (push_format sdk (record d { attrs = m }) (add_opt d.shadow none as'))
  unfolding push_format
  push_format-PushedOnce d m [] = (refl, refl)
  push_format-PushedOnce d m (a ∷ as') = (refl, refl)

  -- What pushProperties leaves alone, and what it clears.
  abbrev pub IsCleared : Shadow → Shadow → Type 0
  IsCleared d d' =
      (d'.attrs ≡ none_due d.attrs)
      × (d'.report_flag ≡ false)
      × (d'.force_report ≡ false)
      × (d'.shadow ≡ d.shadow)
      × (d'.service ≡ d.service)

  pub push_format-IsCleared :
      (d : Shadow) (m : StdMap DsAttr) (f : Option Format)
      → let d' = (push_format sdk (record d { attrs = m }) f).0 in
        (d'.attrs ≡ m) × (d'.shadow ≡ d.shadow) × (d'.service ≡ d.service)
  unfolding push_format
  push_format-IsCleared d m none = (refl, refl, refl)
  push_format-IsCleared d m (some f) = (refl, refl, refl)

  -- When a report is asked for or forced, pushProperties makes one push, of the attributes that are
  -- due in the order of their names (of all attributes if the report is forced), or none if there is
  -- no such attribute; it returns the push's result, or 0. Whatever the result is, afterwards no
  -- attribute is due and both flags are down; the values are as they were.
  pub push_properties_lem :
      (d : Shadow)
      → d.report_flag || d.force_report ≡ true
      → PushedOnce d (due_attrs d.force_report d.attrs) (push_properties sdk d)
        × IsCleared d (push_properties sdk d).0
  unfolding push_properties push_due send_due lower_flags
  push_properties_lem d h =
      let kept =
        push_format-IsCleared d (none_due d.attrs)
          (add_opt d.shadow none (due_attrs d.force_report d.attrs)) in
      rw (h, push_entries_lem d.shadow d.force_report d.attrs none)
        (pushed (due_attrs d.force_report d.attrs), (kept.0, refl, refl, kept.1, kept.2))
    where
      pushed :
          (as' : List Attr)
          → let r =
              push_format sdk (record d { attrs = none_due d.attrs }) (add_opt d.shadow none as') in
            PushedOnce d as' (record r.0 { report_flag = false; force_report = false }, r.1)
      pushed [] = push_format-PushedOnce d (none_due d.attrs) []
      pushed (a ∷ as') = push_format-PushedOnce d (none_due d.attrs) (a ∷ as')

  -- A second pushProperties does nothing, also where the push of the first one failed: what was due
  -- then is not sent again.
  push_properties_once :
      (d : Shadow)
      → push_properties sdk (push_properties sdk d).0 ≡ ((push_properties sdk d).0, pos 0)
  unfolding push_properties push_due send_due lower_flags
  push_properties_once d = elim (Bool-cases (d.report_flag || d.force_report)) [
    | inl t ↦ rw t refl
    | inr t ↦ rw (t, t)
  ]
