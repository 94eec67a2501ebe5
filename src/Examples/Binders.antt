-- ===== src/Examples/Binders.antt =====
-- The proxies and the stubs at work, with the service of the other examples behind them.
use java_iotwrap.Common.{
  ℕ, ◌+◌, ◌<◌, ◌≤◌, ◌≡◌, refl, true, false, [], ◌∷◌, some, codes, pos, minus_one, same,
  if◌then◌else◌,
}
use java_iotwrap.Binder.{token, text, client_pack, property_pack}
use java_iotwrap.Binder.Callbacks.{Callbacks, bn_command_cb, bn_property_cb, binder_callbacks}
use java_iotwrap.Binder.CallbackCalls.{binder_callbacks_lem}
use java_iotwrap.Binder.Client.{bn_client}
use java_iotwrap.Binder.Remoting.{through_binder, swapped, through_binder_lem}
use java_iotwrap.Binder.Descriptor.{bn_client_guards}
use java_iotwrap.Examples.Data.{temp, reset, demo_shadow}
use java_iotwrap.Examples.Clients.{remote}
use java_iotwrap.Examples.Parcel.{item_list, item_list-IsLawful, refuse}

through_binder_lem_example :
    (through_binder item_list remote true refuse ≡ remote)
    × (through_binder item_list remote false refuse ≡ swapped item_list remote)
through_binder_lem_example = through_binder_lem item_list item_list-IsLawful remote refuse

-- A client whose process counts its calls and answers "21", but not for a property it does not know.
abbrev counting : Callbacks ℕ
counting = record {
  callback = λ j cmd msg. some (j + 1, pos 0);
  get = λ j key val.
      if same key temp then some (j + 1, pos 0, codes "21") else some (j + 1, pos 0, val);
  set = λ j key val. some (j + 1, pos 0);
}

binder_callbacks_lem_example :
    binder_callbacks item_list
      (bn_command_cb item_list counting refuse)
      (bn_property_cb item_list counting refuse)
    ≡ record counting { get = λ j key val. counting.get j key [] }
binder_callbacks_lem_example = binder_callbacks_lem item_list item_list-IsLawful counting refuse

-- Code 2 is followCommand's.
bn_client_guards_example :
    let p = token property_pack ∷ text reset ∷ [] in
    (1 ≤ 2
      → 2 < 7
      → same property_pack client_pack ≡ false
      → bn_client item_list remote true refuse 1 demo_shadow 2 p
        ≡ some (demo_shadow, minus_one, []))
    × (2 < 1 → bn_client item_list remote true refuse 1 demo_shadow 2 p ≡ refuse demo_shadow 2 p)
    × (7 ≤ 2 → bn_client item_list remote true refuse 1 demo_shadow 2 p ≡ refuse demo_shadow 2 p)
bn_client_guards_example =
    bn_client_guards item_list item_list-IsLawful remote refuse true 1 2 demo_shadow
      (token property_pack ∷ text reset ∷ []) property_pack (text reset ∷ []) refl
