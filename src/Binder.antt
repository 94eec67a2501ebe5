-- ===== src/Binder.antt =====
-- jni/binder: what the proxies (Bp...) and the stubs (Bn...) of the four interfaces share. A call goes
-- as a parcel from a proxy in one process to the stub of the object in another, and a reply comes back.
pub mod Client
pub mod Service
pub mod Callbacks
pub mod Queue
pub mod Calls
pub mod Remoting
pub mod Descriptor
pub mod CallbackCalls
use java_iotwrap.Common.{
  ℕ, ◌+◌, ◌≡◌, Bool, true, false, List, [], ◌∷◌, ◌++◌, Option, none, some, ◌>>=◌, if◌then◌else◌,
  Bytes, codes, ℤ, pos, is_zero, same,
}

-- What stands in a parcel.
pub data Item : Type 0 where
  token text : Bytes → Item
  number : ℤ → Item
  object : ℕ → Item

-- `Parcel` of libbinder and the constants of its protocol. A written parcel is read from its first
-- item; what is read is no longer in the parcel that is left.
pub record Parcels : Type 1 where
  pub Parcel : Type 0
  pub empty : Parcel
  pub write_interface_token : Parcel → Bytes → Parcel
  pub write_string8 : Parcel → Bytes → Parcel
  pub write_int32 : Parcel → ℤ → Parcel
  pub write_strong_binder : Parcel → ℕ → Parcel
  pub check_interface : Parcel → Bytes → Bool × Parcel
  pub read_string8 : Parcel → Bytes × Parcel
  pub read_int32 : Parcel → ℤ × Parcel
  pub read_strong_binder : Parcel → ℕ × Parcel
  -- IBinder::FIRST_CALL_TRANSACTION and PERMISSION_DENIED.
  pub first_call : ℕ
  pub permission_denied : ℤ

-- Items are read in the order in which they were written, and CHECK_INTERFACE compares the token with
-- the descriptor of the object.
pub record IsLawful (P : Parcels) : Type 0 where
  pub items : P.Parcel → List Item
  pub items-empty : items P.empty ≡ []
  pub items-write_interface_token :
      (p : P.Parcel) (s : Bytes) → items (P.write_interface_token p s) ≡ items p ++ token s ∷ []
  pub items-write_string8 :
      (p : P.Parcel) (s : Bytes) → items (P.write_string8 p s) ≡ items p ++ text s ∷ []
  pub items-write_int32 :
      (p : P.Parcel) (z : ℤ) → items (P.write_int32 p z) ≡ items p ++ number z ∷ []
  pub items-write_strong_binder :
      (p : P.Parcel) (o : ℕ) → items (P.write_strong_binder p o) ≡ items p ++ object o ∷ []
  pub check_interface_lem :
      (p : P.Parcel) (s d : Bytes) (rest : List Item)
      → items p ≡ token s ∷ rest
      → ((P.check_interface p d).0 ≡ same s d) × (items (P.check_interface p d).1 ≡ rest)
  pub read_string8_lem :
      (p : P.Parcel) (s : Bytes) (rest : List Item)
      → items p ≡ text s ∷ rest
      → ((P.read_string8 p).0 ≡ s) × (items (P.read_string8 p).1 ≡ rest)
  pub read_int32_lem :
      (p : P.Parcel) (z : ℤ) (rest : List Item)
      → items p ≡ number z ∷ rest
      → ((P.read_int32 p).0 ≡ z) × (items (P.read_int32 p).1 ≡ rest)
  pub read_strong_binder_lem :
      (p : P.Parcel) (o : ℕ) (rest : List Item)
      → items p ≡ object o ∷ rest
      → ((P.read_strong_binder p).0 ≡ o) × (items (P.read_strong_binder p).1 ≡ rest)
  pub denies : is_zero P.permission_denied ≡ false

-- IOT_CLIENT_PACK, IOT_COMMAND_PACK and IOT_PROPERTY_PACK.
abbrev pub client_pack : Bytes
client_pack = codes "com.android.leiot.IIOTClient"

abbrev pub command_pack : Bytes
command_pack = codes "com.android.leiot.IIOTCommandCB"

abbrev pub property_pack : Bytes
property_pack = codes "com.android.leiot.IIOTPropertyCB"

-- The descriptor that IMPLEMENT_META_INTERFACE gives to IIOTService.
abbrev pub service_descriptor : Bytes
service_descriptor = client_pack

-- NO_ERROR.
abbrev pub no_error : ℤ
no_error = pos 0

module _ (P : Parcels) where
  open P use {Parcel, empty, write_interface_token, write_int32, read_int32, check_interface}

  -- `transact` on an object, and a stub's `onTransact`: the state of the other process, the status and
  -- the reply. `none` is an access through NULL, or outside an object, over there.
  abbrev pub Transact : Type 0 → Type 0
  Transact D = D → ℕ → Parcel → Option (D × ℤ × Parcel)

  -- A new parcel with the token of an interface.
  unfoldable pub request : Bytes → Parcel
  request descriptor = write_interface_token empty descriptor

  module _ {D : Type 0} where
    -- The end of a proxy's method: `status` if the transaction failed, and else the number in the
    -- reply.
    unfoldable pub int32_reply : D × ℤ × Parcel → D × ℤ
    int32_reply (d, status, reply) = (d, if is_zero status then (read_int32 reply).0 else status)

    -- The end of a stub's case: `reply->writeInt32(ret)`.
    unfoldable pub write_ret : D × ℤ → D × ℤ × Parcel
    write_ret (d, ret) = (d, no_error, write_int32 empty ret)

    -- CHECK_INTERFACE, and the rest of the case with what is left of the parcel.
    unfoldable pub checked :
        D → Bytes → Parcel → (Parcel → Option (D × ℤ × Parcel)) → Option (D × ℤ × Parcel)
    checked d descriptor p body =
        let (ok, rest) = check_interface p descriptor in
        if ok then body rest else some (d, P.permission_denied, empty)
