-- ===== src/Examples/Parcel.antt =====
-- A parcel as the list of its items, which meets the laws of a parcel.
use java_iotwrap.Common.{
  ℕ, refl, Bool, false, List, [], ◌∷◌, ◌++◌, some, Bytes, ℤ, pos, minus_one, same,
}
use java_iotwrap.Binder.{Item, token, text, number, object, Parcels, IsLawful, Transact}

abbrev read_token : List Item → Bytes → Bool × List Item
read_token (token s ∷ rest) d = (same s d, rest)
read_token _ d = (false, [])

abbrev read_text : List Item → Bytes × List Item
read_text (text s ∷ rest) = (s, rest)
read_text _ = ([], [])

abbrev read_number : List Item → ℤ × List Item
read_number (number z ∷ rest) = (z, rest)
read_number _ = (pos 0, [])

abbrev read_object : List Item → ℕ × List Item
read_object (object o ∷ rest) = (o, rest)
read_object _ = (0, [])

abbrev pub item_list : Parcels
item_list = record {
  Parcel = List Item;
  empty = [];
  write_interface_token = λ p s. p ++ token s ∷ [];
  write_string8 = λ p s. p ++ text s ∷ [];
  write_int32 = λ p z. p ++ number z ∷ [];
  write_strong_binder = λ p o. p ++ object o ∷ [];
  check_interface = read_token;
  read_string8 = read_text;
  read_int32 = read_number;
  read_strong_binder = read_object;
  first_call = 1;
  permission_denied = minus_one;
}

abbrev pub item_list-IsLawful : IsLawful item_list
item_list-IsLawful = record {
  items = λ p. p;
  items-empty = refl;
  items-write_interface_token = λ p s. refl;
  items-write_string8 = λ p s. refl;
  items-write_int32 = λ p z. refl;
  items-write_strong_binder = λ p o. refl;
  check_interface_lem = λ p s d rest e. rw e (refl, refl);
  read_string8_lem = λ p s rest e. rw e (refl, refl);
  read_int32_lem = λ p z rest e. rw e (refl, refl);
  read_strong_binder_lem = λ p o rest e. rw e (refl, refl);
  denies = refl;
}

-- Every other transaction is refused.
abbrev pub refuse : {D : Type 0} → Transact item_list D
refuse d code p = some (d, minus_one, [])
