-- ===== src/Binder/Queue.antt =====
-- Parcels of jni/binder as queues: what the stubs read is what the proxies wrote.
use java_iotwrap.Common.{
  ℕ, ◌≡◌, refl, ap, ◌∙◌, false, List, [], ◌∷◌, ◌++◌, Option, none, some, ◌>>=◌, Bytes, ℤ, same,
  same_refl,
}
use java_iotwrap.Binder.{
  Item, token, text, number, object, Parcels, IsLawful, request, int32_reply, write_ret, checked,
}

module _ (P : Parcels) (L : IsLawful P) where
  open P use {Parcel, empty, write_string8, write_int32, write_strong_binder}
  open L use {items}

  pub items-request : (s : Bytes) → items (request P s) ≡ token s ∷ []
  unfolding request
  items-request s = L.items-write_interface_token empty s ∙ rw L.items-empty refl

  -- One more item at the end of a parcel whose items are known.
  pub put_text :
      (p : Parcel) (s : Bytes) (xs : List Item)
      → items p ≡ xs
      → items (write_string8 p s) ≡ xs ++ text s ∷ []
  put_text p s xs e = L.items-write_string8 p s ∙ rw e refl

  pub put_number :
      (p : Parcel) (z : ℤ) (xs : List Item)
      → items p ≡ xs
      → items (write_int32 p z) ≡ xs ++ number z ∷ []
  put_number p z xs e = L.items-write_int32 p z ∙ rw e refl

  pub put_object :
      (p : Parcel) (o : ℕ) (xs : List Item)
      → items p ≡ xs
      → items (write_strong_binder p o) ≡ xs ++ object o ∷ []
  put_object p o xs e = L.items-write_strong_binder p o ∙ rw e refl

  -- A parcel with the object's own token passes, and its arguments are left.
  pub checked_own :
      {D : Type 0} (d : D) (s : Bytes) (p : Parcel) (args : List Item)
      (body : Parcel → Option (D × ℤ × Parcel))
      → items p ≡ token s ∷ args
      → (checked P d s p body ≡ body (P.check_interface p s).1)
        × (items (P.check_interface p s).1 ≡ args)
  unfolding checked
  checked_own d s p args body e =
      let (ok, left) = L.check_interface_lem p s s args e in (rw (ok, same_refl s) refl, left)

  -- A parcel with another token is refused.
  pub checked_other :
      {D : Type 0} (d : D) (s t : Bytes) (p : Parcel) (args : List Item)
      (body : Parcel → Option (D × ℤ × Parcel))
      → items p ≡ token t ∷ args
      → same t s ≡ false
      → checked P d s p body ≡ some (d, P.permission_denied, empty)
  unfolding checked
  checked_other d s t p args body e n =
      let ok = (L.check_interface_lem p t s args e).0 in rw (ok, n) refl

  -- The number that a stub returns arrives.
  int32_reply-write_ret : {D : Type 0} (x : D × ℤ) → int32_reply P (write_ret P x) ≡ x
  unfolding int32_reply write_ret
  int32_reply-write_ret (d, ret) =
      let e =
        L.read_int32_lem (write_int32 empty ret) ret [] (put_number empty ret [] L.items-empty) in
      ap (λ z. (d, z)) e.0

  pub reply-ret :
      {D : Type 0} (m : Option (D × ℤ))
      → ((m >>= λ x. some (write_ret P x)) >>= λ r. some (int32_reply P r)) ≡ m
  reply-ret none = refl
  reply-ret (some x) = ap some (int32_reply-write_ret x)
