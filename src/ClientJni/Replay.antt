-- ===== src/ClientJni/Replay.antt =====
-- _postFollow of jni/client/IOT_ClientJNI.cpp against jni/server/IOT_Service.cpp: what the library
-- keeps in its lists, the service knows after a connection.
use java_iotwrap.Common.{
  ℕ, ◌≡◌, ◌≢◌, refl, sym, ◌∙◌, inl, inr, false, List, [], ◌∷◌, Option, none, some, ◌>>=◌, Succeeds,
  Succeeds-bind, Succeeds-mono, Bool-cases, arith, ◌==◌, Bytes, ℤ, pos, is_zero, All, Has, subst,
}
use java_iotwrap.Service.{
  Service, FollowType, follow_property, follow_command, add_following, create_client,
}
use java_iotwrap.Service.Invariant.{IsValid}
use java_iotwrap.Service.Reach.{regist_command_cb-SameTables, regist_property_cb-SameTables}
use java_iotwrap.Service.Session.{
  Backend, regist_command_cb, regist_property_cb, client_follow_property, client_follow_command,
  client_report_event, client_report_property,
}
use java_iotwrap.ClientJni.{
  Remote, PropertyInfo, ClientJni, follow_properties, follow_commands, post_follow,
}
use java_iotwrap.ClientJni.Grows.{
  Follows, Grows, Grows-trans, add_following-Grows, SameTables-Grows,
}

-- The service behind the binder: every transaction is the method of the same name.
unfoldable pub service_remote : {D : Type 0} → Backend D → Remote D
service_remote b = record {
  create_client =
      λ d name. let (s, c) = create_client (b.service d) name in some (b.with_service d s, c);
  get_service_status = λ d. some (d, b.get_service_status d);
  follow_property = λ d c key type size. some (client_follow_property b d c key type size);
  follow_command = λ d c cmd. some (client_follow_command b d c cmd);
  regist_command_cb = λ d c cb.
      let (s, ret) = regist_command_cb (b.service d) c cb in some (b.with_service d s, ret);
  regist_property_cb = λ d c cb.
      regist_property_cb (b.service d) c cb >>= λ (s, ret). some (b.with_service d s, ret);
  report_event = λ d c msg. some (client_report_event b d msg);
  report_property = λ d c key val. client_report_property b d key val;
}

module _ {D : Type 0} (b : Backend D) (c : ℕ) where
  service-client_follow_property :
      (d : D) (key : Bytes) (type size : ℤ)
      → b.service (client_follow_property b d c key type size).0
        ≡ (add_following (b.service d) follow_property (some key) c).0
  unfolding client_follow_property
  service-client_follow_property d key type size =
      let s = (add_following (b.service d) follow_property (some key) c).0 in
      let kept = b.service-with_service d s in
      elim (Bool-cases (is_zero (add_following (b.service d) follow_property (some key) c).1)) [
        | inl z ↦ rw z (b.service-do_add_property (b.with_service d s) (some key) type size ∙ kept)
        | inr z ↦ rw z kept
      ]

  service-client_follow_command :
      (d : D) (cmd : Bytes)
      → b.service (client_follow_command b d c cmd).0
        ≡ (add_following (b.service d) follow_command (some cmd) c).0
  unfolding client_follow_command
  service-client_follow_command d cmd =
      b.service-with_service d (add_following (b.service d) follow_command (some cmd) c).0

  follow_properties-Grows :
      (is : List PropertyInfo) (d : D)
      → IsValid (b.service d)
      → Has c (b.service d).clients
      → Succeeds
          (λ (d' : D).
            Grows c (b.service d) (b.service d')
            × All (λ (i : PropertyInfo). Follows c (b.service d') follow_property i.key) is)
          (follow_properties (service_remote b) d c is)
  unfolding follow_properties service_remote
  follow_properties-Grows [] d v h = ((v, h, λ type k f. f), tt)
  follow_properties-Grows (i ∷ is) d v h =
      let d1 = (client_follow_property b d c i.key i.type i.size).0 in
      let e = service-client_follow_property d i.key i.type i.size in
      let (g, f) = add_following-Grows (b.service d) follow_property i.key c (λ q. cc q) v h in
      let g1 : Grows c (b.service d) (b.service d1) = subst (Grows c (b.service d)) (sym e) g in
      let f1 : Follows c (b.service d1) follow_property i.key =
        subst (λ s. Follows c s follow_property i.key) (sym e) f in
      Succeeds-mono _ _ (follow_properties (service_remote b) d1 c is)
        (λ d' (g2, rest). (
          Grows-trans c (b.service d) (b.service d1) (b.service d') g1 g2,
          (g2.2 follow_property i.key f1, rest),
        ))
        (follow_properties-Grows is d1 g1.0 g1.1)

  follow_commands-Grows :
      (xs : List Bytes) (d : D)
      → IsValid (b.service d)
      → Has c (b.service d).clients
      → Succeeds
          (λ (d' : D).
            Grows c (b.service d) (b.service d')
            × All (λ (x : Bytes). Follows c (b.service d') follow_command x) xs)
          (follow_commands (service_remote b) d c xs)
  unfolding follow_commands service_remote
  follow_commands-Grows [] d v h = ((v, h, λ type k f. f), tt)
  follow_commands-Grows (x ∷ xs) d v h =
      let d1 = (client_follow_command b d c x).0 in
      let e = service-client_follow_command d x in
      let (g, f) = add_following-Grows (b.service d) follow_command x c (λ q. cc q) v h in
      let g1 : Grows c (b.service d) (b.service d1) = subst (Grows c (b.service d)) (sym e) g in
      let f1 : Follows c (b.service d1) follow_command x =
        subst (λ s. Follows c s follow_command x) (sym e) f in
      Succeeds-mono _ _ (follow_commands (service_remote b) d1 c xs)
        (λ d' (g2, rest). (
          Grows-trans c (b.service d) (b.service d1) (b.service d') g1 g2,
          (g2.2 follow_command x f1, rest),
        ))
        (follow_commands-Grows xs d1 g1.0 g1.1)

  All-Grows :
      {A : Type 0} (type : FollowType) (key : A → Bytes) (s t : Service) (xs : List A)
      → Grows c s t
      → All (λ x. Follows c s type (key x)) xs
      → All (λ x. Follows c t type (key x)) xs
  All-Grows type key s t [] g a = tt
  All-Grows type key s t (x ∷ xs) g a = (g.2 type (key x) a.0, All-Grows type key s t xs g a.1)

  regist_property_cb-Grows :
      (s : Service) (cb : ℕ)
      → cb ≢ 0
      → IsValid s
      → Has c s.clients
      → Succeeds (λ ((t, ret) : Service × ℤ). Grows c s t) (regist_property_cb s c cb)
  regist_property_cb-Grows s cb n v h = go (regist_property_cb s c cb) refl
    where
      defined : regist_property_cb s c cb ≢ none
      defined = unfold regist_property_cb in (ground arith)

      go :
          (o : Option (Service × ℤ))
          → regist_property_cb s c cb ≡ o
          → Succeeds (λ ((t, ret) : Service × ℤ). Grows c s t) o
      go none e = absurd (defined e)
      go (some (t, ret)) e = SameTables-Grows c s t (regist_property_cb-SameTables s c cb e) v h

  -- The two registrations that end _postFollow.
  regists-Grows :
      (d : D) (cmd_cb cb : ℕ)
      → cb ≢ 0
      → IsValid (b.service d)
      → Has c (b.service d).clients
      → let r = service_remote b in
        Succeeds
          (λ ((d', ret) : D × ℤ). (ret ≡ pos 0) × Grows c (b.service d) (b.service d'))
          (r.regist_command_cb d c cmd_cb >>= λ (d3, ret3).
            r.regist_property_cb d3 c cb >>= λ (d4, ret4). some (d4, pos 0))
  unfolding service_remote
  regists-Grows d cmd_cb cb m v h =
      let s3 = (regist_command_cb (b.service d) c cmd_cb).0 in
      let d3 = b.with_service d s3 in
      let g3 : Grows c (b.service d) (b.service d3) =
        subst (Grows c (b.service d)) (sym (b.service-with_service d s3)) (
          SameTables-Grows c (b.service d) s3 (regist_command_cb-SameTables (b.service d) c cmd_cb)
            v h) in
      let regist = regist_property_cb (b.service d3) c cb in
      Succeeds-bind (λ (r : D × ℤ). Grows c (b.service d3) (b.service r.0)) _
        (regist >>= λ (s, ret). some (b.with_service d3 s, ret)) (λ r. some (r.0, pos 0))
        (λ r g. (refl, Grows-trans c (b.service d) (b.service d3) (b.service r.0) g3 g))
        (Succeeds-bind (λ (r : Service × ℤ). Grows c (b.service d3) r.0) _ regist _
          (λ r g. subst (Grows c (b.service d3)) (sym (b.service-with_service d3 r.0)) g)
          (regist_property_cb-Grows (b.service d3) cb m g3.0 g3.1))

-- Against the service itself, _postFollow of a connected client with a property callback ends and
-- returns ERR_NOERROR; then the service still is valid, the client still is connected, and it follows
-- every property and every command of the library's lists, and all that it followed before.
pub post_follow_lem :
    {D : Type 0} (b : Backend D) (j : ClientJni) (d : D)
    → j.proxy ≢ 0
    → j.property_cb ≢ 0
    → IsValid (b.service d)
    → Has j.proxy (b.service d).clients
    → Succeeds
        (λ ((d', ret) : D × ℤ).
          (ret ≡ pos 0)
          × Grows j.proxy (b.service d) (b.service d')
          × All
              (λ (i : PropertyInfo). Follows j.proxy (b.service d') follow_property i.key)
              j.property_list
          × All (λ x. Follows j.proxy (b.service d') follow_command x) j.command_list)
        (post_follow (service_remote b) j d)
unfolding post_follow
post_follow_lem {D} b j d n m v h =
    let c = j.proxy in
    let open_proxy : (c == 0) ≡ false = ground arith in
    let Keys : D → D → Type 0 = λ d0 d'.
      Grows c (b.service d0) (b.service d')
      × All (λ (i : PropertyInfo). Follows c (b.service d') follow_property i.key)
          j.property_list in
    let Cmds : D → D → Type 0 = λ d0 d'.
      Grows c (b.service d0) (b.service d')
      × All (λ x. Follows c (b.service d') follow_command x) j.command_list in
    let Done : D → D × ℤ → Type 0 =
      λ d0 r. (r.1 ≡ pos 0) × Grows c (b.service d0) (b.service r.0) in
    rw open_proxy (
      Succeeds-bind (Keys d) _ (follow_properties (service_remote b) d c j.property_list) _
        (λ d1 (g1, f1).
          Succeeds-bind (Cmds d1) _ (follow_commands (service_remote b) d1 c j.command_list) _
            (λ d2 (g2, f2).
              Succeeds-mono (Done d2) _ _
                (λ (d4, ret) (e, g). (
                  e,
                  Grows-trans c (b.service d) (b.service d1) (b.service d4) g1
                      (Grows-trans c (b.service d1) (b.service d2) (b.service d4) g2 g),
                  All-Grows b c follow_property (λ (i : PropertyInfo). i.key) (b.service d1)
                      (b.service d4) j.property_list
                      (Grows-trans c (b.service d1) (b.service d2) (b.service d4) g2 g) f1,
                  All-Grows b c follow_command (λ x. x) (b.service d2) (b.service d4) j.command_list
                      g f2,
                ))
                (regists-Grows b c d2 j.command_cb j.property_cb m g2.0 g2.1))
            (follow_commands-Grows b c j.command_list d1 g1.0 g1.1))
        (follow_properties-Grows b c j.property_list d v h))
