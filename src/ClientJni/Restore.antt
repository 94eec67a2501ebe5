-- ===== src/ClientJni/Restore.antt =====
-- connService of jni/client/IOT_ClientJNI.cpp against jni/server/IOT_Service.cpp, which is also what
-- happens after the service has restarted.
use java_iotwrap.Common.{
  ℕ, ◌≡◌, ◌≢◌, refl, sym, inl, inr, true, false, List, [], ◌∷◌, ◌++◌, some, Succeeds, Succeeds-bind,
  arith, ◌==◌, ℤ, pos, All, Has, subst, minus_one, ◌<◌,
}
use java_iotwrap.Service.{
  Service, follow_property, follow_command, may_create, add_client, create_client,
}
use java_iotwrap.Service.Invariant.{IsValid, create_client-IsValid}
use java_iotwrap.Service.Session.{Backend}
use java_iotwrap.ClientJni.{
  Tries, PropertyInfo, ClientJni, try_count, connect, post_follow, conn_service,
}
use java_iotwrap.ClientJni.Connect.{Answers, wait_service_complete}
use java_iotwrap.ClientJni.Grows.{Follows}
use java_iotwrap.ClientJni.Replay.{service_remote, post_follow_lem}

Has-last : (c : ℕ) (xs : List ℕ) → Has c (xs ++ c ∷ [])
Has-last c [] = inl refl
Has-last c (x ∷ xs) = inr (Has-last c xs)

module _ {D : Type 0} (b : Backend D) (t : Tries) (j : ClientJni) (d : D) where
  abbrev joined : D
  joined = b.with_service d (add_client (b.service d) j.client_id).0

  abbrev connected : ClientJni
  connected = record j { proxy = (b.service d).next_client; listening = true }

  created :
      may_create (b.service d) ≡ true
      → create_client (b.service d) j.client_id ≡ add_client (b.service d) j.client_id
  created room = unfold create_client in (rw room refl)

  connect_joins :
      (n : ℕ)
      → Answers t n 0 false
      → may_create (b.service d) ≡ true
      → 0 < (b.service d).next_client
      → connect (service_remote b) t n j d ≡ some (connected, joined, pos 0)
  unfolding connect service_remote add_client
  connect_joins n a room low =
      let up : ((b.service d).next_client == 0) ≡ false = ground arith in
      rw (wait_service_complete t n 0 false minus_one a, created room, up) refl

  -- A library without a proxy connects to the service itself, once the service answers within the
  -- time-out and has room for a client: connService ends and returns ERR_NOERROR, the library has a
  -- proxy, whose client is connected, and that client follows every property and every command of the
  -- library's lists.
  pub conn_service_restores :
      (timeout : ℤ) (n : ℕ)
      → j.proxy ≡ 0
      → j.property_cb ≢ 0
      → try_count timeout ≡ some n
      → Answers t n 0 false
      → may_create (b.service d) ≡ true
      → IsValid (b.service d)
      → Succeeds
          (λ ((j', d', ret) : ClientJni × D × ℤ).
            (ret ≡ pos 0)
            × (j'.proxy ≢ 0)
            × Has j'.proxy (b.service d').clients
            × All
                (λ (i : PropertyInfo). Follows j'.proxy (b.service d') follow_property i.key)
                j.property_list
            × All (λ x. Follows j'.proxy (b.service d') follow_command x) j.command_list)
          (conn_service (service_remote b) t j d timeout)
  unfolding conn_service
  conn_service_restores timeout n z m e a room v =
      let low : (b.service d).next_client ≢ 0 = λ q. omega (arith, q, v.started) in
      let closed : (j.proxy == 0) ≡ true = ground arith in
      let s : Service = (add_client (b.service d) j.client_id).0 in
      let kept : b.service joined ≡ s = b.service-with_service d s in
      let made : IsValid s =
        subst (λ (x : Service × ℕ). IsValid x.0) (created room)
          (create_client-IsValid (b.service d) j.client_id v) in
      let valid : IsValid (b.service joined) = subst IsValid (sym kept) made in
      let here : Has (b.service d).next_client (b.service joined).clients =
        subst (λ (x : Service). Has (b.service d).next_client x.clients) (sym kept)
          (unfold add_client in (Has-last (b.service d).next_client (b.service d).clients)) in
      let followed = post_follow_lem b connected joined low m valid here in
      rw (closed, e, connect_joins n a room (omega (arith, v.started)))
        (Succeeds-bind _ _ (post_follow (service_remote b) connected joined) _
          (λ (d'', ret) k. (k.0, low, k.1.1, k.2, k.3)) followed)
