-- ===== src/ClientJni/Connect.antt =====
-- The connection of jni/client/IOT_ClientJNI.cpp: the loop of _connect.
use java_iotwrap.Common.{
  ℕ, zero, suc, ◌+◌, ◌≡◌, ◌≢◌, ◌↔◌, refl, inl, inr, ◌⊎◌, Bool, true, false, some, Bool-cases,
  Succeeds, arith, ◌==◌, ◌||◌, ℤ, pos, negsuc, minus_one, is_zero,
}
use java_iotwrap.ClientJni.{Remote, Tries, ClientJni, wait_service, connect, err_proxy_null}

-- In one of `n` rounds from `i` on, the service is known and is connected.
abbrev pub Answers : Tries → ℕ → ℕ → Bool → Type 0
Answers t zero i found = ⊥
Answers t (suc n) i found =
    ((found || t.lookup i ≡ true) × (t.status i ≡ pos 0))
    ⊎ Answers t n (i + 1) (found || t.lookup i)

is_zero-eq : (z : ℤ) → is_zero z ≡ true → z ≡ pos 0
is_zero-eq (pos zero) h = refl
is_zero-eq (pos (suc n)) h = cc
is_zero-eq (negsuc n) h = cc

wait_service_sound :
    (t : Tries) (n i : ℕ) (found : Bool) (st : ℤ)
    → is_zero st ≡ false
    → is_zero (wait_service t n i found st) ≡ true
    → Answers t n i found
unfolding wait_service
wait_service_sound t zero i found st h k = cc
wait_service_sound t (suc n) i found st h k = elim (Bool-cases (found || t.lookup i)) [
  | inl e ↦ elim (Bool-cases (is_zero (t.status i))) [
    | inl z ↦ inl (e, is_zero-eq (t.status i) z)
    | inr z ↦ inr (
        wait_service_sound t n (i + 1) (found || t.lookup i) (t.status i) z (rw e (rw (e, z) at k)))
  ]
  | inr e ↦ inr (wait_service_sound t n (i + 1) (found || t.lookup i) st h (rw e (rw e at k)))
]

pub wait_service_complete :
    (t : Tries) (n i : ℕ) (found : Bool) (st : ℤ)
    → Answers t n i found
    → is_zero (wait_service t n i found st) ≡ true
unfolding wait_service
wait_service_complete t zero i found st k = absurd k
wait_service_complete t (suc n) i found st (inl (e, z)) = rw (e, z) refl
wait_service_complete t (suc n) i found st (inr k) =
    let later = λ (s : ℤ). wait_service_complete t n (i + 1) (found || t.lookup i) s k in
    elim (Bool-cases (found || t.lookup i)) [
      | inl e ↦ elim (Bool-cases (is_zero (t.status i))) [
        | inl z ↦ rw (e, z) z
        | inr z ↦ rw (e, z) (rw e at later (t.status i))
      ]
      | inr e ↦ rw e (rw e at later st)
    ]

-- Where createClient returns, _connect with `n` rounds returns too, and it succeeds if and only if in
-- one of them the service is known, in that round or before, and reports that it is connected, and
-- createClient gives a client; otherwise the result is ERR_PROXY_NULL.
connect_lem :
    {D : Type 0} (r : Remote D) (t : Tries) (n : ℕ) (j : ClientJni) (d d1 : D) (c : ℕ)
    → r.create_client d j.client_id ≡ some (d1, c)
    → Succeeds
        (λ ((j', d', ret) : ClientJni × D × ℤ).
          ((ret ≡ pos 0) ↔ (Answers t n 0 false × (c ≢ 0)))
          × ((ret ≡ pos 0) ⊎ (ret ≡ err_proxy_null)))
        (connect r t n j d)
unfolding connect
connect_lem r t n j d d1 c made = elim (Bool-cases (is_zero (wait_service t n 0 false minus_one))) [
  | inl z ↦
      rw (z, made)
        (elim (Bool-cases (c == 0)) [
          | inl e ↦ rw e (((λ q. cc q), λ q. absurd (q.1 (ground arith))), inr refl)
          | inr e ↦ rw e (
            (
              (λ _. (wait_service_sound t n 0 false minus_one refl z, λ q. ground arith)),
              λ _. refl,
            ),
            inl refl,
          )
        ])
  | inr z ↦
      rw z (((λ q. cc q), λ q. cc (wait_service_complete t n 0 false minus_one q.0)), inr refl)
]
