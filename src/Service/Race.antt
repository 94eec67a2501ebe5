-- ===== src/Service/Race.antt =====
-- createClient of jni/server/IOT_Service.cpp on several binder threads: the count is read before
-- the lock is taken, so other calls run between the test and the addition.
use java_iotwrap.Common.{
  ℕ, zero, suc, ◌+◌, ◌≤◌, ◌<◌, ◌≡◌, refl, true, [], ◌∷◌, arith, Bytes, length, length-append,
}
use java_iotwrap.Service.{Service, max_clients, new_service, may_create, add_client, remove_client}
use java_iotwrap.Service.Invariant.{length-remove_at}

-- The service, and the number of threads that have passed the test and wait for the lock.
pub record Racing : Type 0 where
  pub service : Service
  pub passed : ℕ

abbrev pub count : Racing → ℕ
count r = length r.service.clients

-- At most `threads` threads are inside createClient at a time.
pub data Step (threads : ℕ) (r : Racing) : Racing → Type 0 where
  tests :
      may_create r.service ≡ true
      → r.passed < threads
      → Step threads r (record r { passed = suc r.passed })
  adds :
      (name : Bytes) (others : ℕ)
      → r.passed ≡ suc others
      → Step threads r (record { service = (add_client r.service name).0; passed = others })
  removes : (c : ℕ) → Step threads r (record r { service = (remove_client r.service c).0 })

pub data Reach (threads : ℕ) : Racing → Type 0 where
  start : Reach threads (record { service = new_service; passed = 0 })
  next : {r t : Racing} → Reach threads r → Step threads r t → Reach threads t

may_create-lt : (s : Service) → may_create s ≡ true → length s.clients < max_clients
unfolding may_create
may_create-lt s h = ground arith

length-add_client :
    (s : Service) (name : Bytes) → length (add_client s name).0.clients ≡ suc (length s.clients)
unfolding add_client
length-add_client s name = omega (arith, length-append s.clients (s.next_client ∷ []))

length-remove_client :
    (s : Service) (c : ℕ) → length (remove_client s c).0.clients ≤ length s.clients
unfolding remove_client
length-remove_client s c = length-remove_at c s.clients

Step-bound :
    (threads : ℕ) {r t : Racing}
    → Step (suc threads) r t
    → count r + r.passed ≤ max_clients + threads
    → count t + t.passed ≤ max_clients + threads
Step-bound threads {r} (tests room free) h = omega (arith, may_create-lt r.service room)
Step-bound threads {r} (adds name others e) h = omega (arith, length-add_client r.service name)
Step-bound threads {r} (removes c) h = omega (arith, length-remove_client r.service c)

-- With at most `threads` + 1 threads in createClient there are never more than 10 + `threads`
-- clients, those that are about to be added included.
pub Reach-bound :
    (threads : ℕ) {r : Racing} → Reach (suc threads) r → count r + r.passed ≤ max_clients + threads
Reach-bound threads start = bound
  where
    bound : length new_service.clients + 0 ≤ max_clients + threads
    bound = unfold new_service in (omega arith)
Reach-bound threads (next r st) = Step-bound threads st (Reach-bound threads r)

-- The bound is met: as many threads as there are can pass the test together.
Full : ℕ → ℕ → ℕ → Type 0
Full threads n k = (r : Racing) × Reach threads r × (count r ≡ n) × (r.passed ≡ k)

may_create-of_lt : (s : Service) → length s.clients < max_clients → may_create s ≡ true
unfolding may_create
may_create-of_lt s h = ground arith

test_one :
    (threads n k : ℕ) → n < max_clients → k < threads → Full threads n k → Full threads n (suc k)
unfolding Full
test_one threads n k room free (r, h, e, p) = (
  record r { passed = suc r.passed },
  next h (tests (may_create-of_lt r.service (omega arith)) (omega arith)),
  e,
  omega arith,
)

add_one : (threads n k : ℕ) → Full threads n (suc k) → Full threads (suc n) k
unfolding Full
add_one threads n k (r, h, e, p) = (
  record { service = (add_client r.service []).0; passed = k },
  next h (adds [] k p),
  omega (arith, length-add_client r.service []),
  refl,
)

fill : (threads n : ℕ) → n < max_clients → Full (suc threads) n 0
unfolding Full new_service
fill threads zero h = (record { service = new_service; passed = 0 }, start, refl, refl)
fill threads (suc n) h =
    add_one (suc threads) n 0
      (test_one (suc threads) n 0 (omega arith) (omega arith) (fill threads n (omega arith)))

test_all : (threads k : ℕ) → k ≤ suc threads → Full (suc threads) 9 k
test_all threads zero h = fill threads 9 (omega arith)
test_all threads (suc k) h =
    test_one (suc threads) 9 k (omega arith) (omega arith) (test_all threads k (omega arith))

add_all : (threads n k : ℕ) → Full threads n k → (m : ℕ) → n + k ≡ m → Full threads m 0
unfolding Full
add_all threads n zero (r, h, e, p) m q = (r, h, omega arith, p)
add_all threads n (suc k) f m q = add_all threads (suc n) k (add_one threads n k f) m (omega arith)

-- So with two threads or more the limit of ten clients is passed: `threads` + 1 threads can bring the
-- service to 10 + `threads` clients.
pub limit_exceeded :
    (threads : ℕ) → (r : Racing) × Reach (suc threads) r × (count r ≡ max_clients + threads)
unfolding Full
limit_exceeded threads =
    let (r, h, e, p) =
      add_all (suc threads) 9 (suc threads) (test_all threads (suc threads) (omega arith))
        (10 + threads) (omega arith) in
    (r, h, e)
