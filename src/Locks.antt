-- ===== src/Locks.antt =====
-- m_lockClis of jni/server/IOT_Service.cpp and m_lockAttrs of jni/server/IOT_DeviceShadow.cpp: which of
-- them each operation takes and gives back, in which order, and what the clients' callbacks ask of the
-- service while they are called. Neither mutex is recursive. A binder thread that waits for a callback
-- runs what the callback asks of the service itself, so a callback's requests stand inside the call.
-- Operations are taken behind their tests; the wait of waitForClient is in Service/Wake.
pub mod Order
pub mod Progress
pub mod Reentry
use java_iotwrap.Common.{
  ℕ, ◌≡◌, Bool, true, false, List, [], ◌∷◌, ◌++◌, Option, none, some, ◌||◌, not, if◌then◌else◌,
  length, ◌+◌, zero, suc,
}
use java_iotwrap.Service.Calls.{Call}

pub data Lock : Type 0 where
  lock_clis lock_attrs : Lock

pub data Action : Type 0 where
  takes gives : Lock → Action

-- createClient, removeClient, addFollowing, clientActive, _addProperty, doReportProperty.
pub data Request : Type 0 where
  creates removes follows signals adds reports : Request

abbrev pub needed : Request → Lock
needed creates = lock_clis
needed removes = lock_clis
needed follows = lock_clis
needed signals = lock_clis
needed adds = lock_attrs
needed reports = lock_attrs

-- `Mutex::Autolock _l(...)` around a block.
abbrev pub within : Lock → List Action → List Action
within l inner = takes l ∷ (inner ++ gives l ∷ [])

abbrev pub each {ℓ} : {A : Type ℓ} → (A → List Action) → List A → List Action
each f [] = []
each f (x ∷ xs) = f x ++ each f xs

abbrev pub request_actions : Request → List Action
request_actions q = within (needed q) []

-- callCommandCB, callPropertySet or callPropertyGet with the calls that it makes, updateProperties with
-- those of each callPropertyGet, and pushProperties, which takes m_lockAttrs once, as preShadow and
-- postShadow do.
pub data Operation : Type 0 where
  requests : Request → Operation
  tells : List Call → Operation
  updates : List (List Call) → Operation
  pushes : Operation

-- `react` is what a callback asks of the service before it returns.
module _ (react : Call → List Request) where
  abbrev pub call_actions : List Call → List Action
  call_actions calls = within lock_clis (each (λ x. each request_actions (react x)) calls)

  abbrev pub actions : Operation → List Action
  actions (requests q) = request_actions q
  actions (tells calls) = call_actions calls
  actions (updates groups) = within lock_attrs (each call_actions groups)
  actions pushes = within lock_attrs []

-- A thread: whether it holds m_lockClis and m_lockAttrs, and what it has still to do.
pub record Thread : Type 0 where
  pub clis : Bool
  pub attrs : Bool
  pub todo : List Action

abbrev pub holds : Lock → Thread → Bool
holds lock_clis t = t.clis
holds lock_attrs t = t.attrs

abbrev pub any_thread : (Thread → Bool) → List Thread → Bool
any_thread p [] = false
any_thread p (t ∷ ts) = p t || any_thread p ts

abbrev pub is_free : List Thread → Lock → Bool
is_free ts l = not (any_thread (holds l) ts)

abbrev set_lock : Lock → Bool → List Action → Thread → Thread
set_lock lock_clis b r t = record t { clis = b; todo = r }
set_lock lock_attrs b r t = record t { attrs = b; todo = r }

-- The next action of a thread; `none` where it has none or is blocked.
abbrev pub advance_todo : (Lock → Bool) → Thread → List Action → Option Thread
advance_todo free t [] = none
advance_todo free t (takes l ∷ r) = if free l then some (set_lock l true r t) else none
advance_todo free t (gives l ∷ r) = some (set_lock l false r t)

abbrev pub advance : (Lock → Bool) → Thread → Option Thread
advance free t = advance_todo free t t.todo

-- One thread acts.
pub data Acts (free : Lock → Bool) : List Thread → List Thread → Type 0 where
  here :
      {t t' : Thread} (ts : List Thread) → advance free t ≡ some t' → Acts free (t ∷ ts) (t' ∷ ts)
  there : (t : Thread) {ts ts' : List Thread} → Acts free ts ts' → Acts free (t ∷ ts) (t ∷ ts')

-- A run of so many actions.
pub data Run : ℕ → List Thread → List Thread → Type 0 where
  done : (ts : List Thread) → Run 0 ts ts
  act : {n : ℕ} {ts us vs : List Thread} → Run n ts us → Acts (is_free us) us vs → Run (suc n) ts vs

-- A thread that starts on some operations.
abbrev pub starting : (Call → List Request) → List Operation → Thread
starting react ops = record { clis = false; attrs = false; todo = each (actions react) ops }

abbrev pub starting_all : (Call → List Request) → List (List Operation) → List Thread
starting_all react [] = []
starting_all react (ops ∷ rest) = starting react ops ∷ starting_all react rest

-- How many actions are left.
abbrev pub remaining : List Thread → ℕ
remaining [] = 0
remaining (t ∷ ts) = length t.todo + remaining ts
