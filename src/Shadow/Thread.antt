-- ===== src/Shadow/Thread.antt =====
-- jni/server/IOT_DeviceShadow.cpp: yieldShadow, and IOTThread::threadLoop from beginning to end, on one
-- thread. What the SDK finds in a yield, the clock's readings, the clients' answers and the number of
-- turns are arguments.
use java_iotwrap.Common.{ℕ, List, [], ◌∷◌, ◌++◌, Option, some, ◌>>=◌, Bytes, ℤ}
use java_iotwrap.Service.Calls.{Call}
use java_iotwrap.Shadow.{yield_to, Sdk, Shadow, ask_sdk}
use java_iotwrap.Shadow.Cloud.{Hal, Called, attr_changed, default_command_cb}
use java_iotwrap.Shadow.Loop.{setup_shadow, pre_shadow, post_shadow, round}

-- What the SDK hands to the callbacks: new bytes of an attribute, or a command's text.
pub data Event : Type 0 where
  changed : Bytes → Bytes → Event
  commanded : Bytes → Event

unfoldable pub handle_event : Hal → Shadow → Event → Called
handle_event hal d (changed key p) = attr_changed hal d key p
handle_event hal d (commanded text) = some (d, default_command_cb d text)

unfoldable pub handle_events : Hal → List Event → Shadow → Called
unfolding handle_event
handle_events hal [] d = some (d, [])
handle_events hal (v ∷ vs) d = handle_event hal d v >>= λ (d1, calls).
    handle_events hal vs d1 >>= λ (d2, others). some (d2, calls ++ others)

-- DeviceShadow::yieldShadow, with the callbacks that IOT_Shadow_Yield runs.
unfoldable pub yield_shadow : Sdk → Hal → List Event → Shadow → Called
unfolding handle_events ask_sdk
yield_shadow sdk hal vs d = handle_events hal vs (ask_sdk sdk d (yield_to d.shadow)).0

-- What a turn of the loop meets.
pub record Turn : Type 0 where
  pub events : List Event
  pub now : ℕ
  pub later : ℕ
  pub answer : ℕ → Bytes → Option Bytes

module _ (sdk : Sdk) (hal : Hal) where
  -- The body of threadLoop's loop; the result has the new `started_ms`.
  unfoldable pub turn : Turn → Shadow → ℕ → Option (Shadow × ℕ × List Call)
  unfolding yield_shadow
  turn t d started = yield_shadow sdk hal t.events d >>= λ (d1, calls).
      round sdk t.answer t.now t.later d1 started >>= λ (d2, started', others).
      some (d2, started', calls ++ others)

  -- `do ... while (isRunning())`: the first turn, and one for each time that isRunning gives true.
  unfoldable pub turns : List Turn → Turn → Shadow → ℕ → Called
  unfolding turn
  turns [] t d started = turn t d started >>= λ (d1, started', calls). some (d1, calls)
  turns (t' ∷ ts) t d started = turn t d started >>= λ (d1, started', calls).
      turns ts t' d1 started' >>= λ (d2, others). some (d2, calls ++ others)

  -- threadLoop. The results of setupShadow and preShadow are not looked at.
  unfoldable pub thread_loop :
      (ℕ → ℕ) → ℕ → ℤ → (Shadow → Option Shadow) → ℕ → Turn → List Turn → Shadow → Called
  unfolding turns
  thread_loop handle fuel rc wake started t ts d = setup_shadow handle fuel rc d >>= λ (d1, ret).
      pre_shadow sdk wake d1 >>= λ d2.
      turns ts t d2 started >>= λ (d3, calls). some (post_shadow sdk d3, calls)
