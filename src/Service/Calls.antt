-- ===== src/Service/Calls.antt =====
-- jni/server/IOT_Service.cpp: callCommandCB, callPropertyGet and callPropertySet, which take what
-- comes from the cloud to the clients' callbacks. The result of `command` and `set` callbacks is not
-- read by the code; the calls that are made are listed in their order.
use java_iotwrap.Common.{
  ℕ, List, [], ◌∷◌, ◌++◌, Option, none, some, ◌>>=◌, ltb, ◌==◌, if◌then◌else◌, Bytes, ℤ, pos,
  minus_one, length, memcpy,
}
use java_iotwrap.StdMap.{find}
use java_iotwrap.Service.{Client, Service}

-- A call to a callback object, by its address, with its strings.
pub data Call : Type 0 where
  command_callback : ℕ → Bytes → Bytes → Call
  property_get : ℕ → Bytes → Call
  property_set : ℕ → Bytes → Bytes → Call

-- The test `m_clients.size() > 0 && m_clients[0] != NULL`, on the address or NULL.
unfoldable pub first_client : List ℕ → ℕ
first_client [] = 0
first_client (c ∷ cs) = c

-- The body of callCommandCB's loop, and of its fallback.
unfoldable pub command_one : Client → Bytes → Bytes → List Call
command_one o cmd text = if o.command == 0 then [] else command_callback o.command cmd text ∷ []

unfoldable pub command_all : (ℕ → Client) → Bytes → Bytes → List ℕ → List Call
unfolding command_one
command_all m cmd text [] = []
command_all m cmd text (c ∷ cs) = command_one (m c) cmd text ++ command_all m cmd text cs

-- The branch of a command that nobody ever followed: the first client gets it.
unfoldable pub command_default : Service → Bytes → Bytes → ℤ × List Call
unfolding command_one first_client
command_default s cmd text =
    let c = first_client s.clients in
    if c == 0 then (minus_one, []) else (pos 0, command_one (s.objects c) cmd text)

-- IOTService::callCommandCB.
unfoldable pub call_command_cb : Service → Option Bytes → Option Bytes → ℤ × List Call
unfolding command_all command_default
call_command_cb s none text = (minus_one, [])
call_command_cb s (some cmd) none = (minus_one, [])
call_command_cb s (some cmd) (some text) = elim (find cmd s.cmd_follow) [
  | none ↦ command_default s cmd text
  | some none ↦ (minus_one, [])
  | some (some cs) ↦ (pos 0, command_all s.objects cmd text cs)
]

unfoldable pub set_one : Client → Bytes → Bytes → List Call
set_one o key val = if o.property == 0 then [] else property_set o.property key val ∷ []

unfoldable pub set_all : (ℕ → Client) → Bytes → Bytes → List ℕ → List Call
unfolding set_one
set_all m key val [] = []
set_all m key val (c ∷ cs) = set_one (m c) key val ++ set_all m key val cs

unfoldable pub set_default : Service → Bytes → Bytes → ℤ × List Call
unfolding set_one first_client
set_default s key val =
    let c = first_client s.clients in
    if c == 0 then (minus_one, []) else (pos 0, set_one (s.objects c) key val)

-- IOTService::callPropertySet.
unfoldable pub call_property_set : Service → Option Bytes → Option Bytes → ℤ × List Call
unfolding set_all set_default
call_property_set s none val = (minus_one, [])
call_property_set s (some key) none = (minus_one, [])
call_property_set s (some key) (some val) = elim (find key s.key_follow) [
  | none ↦ set_default s key val
  | some none ↦ (minus_one, [])
  | some (some cs) ↦ (pos 0, set_all s.objects key val cs)
]

-- The variables of callPropertyGet: `len`, `str`, the caller's buffer, and the calls made.
pub record Query : Type 0 where
  pub len : ℕ
  pub str : Bytes
  pub val : Bytes
  pub calls : List Call

-- `if (len > size) len = size;`
abbrev pub clip : ℕ → ℕ → ℕ
clip size len = if ltb size len then size else len

-- The `memcpy` of a non-empty answer.
unfoldable pub keep_answer : ℕ → Query → Option Query
keep_answer size q =
    if q.len == 0
    then some q
    else (memcpy q.val q.str (clip size q.len) >>= λ val.
        some (record q { len = clip size q.len; val = val }))

-- callPropertyGet's result, the buffer that it leaves and the calls that it made; `none` is a
-- write outside the buffer.
abbrev Answer : Type 0
Answer = Option (ℤ × Bytes × List Call)

unfoldable pub start_query : Bytes → Query
start_query val = record { len = 0; str = []; val = val; calls = [] }

-- What a client answers: `answer cb key` is the string, or `none` where the remote call fails and
-- leaves `str` as it was.
module _ (answer : ℕ → Bytes → Option Bytes) where
  -- `m_property->get(String8(key), str); len = str.length();`
  unfoldable pub ask : ℕ → Bytes → Query → Query
  ask cb key q =
      let str : Bytes = elim (answer cb key) [ none ↦ q.str | some t ↦ t ] in
      record q { len = length str; str = str; calls = q.calls ++ property_get cb key ∷ [] }

  -- One round of callPropertyGet's loop.
  unfoldable pub get_one : Client → Bytes → ℕ → Query → Option Query
  unfolding ask keep_answer
  get_one o key size q = if o.property == 0 then some q else keep_answer size (ask o.property key q)

  unfoldable pub get_all : (ℕ → Client) → Bytes → ℕ → List ℕ → Query → Option Query
  unfolding get_one
  get_all m key size [] q = some q
  get_all m key size (c ∷ cs) q = get_one (m c) key size q >>= λ q'. get_all m key size cs q'

  -- The branch of a property that nobody ever followed returns 0 whatever it copied.
  unfoldable pub get_default : Service → Bytes → ℕ → Query → Answer
  unfolding get_one first_client
  get_default s key size q =
      let c = first_client s.clients in
      if c == 0
      then some (minus_one, q.val, q.calls)
      else (get_one (s.objects c) key size q >>= λ q'. some (pos 0, q'.val, q'.calls))

  -- IOTService::callPropertyGet.
  unfoldable pub call_property_get : Service → Option Bytes → Option Bytes → ℕ → Answer
  unfolding get_all get_default start_query
  call_property_get s none none size = some (minus_one, [], [])
  call_property_get s none (some val) size = some (minus_one, val, [])
  call_property_get s (some key) none size = some (minus_one, [], [])
  call_property_get s (some key) (some val) size =
      if size == 0 then some (minus_one, val, []) else elim (find key s.key_follow) [
        | none ↦ get_default s key size (start_query val)
        | some none ↦ some (minus_one, val, [])
        | some (some cs) ↦
            (get_all s.objects key size cs (start_query val) >>= λ q.
            some (pos q.len, q.val, q.calls))
      ]
