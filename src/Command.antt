-- ===== src/Command.antt =====
-- _DS_call_default_command_cb of jni/server/IOT_DeviceShadow.cpp: the name of the command in the
-- text that the cloud sends. A `char *` into the text is an offset, and `data` is the C string
-- without its NUL.
pub mod Sound
pub mod Complete
use mathlib.Core.Option
use java_iotwrap.Common.{
  ℕ, ◌+◌, ◌-◌, Bool, true, false, List, [], ◌∷◌, Option, none, some, ◌>>=◌, ◌>>◌, guard, leb, ◌==◌,
  ◌&&◌, if◌then◌else◌, Bytes, codes, take, drop,
}

abbrev pub command_max_len : ℕ
command_max_len = 64

-- `"command"`, with its quotes.
abbrev pub command_token : Bytes
command_token = codes "\"command\""

unfoldable starts_with : Bytes → Bytes → Bool
starts_with [] s = true
starts_with (t ∷ ts) [] = false
starts_with (t ∷ ts) (b ∷ bs) = (t == b) && starts_with ts bs

-- `strstr(data, token)`.
unfoldable pub strstr : Bytes → Bytes → Option ℕ
unfolding starts_with
strstr [] token = if starts_with token [] then some 0 else none
strstr (b ∷ bs) token =
    let rest = Option.map (λ n. n + 1) (strstr bs token) in
    if starts_with token (b ∷ bs) then some 0 else rest

-- The first position of a byte.
unfoldable pub index_of : ℕ → Bytes → Option ℕ
index_of c [] = none
index_of c (b ∷ bs) =
    let rest = Option.map (λ n. n + 1) (index_of c bs) in if b == c then some 0 else rest

-- `strchr(data + p, c)`.
unfoldable pub strchr : Bytes → ℕ → ℕ → Option ℕ
unfolding index_of
strchr text p c = Option.map (λ n. p + n) (index_of c (drop p text))

-- From the offset of the opening quote on: the closing quote, the length, and `strncpy` to `cmd`.
unfoldable pub quoted_name : Bytes → ℕ → Option Bytes
quoted_name text q1 = do
  q2 ← strchr text (q1 + 1) b'"'
  guard (leb q1 q2)
  guard (leb (q2 - q1) command_max_len)
  some (take (q2 - q1 - 1) (drop (q1 + 1) text))

-- The tests of the callback in their order: the name that is given to callCommandCB, or `none` where
-- the callback returns after "Command format error!" or "Command name is too long!".
unfoldable pub command_name : Bytes → Option Bytes
command_name text = do
  ptr ← strstr text command_token
  p1 ← strchr text ptr b':'
  p2 ← strchr text p1 b','
  q1 ← strchr text p1 b'"'
  guard (leb q1 p2)
  quoted_name text q1
