-- ===== src/Shadow/Value.antt =====
-- The values of attributes: `*(int32_t *)attr->pattr_data`, `atoi`, and the store of a text that
-- doReportProperty of jni/server/IOT_DeviceShadow.cpp makes. The machine is little-endian.
use java_iotwrap.Common.{
  ℕ, ◌+◌, ◌-◌, ◌*◌, ◌/◌, ◌%◌, ◌^◌, Bool, true, false, [], ◌∷◌, Option, none, some, ◌>>=◌, ltb, leb,
  ◌==◌, ◌&&◌, ◌||◌, if◌then◌else◌, Bytes, length, memcpy, strncpy,
}
use java_iotwrap.Shadow.{AttrType, int32, string, other}

-- The four bytes of an int32_t, given by its bit pattern.
abbrev pub int32_bytes : ℕ → Bytes
int32_bytes w = w % 256 ∷ w / 256 % 256 ∷ w / 65536 % 256 ∷ w / 16777216 % 256 ∷ []

-- `*(int32_t *)p`, as a bit pattern; `none` where the object is shorter.
unfoldable pub read_int32 : Bytes → Option ℕ
read_int32 (a ∷ b ∷ c ∷ d ∷ rest) = some (a + 256 * b + 65536 * c + 16777216 * d)
read_int32 _ = none

-- `*(int32_t *)p = w`.
unfoldable pub write_int32 : Bytes → ℕ → Option Bytes
write_int32 p w = memcpy p (int32_bytes w) 4

unfoldable is_space : ℕ → Bool
is_space c = (c == 32) || (leb 9 c && leb c 13)

unfoldable pub is_digit : ℕ → Bool
is_digit c = leb b'0' c && leb c b'9'

unfoldable pub skip_spaces : Bytes → Bytes
unfolding is_space
skip_spaces [] = []
skip_spaces (c ∷ s) = let rest = skip_spaces s in if is_space c then rest else c ∷ s

-- The value of the digits that start a text.
unfoldable pub digits_value : ℕ → Bytes → ℕ
unfolding is_digit
digits_value acc [] = acc
digits_value acc (c ∷ s) =
    let rest = digits_value (10 * acc + (c - b'0')) s in if is_digit c then rest else acc

-- The bit pattern of a signed value; `none` where the `int` cannot hold it, which C leaves undefined.
unfoldable pub to_int32 : Bool → ℕ → Option ℕ
to_int32 true n = if leb n (2 ^ 31) then some ((2 ^ 32 - n) % 2 ^ 32) else none
to_int32 false n = if ltb n (2 ^ 31) then some n else none

unfoldable pub atoi_sign : Bytes → Option ℕ
unfolding digits_value to_int32
atoi_sign [] = some 0
atoi_sign (c ∷ s) =
    if c == b'-'
    then to_int32 true (digits_value 0 s)
    else if c == b'+'
    then to_int32 false (digits_value 0 s)
    else to_int32 false (digits_value 0 (c ∷ s))

-- `atoi(s)`, as a bit pattern.
unfoldable pub atoi : Bytes → Option ℕ
unfolding skip_spaces atoi_sign
atoi s = atoi_sign (skip_spaces s)

-- The switch of doReportProperty on an attribute of type INT32 or STRING; `none` is a write outside
-- the object, or through NULL, or a number that does not fit.
unfoldable pub store_text : AttrType → Bytes → Bytes → Option Bytes
unfolding atoi write_int32
store_text int32 p val = atoi val >>= write_int32 p
store_text string p val = strncpy p val (length val)
store_text (other n) p val = some p
