-- ===== src/Shadow/Update.antt =====
-- DeviceShadow::updateProperties of jni/server/IOT_DeviceShadow.cpp: it asks the clients for the
-- values of their properties.
use java_iotwrap.Common.{
  ℕ, suc, Bool, true, false, List, [], ◌∷◌, ◌++◌, Option, none, some, ◌>>=◌, ◌==◌, ◌||◌,
  if◌then◌else◌, Bytes, ℤ, pos, replicate, same, c_str, strncpy,
}
use java_iotwrap.StdMap.{StdMap}
use java_iotwrap.Service.{Service}
use java_iotwrap.Service.Calls.{Call, call_property_get}
use java_iotwrap.Shadow.{AttrType, int32, string, other, DsAttr, Shadow}
use java_iotwrap.Shadow.Value.{read_int32, write_int32, atoi}

-- `if (ret > 0)`, with the number.
abbrev pub positive_ret : ℤ → Option ℕ
positive_ret (pos (suc n)) = some (suc n)
positive_ret _ = none

-- An INT32 attribute whose client gave the text `value`: the new memory, `none` inside if the value
-- is the old one, and `none` for a read or a write outside an object.
unfoldable pub changed_int32 : Bytes → Bytes → Option (Option Bytes)
changed_int32 p value = read_int32 p >>= λ told. c_str value >>= λ text. atoi text >>= λ tnew.
    if told == tnew then some none else (write_int32 p tnew >>= λ q. some (some q))

-- A STRING attribute, where `ret` bytes were copied to the buffer `value`.
unfoldable pub changed_string : Bytes → Bytes → ℕ → Option (Option Bytes)
changed_string p value ret = c_str p >>= λ told. c_str value >>= λ tnew.
    if same told tnew then some none else (strncpy p tnew ret >>= λ q. some (some q))

-- The entry, whether it changed, and the calls that were made.
abbrev pub Refreshed : Type 0
Refreshed = DsAttr × Bool × List Call

unfoldable pub put_change : DsAttr → List Call → Option Bytes → Refreshed
put_change e calls none = (e, false, calls)
put_change e calls (some q) =
    (record e { report = true; attr = record e.attr { mem = some q } }, true, calls)

-- The size of the buffer for the answer: `char value[32]`, and ATTR_VALUE_MAX_LEN.
abbrev pub buffer_size : AttrType → ℕ
buffer_size int32 = 32
buffer_size string = 256
buffer_size (other n) = 0

unfoldable pub changed_value : AttrType → Bytes → Bytes → ℕ → Option (Option Bytes)
changed_value int32 p value ret = changed_int32 p value
changed_value string p value ret = changed_string p value ret
changed_value (other n) p value ret = some none

-- What follows callPropertyGet.
unfoldable pub refresh_with : DsAttr → ℤ × Bytes × List Call → Option Refreshed
unfolding changed_value put_change
refresh_with e (ret, value, calls) = elim (positive_ret ret) [
  | none ↦ some (e, false, calls)
  | some n ↦
      (e.attr.mem >>= λ p.
      changed_value e.attr.attr_type p value n >>= λ c. some (put_change e calls c))
]

module _ (answer : ℕ → Bytes → Option Bytes) where
  -- The switch of the loop's body.
  unfoldable pub refresh_type : Service → DsAttr → AttrType → Option Refreshed
  unfolding refresh_with
  refresh_type s e (other n) = some (e, false, [])
  refresh_type s e int32 =
      call_property_get answer s (some e.attr.name) (some (replicate (buffer_size int32) 0))
        (buffer_size int32)
      >>= refresh_with e
  refresh_type s e string =
      call_property_get answer s (some e.attr.name) (some (replicate (buffer_size string) 0))
        (buffer_size string)
      >>= refresh_with e

  unfoldable pub refresh : Service → DsAttr → Option Refreshed
  unfolding refresh_type
  refresh s e = if e.is_local then some (e, false, []) else refresh_type s e e.attr.attr_type

  unfoldable pub refresh_all : Service → StdMap DsAttr → Option (StdMap DsAttr × Bool × List Call)
  unfolding refresh
  refresh_all s [] = some ([], false, [])
  refresh_all s ((k, e) ∷ m) = refresh s e >>= λ (e', changed, calls).
      refresh_all s m >>= λ (m', more, others).
      some ((k, e') ∷ m', changed || more, calls ++ others)

  -- DeviceShadow::updateProperties, which always returns 0.
  unfoldable pub update_properties : Shadow → Option (Shadow × ℤ × List Call)
  unfolding refresh_all
  update_properties d = refresh_all d.service d.attrs >>= λ (m, changed, calls).
      some (record d { attrs = m; report_flag = d.report_flag || changed }, pos 0, calls)
