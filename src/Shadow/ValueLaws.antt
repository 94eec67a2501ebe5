-- ===== src/Shadow/ValueLaws.antt =====
-- The memory of an attribute after a store: numbers read back, and when a store stays inside.
use java_iotwrap.Common.{
  ℕ, ◌-◌, ◌^◌, ◌≤◌, ◌<◌, ◌≡◌, refl, ap, ◌++◌, Option, none, some, ◌>>=◌, arith, Bytes, length, drop,
  take_all, memcpy, memcpy_inside, strncpy_inside, strncpy_outside,
}
use java_iotwrap.Shadow.{int32, string}
use java_iotwrap.Shadow.Value.{int32_bytes, read_int32, write_int32, atoi, store_text}

-- An int32_t that is written reads back, where the object has four bytes.
pub read-write_int32 :
    (p : Bytes) (w : ℕ)
    → 4 ≤ length p
    → w < 2 ^ 32
    → (write_int32 p w ≡ some (int32_bytes w ++ drop 4 p))
      × (read_int32 (int32_bytes w ++ drop 4 p) ≡ some w)
unfolding write_int32 read_int32
read-write_int32 p w h k =
    (memcpy_inside p (int32_bytes w) 4 h (omega arith), ap some (omega arith))

write_int32_outside : (p : Bytes) (w : ℕ) → length p < 4 → write_int32 p w ≡ none
unfolding write_int32 memcpy
write_int32_outside p w h = ground arith

-- The store of a text copies its bytes and no NUL: what lies behind them stays.
pub store_text-string :
    (p val : Bytes)
    → length val ≤ length p
    → store_text string p val ≡ some (val ++ drop (length val) p)
unfolding store_text
store_text-string p val h =
    let e : length val - length val ≡ 0 = omega arith in
    rw (strncpy_inside p val (length val) h, e, take_all (length val) val (omega arith))

pub store_text-string_outside :
    (p val : Bytes) → length p < length val → store_text string p val ≡ none
unfolding store_text
store_text-string_outside p val h = strncpy_outside p val (length val) h

pub store_text-int32 :
    (p val : Bytes) (w : ℕ)
    → atoi val ≡ some w
    → w < 2 ^ 32
    → 4 ≤ length p
    → store_text int32 p val ≡ some (int32_bytes w ++ drop 4 p)
unfolding store_text
store_text-int32 p val w a b h = rw a (read-write_int32 p w h b).0

pub store_text-int32_outside : (p val : Bytes) → length p < 4 → store_text int32 p val ≡ none
unfolding store_text
store_text-int32_outside p val h = go (atoi val)
  where
    go : (o : Option ℕ) → (o >>= write_int32 p) ≡ none
    go none = refl
    go (some w) = write_int32_outside p w h
