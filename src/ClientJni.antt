-- ===== src/ClientJni.antt =====
-- jni/client/IOT_ClientJNI.cpp and IOT_ClientJNI.h: the library in a client's process. It keeps what
-- the client follows, connects to the service, and tells it to the service, anew after each restart.
pub mod Connect
pub mod Keys
pub mod Grows
pub mod Replay
pub mod Restore
use java_iotwrap.Common.{
  ℕ, zero, suc, ◌+◌, ◌-◌, ◌*◌, ◌/◌, ◌^◌, Bool, true, false, List, [], ◌∷◌, ◌++◌, Option, none, some,
  ◌>>=◌, ltb, leb, ◌==◌, ◌||◌, ◌&&◌, if◌then◌else◌, Bytes, ℤ, pos, negsuc, minus_one, is_negative,
  is_zero, same,
}

-- What the library sees of the service, whose state is `D`: the transactions of IIOTService and
-- IIOTClient, the latter on the client's address. `none` is an access through NULL in the service.
pub record Remote (D : Type 0) : Type 0 where
  pub create_client : D → Bytes → Option (D × ℕ)
  pub get_service_status : D → Option (D × ℤ)
  pub follow_property : D → ℕ → Bytes → ℤ → ℤ → Option (D × ℤ)
  pub follow_command : D → ℕ → Bytes → Option (D × ℤ)
  pub regist_command_cb : D → ℕ → ℕ → Option (D × ℤ)
  pub regist_property_cb : D → ℕ → ℕ → Option (D × ℤ)
  pub report_event : D → ℕ → Bytes → Option (D × ℤ)
  pub report_property : D → ℕ → Bytes → Bytes → Option (D × ℤ)

-- What the tries to reach the service give: whether the service manager has it, and its status.
pub record Tries : Type 0 where
  pub lookup : ℕ → Bool
  pub status : ℕ → ℤ

-- _PropertyInfo.
pub record PropertyInfo : Type 0 where
  pub key : Bytes
  pub type : ℤ
  pub size : ℤ

-- The members of IOTClientJNI; a proxy and a callback are addresses, 0 being NULL, and `listening`
-- says whether m_listen is set.
pub record ClientJni : Type 0 where
  pub client_id : Bytes
  pub property_list : List PropertyInfo
  pub command_list : List Bytes
  pub command_cb : ℕ
  pub property_cb : ℕ
  pub proxy : ℕ
  pub listening : Bool

abbrev pub err_proxy_null : ℤ
err_proxy_null = negsuc 0

abbrev pub err_param_invalid : ℤ
err_param_invalid = negsuc 1

unfoldable pub new_client_jni : ClientJni
new_client_jni = record {
  client_id = [];
  property_list = [];
  command_list = [];
  command_cb = 0;
  property_cb = 0;
  proxy = 0;
  listening = false;
}

-- `init`; `c` and `p` are the callbacks that it makes.
unfoldable pub init : ClientJni → Bytes → ℕ → ℕ → ClientJni × ℤ
init j id p c = (record j { client_id = id; property_cb = p; command_cb = c }, pos 0)

unfoldable pub has_key : Bytes → List PropertyInfo → Bool
has_key key [] = false
has_key key (i ∷ is) = if same key i.key then true else has_key key is

unfoldable pub has_cmd : Bytes → List Bytes → Bool
has_cmd cmd [] = false
has_cmd cmd (x ∷ xs) = if same cmd x then true else has_cmd cmd xs

abbrev pub is_empty : Bytes → Bool
is_empty [] = true
is_empty (b ∷ bs) = false

-- IOTClientJNI::followProperty and followCommand, on the text of the Java string.
unfoldable pub follow_property : ClientJni → Bytes → ℤ → ℤ → ClientJni × ℤ
unfolding has_key
follow_property j key type size =
    if is_empty key
    then (j, err_param_invalid)
    else if has_key key j.property_list
    then (j, err_param_invalid)
    else (
      record j {
        property_list = j.property_list ++ record { key = key; type = type; size = size } ∷ [];
      },
      pos 0,
    )

unfoldable pub follow_command : ClientJni → Bytes → ClientJni × ℤ
unfolding has_cmd
follow_command j cmd =
    if is_empty cmd
    then (j, minus_one)
    else if has_cmd cmd j.command_list
    then (j, err_param_invalid)
    else (record j { command_list = j.command_list ++ cmd ∷ [] }, pos 0)

-- `timeout_ms * 1000 / USLEEP_TIME + 1` as the number of rounds; `none` where the product leaves `int`.
unfoldable pub try_count : ℤ → Option ℕ
try_count (pos t) = if ltb (t * 1000) (2 ^ 31) then some (t * 1000 / 100000 + 1) else none
try_count (negsuc t) =
    if leb ((t + 1) * 1000) (2 ^ 31) then some (1 - (t + 1) * 1000 / 100000) else none

-- The loop of _connect: `n` rounds are left, the next is number `i`, `found` is `service != NULL`. The
-- result is the last `status`.
unfoldable pub wait_service : Tries → ℕ → ℕ → Bool → ℤ → ℤ
wait_service t zero i found st = st
wait_service t (suc n) i found st =
    let found' = found || t.lookup i in
    let st' = if found' then t.status i else st in
    let rest = wait_service t n (i + 1) found' st' in if found' && is_zero st' then st' else rest

module _ {D : Type 0} (r : Remote D) where
  -- IOTClientJNI::_connect, for `n` rounds.
  unfoldable pub connect : Tries → ℕ → ClientJni → D → Option (ClientJni × D × ℤ)
  unfolding wait_service
  connect t n j d =
      if is_zero (wait_service t n 0 false minus_one)
      then (r.create_client d j.client_id >>= λ (d', c).
          some (
            record j { proxy = c; listening = true },
            d',
            if c == 0 then err_proxy_null else pos 0,
          ))
      else some (j, d, err_proxy_null)

  -- The loops of _postFollow.
  unfoldable pub follow_properties : D → ℕ → List PropertyInfo → Option D
  follow_properties d c [] = some d
  follow_properties d c (i ∷ is) =
      r.follow_property d c i.key i.type i.size >>= λ (d', ret). follow_properties d' c is

  unfoldable pub follow_commands : D → ℕ → List Bytes → Option D
  follow_commands d c [] = some d
  follow_commands d c (x ∷ xs) = r.follow_command d c x >>= λ (d', ret). follow_commands d' c xs

  -- IOTClientJNI::_postFollow.
  unfoldable pub post_follow : ClientJni → D → Option (D × ℤ)
  unfolding follow_properties follow_commands
  post_follow j d =
      if j.proxy == 0
      then some (d, err_proxy_null)
      else (follow_properties d j.proxy j.property_list >>= λ d1.
          follow_commands d1 j.proxy j.command_list >>= λ d2.
          r.regist_command_cb d2 j.proxy j.command_cb >>= λ (d3, ret3).
          r.regist_property_cb d3 j.proxy j.property_cb >>= λ (d4, ret4). some (d4, pos 0))

  -- IOTClientJNI::connService.
  unfoldable pub conn_service : Tries → ClientJni → D → ℤ → Option (ClientJni × D × ℤ)
  unfolding connect try_count post_follow
  conn_service t j d timeout =
      if j.proxy == 0
      then (try_count timeout >>= λ n. connect t n j d >>= λ (j', d', ret).
          if is_negative ret
          then some (j', d', ret)
          else (post_follow j' d' >>= λ (d'', ret'). some (j', d'', ret')))
      else some (j, d, pos 0)

  -- IOTClientJNI::serviceDied, with USLEEP_TIME * 60 for the time-out.
  unfoldable service_died : Tries → ClientJni → D → Option (ClientJni × D)
  unfolding conn_service
  service_died t j d =
      conn_service t (record j { proxy = 0; listening = false }) d (pos 6000000)
      >>= λ (j', d', ret). some (j', d')

  -- IOTClientJNI::reportEvent and reportProperty.
  unfoldable pub report_event : ClientJni → D → Bytes → Option (D × ℤ)
  report_event j d msg =
      if j.proxy == 0
      then some (d, err_proxy_null)
      else if is_empty msg
      then some (d, err_param_invalid)
      else r.report_event d j.proxy msg

  unfoldable pub report_property : ClientJni → D → Bytes → Bytes → Option (D × ℤ)
  report_property j d key val =
      if j.proxy == 0
      then some (d, err_proxy_null)
      else if is_empty key
      then some (d, err_param_invalid)
      else if is_empty val
      then some (d, err_param_invalid)
      else r.report_property d j.proxy key val
