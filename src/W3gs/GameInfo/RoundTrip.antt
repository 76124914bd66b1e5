-- ===== src/W3gs/GameInfo/RoundTrip.antt =====
-- GameSettings and GameInfo: Serialize followed by Deserialize.
use gowarcraft.Prelude.{true}
use gowarcraft.Prelude.{
  ℕ, ◌+◌, ◌%◌, ◌^◌, ◌≡◌, [], ◌∷◌, ◌++◌, length, All, All-append, ap, ltb, false,
}
use gowarcraft.Prelude.{IsU8, IsU16, IsU32, arith, append_assoc, length-append}
use gowarcraft.Protocol.Go.{Bytes, Go, ◌>>=◌, done, and_then, reject_if}
use gowarcraft.Protocol.Buffer.{buffer_calls, read_blob, reverse_bytes32}
use gowarcraft.Protocol.Buffer.RoundTrip.{
  le16, le32, IsCString, read_c_string-append, read_blob_all,
}
use gowarcraft.W3gs.Header.RoundTrip.{
  framed, framed-packet_bytes, packet_bytes, read_packet_size-packet_bytes,
}
use gowarcraft.W3gs.Pid
use gowarcraft.W3gs.StatString.{encode_stat}
use gowarcraft.W3gs.StatString.RoundTrip.{encode_stat-IsCString, length-encode_stat}
use gowarcraft.W3gs.StatString.RoundTrip.{decode_stat-encode_stat}
use gowarcraft.W3gs.GameInfo.{
  GameVersion, GameSettings, GameInfo, settings_size, read_settings, read_from,
}
use gowarcraft.W3gs.GameInfo.{serialize_game_version, deserialize_game_version}
use gowarcraft.W3gs.GameInfo.{serialize_game_settings, deserialize_game_settings}
use gowarcraft.W3gs.GameInfo.{serialize_game_info, deserialize_game_info}

pub record ValidGameSettings (p : GameSettings) : Type 0 where
  pub flags : IsU32 p.flags
  pub map_width : IsU16 p.map_width
  pub map_height : IsU16 p.map_height
  pub map_xoro : IsU32 p.map_xoro
  pub map_path : IsCString p.map_path
  pub map_path_bytes : All IsU8 p.map_path
  pub host_name : IsCString p.host_name
  pub host_name_bytes : All IsU8 p.host_name
  pub map_sha1 : length p.map_sha1 ≡ 20
  pub map_sha1_bytes : All IsU8 p.map_sha1

le16-IsU8 : (v : ℕ) (rest : Bytes) → All IsU8 rest → All IsU8 (le16 v rest)
le16-IsU8 v rest h = (omega arith, (omega arith, h))

le32-IsU8 : (v : ℕ) (rest : Bytes) → All IsU8 rest → All IsU8 (le32 v rest)
le32-IsU8 v rest h = (omega arith, (omega arith, (omega arith, (omega arith, h))))

numbers-IsU8 :
    (v : ℕ) (w x y : ℕ) (rest : Bytes)
    → All IsU8 rest
    → All IsU8 (le32 v (0 ∷ le16 w (le16 x (le32 y rest))))
numbers-IsU8 v w x y rest h = le32-IsU8 v (0 ∷ le16 w (le16 x (le32 y rest))) (
  omega arith,
  le16-IsU8 w (le16 x (le32 y rest)) (le16-IsU8 x (le32 y rest) (le32-IsU8 y rest h)),
)

read_from_done {ℓ} :
    {A : Type ℓ} {a : A} {r : Bytes} (s : Bytes) (m : Go A) (b : Bytes)
    → m s ≡ done a r
    → read_from s m b ≡ done a b
read_from_done s m b e = rw (e, read_from)

module _ (p : GameSettings) (h : ValidGameSettings p) where
  pub settings_bytes : Bytes
  settings_bytes = le32 p.flags (
      0
      ∷ le16 p.map_width (
          le16 p.map_height
            (le32 p.map_xoro (p.map_path ++ 0 ∷ (p.host_name ++ 0 ∷ 0 ∷ p.map_sha1)))))

  length-settings_bytes : length settings_bytes ≡ 36 + length p.map_path + length p.host_name
  unfolding settings_bytes
  length-settings_bytes = omega (
    arith,
    length-append {0} p.map_path (0 ∷ (p.host_name ++ 0 ∷ 0 ∷ p.map_sha1)),
    length-append {0} p.host_name (0 ∷ 0 ∷ p.map_sha1),
    h.map_sha1,
  )

  strings-IsU8 : All IsU8 (p.map_path ++ 0 ∷ (p.host_name ++ 0 ∷ 0 ∷ p.map_sha1))
  strings-IsU8 =
      All-append IsU8 p.map_path (0 ∷ (p.host_name ++ 0 ∷ 0 ∷ p.map_sha1)) h.map_path_bytes (
        omega arith,
        All-append IsU8 p.host_name (0 ∷ 0 ∷ p.map_sha1) h.host_name_bytes
            (omega arith, (omega arith, h.map_sha1_bytes)),
      )

  settings_bytes-IsU8 : All IsU8 settings_bytes
  unfolding settings_bytes
  settings_bytes-IsU8 = numbers-IsU8 p.flags p.map_width p.map_height p.map_xoro _ strings-IsU8

  pub stat_length : length (encode_stat 0 settings_bytes) + 1 ≡ settings_size p
  unfolding settings_size
  stat_length = omega (arith, length-encode_stat settings_bytes, length-settings_bytes)

  pub write_game_settings :
      (b : Bytes)
      → serialize_game_settings p b ≡ done tt (b ++ (encode_stat 0 settings_bytes ++ 0 ∷ []))
  unfolding serialize_game_settings settings_bytes buffer_calls
  write_game_settings b = simp append_assoc

  read_settings-bytes : read_settings (length settings_bytes) settings_bytes ≡ done p []
  unfolding settings_bytes buffer_calls
  read_settings-bytes = ground (
    arith,
    length-settings_bytes,
    read_c_string-append p.map_path (p.host_name ++ 0 ∷ 0 ∷ p.map_sha1) h.map_path,
    read_c_string-append p.host_name (0 ∷ p.map_sha1) h.host_name,
    ap (λ n. read_blob n p.map_sha1) h.map_sha1,
    read_blob_all p.map_sha1,
  )

  long_enough : ltb (length (encode_stat 0 settings_bytes)) 16 ≡ false
  long_enough = ground (arith, length-encode_stat settings_bytes, length-settings_bytes)

  pub read_game_settings :
      (rest : Bytes)
      → deserialize_game_settings (encode_stat 0 settings_bytes ++ 0 ∷ rest) ≡ done p rest
  unfolding deserialize_game_settings and_then reject_if
  read_game_settings rest =
      rw
        (
          read_c_string-append (encode_stat 0 settings_bytes) rest (encode_stat-IsCString 0 _),
          and_then,
          reject_if,
          long_enough,
          decode_stat-encode_stat settings_bytes settings_bytes-IsU8,
        )
        (read_from_done settings_bytes (read_settings (length settings_bytes)) rest
          read_settings-bytes)

pub record ValidGameInfo (p : GameInfo) : Type 0 where
  pub product : IsU32 p.game_version.product
  pub version : IsU32 p.game_version.version
  pub host_counter : IsU32 p.host_counter
  pub entry_key : IsU32 p.entry_key
  pub game_name : IsCString p.game_name
  pub game_settings : ValidGameSettings p.game_settings
  pub slots_total : IsU32 p.slots_total
  pub game_flags : IsU32 p.game_flags
  pub slots_used : IsU32 p.slots_used
  pub slots_available : IsU32 p.slots_available
  pub uptime_sec : IsU32 p.uptime_sec
  pub game_port : IsU16 p.game_port
  pub fits : IsU16 (44 + length p.game_name + settings_size p.game_settings)

pub read_version :
    (v : GameVersion) (rest : Bytes)
    → IsU32 v.product
    → IsU32 v.version
    → deserialize_game_version (le32 (reverse_bytes32 v.product) (le32 v.version rest))
      ≡ done v rest
unfolding deserialize_game_version buffer_calls
read_version v rest hp hv = ground arith

module _ (p : GameInfo) (h : ValidGameInfo p) where
  info_numbers : Bytes
  info_numbers = le32 p.slots_total (
      le32 p.game_flags
        (le32 p.slots_used (le32 p.slots_available (le32 p.uptime_sec (le16 p.game_port [])))))

  info_stat : Bytes
  info_stat = encode_stat 0 (settings_bytes p.game_settings h.game_settings)

  info_body : Bytes
  info_body = le32 (reverse_bytes32 p.game_version.product) (
      le32 p.game_version.version (
        le32 p.host_counter
          (le32 p.entry_key (p.game_name ++ 0 ∷ 0 ∷ (info_stat ++ 0 ∷ info_numbers)))))

  info_bytes : Bytes
  info_bytes =
      packet_bytes Pid.game_info
        ((44 + length p.game_name + settings_size p.game_settings) % 2 ^ 16) info_body

  serialize_game_info-bytes : serialize_game_info p [] ≡ done tt info_bytes
  unfolding serialize_game_info serialize_game_version info_bytes info_body info_numbers info_stat
      buffer_calls
  serialize_game_info-bytes =
      rw (write_game_settings p.game_settings h.game_settings) (simp append_assoc)

  length-info_body : 44 + length p.game_name + settings_size p.game_settings ≡ 4 + length info_body
  unfolding info_body info_numbers info_stat
  length-info_body = omega (
    arith,
    stat_length p.game_settings h.game_settings,
    length-append {0} p.game_name (0 ∷ 0 ∷ (info_stat ++ 0 ∷ info_numbers)),
    length-append {0} info_stat (0 ∷ info_numbers),
  )

  deserialize_game_info-bytes : deserialize_game_info info_bytes ≡ done p []
  unfolding deserialize_game_info info_bytes
  deserialize_game_info-bytes =
      rw
        (read_packet_size-packet_bytes Pid.game_info
          (44 + length p.game_name + settings_size p.game_settings) info_body h.fits
          length-info_body)
        (unfold info_body info_numbers info_stat buffer_calls in
          ground (
            arith,
            stat_length p.game_settings h.game_settings,
            read_version p.game_version
                (le32 p.host_counter
                  (le32 p.entry_key (p.game_name ++ 0 ∷ 0 ∷ (info_stat ++ 0 ∷ info_numbers))))
                h.product h.version,
            read_c_string-append p.game_name (0 ∷ (info_stat ++ 0 ∷ info_numbers)) h.game_name,
            read_game_settings p.game_settings h.game_settings info_numbers,
          ))

  pub serialize_game_info-framed : framed Pid.game_info (serialize_game_info p []) ≡ true
  unfolding info_bytes
  serialize_game_info-framed = rw serialize_game_info-bytes (
      framed-packet_bytes Pid.game_info (44 + length p.game_name + settings_size p.game_settings)
        info_body h.fits length-info_body)

  -- For a GameInfo whose numbers fit their fields, whose name, map path and host name have no
  -- zero byte, whose SHA-1 has twenty bytes and whose size fits sixteen bits, Serialize on an
  -- empty buffer and then Deserialize returns the same packet and leaves the buffer empty; this
  -- covers the encoded string of game settings.
  pub game_info_round_trip : (serialize_game_info p >>= λ _. deserialize_game_info) [] ≡ done p []
  unfolding and_then
  game_info_round_trip = rw serialize_game_info-bytes deserialize_game_info-bytes
