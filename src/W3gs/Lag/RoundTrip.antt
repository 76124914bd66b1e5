-- ===== src/W3gs/Lag/RoundTrip.antt =====
-- StartLag, StopLag and DropLaggers: Serialize followed by Deserialize.
use gowarcraft.Prelude.{true}
use gowarcraft.Prelude.{◌+◌, ◌*◌, ◌%◌, ◌^◌, ◌≡◌, List, [], ◌∷◌, ◌++◌, length, All}
use gowarcraft.Prelude.{IsU8, IsU32, arith, append_assoc, append-nil, refl}
use gowarcraft.Protocol.Go.{Bytes, ◌>>=◌, done, and_then}
use gowarcraft.Protocol.Buffer.{buffer_calls, byte}
use gowarcraft.Protocol.Buffer.RoundTrip.{le32}
use gowarcraft.W3gs.Header.{header_calls}
use gowarcraft.W3gs.Header.RoundTrip.{
  framed, framed-packet_bytes, packet_bytes, read_packet_size-packet_bytes,
}
use gowarcraft.W3gs.Pid
use gowarcraft.W3gs.Lag.{LagPlayer, StartLag, serialize_lag_player, deserialize_lag_player}
use gowarcraft.W3gs.Lag.{write_lag_players, read_lag_players, serialize_start_lag}
use gowarcraft.W3gs.Lag.{deserialize_start_lag, serialize_stop_lag, deserialize_stop_lag}
use gowarcraft.W3gs.Lag.{serialize_drop_laggers, deserialize_drop_laggers}

pub record ValidLagPlayer (p : LagPlayer) : Type 0 where
  pub player_id : IsU8 p.player_id
  pub lag_duration_ms : IsU32 p.lag_duration_ms

lag_bytes : List LagPlayer → Bytes
lag_bytes [] = []
lag_bytes (lp ∷ ps) = lp.player_id ∷ le32 lp.lag_duration_ms (lag_bytes ps)

length-lag_bytes : (ps : List LagPlayer) → length (lag_bytes ps) ≡ length ps * 5
unfolding lag_bytes
length-lag_bytes [] = refl
length-lag_bytes (lp ∷ ps) = omega (arith, length-lag_bytes ps)

write_lag_players-bytes :
    (ps : List LagPlayer) (b : Bytes) → write_lag_players ps b ≡ done tt (b ++ lag_bytes ps)
unfolding write_lag_players serialize_lag_player lag_bytes buffer_calls
write_lag_players-bytes [] b = rw append-nil
write_lag_players-bytes (lp ∷ ps) b = rw (write_lag_players-bytes ps) (simp append_assoc)

read_lag_players-bytes :
    (ps : List LagPlayer)
    → All ValidLagPlayer ps
    → read_lag_players (length ps) (lag_bytes ps) ≡ done ps []
unfolding read_lag_players deserialize_lag_player lag_bytes buffer_calls
read_lag_players-bytes [] h = refl
read_lag_players-bytes (lp ∷ ps) (h, hs) = ground (arith, read_lag_players-bytes ps hs)

pub record ValidStartLag (p : StartLag) : Type 0 where
  pub players : All ValidLagPlayer p.players
  pub fits : IsU8 (length p.players)

module _ (p : StartLag) (h : ValidStartLag p) where
  lag_packet : Bytes
  lag_packet =
      packet_bytes Pid.start_lag ((5 + length p.players * 5) % 2 ^ 16)
        (byte (length p.players) ∷ lag_bytes p.players)

  serialize_start_lag-bytes : serialize_start_lag p [] ≡ done tt lag_packet
  unfolding serialize_start_lag lag_packet buffer_calls
  serialize_start_lag-bytes = rw (write_lag_players-bytes p.players) (simp append_assoc)

  deserialize_start_lag-bytes : deserialize_start_lag lag_packet ≡ done p []
  unfolding deserialize_start_lag lag_packet
  deserialize_start_lag-bytes =
      rw
        (read_packet_size-packet_bytes Pid.start_lag (5 + length p.players * 5)
          (byte (length p.players) ∷ lag_bytes p.players) (omega (arith, h.fits))
          (omega (arith, length-lag_bytes p.players)))
        (unfold buffer_calls in ground (arith, read_lag_players-bytes p.players h.players))

  pub serialize_start_lag-framed : framed Pid.start_lag (serialize_start_lag p []) ≡ true
  unfolding lag_packet
  serialize_start_lag-framed = rw serialize_start_lag-bytes (
      framed-packet_bytes Pid.start_lag (5 + length p.players * 5)
        (byte (length p.players) ∷ lag_bytes p.players) (omega (arith, h.fits))
        (omega (arith, length-lag_bytes p.players)))

  -- For a StartLag with at most 255 players whose fields fit, Serialize on an empty buffer and
  -- then Deserialize returns the same packet and leaves the buffer empty.
  pub start_lag_round_trip : (serialize_start_lag p >>= λ _. deserialize_start_lag) [] ≡ done p []
  unfolding and_then
  start_lag_round_trip = rw serialize_start_lag-bytes deserialize_start_lag-bytes

pub stop_lag_round_trip :
    (p : LagPlayer)
    → ValidLagPlayer p
    → (serialize_stop_lag p >>= λ _. deserialize_stop_lag) [] ≡ done p []
unfolding serialize_stop_lag deserialize_stop_lag serialize_lag_player deserialize_lag_player
    header_calls
stop_lag_round_trip p h = ground arith

pub drop_laggers_round_trip :
    (serialize_drop_laggers tt >>= λ _. deserialize_drop_laggers) [] ≡ done tt []
unfolding serialize_drop_laggers deserialize_drop_laggers header_calls
drop_laggers_round_trip = ground arith
