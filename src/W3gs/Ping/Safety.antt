-- ===== src/W3gs/Ping/Safety.antt =====
-- Ping and PeerPing: Deserialize on any bytes.
use gowarcraft.Prelude.{arith}
use gowarcraft.Protocol.Go.{Bytes, NoPanic}
use gowarcraft.W3gs.Header.{header_calls}
use gowarcraft.W3gs.Ping.{deserialize_ping, deserialize_peer_ping}

pub deserialize_ping-NoPanic : (b : Bytes) → NoPanic (deserialize_ping b)
unfolding deserialize_ping header_calls
deserialize_ping-NoPanic b = ground arith

pub deserialize_peer_ping-NoPanic : (b : Bytes) → NoPanic (deserialize_peer_ping b)
unfolding deserialize_peer_ping header_calls
deserialize_peer_ping-NoPanic b = ground arith
