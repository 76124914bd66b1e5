-- ===== src/W3gs/Peer/Safety.antt =====
-- PeerConnect and PeerSet: Deserialize on any bytes.
use gowarcraft.Prelude.{arith}
use gowarcraft.Protocol.Go.{Bytes, NoPanic}
use gowarcraft.W3gs.Header.{header_calls}
use gowarcraft.W3gs.Peer.{deserialize_peer_connect, deserialize_peer_set}

pub deserialize_peer_connect-NoPanic : (b : Bytes) → NoPanic (deserialize_peer_connect b)
unfolding deserialize_peer_connect header_calls
deserialize_peer_connect-NoPanic b = ground arith

pub deserialize_peer_set-NoPanic : (b : Bytes) → NoPanic (deserialize_peer_set b)
unfolding deserialize_peer_set header_calls
deserialize_peer_set-NoPanic b = ground arith
