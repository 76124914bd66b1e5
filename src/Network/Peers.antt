-- ===== src/Network/Peers.antt =====
-- network/peer/host.go: the players that a host knows, and its connections to them. A Player is an
-- object with a number, at which it stands in `players`, and a connection has a number too.
pub mod Keys
pub mod Crossing
pub mod Sync
pub mod Steps
pub mod Stale
mod Examples
use gowarcraft.Prelude.{
  ℕ, ◌+◌, ◌==◌, ◌&&◌, not, Bool, true, false, ltb, leb, Option, some, none, if◌then◌else◌, List, [],
  ◌∷◌, length, ◌⊎◌, inl, inr,
}
use gowarcraft.Protocol.BitSet.{insert, clear}
use gowarcraft.Dict.{lookup, assign, erase}
use gowarcraft.W3gs.Peer.{PeerConnect}

pub record Player : Type 0 where
  pub player_id : ℕ
  pub conn : Option ℕ
  pub peerset : ℕ

pub record Host : Type 0 where
  pub player_id : ℕ
  pub join_counter : ℕ
  pub entry_key : ℕ
  pub peers : List (ℕ × ℕ)
  pub players : List (ℕ × Player)
  pub peerset : ℕ

pub data PeerError : Type 0 where
  invalid_first_packet : PeerError
  unknown_peer_id : PeerError
  dup_peer_id : PeerError
  already_connected : PeerError
  invalid_entry_key : PeerError
  invalid_join_counter : PeerError
  io_error : PeerError

-- An error leaves the host as it was.
pub data Reply : Type 0 where
  ok : Host → Reply
  err : PeerError → Reply
  panic : Reply

-- The first packet of a connection: none came in time, a PeerConnect, or another.
pub data First : Type 0 where
  nothing : First
  connects : PeerConnect → First
  other : First

abbrev pub register_new : ℕ → Host → Option ℕ → Reply
register_new id h (some ref) = err dup_peer_id
register_new id h none =
    let ref : ℕ = length h.players in
    ok (record h {
      peers = assign ◌==◌ id ref h.peers;
      players = (ref, record { player_id = id; conn = none; peerset = 0 }) ∷ h.players;
    })

unfoldable pub register : ℕ → Host → Reply
register id h = register_new id h (lookup ◌==◌ id h.peers)

-- Deregister; that the connection of the player is closed ends the serve of it, in a later step.
unfoldable pub deregister : ℕ → Host → Host
deregister id h = record h { peers = erase ◌==◌ id h.peers }

abbrev pub check_connect : Host → PeerConnect → Option PeerError
check_connect h p =
    if not (p.entry_key == h.entry_key)
    then some invalid_entry_key
    else (if not (p.join_counter == h.join_counter) then some invalid_join_counter else none)

-- connectPlayer, and what follows it if it returns a packet.
abbrev pub unless_error : Option PeerError → Reply → Reply
unless_error (some e) r = err e
unless_error none r = r

abbrev pub connect_player : First → Host → (PeerConnect → Reply) → Reply
connect_player nothing h f = err io_error
connect_player (connects p) h f = unless_error (check_connect h p) (f p)
connect_player other h f = err invalid_first_packet

-- The handler of RunStart, when the new connection is served.
abbrev pub start_run : ℕ → Player → ℕ → PeerConnect → Host → Option ℕ → Reply
start_run ref peer conn pc h none = panic
start_run ref peer conn pc h (some set) = ok (record h {
  peerset = set;
  players = assign ◌==◌ ref (record peer { conn = some conn; peerset = pc.peer_set }) h.players;
})

abbrev pub set_conn : ℕ → Player → ℕ → PeerConnect → Host → Reply
set_conn ref peer conn pc h = start_run ref peer conn pc h (insert 32 h.peerset peer.player_id)

abbrev pub is_some : Option ℕ → Bool
is_some none = false
is_some (some c) = true

abbrev pub has_conn : Player → Bool
has_conn peer = is_some peer.conn

-- Accept: the first packet, and whether the answer could be sent.
abbrev pub accept_peer : Bool → ℕ → PeerConnect → Host → ℕ → Option Player → Reply
accept_peer sent conn pc h ref none = panic
accept_peer sent conn pc h ref (some peer) =
    if has_conn peer && ltb h.player_id peer.player_id
    then err already_connected
    else (if sent then set_conn ref peer conn pc h else err io_error)

abbrev pub accept_known : Bool → ℕ → PeerConnect → Host → Option ℕ → Reply
accept_known sent conn pc h none = err unknown_peer_id
accept_known sent conn pc h (some ref) = accept_peer sent conn pc h ref (lookup ◌==◌ ref h.players)

unfoldable pub accept : Bool → ℕ → First → Host → Reply
accept sent conn first h =
    connect_player first h (λ pc. accept_known sent conn pc h (lookup ◌==◌ pc.player_id h.peers))

-- Dial, after it has the first packet; it has kept the player that it dialed, and not the lock.
abbrev pub dial_peer : ℕ → PeerConnect → Host → ℕ → Option Player → Reply
dial_peer conn pc h ref none = panic
dial_peer conn pc h ref (some peer) =
    if has_conn peer && leb peer.player_id h.player_id
    then err already_connected
    else set_conn ref peer conn pc h

unfoldable pub dial_answered : ℕ → ℕ → First → Host → Reply
dial_answered ref conn first h =
    connect_player first h (λ pc. dial_peer conn pc h ref (lookup ◌==◌ ref h.players))

-- Dial, up to the packet that it sends: the player that it goes on with.
abbrev pub dial_free : Bool → ℕ → Option Player → PeerError ⊎ ℕ
dial_free sent ref none = inl unknown_peer_id
dial_free sent ref (some peer) =
    if has_conn peer then inl already_connected else (if sent then inr ref else inl io_error)

abbrev pub dial_known : Bool → Host → Option ℕ → PeerError ⊎ ℕ
dial_known sent h none = inl unknown_peer_id
dial_known sent h (some ref) = dial_free sent ref (lookup ◌==◌ ref h.players)

unfoldable pub dial : Bool → ℕ → Host → PeerError ⊎ ℕ
dial sent id h = dial_known sent h (lookup ◌==◌ id h.peers)

-- disconnectPlayer, when the serve of a connection has ended.
abbrev pub is_conn : ℕ → Option ℕ → Bool
is_conn conn none = false
is_conn conn (some c) = c == conn

abbrev pub stop_run : ℕ → Player → Host → Option ℕ → Reply
stop_run ref peer h none = panic
stop_run ref peer h (some set) = ok (record h {
  peerset = set;
  players = assign ◌==◌ ref (record peer { conn = none; peerset = 0 }) h.players;
})

abbrev pub disconnect_peer : ℕ → ℕ → Host → Option Player → Reply
disconnect_peer conn ref h none = panic
disconnect_peer conn ref h (some peer) =
    if is_conn conn peer.conn then stop_run ref peer h (clear 32 h.peerset peer.player_id) else ok h

unfoldable pub disconnect_player : (conn ref : ℕ) → Host → Reply
disconnect_player conn ref h = disconnect_peer conn ref h (lookup ◌==◌ ref h.players)
