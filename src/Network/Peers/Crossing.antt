-- ===== src/Network/Peers/Crossing.antt =====
-- Two hosts that dial each other at the same time.
use gowarcraft.Prelude.{
  ℕ, ◌-◌, ◌==◌, ◌≡◌, ◌<◌, ◌≤◌, Bool, true, false, ltb, Option, some, none, if◌then◌else◌, arith,
  ◌∙◌,
}
use gowarcraft.Protocol.BitSet.{insert, set_bit}
use gowarcraft.Dict.{lookup, assign}
use gowarcraft.W3gs.Peer.{PeerConnect}
use gowarcraft.Network.Peers.{
  Player, Host, Reply, ok, err, panic, connects, accept, dial_answered, accept_peer, dial_peer,
  set_conn,
}
use gowarcraft.Network.Peers.Keys.{lookup-assign_self}

-- A player that the host knows, without a connection, and a first packet of that player.
pub record IsWaiting (h : Host) (ref : ℕ) (peer : Player) (pc : PeerConnect) : Type 0 where
  pub known : lookup ◌==◌ pc.player_id h.peers ≡ some ref
  pub here : lookup ◌==◌ ref h.players ≡ some peer
  pub free : peer.conn ≡ none
  pub same_id : pc.player_id ≡ peer.player_id
  pub positive : 1 ≤ peer.player_id
  pub small : peer.player_id ≤ 32
  pub key : pc.entry_key ≡ h.entry_key
  pub counter : pc.join_counter ≡ h.join_counter

-- The connection that an object has.
abbrev pub player_conn : Option Player → Option ℕ
player_conn none = none
player_conn (some p) = p.conn

abbrev pub conn_of : ℕ → Reply → Option ℕ
conn_of ref (ok h) = player_conn (lookup ◌==◌ ref h.players)
conn_of ref (err e) = none
conn_of ref panic = none

-- A call after another one: an error of the first has left the host as it was.
abbrev pub then_call : Host → (Host → Reply) → Reply → Reply
then_call h f (ok h') = f h'
then_call h f (err e) = f h
then_call h f panic = panic

abbrev pub keep_on_err : Host → Reply → Reply
keep_on_err h (ok h') = ok h'
keep_on_err h (err e) = ok h
keep_on_err h panic = panic

-- Both connections are made, the dialed one first or last.
abbrev pub cross : Bool → (ref dialed accepted : ℕ) → PeerConnect → Host → Reply
cross true ref d a pc h =
    then_call h (λ h'. keep_on_err h' (accept true a (connects pc) h'))
      (dial_answered ref d (connects pc) h)
cross false ref d a pc h =
    then_call h (λ h'. keep_on_err h' (dial_answered ref d (connects pc) h'))
      (accept true a (connects pc) h)

-- The host after it has set a connection.
abbrev with_conn : ℕ → Player → ℕ → PeerConnect → Host → Host
with_conn ref peer conn pc h = record h {
  peerset = set_bit (peer.player_id - 1) h.peerset;
  players = assign ◌==◌ ref (record peer { conn = some conn; peerset = pc.peer_set }) h.players;
}

accept-eq :
    (a ref : ℕ) (pc : PeerConnect) (h : Host) (peer : Player)
    → lookup ◌==◌ pc.player_id h.peers ≡ some ref
    → lookup ◌==◌ ref h.players ≡ some peer
    → pc.entry_key ≡ h.entry_key
    → pc.join_counter ≡ h.join_counter
    → accept true a (connects pc) h ≡ accept_peer true a pc h ref (some peer)
unfolding accept
accept-eq a ref pc h peer known here key counter = ground (arith, known, here, key, counter)

dial-eq :
    (d ref : ℕ) (pc : PeerConnect) (h : Host) (peer : Player)
    → lookup ◌==◌ ref h.players ≡ some peer
    → pc.entry_key ≡ h.entry_key
    → pc.join_counter ≡ h.join_counter
    → dial_answered ref d (connects pc) h ≡ dial_peer d pc h ref (some peer)
unfolding dial_answered
dial-eq d ref pc h peer here key counter = ground (arith, here, key, counter)

set_conn-eq :
    (ref conn : ℕ) (peer : Player) (pc : PeerConnect) (h : Host)
    → 1 ≤ peer.player_id
    → peer.player_id ≤ 32
    → set_conn ref peer conn pc h ≡ ok (with_conn ref peer conn pc h)
unfolding insert
set_conn-eq ref conn peer pc h pos small = ground (arith, pos, small)

-- The connection after a second call, which may be refused.
second_accept :
    (a d ref : ℕ) (pc : PeerConnect) (h : Host) (peer : Player)
    → lookup ◌==◌ pc.player_id h.peers ≡ some ref
    → 1 ≤ peer.player_id
    → peer.player_id ≤ 32
    → conn_of ref (
        keep_on_err (with_conn ref peer d pc h) (
          accept_peer true a pc
            (with_conn ref peer d pc h)
            ref
            (some (record peer { conn = some d; peerset = pc.peer_set }))))
      ≡ (if ltb h.player_id peer.player_id then some d else some a)
second_accept a d ref pc h peer known pos small =
    let peer' : Player = record peer { conn = some d; peerset = pc.peer_set } in
    let h' = with_conn ref peer d pc h in
    ground (
      arith,
      set_conn-eq ref a peer' pc h' pos small,
      lookup-assign_self ref peer' h.players,
      lookup-assign_self ref (record peer { conn = some a; peerset = pc.peer_set }) h'.players,
    )

second_dial :
    (a d ref : ℕ) (pc : PeerConnect) (h : Host) (peer : Player)
    → 1 ≤ peer.player_id
    → peer.player_id ≤ 32
    → conn_of ref (
        keep_on_err (with_conn ref peer a pc h) (
          dial_peer d pc
            (with_conn ref peer a pc h)
            ref
            (some (record peer { conn = some a; peerset = pc.peer_set }))))
      ≡ (if ltb h.player_id peer.player_id then some d else some a)
second_dial a d ref pc h peer pos small =
    let peer' : Player = record peer { conn = some a; peerset = pc.peer_set } in
    let h' = with_conn ref peer a pc h in
    ground (
      arith,
      set_conn-eq ref d peer' pc h' pos small,
      lookup-assign_self ref peer' h.players,
      lookup-assign_self ref (record peer { conn = some d; peerset = pc.peer_set }) h'.players,
    )

-- The host with the lower number keeps the connection that it dialed, the other one that which it
-- accepted.
cross-conn :
    (order : Bool) (ref d a : ℕ) (pc : PeerConnect) (h : Host) (peer : Player)
    → IsWaiting h ref peer pc
    → conn_of ref (cross order ref d a pc h)
      ≡ (if ltb h.player_id peer.player_id then some d else some a)
cross-conn true ref d a pc h peer w =
    let peer' : Player = record peer { conn = some d; peerset = pc.peer_set } in
    rw
      (
        dial-eq d ref pc h peer w.here w.key w.counter,
        w.free,
        set_conn-eq ref d peer pc h w.positive w.small,
        accept-eq a ref pc (with_conn ref peer d pc h) peer' w.known
            (lookup-assign_self ref peer' h.players) w.key w.counter,
      )
      (second_accept a d ref pc h peer w.known w.positive w.small)
cross-conn false ref d a pc h peer w =
    let peer' : Player = record peer { conn = some a; peerset = pc.peer_set } in
    rw
      (
        accept-eq a ref pc h peer w.known w.here w.key w.counter,
        w.free,
        set_conn-eq ref a peer pc h w.positive w.small,
        dial-eq d ref pc (with_conn ref peer a pc h) peer' (lookup-assign_self ref peer' h.players)
            w.key w.counter,
      )
      (second_dial a d ref pc h peer w.positive w.small)

-- Two hosts, each of which knows the other one by its number, from 1 to 32, and has no
-- connection to it, dial each other, and the first packets have the right keys: in whatever
-- order each of them makes the two connections, both keep the one that the host with the lower
-- number has dialed.
pub cross-agrees :
    (o1 o2 : Bool) (r1 r2 x y : ℕ) (pc1 pc2 : PeerConnect) (h1 h2 : Host) (p1 p2 : Player)
    → IsWaiting h1 r2 p2 pc2
    → IsWaiting h2 r1 p1 pc1
    → p1.player_id ≡ h1.player_id
    → p2.player_id ≡ h2.player_id
    → h1.player_id < h2.player_id
    → (conn_of r2 (cross o1 r2 x y pc2 h1) ≡ some x)
      × (conn_of r1 (cross o2 r1 y x pc1 h2) ≡ some x)
cross-agrees o1 o2 r1 r2 x y pc1 pc2 h1 h2 p1 p2 w1 w2 e1 e2 lt = (
  cross-conn o1 r2 x y pc2 h1 p2 w1 ∙ ground (arith, e2, lt),
  cross-conn o2 r1 y x pc1 h2 p1 w2 ∙ ground (arith, e1, lt),
)
