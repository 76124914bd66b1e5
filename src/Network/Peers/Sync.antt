-- ===== src/Network/Peers/Sync.antt =====
-- The set of connected peers, as long as no player is deregistered.
use gowarcraft.Prelude.{
  ℕ, ◌+◌, ◌-◌, ◌==◌, ◌≡◌, ◌<◌, ◌≤◌, ◌&&◌, Bool, true, false, ltb, leb, Option, some, none,
  if◌then◌else◌, List, [], ◌∷◌, length, arith, refl,
}
use gowarcraft.Protocol.BitSet.{insert, clear, test_bit}
use gowarcraft.Protocol.BitSet.Laws.{test_bit-set_bit, test_bit-clear_bit}
use gowarcraft.Dict.{lookup, assign, lookup-assign}
use gowarcraft.W3gs.Peer.{PeerConnect}
use gowarcraft.Network.Peers.{
  PeerError, Player, Host, Reply, ok, err, panic, First, connects, nothing, other, register_new,
  accept_known, accept_peer, dial_peer, start_run, stop_run, is_some, is_conn, has_conn,
  check_connect, connect_player, unless_error, disconnect_peer,
}
use gowarcraft.Network.Peers.Keys.{==-IsKey}
use gowarcraft.Network.Peers.Crossing.{player_conn}

abbrev pub is_id : ℕ → Option Player → Bool
is_id id none = false
is_id id (some p) = p.player_id == id

abbrev pub open_at : Host → Option ℕ → Bool
open_at h none = false
open_at h (some ref) = is_some (player_conn (lookup ◌==◌ ref h.players))

-- A player with the number is registered and has a connection.
abbrev pub is_connected : Host → ℕ → Bool
is_connected h id = open_at h (lookup ◌==◌ id h.peers)

pub record IsSynced (h : Host) : Type 0 where
  pub bits : (i : ℕ) → i < 32 → test_bit i h.peerset ≡ is_connected h (i + 1)
  pub own :
      (id ref : ℕ) → lookup ◌==◌ id h.peers ≡ some ref → is_id id (lookup ◌==◌ ref h.players) ≡ true
  pub registered :
      (ref : ℕ) (p : Player)
      → lookup ◌==◌ ref h.players ≡ some p
      → lookup ◌==◌ p.player_id h.peers ≡ some ref
  pub fresh : (ref : ℕ) (p : Player) → lookup ◌==◌ ref h.players ≡ some p → ref < length h.players

abbrev put_peer : ℕ → ℕ → Player → Host → Host
put_peer set ref peer h = record h { peerset = set; players = assign ◌==◌ ref peer h.players }

length-le-assign :
    (ref : ℕ) (p : Player) (d : List (ℕ × Player)) → length d ≤ length (assign ◌==◌ ref p d)
length-le-assign ref p [] = omega arith
length-le-assign ref p (x ∷ d) = ground (arith, length-le-assign ref p d)

module _ (h : Host) (set ref : ℕ) (peer peer' : Player) where
  put_peer-IsSynced :
      lookup ◌==◌ ref h.players ≡ some peer
      → peer'.player_id ≡ peer.player_id
      → ((i : ℕ)
          → i < 32
          → test_bit i set
            ≡ (if i + 1 == peer.player_id then is_some peer'.conn else test_bit i h.peerset))
      → IsSynced h
      → IsSynced (put_peer set ref peer' h)
  put_peer-IsSynced here same changed v = record {
    bits = λ i lt. by_ref i lt (lookup ◌==◌ (i + 1) h.peers) refl;
    own = λ id r e.
        ground (arith, lookup-assign ◌==◌ ==-IsKey r ref peer' h.players, v.own id r e, here, same);
    registered = λ r p e. ground (
      arith,
      e,
      lookup-assign ◌==◌ ==-IsKey r ref peer' h.players,
      v.registered r p,
      v.registered ref peer here,
      same,
    );
    fresh = λ r p e. ground (
      arith,
      e,
      lookup-assign ◌==◌ ==-IsKey r ref peer' h.players,
      v.fresh r p,
      v.fresh ref peer here,
      length-le-assign ref peer' h.players,
    );
  }
    where
      by_ref :
          (i : ℕ)
          → i < 32
          → (o : Option ℕ) → lookup ◌==◌ (i + 1) h.peers ≡ o
          → test_bit i set ≡ is_connected (put_peer set ref peer' h) (i + 1)
      by_ref i lt none e = ground (arith, e, changed i lt, v.bits i lt, v.registered ref peer here)
      by_ref i lt (some r) e = ground (
        arith,
        e,
        changed i lt,
        v.bits i lt,
        v.registered ref peer here,
        v.own (i + 1) r e,
        here,
        same,
        lookup-assign ◌==◌ ==-IsKey r ref peer' h.players,
      )

-- What a call leaves, when it returns the host.
abbrev pub OkSynced : Reply → Type 0
OkSynced (ok h) = IsSynced h
OkSynced (err e) = Unit
OkSynced panic = Unit

if-OkSynced : (c : Bool) (r s : Reply) → OkSynced r → OkSynced s → OkSynced (if c then r else s)
if-OkSynced true r s hr hs = hr
if-OkSynced false r s hr hs = hs

pub connect_player-OkSynced :
    (first : First) (h : Host) (f : PeerConnect → Reply)
    → ((pc : PeerConnect) → OkSynced (f pc))
    → OkSynced (connect_player first h f)
connect_player-OkSynced nothing h f s = tt
connect_player-OkSynced other h f s = tt
connect_player-OkSynced (connects pc) h f s = by_error (check_connect h pc)
  where
    by_error : (o : Option PeerError) → OkSynced (unless_error o (f pc))
    by_error none = s pc
    by_error (some e) = tt

module _ (h : Host) (v : IsSynced h) (ref : ℕ) (peer : Player)
    (here : lookup ◌==◌ ref h.players ≡ some peer) where
  start_run-OkSynced :
      (conn : ℕ) (pc : PeerConnect) (o : Option ℕ)
      → insert 32 h.peerset peer.player_id ≡ o
      → OkSynced (start_run ref peer conn pc h o)
  unfolding insert
  start_run-OkSynced conn pc none e = tt
  start_run-OkSynced conn pc (some set) e =
      put_peer-IsSynced h set ref peer (record peer { conn = some conn; peerset = pc.peer_set })
        here refl (λ i lt. ground (arith, e, test_bit-set_bit i (peer.player_id - 1) h.peerset)) v

  stop_run-OkSynced :
      (o : Option ℕ) → clear 32 h.peerset peer.player_id ≡ o → OkSynced (stop_run ref peer h o)
  unfolding clear
  stop_run-OkSynced none e = tt
  stop_run-OkSynced (some set) e =
      put_peer-IsSynced h set ref peer (record peer { conn = none; peerset = 0 }) here refl
        (λ i lt. ground (arith, e, test_bit-clear_bit i (peer.player_id - 1) h.peerset)) v

own-lt :
    (h : Host) (id ref : ℕ)
    → IsSynced h
    → lookup ◌==◌ id h.peers ≡ some ref
    → ref < length h.players
own-lt h id ref v e = by_player (lookup ◌==◌ ref h.players) refl
  where
    by_player : (o : Option Player) → lookup ◌==◌ ref h.players ≡ o → ref < length h.players
    by_player none m = absurd (ground (arith, m, v.own id ref e))
    by_player (some p) m = v.fresh ref p m

pub registered-IsSynced :
    (id : ℕ) (h : Host)
    → IsSynced h
    → (o : Option ℕ) → lookup ◌==◌ id h.peers ≡ o
    → OkSynced (register_new id h o)
registered-IsSynced id h v (some ref) e = tt
registered-IsSynced id h v none e = record {
  bits = λ i lt. by_ref i lt (lookup ◌==◌ (i + 1) h.peers) refl;
  own = λ j r m.
      ground (arith, e, m, lookup-assign ◌==◌ ==-IsKey j id n h.peers, v.own j r, own-lt h j r v);
  registered = λ r p m. ground (
    arith,
    e,
    m,
    lookup-assign ◌==◌ ==-IsKey p.player_id id n h.peers,
    v.registered r p,
    v.fresh r p,
  );
  fresh = λ r p m. ground (arith, m, v.fresh r p);
}
  where
    n : ℕ
    n = length h.players

    by_ref :
        (i : ℕ)
        → i < 32
        → (o : Option ℕ) → lookup ◌==◌ (i + 1) h.peers ≡ o
        → test_bit i h.peerset
          ≡ open_at
              (record h {
                peers = assign ◌==◌ id n h.peers;
                players = (n, record { player_id = id; conn = none; peerset = 0 }) ∷ h.players;
              })
              (lookup ◌==◌ (i + 1) (assign ◌==◌ id n h.peers))
    by_ref i lt none m =
        ground (arith, e, m, v.bits i lt, lookup-assign ◌==◌ ==-IsKey (i + 1) id n h.peers)
    by_ref i lt (some r) m = ground (
      arith,
      e,
      m,
      v.bits i lt,
      own-lt h (i + 1) r v m,
      lookup-assign ◌==◌ ==-IsKey (i + 1) id n h.peers,
    )

pub accept_known-OkSynced :
    (sent : Bool) (conn : ℕ) (pc : PeerConnect) (h : Host) (o : Option ℕ)
    → IsSynced h
    → OkSynced (accept_known sent conn pc h o)
accept_known-OkSynced sent conn pc h none v = tt
accept_known-OkSynced sent conn pc h (some ref) v = by_player (lookup ◌==◌ ref h.players) refl
  where
    by_player :
        (p : Option Player)
        → lookup ◌==◌ ref h.players ≡ p
        → OkSynced (accept_peer sent conn pc h ref p)
    by_player none e = tt
    by_player (some peer) e =
        if-OkSynced (has_conn peer && ltb h.player_id peer.player_id) _ _ tt
          (if-OkSynced sent _ _ (start_run-OkSynced h v ref peer e conn pc _ refl) tt)

pub dial_peer-OkSynced :
    (conn : ℕ) (pc : PeerConnect) (h : Host) (ref : ℕ)
    → IsSynced h
    → OkSynced (dial_peer conn pc h ref (lookup ◌==◌ ref h.players))
dial_peer-OkSynced conn pc h ref v = by_player (lookup ◌==◌ ref h.players) refl
  where
    by_player :
        (p : Option Player) → lookup ◌==◌ ref h.players ≡ p → OkSynced (dial_peer conn pc h ref p)
    by_player none e = tt
    by_player (some peer) e =
        if-OkSynced (has_conn peer && leb peer.player_id h.player_id) _ _ tt
          (start_run-OkSynced h v ref peer e conn pc _ refl)

pub disconnect-OkSynced :
    (conn ref : ℕ) (h : Host)
    → IsSynced h
    → OkSynced (disconnect_peer conn ref h (lookup ◌==◌ ref h.players))
disconnect-OkSynced conn ref h v = by_player (lookup ◌==◌ ref h.players) refl
  where
    by_player :
        (p : Option Player)
        → lookup ◌==◌ ref h.players ≡ p
        → OkSynced (disconnect_peer conn ref h p)
    by_player none e = tt
    by_player (some peer) e =
        if-OkSynced (is_conn conn peer.conn) _ _ (stop_run-OkSynced h v ref peer e _ refl) v
