-- ===== src/Network/Peers/Steps.antt =====
-- The calls of a host one after another, as long as no player is deregistered.
use gowarcraft.Prelude.{ℕ, ◌+◌, ◌≡◌, ◌<◌, Bool, Option, some, none, List, [], ◌∷◌, refl, subst}
use gowarcraft.Protocol.BitSet.{test_bit}
use gowarcraft.Protocol.BitSet.Laws.{test_bit-zero}
use gowarcraft.Network.Peers.{
  Host, Reply, ok, err, panic, First, register, accept, dial_answered, disconnect_player,
}
use gowarcraft.Network.Peers.Sync.{
  IsSynced, OkSynced, is_connected, connect_player-OkSynced, registered-IsSynced,
  accept_known-OkSynced, dial_peer-OkSynced, disconnect-OkSynced,
}

-- The calls of a host, but for Deregister and Close.
pub data Call : Type 0 where
  registers : (id : ℕ) → Call
  accepts : (sent : Bool) (conn : ℕ) (first : First) → Call
  dialed : (ref conn : ℕ) (first : First) → Call
  ends : (conn ref : ℕ) → Call

unfoldable pub step : Call → Host → Reply
step (registers id) h = register id h
step (accepts sent conn first) h = accept sent conn first h
step (dialed ref conn first) h = dial_answered ref conn first h
step (ends conn ref) h = disconnect_player conn ref h

step-OkSynced : (c : Call) (h : Host) → IsSynced h → OkSynced (step c h)
unfolding step register accept dial_answered disconnect_player
step-OkSynced (registers id) h v = registered-IsSynced id h v _ refl
step-OkSynced (accepts sent conn first) h v =
    connect_player-OkSynced first h _ (λ pc. accept_known-OkSynced sent conn pc h _ v)
step-OkSynced (dialed ref conn first) h v =
    connect_player-OkSynced first h _ (λ pc. dial_peer-OkSynced conn pc h ref v)
step-OkSynced (ends conn ref) h v = disconnect-OkSynced conn ref h v

-- A call that returns an error has left the host as it was; after a panic there is no host.
abbrev pub resume : Host → Reply → Option Host
resume h (ok h') = some h'
resume h (err e) = some h
resume h panic = none

abbrev pub and_steps : (Host → Option Host) → Option Host → Option Host
and_steps f none = none
and_steps f (some h) = f h

unfoldable pub steps : List Call → Host → Option Host
steps [] h = some h
steps (c ∷ cs) h = and_steps (steps cs) (resume h (step c h))

abbrev pub new_host : (player_id join_counter entry_key : ℕ) → Host
new_host player_id join_counter entry_key = record {
  player_id = player_id;
  join_counter = join_counter;
  entry_key = entry_key;
  peers = [];
  players = [];
  peerset = 0;
}

new_host-IsSynced : (i j k : ℕ) → IsSynced (new_host i j k)
new_host-IsSynced i j k = record {
  bits = λ n lt. test_bit-zero n;
  own = λ id ref e. absurd (cc);
  registered = λ ref p e. absurd (cc);
  fresh = λ ref p e. absurd (cc);
}

abbrev OptionSynced : Option Host → Type 0
OptionSynced none = Unit
OptionSynced (some h) = IsSynced h

resume-OptionSynced :
    (f : Host → Option Host) (h : Host) (r : Reply)
    → IsSynced h
    → OkSynced r
    → ((x : Host) → IsSynced x → OptionSynced (f x))
    → OptionSynced (and_steps f (resume h r))
resume-OptionSynced f h (ok x) v s go = go x s
resume-OptionSynced f h (err e) v s go = go h v
resume-OptionSynced f h panic v s go = tt

steps-OptionSynced : (cs : List Call) (h : Host) → IsSynced h → OptionSynced (steps cs h)
unfolding steps
steps-OptionSynced [] h v = v
steps-OptionSynced (c ∷ cs) h v =
    resume-OptionSynced (steps cs) h (step c h) v (step-OkSynced c h v)
      (λ x s. steps-OptionSynced cs x s)

-- After any calls of Register, Accept and Dial, and ends of connections, on a new host, of which
-- none has panicked: the bit of each number from 1 to 32 in the set of peers is set exactly if a
-- player with the number is registered and has a connection.
pub peerset-is_connected :
    (player_id join_counter entry_key i : ℕ) (cs : List Call) (h : Host)
    → steps cs (new_host player_id join_counter entry_key) ≡ some h
    → i < 32
    → test_bit i h.peerset ≡ is_connected h (i + 1)
peerset-is_connected player_id join_counter entry_key i cs h e lt =
    let v : IsSynced h =
      subst OptionSynced e
        (steps-OptionSynced cs _ (new_host-IsSynced player_id join_counter entry_key)) in
    v.bits i lt
