-- ===== src/Lobby/Seats/Ids.antt =====
-- The id of a player that joins.
use gowarcraft.Prelude.{ℕ, ◌∷◌, ◌≡◌, true, Option, some, none, arith, refl, subst}
use gowarcraft.Lobby.Slots.{Lobby, Result, ok, err, panic, ◌>>=◌, count_if, has_pid}
use gowarcraft.Lobby.Changes.{join, welcome}
use gowarcraft.Lobby.Invariant.{Inv, IsPid, occurrences}
use gowarcraft.Lobby.Invariant.Joining.{SeatOk, seat, no_seat, take_seat-SeatOk}

-- The player has an id that was not in use, and one slot.
pub record IsJoined (l l' : Lobby) (pid : ℕ) : Type 0 where
  pub is_pid : IsPid pid
  pub unused : occurrences pid l.players ≡ 0
  pub players : l'.players ≡ pid ∷ l.players
  pub one_slot : count_if (has_pid pid) l'.slots ≡ 1

abbrev JoinedOk : Lobby → Result (Lobby × Option ℕ) → Type 0
JoinedOk l (ok (l', some pid)) = IsJoined l l' pid
JoinedOk l (ok (l', none)) = Unit
JoinedOk l (err e) = Unit
JoinedOk l panic = Unit

seat-JoinedOk : (l : Lobby) (r : Result (Lobby × ℕ)) → SeatOk l r → JoinedOk l (r >>= welcome true)
seat-JoinedOk l _ (no_seat e) = tt
seat-JoinedOk l _ (seat l' pid e v hp new) = record {
  is_pid = hp;
  unused = new;
  players = rw e refl;
  one_slot = ground (arith, v.seats pid hp, new);
}

-- A player that joins a well-formed lobby gets an id from 1 to 32 that no player has, is added
-- to the players, and has exactly one slot.
pub join-IsJoined :
    (l l' : Lobby) (pid : ℕ) → Inv l → join true l ≡ ok (l', some pid) → IsJoined l l' pid
unfolding join
join-IsJoined l l' pid v e = subst (JoinedOk l) e (seat-JoinedOk l _ (take_seat-SeatOk l v))
