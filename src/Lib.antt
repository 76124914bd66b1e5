-- ===== src/Lib.antt =====
-- Verification library of gowarcraft3.
--
-- gowarcraft3 speaks the network protocols of Warcraft III. Its packages stand on each other:
-- protocol has Buffer, a byte slice that the Write methods append to, the WriteAt methods
-- overwrite and the Read methods consume from the front; protocol/w3gs has one struct for each
-- packet of the game protocol, with a Serialize and a Deserialize method on a Buffer; the clients
-- and hosts under network/ exchange these packets, and hand each to the handlers of an event
-- emitter. This library is about protocol, protocol/w3gs, the emitter of network, network/lan,
-- which finds games in the local network, network/peer, which connects the players of a game, and
-- network/lobby, which hosts a game: the slots of its
-- lobby, the turns of the game and the comparison of the checksums that the players send.
--
-- Prelude: the names of the libraries that the modules share, Boolean tests and lists over the
--   native numbers, and the ranges of unsigned integers (IsU8, IsU16, IsU32, IsU64).
-- Protocol.Go: a method on a Buffer is a function from the bytes it holds to an Outcome: done with
--   a value and the bytes that are left, fail with an error, or panic, which is what an index out
--   of range does. `>>=` composes methods, `reject_if` is an early return of an error.
-- Protocol.Buffer: protocol/buffer.go, ReadUInt16 as read_uint16, WriteUInt8At as write_uint8_at.
--   Its children have the encodings of numbers and addresses (RoundTrip, Address), the bytes that
--   each reading method takes (Lengths), and rules that follow a method call by call (NoPanic).
-- Protocol.BitSet: protocol/bitset.go, the methods Test, Set and Clear as test, insert and clear,
--   with the number of bits as an argument; Laws is about single bits, Members about the sets.
-- Protocol.DWord: protocol/dwordstring.go, DString as d_string.
-- W3gs.Pid: the identifiers of protocol/w3gs/const.go. W3gs.Header: readPacketHeader (the size -1
--   is none), readPacketSize and UnknownPacket of protocol/w3gs/packets.go.
-- W3gs.Ping, Membership, Loading, Listing, Peer, Transfer, Join, Lag, Action, Chat, MapData,
--   TimeSlot, Slots, GameInfo: the packets of protocol/w3gs/packets.go by subject. A struct is a
--   record of the same name, its methods are serialize_<name> and deserialize_<name>; a struct that
--   only embeds another one uses its record and, where the source does, its Deserialize. Each has
--   children RoundTrip and Safety or Panic.
-- W3gs.StatString: the two loops that encode and decode the string of game settings in
--   GameSettings.SerializeContent and DeserializeContent.
-- W3gs.Examples: concrete packets.
-- W3gs.Extra: PlayerExtra. W3gs.Packets: the interface Packet as a sum type, and DefaultFactory of
--   protocol/w3gs/w3gs.go. W3gs.Codec: Encoder and Decoder of protocol/w3gs/serialization.go, on a
--   reader that is the bytes it yields; Framing is about the header of each packet, RoundTrip about
--   one packet, Streams about many and Cut about a stream that ends early.
-- Lobby.Turn: the queue of actions of network/lobby/game.go (onGameAction, EnqueueAction,
--   splitActions) and the loop of gameloop that sends the queue of one tick as W3gs time slots;
--   Splitting and Sending have the lemmas on one round and on the loop.
-- W3gs.Guards: the Deserialize methods that are safe for any bytes, together.
-- Lobby.Slots: the state of network/lobby/lobby.go (slots, base slots, ids of the players, lock,
--   team of observers, colors) and the methods that look for a slot, an id, a team or a color;
--   initSlot as init_slot, NewLobby as new_lobby. Slots.Laws has the lemmas on lists of slots.
-- Lobby.Changes: join (take_seat up to the id, welcome for what is sent), swapSlots,
--   changeSlotStatus and the other change methods. An Answer says what a method returns.
-- Lobby.Hosting: the methods of the host (OpenSlot as open_slot, ChangeRace as host_change_race)
--   and the handlers of packets (onLeave, onMapState, onTeamChange, ...). Reply is none for a panic.
-- Lobby.Steps: all of these and Close as one step function, the calls that Allowed admits (no Close
--   while there are players, no join whose packets are lost), and the lobbies that
--   can be reached. slotmut makes each call one step.
-- Lobby.Invariant: what holds between two calls; Sets and Joining are about a new player, Changes,
--   Slots, Status and Computers about the changes of slots, Calls and Reachable about the steps,
--   Opening about lobbies from NewLobby.
-- Lobby.Seats: joins one by one, with Ids, Leaving and Failing. Lobby.Locks: locked lobbies.
--   Lobby.Bounds: how many players play, and the handicap.
-- Lobby.Acks: the ring of checksums of network/lobby/player.go (DequeueAck, onTimeSlotAck); Ring
--   relates it to a list. Lobby.Desync: drainAcks, desync and onGameTick of network/lobby/game.go; Rounds is
--   about one checksum of each player, Dropping about the players that desync removes, Draining
--   about the loop, Plurality about the votes and Ticks about onGameTick.
-- Lobby.Laggers: incLaggers, onStartLag, onStopLag and onDropLaggers of network/lobby/game.go.
--   A Slice is a slice over the array that the loop of onStopLag ranges over. Stopping is about
--   that loop, Waiting about the times.
--
-- Network.Events: network/events.go. Emitter is EventEmitter, addHandler is add_handler, fire is
--   fire and Fire is fire_event; a handler has the number of its callback, and what callbacks do to
--   the event and the emitter is a parameter. Ids is about the order of the handlers, Firing about
--   the loop of fire, Spent and Fair about the handlers that it leaves, Pool about events that are
--   fired at the same time, and Whole about Fire.
-- Dict: Go maps as lists of pairs.
-- Network.Lan.Games: network/lan/gamelist_udp.go, onGameInfo as on_game_info; Handled is what a
--   handler leaves, fires and sends. Keys has the records by index, Expiry how long they stay,
--   Silence when Update is fired, Youngest the answer of Games, Created the time of creation.
-- Network.Lan.Advertising: network/lan/advertise_udp.go, and Discovery its packets as the list
--   hears them.
-- Network.Peers: network/peer/host.go, Accept as accept, and Dial as dial up to what it sends and
--   dial_answered from the first packet that it gets, as it releases the lock in between. Crossing
--   is about hosts that dial each other, Sync and Steps about the set of peers, Stale about a player
--   that is deregistered.
-- Replays.Header: file/w3g/header.go, the header in Close of Encoder as write_header, DecodeHeader
--   as decode_header on the bytes that its reader yields.
--
-- Numbers. A byte is a native number below 256; a field of w bits is a number, and what is written
-- keeps the conversion (`% 2 ^ 16`, byte). Sizes of type int are numbers: where the source
-- subtracts, a guard before it or a type of its own (W3gs.Slots.SlotSize) keeps the sign.
-- Strings are byte lists. Deserialize is modelled on a packet that is fresh, as the default factory
-- makes it; a Buffer is its bytes, so that slices that share memory are copies.
--
-- Fuel. W3gs.TimeSlot.read_actions stands for a loop that each time takes three bytes or more off
-- `size`; it is called with fuel `size`. Lobby.Turn.send_turn stands for a loop without a bound in
-- the source; each round takes an action off the queue. Lobby.Desync.drain stands for the loop of
-- drainAcks; each round takes a checksum of every player. Every other loop is structural recursion.
--
-- Parameters. The CRC-32 of hash/crc32 is any function from bytes to numbers, and whether the
-- protobuf library decodes a content any test of bytes. The pairs that
-- rand.Shuffle swaps and whether the packets for a new player could be sent are arguments, and so
-- is the progress of a download, a quotient of floating-point numbers. A map of players is the list
-- of their ids, in the order of a range over it, which is any. So are the callbacks of an emitter,
-- the text that package net makes of a host and a port, and the conversion of the floating-point
-- seconds of a duration. The time is an argument, in nanoseconds since the zero time of Go.
--
-- Not modelled: the factory of protocol/w3gs/factory.go that caches packets, what is inside a
-- PlayerExtra, names of constants, the text forms of bit sets and the other methods
-- of Buffer for io streams. Of network/lobby:
-- what is sent to the players and the events that are fired, slot numbers below 0, the relay of
-- chat, the stages and timers of a game, and the flags and pings of a Player;
-- a kick is an answer, and the player leaves in a later step. Of network/lan: sockets, tickers and
-- what stands on DNS. Of network/peer: sockets, pings and
-- chat. The packages protocol/bncs, protocol/capi and cmd, the rest of network, and
-- of file all but the header of a replay.
pub mod Prelude
pub mod Dict
pub mod Protocol
pub mod W3gs
pub mod Lobby
pub mod Network
pub mod Replays
