-- ===== src/Lib.antt =====
-- mezon-go-sdk-turbo hosts many chat bots in one process. Each bot has a tier: a hot bot has a live
-- WebSocket, a warm or cold one is polled over REST. The tier manager decides the tiers within a
-- socket budget and drives the engine through the Actuator interface.
--
-- The files and the code:
--   Types       lib/types/types.go: Tier, BotRef, ChannelTrigger, Message
--   Heap        lib/tier/pq.go with the functions of container/heap that the manager calls: Init
--               and Pop; Heap/Content counts what a heap holds
--   Float       the float64 operations, a parameter
--   Tier        lib/tier/manager.go. Tier/Config: Config, withDefaults, heapMB and the budget.
--               Tier/Score: entry and step 1 of rebalanceLocked. Tier/Slots: its steps 3 and 3b.
--               Tier/Manager: Manager, New and rebalanceLocked, steps 4 and 5 included. Tier/Calls:
--               Add, Remove, Touch, Rebalance, Run's tick, TierOf, HotCount, ForceTier. Tier/Actuator:
--               Actuator and apply. The other children are about a rebalance and about histories.
--   Proto       google.golang.org/protobuf/encoding/protowire, a parameter with its documented laws
--   Ws          lib/ws. Ws/Wire: the envelopes of wire.go. Ws/Content: content.go, with its regular
--               expressions as matchers in Ws/Content/Patterns. Ws/Post: BuildSendEnvelope and
--               BuildUpdateEnvelope. Ws/Walk: walkVarints and walkWire of decode.go. Ws/Json:
--               encoding/json as decode.go and content.go use it. Ws/Decode and Ws/Channel:
--               DecodeChannelMessage. Ws/Ack: DecodeAck and WithCid of ack.go. Ws/Conn: conn.go, the
--               Conn with its read loop, its senders in Ws/Conn/Senders and its requests in
--               Ws/Conn/Acked; Ws/Dial: Dial. Ws/PingWheel: pingwheel.go.
--               Ws/Fields, Ws/Parts and Ws/Read describe frames as fields; Ws/Leb is a protowire for
--               runs on concrete frames; the other children are about results
--   Rest        lib/rest. Rest and Rest/Calls: clans.go and GetAccount of account.go; Rest/Account:
--               accountFromWire and walkFields; Rest/Session: Authenticate of rest.go; Rest/Messages:
--               its ListSince and fromAPI. The other children are about results
--   State       lib/state/state.go: the interface Store. State/RedisStore: RedisStore, over the
--               commands of Redis as a parameter; State/Answers is about its answers
--   Poller      lib/poller/poller.go: PollOnce and emit, over a Store, a Lister and a limiter.
--               Poller/Pool: the defaults of New, and Submit. Poller/Once is about how often a message
--               is emitted, Poller/Bounded about how many polls run; Poller/Memory is a Redis in
--               memory for runs
--   Turbo       lib/turbo/turbo.go: Engine and New. Turbo/Hot: OpenHot, onClose and CloseHot;
--               Turbo/Life: these, the read loops and the ping wheel as interleaved steps, with
--               children about their invariants. Turbo/Session: session. Turbo/Sync: SyncClans.
--               Turbo/Send: every sender. Turbo/Deliver: onHotMessage, onPollMessage and deliver.
--               Turbo/Register: Register, Deregister, AddChannel, Poll, and the engine as Actuator.
--               Turbo/Tiers: an engine with its manager, event by event. Turbo/Reuse,
--               Turbo/Synced, Turbo/Frame and Turbo/Removed are about results
--   Prelude     shared names, Boolean tests, lists over the native numbers, counting, integers,
--               bytes with strconv's ParseUint and FormatUint
--
-- State. A Manager is its Config and the entries of the map `bots`, in any order; a method is a
-- function from the state, and from what Now and MemMB answer, to the state and the actions it
-- hands to the Actuator after it unlocks. The code locks around each change, so a history is a list
-- of calls. Go visits a map in an order of its own: every range takes its order as an argument
-- (`Orders`), and the theorems hold for each that visits every entry once (`IsRange`).
--
-- The engine is its maps and its ping wheel, and a Conn in them is its address. A function is one
-- critical section, with the calls after the unlock as its result; Turbo/Life interleaves them.
-- session, SyncClans and the senders are each a run without another goroutine in between, but for
-- the wait of a request, during which the Conn changes as others like. time.Now answers one time in
-- SyncClans, and one for the check and one for the entry in session.
--
-- Numbers. An `int` and a Duration are integers, an instant is a number of nanoseconds since Go's
-- zero time, and Sub stops at the bounds of an int64 as Go's does. A float64 is a type with the
-- operations that the code uses (`FloatOps`), and no law of them is assumed.
--
-- Outside. A call that leaves the program is a function from the state of the other side to an
-- answer or an error and that state, so it may fail at any time: Redis, the HTTP client, the client
-- that is generated for ListSince, json.Unmarshal of a session, the handshake of Dial, and the write
-- of a socket. A message of an error is kept as far as it is a constant.
--
-- Fuel. `down` of container/heap has as much as the heap has elements, and each round moves to a
-- child of larger index; step 3 has one round for each candidate, which each round pops. The loops
-- over a frame have one round for each byte, and each round takes at least the byte of a tag.
--
-- Bytes. A Go string or slice of lib/ws is the list of its bytes, and an int32 its bit pattern. A
-- visitor's captured variables are a state that the walker passes on.
--
-- Not modelled: Activity of lib/state, which reads two counters; New of lib/rest, which builds the
-- HTTP clients; of lib/ws the settings of the dialer, and what the websocket does with a frame; Run of
-- lib/turbo, which starts the loops of the ping wheel and the manager; contexts, where no case is
-- taken on one, and timeouts, but as a request that is answered late; log output; and bench/scale,
-- which only measures. sort.Slice is an insertion sort, one of the sorted orders it may give.
pub mod Prelude
pub mod Types
pub mod Heap
pub mod Float
pub mod Proto
pub mod Tier
pub mod Ws
pub mod State
pub mod Poller
pub mod Rest
pub mod Turbo
