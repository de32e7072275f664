-- ===== src/Lib.antt =====
-- Verification of the capture and trace pipeline (go/internal).
--
-- A capture plugin writes what players do to capture logs, files of length-prefixed compressed
-- frames of events. `compile.Run` streams the logs, spills the events into bucket files by session,
-- reads the buckets back, sorts each session, cuts it and writes it as a trace; a replay client
-- reads the traces and plays them against a server, with accounts whose player data was placed in the
-- world before. The development models the formats, the compiler, the sessions of the client with their
-- launch, and the placement:
--
-- - Prelude: Boolean tests, lists, integers, words and bit facts. ℤ stands for the signed Go types;
--   a conversion to a w-bit type keeps its wrap-around (Prelude/Word). Bytes, and strings, are lists
--   of numbers.
-- - Wire: go/internal/mcwire/wire.go. A method of `Writer` is a function to the bytes that it
--   appends; a method of `Reader` is a function from the bytes that remain to the value and the
--   bytes that remain then, or to an error. The loops that write a VarInt recurse on the
--   accessibility of the number; those that read one have the five and ten rounds of the source.
-- - Event, Payload: go/internal/rawevent/rawevent.go. An event with its header, and the payload of
--   each kind with its encoder and its decoder.
-- - Trace: go/internal/tracefile/tracefile.go, `Write` and `Read` with the schema versions 1 to 3
--   and the delta coding of the offsets.
-- - CaptureLog: go/internal/rawlog/rawlog.go, `WriteFile`, `Stream` and `StreamDir`. The callback is
--   a parameter that threads a state and may return an error.
-- - Compile: go/internal/compile/compile.go. The bucket files (Spill), the grouping by session
--   (Sessions), the second pass on one session (Session, Sorting, Schedule), the origin and the
--   inventory of a trace (Origins) and its tags (Tags). Run is `Run`, both passes with the counters, the
--   names of the traces and the lines of the manifest, which go/internal/tracefile declares.
-- - Codec: go/internal/mcproto/codec.go, packets on a connection with and without compression.
-- - Amplify: go/internal/amplify/amplify.go, the copy of a trace with jitter in time and space and with
--   varied numbers, over the generator splitmix64 as it is written.
-- - Packets: go/internal/mcproto/packets.go, ids.go and entitytypes.go, the packets with their
--   builders (Build), parsers (Parse) and packed positions (Position); go/internal/mcproto/chunk.go,
--   the walk over a chunk column (Chunk).
-- - Replay: go/internal/replay. The ledger of the blocks that a trace touches (Ledger, blocks.go), the
--   tracker of live entities (Entities, entities.go), the state of a session with `send` and the books
--   of digs and placements (Session, session.go), `dispatch` by families of events (Dispatch,
--   dispatch.go), and of protocol_flow.go the packets that a session reads (Reader) and its ticks
--   (Ticks). Counting holds the runs: a login, an event, a packet, an idle tick or a change of state is
--   one step, and the steps of the two goroutines follow each other in any order. Runner is the building of
--   sessions and the ramp of runner.go, with the gate of util.go that spaces the launches (Gate).
-- - Scenario: go/internal/scenario/scenario.go, the defaults and the checks of `Load`.
-- - Accounts: the names of the accounts, which runner.go and playerdata.go build alike.
-- - PlayerData: go/internal/playerdata, `Run` with its loop over the accounts and `removeAll`
--   (Accounts), the contents of a file (Files), the slots (Slots), UUIDs (Uuid), and the files of real
--   players with their assignment to traces (Imports).
-- - Nbt: go/internal/nbt/nbt.go, the writer (Writing) and the reader (Reading) of tags, to and from the
--   bytes that gzip takes and gives. A compound, a Go map, is the list of its entries in one order.
-- - Tests: the theorems at concrete captures, payloads and traces.
--
-- A loop that reads until its input ends has as many rounds as the input has bytes, since each
-- round of it that succeeds takes a byte at least (`stream`, `event_loop`, `load_bucket`); the reader of
-- NBT has three for each byte, for a round is a value, an item or a field, and each of these takes a byte. An
-- error of the model alone, `out_of_fuel`, stands for rounds that do not suffice, and `panics` for a Go
-- panic.
--
-- Parameters: the compression libraries (Compression: what was compressed is decompressed to the
-- same bytes), float arithmetic on bit patterns (Float), `md5.Sum`, `sha256` and `strings.ToLower`, the
-- clock and the lateness of its timers, the reading of an imported file, and whether each write
-- on a connection succeeds. A float is its bit pattern. Counters do not overflow: they are natural
-- numbers, where the source has int64.
--
-- Not modelled: the file system and logging; `ReadFile` and `ReadDir`, which read what `Stream` and
-- `StreamDir` do into one slice; the JSON of the manifest; what remains of an object that a decoder
-- returns beside an error; interleavings inside a handler of a session, between a send and what is noted of it; the dialling, the timers and
-- the channels of `Run` and `replayLoop`; the texts of errors and reasons. Not modelled of the
-- repository: the sampler and the reports of go/internal/replay, the files and gzip around NBT, the
-- YAML of a scenario, the files around player data, the commands under go/cmd, and the capture plugin,
-- which is in Java.
pub mod Prelude
pub mod Wire
pub mod Nbt
pub mod PlayerData
pub mod Scenario
pub mod Accounts
pub mod Packets
pub mod Payload
pub mod Event
pub mod Compression
pub mod Trace
pub mod CaptureLog
pub mod Float
pub mod Compile
pub mod Tests
pub mod Codec
pub mod Replay
pub mod Amplify
