-- ===== src/Lib.antt =====
-- The netplay relay of the Intellivision NBA Basketball port.
--
-- Consoles connect over TCP to server/intv_relay_server.py. A console says HELLO with a name, lists
-- the other players, joins one of them, and so forms a room; the host starts the match; from then on
-- INPUT, CRC, STATE and RESYNC frames of one member go to every other member verbatim. The server is
-- one thread: a selector hands it one readiness event after another.
--
-- Files.
--   Base (Tests, Lists, Dicts, Keyed, Text, Int): Boolean tests, Python lists, dicts and texts,
--     and integers over the native numbers.
--   Wire: `frame`, `pad_name`, the message types, and the split of a receive buffer into frames
--     that `Server.service` makes; Wire/Sizes on lengths, Wire/Chunks on how the split composes.
--   Names: how `on_hello` and `on_join` read a name; Names/RoundTrip on names and their fields.
--   Crc: `Server.log_crc` as a function on a room's table of checksums with a verdict; Crc/Table.
--   Publisher: `class LobbyPublisher`, of which the server calls `update`; Publisher/Worker has
--     the steps of its worker thread and of `shutdown`, in any order that a scheduler may choose;
--     Publisher/Offline and Fresh on what the lobby hears.
--   Server: `class Server` with `Client` and `Room`. Clients and rooms are shared mutable objects,
--     so Server/Types has a heap for each and a reference is a number. Server/State has the writes
--     that the code makes together; Server/Conn `send`, `flush`, `room_broadcast`, `dissolve` and
--     `drop`, which call one another; Server/Lobby `_status` and `on_list`; Server/Handlers
--     `handle` and the handlers, whose `none` is a `ProtocolError`; Server/Loop `accept`,
--     `service`, `sweep`, `log_stats` and the events of `run`; Server/Main `main`, which makes the
--     server and the publisher and shuts the latter down. Server/Sound is the structural
--     invariant, Sound/Leaving that leaving a room keeps it. Server/Keeps, Keeps/Dropping, Writes,
--     Serves and Runs show that what every single write keeps, every run keeps: the interface
--     records they take are filled in Server/Streams, Limits, Tables, Told, Drops, Fuel, Reading
--     and Seating. Server/Fanout, Relay and Fanned are about sends on sockets that do not fail;
--     Server/Seated and Joins, Starts and Kickoff about a JOIN, a GO, and the one after the other;
--     Server/Composed, Bytes and Bytewise about the bytes of frames, Server/Frames about what an
--     invariant may ask of them; Server/Vacant about the name that a HELLO takes over;
--     Server/Rounds about a round of checksums.
--   Client: the readers of tools/bbnet_client_sim.py; Client/Frames and Lobby against the server.
--     Client/Sim plays scripts of sends and assertions against the model of the server, and
--     Client/Scenarios has its scenarios for two seats.
--   Ghost: the reactions of tools/ghost_peer.py, and its loop in Ghost/Main; Ghost/Answers on what
--     it answers and counts, Ghost/Refused on what the present server makes of it.
--   Idlers: test/lobby_idlers.py, with its loop in Idlers/Main; Idlers/Hunting on what the hunter
--     joins, Idlers/Once on how often it does.
--   Soak: the load and the summary of tools/soak.py; Soak/Growth on the growth that it reports.
--   Diff: tools/server_diff.py. Diff has `compare`, Diff/Harness `class Ctx` with `sync` and
--     `render`, Diff/Logs `normalize_log` and `run`, Diff/Scripts and Legacy the scenarios of
--     protocol 2 and 1, Diff/Main `main`; Diff/Chunks, Texts and Masking on what the records
--     depend on and what they hide.
--   Trace: the memory dumps of the test rigs. Trace/Compare is tools/crc_trace_diff.py and
--     tools/cell_diff.py, Trace/Dest tools/check_dest_phase.py and tools/mk_replay.py;
--     Trace/Loaded, Passed and Reached on what their verdicts mean.
--   Rom: the cartridge image. Rom/Patches is tools/patches.py, Rom/Dump and Files
--     tools/dump_rom.py, Rom/Dump and Checked also tools/check_patch.py, Rom/Recon the decoders of
--     tools/recon.py and Rom/Report its report, Rom/Segments tools/check_7000.py; Rom/Called on
--     the call sites of the report, Rom/Builds and Sites on what a build from the dump is and how
--     its call sites decode.
--
-- Parameters. The operating system is the record `System`: its answer to `sock.send` depends on a
-- clock that counts the calls, the client and the bytes, and so may differ from call to call; the
-- seed of a match is its answer to `random.randrange`, and `DrawsSeeds` says that it keeps to its
-- bound. The results of `sock.recv`, the peer's address and the time come with the event.
-- `IsHealthy` says that each send takes a byte or more, or would block. The assembler is a valuation
-- of the patch expressions with its documented operators (`IsAssembler`). What a server answers in a
-- scenario of tools/server_diff.py is the list of what `recv` returned at each `sync`, and the
-- records of its log. The matches of the regular expression that finds dump lines are given.
--
-- Fuel. A drop inside a drop is of a client that is still alive, so `drop` runs on the number of
-- connected clients; the loop of `flush` takes a byte or more each turn, so it runs on the length of
-- the backlog; the loop of `service` takes two bytes or more, so it runs on the length of the
-- buffer; a loop over the members of a room runs on the number of members, which only falls
-- meanwhile; the walk of a timer table takes four words each turn, so the image's length is enough.
--
-- Not modelled: the selector, sockets and threads themselves, logging other than the lines on
-- checksum rounds, the parsing of options, the text that the tools print, the C port (server/c), the
-- console's code (src), and the scripts that run integration tests. A player name is its list of
-- code points, and a byte is a number. A delay of 256 or more, for which `start_room` raises
-- `ValueError` after it has marked the match, is not modelled: what is said of START frames is said
-- of the code for a delay below 256. The assertion of `frame` on the length of a body holds for all
-- bodies of the server, which have at most 200 bytes, and is left out. `finally` in `main` runs when
-- `run` raises, not when the process is killed.
pub mod Base
pub mod Wire
pub mod Names
pub mod Publisher
pub mod Crc
pub mod Server
pub mod Client
pub mod Ghost
pub mod Idlers
pub mod Soak
pub mod Diff
pub mod Trace
pub mod Rom
