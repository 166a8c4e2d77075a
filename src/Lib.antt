-- ===== src/Lib.antt =====
-- The play queue and the room synchronisation of RSPlayer, a music player for small Linux computers.
--
-- The server (crates/server) takes commands from its clients. Its queue commands
-- (crates/server/src/queue_commands.rs) ask the repositories of songs, albums and playlists
-- (crates/metadata) for songs and call the queue service (crates/metadata/src/queue_service.rs),
-- which keeps the queue, the current song, the priority queue and the playback mode in a key-value
-- database. The player thread (crates/playback) asks the queue service for the current song and
-- moves it on when a song has ended. Players in several rooms
-- form a group (crates/sync): the leader sends audio with the times at which to play it, and each
-- follower measures the offset of its clock to the leader's.
--
-- Files:
--   Prelude: library names, Boolean tests, lists and vectors over native numbers, integers,
--     decimal numbers, UTF-8.
--   Store: the `fjall` keyspaces, as an interface with the laws of a map in key order; Ordered has
--     the list functions of the laws, Table an instance in memory.
--   Song: crates/api_models/src/player.rs and stat.rs (`Song`, `PlayItemStatistics`, `all_text`),
--     and what the code relies on of `serde_json`; Encoding is an instance of it.
--   Queue: crates/metadata/src/queue_service.rs. Mode has `PlaybackMode`; State the fields, `new`
--     and the private helpers; Navigate the moves to the next and the previous song; Edit the adding
--     and removing of songs; Reorder `move_item` and its relatives; Pages the answers to queries;
--     Reachable the sequences of calls and restarts. A function has the name of the method, and
--     takes the state last.
--   Commands: crates/server/src/queue_commands.rs: `handle_queue_command` with what it does
--     to the queue, the player and the clients.
--   Playlist: crates/metadata/src/playlist_service.rs, with Playlist/Handle for the commands of
--     crates/server/src/playlist_commands.rs.
--   Albums: crates/metadata/src/album_repository.rs. Queries and Shelves have the lookups, the other
--     children the theorems.
--   Player: crates/playback/src/rsp/player_service.rs. Loop has the function of the playback thread,
--     Service the methods and the task that listens to events; Remaining and Ends are about how
--     long the thread runs.
--   Transport: crates/server/src/player_commands.rs, the handler of the transport commands.
--   Sync: crates/sync, and crates/playback/src/rsp/tee.rs. Tee is the copy of the decoded audio,
--     Leader the two tasks of leader.rs that time it and write it to a follower, and Sink
--     the pipeline of crates/playback/src/rsp/sync_sink.rs that plays it there: Output has what it
--     writes, Chunk the handling of a chunk, Thread the thread around it. Protocol has the messages
--     and frames of protocol.rs, Clock the exchange of probes and the estimator of clock.rs; their
--     children have the theorems.
--   Icy: crates/metadata/src/icy_reader.rs, the reader of radio streams, and its audio.
--   Genre: crates/metadata/src/genre_utils.rs, the numbers and junk in genre tags, and names in
--     normal form.
--   Mount: crates/mount_helper/src/main.rs, the privileged helper for network shares.
--   Tests: concrete runs.
--
-- Choices. A key stands for the number whose eight big-endian bytes are stored: Queue/State/Key has
-- the bytes, and their order. `status_db` holds four cells with decoded values. Ids are 64-bit and
-- wrap around; theorems on operations that hand out ids ask for room below 2 ^ 64. A write to the
-- database works: an error of the disk, which the code ignores or logs, is not modelled. Each method
-- is one step: the locks and atomics of the service are taken one by one in the code, and calls
-- that interleave inside a method are not modelled. The random generator is a function. The
-- printing of a number runs on fuel that is the number itself, plus one, and every round divides by
-- ten; the loop of the playback thread runs on fuel, for which Player/Ends has a bound; the blocks of
-- Sync/Sink/Output run on the number of samples or frames, of which each block takes some.
-- Floating-point numbers occur in the smoothing of the clock, as a record of operations with two laws,
-- and in the pipeline of Sync/Sink, as one without laws. The tables of Unicode and the parsing of
-- dates are functions of the environment of Albums.
--
-- Not modelled: the other crates (audio output, DSP, hardware, the rest of the metadata, the user
-- interfaces), and of crates/sync the sessions of a follower and the group, which drive sockets.
pub mod Prelude
pub mod Store
pub mod Song
pub mod Queue
pub mod Commands
pub mod Playlist
pub mod Albums
pub mod Player
pub mod Transport
pub mod Sync
pub mod Icy
pub mod Genre
pub mod Mount
mod Tests
