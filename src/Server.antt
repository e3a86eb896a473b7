-- ===== src/Server.antt =====
-- server/intv_relay_server.py: `class Server` and the objects it shares.
pub mod Types
pub mod State
pub mod Conn
pub mod Lobby
pub mod Handlers
pub mod Loop
pub mod Main
pub mod Told
pub mod Sound
pub mod Frames
pub mod Keeps
pub mod Writes
pub mod Serves
pub mod Runs
pub mod Untouched
pub mod Streams
pub mod Limits
pub mod Tables
pub mod Rounds
pub mod Drops
pub mod Fuel
pub mod Hello
pub mod Vacant
pub mod Reading
pub mod Fanout
pub mod Relay
pub mod Seating
pub mod Fanned
pub mod Starts
pub mod Joins
pub mod Seated
pub mod Kickoff
pub mod Composed
pub mod Bytes
pub mod Bytewise
mod Tests
