-- ===== src/Db.antt =====
-- The PostgreSQL database behind internal/db (sqlc's Queries), table by table, with the events that
-- the services hand to other parts of the program.
--
-- A group of tables is a record (`Rooms`, `Org`, `Accounts`), and a query is a function on one such
-- group. Each query may fail for a reason of the server's own, such as a lost connection: `faults`
-- says in advance which of the next queries do. `now` is the clock, in microseconds, which is what
-- timestamptz keeps; it stands still during one method.
pub mod Errors
pub mod Rooms
pub mod Org
pub mod Accounts
pub mod Signals
pub mod State
pub mod Triple
pub mod Reads
pub mod Frame
pub mod Calm
pub mod Steady
pub use Errors.*
pub use Signals.*
unfoldable pub use State.*
