-- ===== src/Lib.antt =====
-- The ground station of this repository: a Go server (cmd/gcs) that listens to MAVLink vehicles, keeps
-- a model of each, shows it to browsers, and sends the operator's commands and mission downloads.
--
-- Parts and files:
--   Routes            internal/routes/table.go: Upsert, Lookup, Resolve, Evict, ForgetLink, Len, Snapshot,
--                     each a function from a table to the new table and the result.
--   Vehicle           internal/vehicle: the fold of a frame into a vehicle's state (Vehicle.Fold) and the
--                     sweep that finds lost vehicles, with the events they emit. Vehicle.Trace runs them over
--                     a history.
--   Command           internal/command: Registry holds the state and the admission of a command, Settle its
--                     end, its resolution and Publish, Arm the composition of the handler Registry.Arm.
--                     Command.Steps is the relation of all interleavings of the locked sections.
--   Mission           internal/mission/coordinator.go: Coordinator holds the slots and Publish, Transfer the
--                     transaction of run, Download the handler around it.
--   Bridge            internal/bridge: Pipeline is the handling of frames, channel closures and sweeps, with the
--                     sinks as functions; Rates the requester of telemetry rates.
--   Stream            internal/stream/hub.go: the retained state, the subscribers and the fan-out.
--   Recording         internal/recording: Database holds the tables and the SQL statements as functions, Store the
--                     configuration and the state, Publish the recorder, Writer and Loop the passes of
--                     runWriter, Retention deletion and sweep, Lifecycle the calls that start, stop, delete
--                     and close, Replay the reading back. World puts them together as operations in any order.
--   Connection        internal/connection: Profiles is the store of saved profiles (Load, Save, Delete and
--                     UpdateIntent of profile_store.go) with the calls of persist one by one, Select the choice of
--                     a device in ConnectProfile, Startup its guards and resolveProfilesAtStartup.
--   Codec             internal/codec: identities, the outgoing messages (Encode), the decoded envelope.
--   Proto             proto/gcs/v1: the messages that the parts exchange.
--   GoMap, Prelude    Go's map as an association list, tests on numbers and texts, integers, sorting.
--   Examples          the theorems on concrete inputs.
--
-- How they interact: the bridge hands each received frame to the routes and to the vehicle's fold, and
-- publishes the fold's events to the hub, the recorder, the command registry and the mission coordinator. The last two
-- resolve a route before they write, and find the response to a transaction among the published events.
--
-- Conventions: a method under a mutex is one step, and returns the new state beside its result. A clock
-- reading is an argument: milliseconds in routes and vehicle, nanoseconds in command; a duration that is
-- not positive is 0. Floats are bit patterns; the operations on them are the fields of Codec.Encode.Floats.
-- A buffered channel is the list of what it holds. A wait of a download takes the next arrival of a script:
-- a response, the timer or the end of the context; `waiting` is a wait with the script used up. The loops of
-- run count down from the advertised item count, so no fuel is needed. Pointer identity is modelled where it
-- matters: a subscriber is its position in the list of all subscribers ever made, a pending command is found
-- by its key, which the call that opened it owns.
--
-- In recording, whether the driver fails a statement is an argument of the operation that makes it, as are the
-- clock readings; a failed transaction leaves the tables as they were. The loops of retention.go run on fuel, a
-- round for each event or recording and one more. A pass of the writer is one step, so a publication during a
-- pass is placed before or after it. The foreign key of recording_events is not checked, and RowsAffected and
-- LastInsertId do not fail. The file of saved profiles is its bytes, or missing; the failures of the
-- file system and the id that a new profile draws are arguments, and Remove does not fail.
--
-- Not modelled: the frame reader and the transports (gomavlib), SQLite itself, HTTP, JSON and protobuf
-- encoding, logging, the wait of the bridge's Run, the sessions of
-- internal/connection (its Manager), and aeronautics.
pub mod Prelude
pub mod GoMap
pub mod Proto
pub mod Codec
pub mod Routes
pub mod Vehicle
pub mod Mission
pub mod Command
pub mod Stream
pub mod Examples
pub mod Bridge
pub mod Recording
pub mod Connection
