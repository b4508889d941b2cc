-- ===== src/Lib.antt =====
-- jinko-exporter: the bridge (bridge/, in Go) that reads a solar inverter and publishes what it
-- measures.
--
-- The parts and how they interact. A source fetches a snapshot of the plant. The local Modbus source
-- opens one session to a Solarman V5 logger for each fetch, sends a fixed plan of read-only requests
-- and decodes the registers that come back. Cloud sources stand behind it: a priority chain asks the
-- sources in order, learns the surface of metrics from the first one, and projects what a fallback
-- answers onto that surface. A poller fetches at an interval and keeps the state that readiness, the
-- Prometheus collector and the Home Assistant publisher read, and hands snapshots to the alert rules,
-- which notify through an alert manager.
--
-- Which file models what, with paths under bridge/internal:
--   Prelude        shared names, Boolean tests, lists, results, integers and texts.
--   Modbus         source/modbus. Profile is profile.go: approved_read_spec is the table of
--                  approvedReadSpec. Bytes and Protocol are protocol.go: build_read_request,
--                  validate_read_request, parse_read_response, checksum8 and modbus_crc over lists of
--                  bytes. Transport is transport.go: ReadSession is readSession with the connection's
--                  guard; open_read_session, read_approved, complete and fail are its methods, and
--                  guarded_write is the Write of the connection wrapper. Decode is decode.go and
--                  bms.go, a definition for each decoder. Client is client.go and metadata.go: a fetch
--                  is a program over the session (Client.Program) that stops at the first error, fetch
--                  is Fetch with the cache that it keeps in the client.
--   Model          model: Metric, Snapshot and ModbusEvidence; Model.Freshness is freshness.go.
--   Source         source. Source.Priority is priority.go: the state is what is remembered of the
--                  primary source, and fetch is Fetch over what each source answers.
--                  Source.Enriched is enriched.go. Source.Correlation is alert_correlation.go: the
--                  signature of a snapshot, the worker that observes (observe, RunBackground's queue), the
--                  gate of a source, whose critical sections interleave as steps, and the evidence of a
--                  cloud. Source.Validation is modbus_validation_evidence.go.
--   Jinko          source/jinko. Schema is schema.go, the table of canonical metrics and its indexes;
--                  Text, Numbers, Metadata and Parser are parser.go.
--   Shelly         source/shelly. Rpc is the checks of a reply in getRPC, Meter the rest of client.go and
--                  grid_input.go: the validation of a status and the metrics of the two meters.
--   HomeAssistant  hamqtt. Ids is sanitizeID and the tests of groups and keys, Streams is grid_load.go with
--                  the fields of a publisher and the end of publishSnapshotLocked; Streams.Calls is
--                  OnPollSuccess and OnPollFailure of the inverter and of the meters.
--   Alert          alert. Alert.Manager is manager.go: reserve_send, finish_send, mark_active and
--                  mark_resolved are the critical sections, notify_delivered, notify_active and resolve
--                  the calls. Alert.Manager.World lets the critical sections of many calls interleave.
--                  Alert.Rules is rules.go: each rule gives a decision that the manager carries out.
--   Poller         poller/poller.go: poll_once is pollOnce with its recover, ready is Ready.
-- Each part's properties are in the modules below it, and its concrete runs in a module Examples.
--
-- Conventions. Bytes and words are native numbers below 256 and 65,536; a counter keeps its wrap. A
-- float64 of the decoders, which is a register divided by 10 or 100 or a plain register, is its exact
-- number of hundredths; elsewhere the value of a metric is a parameter. A wall-clock time is its number
-- of nanoseconds since 1970 in UTC, a monotonic reading is a number of nanoseconds. Errors are values of
-- a data type per component, without the message's text. A nil pointer or a missing error is none.
-- Only the digits of a number use fuel, one more than the number, which has no more digits than that;
-- every other loop of the source that is modelled runs over a list or over the 16 bits of a word.
-- A float64 of the cloud is a parameter with the operations that the code uses, and the time of a cloud
-- answer is a fraction whose denominator is a power of two.
--
-- The network, the clock and the context enter as values: an Io or an Outcome says what one call met,
-- and the theorems hold for all of them.
--
-- Not modelled: the HTTP, MQTT and SMTP exchanges, the Prometheus registry and the logging, which are
-- third-party code or I/O; the configuration and the wiring in app; the cards under ha-cards and
-- new-ha-cards, which are browser code in TypeScript. The locks are not modelled as such: a method that
-- holds one from start to end is one step. The two concurrent reads of a correlation job and the
-- notifications around them, the clients of the Jinko and Solarman clouds and the
-- Prometheus collector have no model. Of the Home Assistant publisher the discovery state and messages,
-- the replay after a reconnect, Start and Close have none: a Publication says how far one publication
-- came.
pub mod Prelude
pub mod Modbus
pub mod Model
pub mod Source
pub mod Jinko
pub mod Shelly
pub mod HomeAssistant
pub mod Alert
pub mod Poller
