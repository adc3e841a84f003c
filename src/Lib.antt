-- ===== src/Lib.antt =====
-- RadioLedger: its ADIF library, the shared state of its sync workers and the workers for Club Log,
-- its keyring, its roles, the guards of its routes, its import of ADIF files, its awards and its
-- confirmations.
--
-- RadioLedger keeps logbooks of radio contacts. Logs come in and go out as ADIF text, which
-- pkg/adif reads and writes; background workers (api/internal/services/sync) send contacts to
-- remote services, held back by a rate limit and a circuit breaker that they share through the
-- database; roles (api/internal/auth/rbac.go) say who may do what with a logbook. The import and
-- export handlers call the parser and the writer, and the handlers ask the roles first.
--
-- Base: shared names. Text is Go's: a string is its bytes, and ToUpper, ToLower, TrimSpace and the
-- tests of characters are those of ASCII; bytes from 128 on stay as they are. Base/Table is Go's
-- maps with string keys, Base/Decimal strconv's decimal integers of 64 bits, Base/Utf8 the
-- functions of unicode/utf8 and strings.ToValidUTF8.
--
-- Adif: pkg/adif. Adif/Record is record.go, Adif/Fields fields.go, Adif/Mode mode.go, Adif/Parser
-- parser.go with its scanner in Adif/Scan and its tags in Adif/Tag, Adif/Writer writer.go with
-- sortFields in Adif/Order, Adif/Callsign callsign.go (a call sign is ASCII), Adif/Validate the
-- tests of validate.go but those on dates and frequencies. A method that changes its receiver
-- returns the new value. The reader is the input that is left, so that the only error of reading is
-- io.EOF; a context is a Boolean, constant during a call; the output is the text written so far,
-- and writing does not fail. The decoder of Windows-1252 (golang.org/x/text) is a parameter, and
-- may fail. The texts of error messages are left out. The band limits are in units of 100 Hz. The
-- descriptions of the field table are left out. sort.SliceStable is a stable insertion sort. Fuel:
-- `scan_fields` is given the length of what is left and one, as each round takes a byte;
-- `next_loop` two more than what is left, as each round that goes on ends at a marker; `collect`
-- three more than the input, as each record leaves fewer bytes, or takes the prefetched fields, or
-- meets the end.
--
-- Sync: api/internal/services/sync/infra.go. Sync/Config is the policies and the settings that
-- override them, Sync/Circuit the circuit breaker with its table sync_circuit_state, Sync/Rate the
-- rate limit with its table sync_rate_limit_window. An operation is one transaction under an
-- advisory lock, so that operations follow one another; each of its statements may fail, and a
-- transaction that fails, a failed COMMIT included, leaves the table as it was. The clocks of the
-- process and of the database are arguments, with no order between them. RetryDelay computes with
-- floats and random numbers and is left out, with RetryJitter. Sync/Worker is Handle of
-- worker_base.go, on both tables; the work of a service is its outcome.
--
-- Sync/Status: the table sync_status with the statements of orchestrator.go on it, those of
-- handler/qso.go and the trigger of database/migrations/001_initial_schema.sql that an edit of a
-- contact runs. Sync/Status/Marks is markUploaded, markSyncError, markAllPendingFailed,
-- CancelPendingSync, markSyncConfirmed, markClubLogDXCCConfirmed, CountPendingEQSLQSOs,
-- resetQSOSyncStatus and the DELETE of a deleted contact, Sync/Status/Insert InsertPendingSyncForQSO
-- and BackfillSyncStatusForService, Sync/Status/Dashboard the statements of dashboard.go and of the
-- workers for LoTW, eQSL and HamQTH, Sync/Status itself the query of fetchPendingQSOs. The contacts
-- and their logbooks are one list; a statement runs as a whole and may fail; instants and numbers are
-- natural numbers. ORDER BY created_at leaves the order of rows of one instant open, such as those of
-- one backfill; in the model they stay in the order of the table. Sync/AwardProgress is upsertDXCCAwardProgress.
--
-- Sync/Export: qsosToADIF, with the writer of Adif. A frequency is printed by exact division, which is
-- what the float and its six places give below 4 * 10^15 Hz. Sync/Credentials is
-- decryptServiceCredentials, EnabledServicesForUser and DecodeCredentials of services/clublog;
-- json.Unmarshal is a parameter.
--
-- Sync/ClubLog: the Work methods of ClubLogUploadWorker (Sync/ClubLog/Upload), ClubLogDeleteWorker
-- (Sync/ClubLog/Delete) and ClubLogPollWorker (Sync/ClubLog/Poll), over the circuit, the rate
-- limit, the rows, the credentials and the text of the batches. Club Log is its answers, an
-- argument of each call; the retry instant of NextRetryAt, which is random, and the instant that
-- time.Parse reads are arguments; nobody else writes to the tables during a run; the loop over the
-- entities of a poll takes them in any order, as a list. Fuel: the loop over the batches is given
-- the number of contacts, as each round takes at least one.
--
-- Crypto: api/internal/crypto/crypto.go, in Crypto/Keyring. AES-GCM and HKDF are a record Cipher of
-- operations with two laws: what was sealed is opened with the same key and nonce, and a sealed text
-- is 16 bytes longer. The nonce is an argument, as the random source may fail.
--
-- Auth: api/internal/auth/rbac.go, in Auth/Rbac. A role or permission that is no constant of the
-- source is kept with its text.
--
-- Middleware: api/internal/middleware. Middleware/StreamToken is stream_token.go, Middleware/ClientIp
-- clientip.go, Middleware/RateLimit ratelimit.go, and Middleware/Access auth.go, scope.go, rbac.go and
-- plan.go with the queries of api/internal/database/sqlc that they ask, and the chain of the guards on
-- the routes of a logbook (api/internal/router/router.go). A guard answers with a status or hands on.
-- What is used of net, netip, golang.org/x/time/rate, the authenticator, the hash of keys and
-- the parser of UUIDs are parameters, any functions at all. The map of tokens and the map of limiters
-- are tables, an operation on them runs as a whole, and instants are counts of nanoseconds without
-- bound. Row-level security, which can hide rows from a query, is left out.
--
-- Import: api/internal/jobs/adif_import.go. Import/Date is parseADIFDateTime, Import/Row mapADIFRecord
-- with the tables of its fields in Import/Row/Columns, Import/Batch deduplicateBatch and
-- insertQSOBatch, Import/Run countADIFRecords and importRecords, which read the file with the parser
-- of Adif. The contacts of the logbook are a list; the query, the COPY and each INSERT may fail as the
-- table that they meet says; the query of deduplicateBatch fails as a whole, and a row that it cannot
-- scan, or an error between its rows, which the code passes over, is left out. Instants are counts of
-- seconds. parseMHzToHz, inferBandFromFreq and
-- ParseFloat, which compute with floats, are parameters. The context is not cancelled during a pass,
-- and the rows of job errors and of progress are left out. Fuel: three more than the length of the
-- file, as for ParseAll.
--
-- Awards: api/internal/services/awards. Awards/Wpx is wpx.go, for call signs in ASCII;
-- Awards/Milestones is milestones.go, without the labels of the milestones.
--
-- Confirmation: api/internal/services/confirmation/matcher.go, in Confirmation/Matcher. Whether an
-- operator has a verified record of a method is a query, a parameter that may fail; a confidence is
-- in hundredths.
--
-- The modules named Examples hold runs on small inputs and the theorems at such inputs.
--
-- Not modelled: the HTTP handlers and clients, the rest of the SQL and what sqlc generates, the sync
-- workers of the services other than Club Log but for what they write to sync_status, the importers of call sign databases, the LoTW vault,
-- and the desktop and web clients, which are input and output around these parts or other languages.
pub mod Base
pub mod Adif
pub mod Sync
pub mod Auth
pub mod Awards
pub mod Confirmation
pub mod Middleware
pub mod Import
pub mod Crypto
