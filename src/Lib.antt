-- ===== src/Lib.antt =====
-- Verification library of abb_app, a program that receives SMS from Android phones (over ADB) and from
-- serial LTE modems, stores them in SQLite and forwards them to Telegram, ntfy and e-mail.
--
-- The parts, and the files that model them:
--   Model                 internal/model/message.go: the records that the parts hand to one another.
--   Db, Db/*              internal/db/db.go, outbox.go, messages.go: the tables as lists of rows, each
--                         method as a function of the current second and the tables. Db/Session says
--                         how a statement meets the database: it fails and changes nothing, or it runs;
--                         Db/Times: parseTime, scanTime.
--   Config, Config/*      config/config.go: the structs and Load.
--   Dispatcher            internal/dispatcher/dispatcher.go: deliver, DispatchOnce.
--   Dispatcher/Retry      internal/dispatcher/retry.go: work; Dispatcher/Backoff: Backoff;
--                         Dispatcher/Ticker: the loops of Dispatcher.Run and RetryWorker.Run.
--   App/Save              cmd/abb/main.go: saveAndEnqueue.
--   App/Again             the same function, for a message that was received before; App/Again/Stays,
--                         App/Again/Stored: what the tables show of a message.
--   App/Start             the cursor of a new poller: GetMaxAndroidID, and the case adb.Connected of main.
--   App/Pipeline          the goroutines of cmd/abb/main.go as a list of actions on one world: receive,
--                         sweep, retry, cancel stale rows, in any order and any number of times;
--                         App/Pipeline/Tally the counters of internal/metrics/metrics.go,
--                         App/Pipeline/Served what many rounds of the retry worker make of it.
--   App/Threads           the same goroutines statement by statement, in any interleaving;
--                         App/Threads/Faults: with statements that fail, and the process killed;
--                         App/Threads/Attempts, App/Threads/Life: the attempts of a row under
--                         these, and its state machine.
--   App/Loop              the event loop of main, which starts and stops the pollers, with the watcher.
--   App/Receive           processMessages behind a poll.
--   App/Wiring            buildSenders, buildTranslator, notify and the texts of service messages.
--   Modem/At              internal/modem/at.go: dispatch, Command; Modem/At/Reader: readLoop, byte by
--                         byte; Modem/At/Exchange: readLoop and Command side by side.
--   Modem/Discovery       internal/modem/discovery.go: Discover, findUSBDevice.
--   Modem/Manager         internal/modem/manager.go: scan, runWorker, backoff; Modem/Manager/Fleet has
--                         the goroutines of the workers in any interleaving.
--   Modem/Worker, /*      internal/modem/worker.go: ReadAll with its groups and deletions, the fields of
--                         AT answers, resolveName, the order of the ports in findATPort;
--                         Modem/Worker/Setup: findATPort, setup, waitSIM, Init; Modem/Worker/Run: Run.
--   Adb/Watcher           internal/adb/watcher.go: PickOnlineDevice, check, Run.
--   Adb/Sms, Adb/Poller   internal/adb/sms.go: ParseSMSOutput, parseRow, poll, FetchMaxAndroidID;
--                         Adb/Sims: parseSimInfo; Adb/Sms/Rows: printed rows.
--   Sender/Format         internal/sender: FormatMessage, BuildEmailMessage, WrapDigits,
--                         FormatTelegramMessage, the request of the ntfy sender; Sender/Telegram and
--                         Sender/Email: making a sender and Send; Sender/Digits, Sender/Shown: what a
--                         reader sees of the HTML.
--   Translator/*          internal/translator: the heuristic for Georgian, TranslateFor.
--   Base, Base/*          texts, lists and association lists; Tests/*: runs on small inputs.
--
-- How they interact: the modem workers and the poller give messages to App/Save, which stores a message,
-- asks the translator and makes one outbox row per channel; the dispatcher sweeps the pending rows and
-- calls the senders; the retry worker makes failed rows pending again. App/Pipeline composes these
-- definitions; Db/Session and Dispatcher record the statements and the calls of Send that happen.
--
-- Representation: a text is the list of its bytes (its code points in Translator). Times and durations
-- are natural numbers of nanoseconds, database times of seconds; Dispatcher/Backoff keeps the int64 of a
-- duration as its bit pattern below 2 ^ 64, and the durations of Config are integers. Failing statements, the time that passes, what the senders
-- and the modem answer and where a context is cancelled are inputs. Where the lists that say so are used
-- up, statements succeed and take no time. A number is printed on fuel for twenty digits, which every
-- uint64 fits in. waitSIM runs on fuel for seventeen questions, which its deadline allows, and
-- findUSBDevice on the six rounds that its loop has. Every other loop is structural recursion.
--
-- Each action of App/Pipeline is atomic, and its statements may fail. App/Threads takes the statements
-- one by one, between those of the other goroutines; the mutex of the dispatcher lets one sweep run at a
-- time. App/Threads/Faults adds that a statement fails, and that the process is killed at any point and
-- started again on the same tables. Modem/At/Exchange takes dispatch apart where it
-- lets its mutex go.
--
-- Parameters, for code outside the repository: the PDU decoder and the digest (Codec), the answers of
-- the senders, of the translation server, of the shell of a phone and of the ADB server, sysfs, viper, the
-- bot API, the SOCKS5 dialler, SendFunc, time.Parse, urlRe.ReplaceAllString and
-- unicode.IsLetter beyond ASCII.
--
-- Not modelled: the HTTP, SMTP and bot clients themselves, the statements that make the SQLite tables,
-- the logger, the server of the metrics, packaging: each does no more than call a library.
pub mod App
pub mod Adb
pub mod Base
pub mod Config
pub mod Db
pub mod Dispatcher
pub mod Model
pub mod Modem
pub mod Sender
pub mod Tests
pub mod Translator
