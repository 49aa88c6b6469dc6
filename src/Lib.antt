-- ===== src/Lib.antt =====
-- Inbucket is a mail server for testing. It takes mail by SMTP for any address, keeps it in a
-- mailbox per local part, and offers it by POP3, a REST interface and a web page.
--
-- The parts and how they interact. An SMTP session (smtpd/handler.go) checks addresses with
-- smtpd/utils.go, stores a message for each recipient through the interface of smtpd/datastore.go,
-- and broadcasts it through the hub of msghub/hub.go. A POP3 session (pop3d/handler.go) reads a
-- mailbox through the same interface and deletes marked messages at QUIT. The retention scanner
-- (smtpd/retention.go) deletes expired messages through it too, the handlers of REST
-- (rest/apiv1_controller.go) show and delete messages, and the web pages (webui/mailbox_controller.go)
-- show them. The listeners (smtpd/listener.go, pop3d/listener.go) start the sessions, a websocket
-- (rest/socketv1_controller.go) listens to the hub, and webui/recent.go keeps the recent mailboxes of
-- a browser. The program (inbucket.go) loads the configuration (config/config.go), starts the
-- servers, and shuts them down by a channel and a context that they share.
--
-- Files.
--   Common     the libraries' names; lists and Boolean tests on native numbers; bytes of Go strings;
--              the functions of Go's strings, strconv and unicode packages that the program uses.
--   Address    smtpd/utils.go: `ParseMailboxName`, `HashMailboxName` and `JoinStringList` in Mailbox,
--              `ValidateDomainPart` in Domain, `ParseEmailAddress` in Email. An error is a
--              constructor of the result type or `none`.
--   Conn       a network connection: the reads to come, and an outcome for each write.
--   DataStore  smtpd/datastore.go: the interface as a record of operations on a state of any type.
--              The sessions and the scanner take it as a section parameter.
--   FileStore  smtpd/filestore.go and smtpd/filemsg.go: the file system in Files, `readIndex`,
--              `writeIndex` and the directories in Index, the other methods of `FileDataStore` and
--              `FileMailbox` in Mailbox, those of `FileMessage` and `NewMessage` in Message, the
--              instance of DataStore in Interface, a delivery of Smtp on it in Delivery, and a QUIT of
--              Pop3 in Quit.
--   Hub        msghub/hub.go: the history ring, the listeners and the loop over the queue, to its close.
--   Smtp       smtpd/handler.go: the commands and `parseCmd` in Command, the replies in Reply, the
--              regular expressions of arguments in MailArgs, the state, `greetHandler`,
--              `readyHandler` and `mailHandler` in Session, `dataHandler` and `deliverMessage` in
--              Delivery, `startSession` in Loop.
--   Pop3       pop3d/handler.go: Command and Reply likewise, the state, `loadMailbox` and
--              `processDeletes` in Session, the lines that `sendMessage` and `sendMessageTop` read
--              and send in Lines, `transactionHandler` in Messages, `authorizationHandler` and
--              `startSession` in Loop.
--   Retention  smtpd/retention.go: `Start`, `run` and `doScan`.
--   Listener   smtpd/listener.go: `serve` and `pushMetric`, and `NewServer` in Configured of Smtp;
--              pop3d/listener.go has the same `serve`.
--   Socket     rest/socketv1_controller.go: the listener of a websocket, `Receive` and `Close`; in Writer
--              `WSReader`, `WSWriter` and the monitors, as a run over events.
--   Rest       rest/apiv1_controller.go: the handlers of mailboxes and messages over a data store, and
--              in Listing and Deleting on the file store; rest/routes.go in Routes.
--   Web        webui/mailbox_controller.go in Mailbox, webui/root_controller.go in Root, the table of
--              webui/routes.go in Routes, and `TextToHTML` of httpd/helpers.go in Html, over a data
--              store; Files has them on the file store.
--   Httpd      httpd/context.go, and `ServeHTTP` of httpd/server.go; httpd/template.go in Templates.
--   Client     rest/client/apiv1_client.go and rest/client/rest.go over any server; in Server over the
--              one of Rest on the file store.
--   Recent     webui/recent.go: `RememberMailbox`.
--   Daemon     inbucket.go, and `Start`, `serve`, `emergencyShutdown` and `Drain` of the three servers: a
--              step relation on the goroutines and on the channels that they share, with the hub's
--              queue as its senders meet it. Startup has what `main` does in front of them, and the
--              PID file.
--   Config     config/config.go: `LoadConfig` and its tables of options.
--   Logging    log/logging.go: the levels, and the output over rotations.
--   Tests      runs at concrete inputs, and a data store in memory.
--
-- State and operations. A method that changes its session is a function from the state in front of
-- the call to the state behind it; the counters of expvar that a method changes are fields of the
-- state. Goroutines are sequences: a session is its reads in order, the hub is its queue in order,
-- and a listener that fails is an input. Where the order of goroutines matters, at the shutdown,
-- they are a relation, whose steps are those that nothing can come between. A panic is `none` or a
-- constructor of its own, so that its absence is a theorem where it is stated. Text is a list of
-- bytes, numbers are ℕ with the bounds of int32 written out where the source parses one.
--
-- The file store's objects live in heaps, and its methods are a monad of a state with errors. The
-- outcomes of the calls of the operating system are an input, and a call behind their end succeeds.
-- A failed write says how much of the file it wrote. The lock around an index makes each read and
-- each write of an index one step; what other objects do comes between the steps.
--
-- Bounds and fuel. The loop of an SMTP session runs on fuel of twice the number of reads, and
-- three: a round takes a read or ends the session, and only the round behind DATA takes none before
-- its own reads. The loop that makes room below the cap of a mailbox has fuel of the number of its
-- messages, as each round drops one. The other loops are by structural recursion, on the reads, the
-- bytes, the messages or the inputs. When the reads are used up a read is the end of the file.
--
-- Parameters. Go's tables of letters beyond ASCII (the record Unicode), SHA-1, time stamps, the
-- envelopes of enmime and the addresses of net/mail (the record Library), the sessions of gorilla
-- (Sessions), the escaping and the regular expression of links (Escaping), the URLs of net/url
-- (Urls), what JSON makes of a text (Json), the parsed file of robfig/config (File), the engine of
-- html/template (Engine), and the data store, whose operations may fail at any call. A theorem
-- that relies on more of a store says so in a hypothesis.
--
-- Not modelled. The encoding of gob, of which an index is a list of records; `RemoveAll` that
-- fails in the middle; a failed write of a buffered writer that moves a part of its bytes to the
-- file; a read of a mail that fails in the middle. The parsing of HTTP, the syntax of JSON, of
-- templates, of the configuration file and of flags, and the texts of the log. A session is
-- modelled where its sends to the hub go through; sessions that wait there, or panic behind the
-- end of the hub, are part of Daemon, and so are the panics of websockets. The publication of
-- metrics is left out, as it calls expvar and keeps no state. Deadlines are outcomes of reads and
-- writes. Sizes and counters do not overflow an int64, and the numbers of the configuration are
-- not negative. A loop over a Go map takes the order of a list, and a write is whole or fails.
pub mod Common
pub mod Address
pub mod Conn
pub mod DataStore
pub mod Hub
pub mod Smtp
pub mod Pop3
pub mod Retention
pub mod Listener
pub mod Recent
pub mod Socket
pub mod FileStore
pub mod Rest
pub mod Web
pub mod Httpd
pub mod Client
pub mod Daemon
pub mod Config
pub mod Logging
mod Tests
