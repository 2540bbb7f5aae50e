-- ===== src/Lib.antt =====
-- Aegis EDR, a host security agent written in Go. Monitors hand it events of processes, files and
-- the network; it stores them, scores them, correlates them and answers with responses.
--
-- The parts, in the order in which an event meets them, and the files that model them:
--   internal/telemetry/pipeline.go            Telemetry, Telemetry/Dedup, Telemetry/Pipeline
--   internal/eventrouter/eventrouter.go       Router, Router/Events
--   (the goroutine's loop of both)            Batcher
--   internal/storage/storage.go               Storage, Storage/Sql, /Tables, /Open
--   internal/detect/pipeline/pipeline.go      Detect
--   internal/scoring/scoring.go               Scoring
--   internal/correlation/engine.go            Correlation, Correlation/Timeline
--   internal/correlation/nextgen/engine.go    Nextgen, Nextgen/Rules, Nextgen/Search
--   internal/intel/intel.go                   Intel
--   internal/sigma/sigma.go                   Sigma
--   internal/heuristics                       Heuristics
--   internal/monitor/platform                 Monitors
--   internal/policy/policy.go                 Policy, Policy/Mitigation
--   internal/response                         Response, Response/Kill, /Quarantine, /Isolate
--   internal/forensics/timeline.go            Forensics
--   internal/forensics/collector.go           Forensics/Collector
--   pkg/api/server.go                         Server
--   pkg/sdk/plugin/plugin.go                  Plugins
--   internal/purple/purple.go                 Purple
--   internal/report/report.go                 Report
--   internal/doctor/doctor.go                 Doctor
--   internal/config/config.go                 Config: the data types
--   cmd/aegisd/main.go                        Daemon
--   cmd/aegis/main.go                         Client
--   internal/core                             Core, Core/Boot
--
-- The other modules below these hold the proofs. Prelude has the shared names, texts and integers,
-- Dict the maps, Channel the buffered channels, and Sort the sort by time.
--
-- How they interact. Both the telemetry pipeline and the router queue events in a buffered channel
-- that one goroutine empties in batches; they share its loop. The pipeline of Detect reports
-- engine results to Scoring, whose alerts go to a channel. Purple drives that pipeline with events
-- of its own. The router and the pruning change one database, and Storage/Tables follows its
-- history. Intel keeps its indicators in that database and in a cache. Forensics reads the rows
-- that the insertions wrote, its collector puts the timeline in an archive, and Server sends the
-- timeline and calls the responders, which Policy calls as well; Response has those of the daemon.
-- Daemon starts the store, the responders and the server, and prunes; Client logs in to it and
-- reads its database. Doctor checks an installation, with the validation of Policy and the engine
-- of Sigma among the checks.
--
-- How the code corresponds. A struct is a record and a method is a function from the record to the
-- record, with the method's results beside it; names are those of the code in snake case.
-- Goroutines are explicit: the branches of a `select` are signals, and a history is a list of
-- actions, calls and branches taken. Each action is atomic, as the channels and mutexes of the
-- code make their operations; of two calls of Submit at once, which the code lets read the length
-- of the queue before either sends, one is taken to end before the other begins. Pointers that the
-- code shares are places on a heap, which is a list.
--
-- Times are nanoseconds after Go's zero time. int32 numbers are integers, counters of 64 bits wrap
-- at 2 ^ 64. A map is a Dict, an association list whose laws are in Dict. Texts are texts of
-- characters; to_lower, to_upper and trim_space treat the ASCII characters. float64 is the
-- interface Scoring.Float64, NaN included, of which only the laws in IsRounded are used, each of
-- them on the numbers for which it holds; Scoring.Percent has them. The scores in the alert log
-- and in Nextgen are numbers of hundredths.
--
-- Parameters, for code outside the repository: database/sql with SQLite is the record Database of
-- Storage.Sql (whether a transaction begins, what a statement makes of the database, whether it
-- commits), and for reading the record Queries of Forensics. In Storage/Open, what SQLite makes of
-- the files of the disk and the failures of os.Rename are the record System. Storage/Tables has
-- SQLite's tables with their keys and constraints, as its record Engine leaves them: the order of
-- times and the failures of a statement remain parameters. JSON, YAML, HTTP and the cipher are
-- functions, with the round trip of the decoder as a hypothesis where it is used; the files, the
-- list of processes, the signals, the firewall commands, the clock and the installation that
-- Doctor sees are records of functions or states. SHA-256, FNV-1a and the RFC 3339 format are
-- functions; the hooks, the plugins, a client's stream and the responders are functions on a state
-- of their own.
--
-- Fuel. `evaluate_chain` follows parents that need not end, so it takes fuel; none says that the
-- fuel did not suffice. Two above the number of calls so far is enough where each policy was
-- offered under a new ID and after its parent. The queries of the correlation engine and the
-- search in the graph of Nextgen follow pointers and take fuel in the same way: the number of
-- nodes, for the search one more, is enough, since children are later nodes and the search does
-- not visit an ID twice. The loop of Stop takes as many rounds as the queue has events and one
-- more, with which it ends. The killing of a process tree takes fuel above the height of the tree,
-- which a tree of processes has; the loop of `trace` has enough fuel exactly where there is a
-- lineage, as it goes round for ever on a cycle of parents.
--
-- Not modelled: logging, mutexes as such, measurements of time and memory, generated protocol
-- buffers, the display of the command line, go-yara, the WASM runtime, the loading of the
-- configuration by viper, the certificates, and the health report of internal/core, which only
-- measures.
pub mod Prelude
pub mod Dict
pub mod Sort
pub mod Channel
pub mod Batcher
pub mod Storage
pub mod Intel
pub mod Sigma
pub mod Doctor
pub mod Heuristics
pub mod Report
pub mod Monitors
pub mod Router
pub mod Response
pub mod Policy
pub mod Telemetry
pub mod Scoring
pub mod Daemon
pub mod Detect
pub mod Client
pub mod Config
pub mod Correlation
pub mod Nextgen
pub mod Forensics
pub mod Server
pub mod Plugins
pub mod Purple
pub mod Core
