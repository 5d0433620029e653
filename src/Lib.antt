-- ===== src/Lib.antt =====
-- Surfacelock: a lockfile for the tool surface of an MCP server, and a proxy that holds a session
-- to it. This library models the package root, the package proxy, the fetch of the package client,
-- the grading of the package conformance, and the command line in cmd/surfacelock.
--
-- The program's parts. A server's surface is what it says in its handshake and the tools that it
-- lists. The package root admits such bytes (surface.go), hashes each tool and the whole surface
-- (canonical.go), stores both in a lockfile entry (lockfile.go) and compares an entry with a live
-- surface (diff.go). The package proxy stands between a client and an upstream server: it reads
-- each line's envelope (proxy/frame.go), verifies handshakes and pages of tools against the entry
-- (proxy/verify.go), and routes or refuses lines (proxy/proxy.go). The package client fetches a
-- surface from a server (client/fetch.go), with static headers that headers.go checks. The commands
-- read a lockfile, fetch the servers of its entries, and compare, add or renew entries
-- (cmd/surfacelock). The package conformance grades recorded exchanges with a server against the
-- revision that it claims to speak (conformance/grade.go).
--
-- The files and what they model:
--   Prelude, with its children: the names, the byte strings, the maps and the results that the
--     other modules share.
--   Go: the parts of Go's standard library that the source calls on its data: unicode/utf8,
--     strings, and encoding/json's scanner and Unmarshal into maps, lists, strings, numbers,
--     structs and `any`.
--   External: what is a parameter of the model, as a record and an instance argument: jcs.Transform
--     of the package gowebpki/jcs, SHA-256, unicode.SimpleFold (as the least member of a fold
--     orbit), strconv's float64 parsing, and the order in which Go ranges over a map.
--   Canonical: canonical.go (Canonicalize, HashCanonical, hashBytes).
--   Decode: decode.go (DecodeExact, PairedSurrogates); Decode/Surrogates.
--   Names: surface.go (validName, CheckEra); Names/Rules.
--   Surface/Keys, Surface/Tool, Surface/Admit, Surface/Rollup: the rest of surface.go
--     (checkAliasedToolKeys; hashTool, admitTool; Admit; SurfaceHash).
--   Lockfile/Entry, Lockfile/Shape, Lockfile/Validate: lockfile.go (EntryFromSurface; validateShape
--     and Parse's checks; Validate).
--   Diff/Class, Diff/Classify, Diff/Surfaces: diff.go (the data; classifyToolDrift and
--     SafetyOrDisplayChanged; Diff).
--   Proxy/Frame, Proxy/Params: proxy/frame.go (parseFrame) and the readers of params in
--     proxy/proxy.go (listParams, callToolName, discoverParamsEra, metaEra).
--   Proxy/Verifier, Proxy/Handshake, Proxy/Enumeration, Proxy/Page: proxy/verify.go (resolveDrift;
--     verifyHandshake; newEnumeration; verifyToolsPage and checkToolsPage).
--   Proxy/State, Proxy/Requests, Proxy/Core: proxy/proxy.go (the core; handleClientFrame;
--     handleServerFrame). A session is a list of lines from both sides (Proxy/Core/Session), in the
--     order in which the handlers take the core's mutex.
--   Headers: headers.go (Headers.Validate).
--   Client/Session, Client/Pages, Client/Fetch: client/fetch.go (what is sent; fetchPages;
--     fetchModern, fetchClassic, fetchOnce and Fetch).
--   Client/Messages: client/client.go (resultFromMessage, idMatches, readCapped, readSSE, and call
--     of both sessions, from the response or the lines that the server sends).
--   Conformance/Exchange, Conformance/View, Conformance/Cells: the data of conformance/wire.go and
--     conformance/probe.go; viewOf and the predicates on a view; outcomes, cells and verdictOf.
--   Conformance/Tools, Conformance/Classic, Conformance/Stateless, Conformance/Grade: the rest of
--     conformance/grade.go (the shared cells; gradeClassic; gradeStateless; Grade), and
--     ValidateEraClaim of conformance/report.go.
--   Conformance/Probe: conformance/probe.go (the steps of a run; Conformance/Probe/Plan has Probe
--     with its two plans, Check and CheckLockEntry of conformance/report.go and lockentry.go).
--   Cli/Exit, Cli/Select, Cli/Compare, Cli/Lock, Cli/Pin: cmd/surfacelock/main.go and json.go
--     (worse and exitFor; readLockfile and selectEntries; compare, finish and the reports; lock;
--     pin, and the entry that proxy serves).
--   Cli/Flags, Cli/Reflected: cmd/surfacelock/headers.go (parseHeaders; refuseReflectedCredential).
--   The other modules prove what their names say; Tests holds sessions, fetches, runs and captures
--   at concrete inputs.
--
-- How state corresponds. A byte string is a list of numbers. A Go map is an association list, a set
-- is the list of its keys. The objects `verifier`, `enumeration` and `core` are records, passed and
-- returned. An enumeration that `pending` and `cursors` share by pointer is held in a store under
-- its identity. A nil pointer or slice is `none`. What a handler writes or sends is a list of
-- effects. How `Backend.Send` ends is an input. Errors keep their branch and lose their text.
-- JSON-RPC error codes are kept as magnitudes. The server of a fetch, with the transport to it, is
-- a record of functions of all that was sent before, the latest first, so it may answer as it
-- likes; what a fetch or a command sends is returned with its result. What a command reads and
-- writes is an argument and a result: the decoded lockfile, the entries and the text that it
-- writes, whether stdout takes a document. Lockfile.Render, url.Parse, filepath.Base, os.LookupEnv
-- and os.WriteFile are arguments of the commands that call them.
--
-- Bounds and fuel. The caps of `Limits`, 256 requests in flight and 1024 tracked cursors are the
-- source's. No function of the program runs on fuel here: the scanner is one step for each byte,
-- and the loops are structural; fetchPages counts down the pages that lim.MaxPages leaves. The one
-- fuelled helper prints an index in decimal, with one more unit than the index.
--
-- Not modelled: the texts of messages, evidence and findings, Sanitize, Render and its indentation,
-- the decoding of the lockfile's JSON into structs, the copying, printing and applying of headers,
-- the goroutines, readers and writers of proxy.Run, the backends, the processes and requests of
-- client.go, the wire of the package conformance (a parameter of the probing), the notes of a
-- capture, the rendering of the matrix, flag parsing, and what the commands print without --json.
pub mod Prelude
pub mod Go
pub mod External
pub mod Canonical
pub mod Decode
pub mod Names
pub mod Headers
pub mod Surface
pub mod Lockfile
pub mod Diff
pub mod Proxy
pub mod Client
pub mod Conformance
pub mod Cli
mod Tests
