-- ===== src/Lib.antt =====
-- debswarm: a verification library for the Go program in this repository.
--
-- debswarm is a proxy between apt and its mirrors. A daemon answers apt's requests from a cache of
-- packages, from peers and from the mirrors, and it agrees with the other nodes of its fleet on who
-- of them fetches a package from the WAN. The parts here are the ones that decide what is fetched,
-- by whom, what is kept, and what is let through:
--
-- - Fleet: internal/fleet. Message is Encode and Decode of messages.go and the receive loop of
--   protocol.go; State and Coordinator are coordinator.go's Coordinator with every operation behind
--   its mutex (NotifyFetching, reapStale, HandleMessage, ...); Query is WantPackage,
--   cut where it waits or takes a lock, and run_query is a whole call; Node is a node whose
--   goroutines take these steps in any order. A channel is a number into a store of channels, since
--   several goroutines share it.
-- - Downloader: internal/downloader. State is the two tables of state.go; Grid and Chunked are
--   downloadChunked of downloader.go, Racing is downloadRacing and the retries of chunkWorker.
--   Assembly is about files that are written in pieces. Workers are the arbitrary order of their
--   results.
-- - Cache: internal/cache. DebFilename is parser.go; State, Access, Store are the operations of
--   cache.go (New, Pin, Get, Close, flushAccess, ensureSpace, PutFile, Put, Delete); World runs
--   them in any order together with the readers that Get has handed out. Rows, Eviction, Ends,
--   Sound, Space and PutGet are about them. Metadata is metadata.go, the cache of the indices.
-- - Release: internal/release/release.go, Parse over bytes.
-- - Proxy: internal/proxy. Urls is the URLs of indices (distBaseURL, flatBaseURL, byHashDigest of
--   verify.go, the classes of server.go); Verify is the rest of verify.go with internal/gpg, which
--   it asks for signatures and which hands the body that was signed to Release. Requests is
--   handlePackageRequest of server.go, from the index to the response, with downloadPackage and
--   what it calls, over the models of the index and the cache: Download and Serve have the code,
--   Trust, Asked, Fetches and Responses follow the bytes, Delivery, Sending and Sends the answer
--   to the client, Notices, Unheard and Notified the notices to the fleet.
-- - Index: internal/index. Urls is what it reads from a URL; Packages and Sources are the two
--   parsers, parseForRepo and parseSourcesForRepo; Load is LoadFromData, LoadSourcesFromData and
--   GetByURLPath; the other operations are in the module itself. Indexed is the invariant of the
--   four maps, which Members, Rounds, Forget, Growth, Adding, Reading, Stanzas and Runs show to be
--   kept; Calls runs any sequence of loads and clearings; Refines and Limit are what comes of it.
-- - Retry: internal/retry/retry.go, Do with its backoffs.
-- - Scheduler: internal/scheduler/window.go, ParseWindow, Contains and NextStart, with times as
--   days, hours and minutes.
-- - Prelude: what the parts share: strings as lists of bytes, maps as association lists with one
--   value for a key, integers, and tests.
--
-- The proxy's verification uses the parser of releases and stands before the cache of indices; the
-- proxy puts what the downloader hands it into the cache of packages, and asks the fleet before a
-- download. A request runs over the models of the index and the cache, while the answers of the
-- fleet, the downloader and the mirror are parameters of it, as are the changes that other requests
-- make to the cache between its calls; the notices to the fleet are a list of events. The other
-- parts are modelled with what they call as parameters or as lists of events.
--
-- Numbers are the native ℕ. Where the source has int64, the files say what keeps the values in
-- range, or write the wrap-around or the clamp out; times are nanoseconds or Unix seconds, as the
-- source keeps them. The only fuel is that of handle_stream, one round for each message: one more
-- than the bytes of the stream is enough, as each message has a byte at least. All other loops are
-- by recursion on a list, or on a number that the source itself counts, as the 8 days of NextStart.
--
-- What is outside is a parameter: OpenPGP, SHA-256, the contents of a mirror or a peer, the clock,
-- the free space of the disk, whether a file can be removed, moved, copied or opened. A panic, a
-- blocked send and an error are results of their own.
--
-- Not modelled: libp2p and its host (internal/p2p), HTTP itself (internal/mirror, httpclient, the
-- other handlers of internal/proxy), the coalescing of requests for one package, the scores of
-- peers, which are floating point numbers (internal/peers), rates (internal/ratelimit),
-- configuration, metrics, logs, the dashboard and the commands (cmd/debswarm). SQL errors of the driver are left out, as are lines of the log.
pub mod Cache
pub mod Downloader
pub mod Fleet
pub mod Index
pub mod Prelude
pub mod Proxy
pub mod Release
pub mod Retry
pub mod Scheduler
