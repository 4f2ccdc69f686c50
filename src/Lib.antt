-- ===== src/Lib.antt =====
-- The two services of the Noqeri registry, and its tools. The host bridge is the process behind cmd/noqeri-host
-- through which programs in the Noqeri language reach the network, databases and webhooks without
-- holding a secret. The registry is the server behind cmd/registry that lists packages and hands out
-- their archives. They share no state. The other commands under cmd are tools for its maintainers.
--
-- In the host bridge, a request is a Message. Engine.Dispatch (internal/hostbridge/host.go) hands it
-- to the database host (db.go), to the HTTP host (http.go), to the check of a Stripe webhook
-- (payment.go) or to InvokeNoqeriExtern (extern.go), which turns the call of a symbol into another
-- Message. All errors are codes; a reply never holds the text of an error from outside.
--
-- HostBridge.Error         the codes, and results that are a value or a code
-- HostBridge.Message       Message, Result and safeError of host.go
-- HostBridge.Db.Sql        what database/sql may answer: a record of functions that are given the log
-- HostBridge.Db.Params     sqlArgs and checkSQL of db.go
-- HostBridge.Db.Rows       the reading of a result set in DBHost.Query
-- HostBridge.Db.Host       DBHost: Open is open_db, Close is close_db, CloseAll is close_all, Begin is
--   begin_db, Commit and Rollback are finish, Exec is exec_db and Query is query_db. The state is the
--   host's fields and a log of the calls of the databases, the latest first; h.mu makes each method
--   one step, and a handle that is changed through its pointer is an update of the map
-- HostBridge.Db.Run        a history: the methods in the order in which they take the lock
-- HostBridge.Db.Change     the ways in which a method changes the state; Handles, Ledger, Release,
--   Trail, Gate, Transactions and Results under Db hold the proofs
-- HostBridge.Payment       VerifyStripeSignature; its proofs are in Payment.Signature
-- HostBridge.Http.Providers   providerHosts, allowedHost, tenantHostAllowed
-- HostBridge.Http.Net      publicIP and the DialContext of HTTPHost.client
-- HostBridge.Http.Execute  HTTPHost.Execute; Confined, Clean, Signed, Hosts, Public and Answer hold
--   the proofs
-- HostBridge.Engine.Defs   Dispatch and InvokeNoqeriExtern; Engine.Replies and
--   Engine.Walks hold the proofs
-- HostBridge.Serve         Engine.Serve, from the bytes of its input to the lines that it writes, as a
--   loop that takes and returns the host, and the main function of cmd/noqeri-host, which ends it;
--   Answers, Frames, Actions and Shutdown hold the proofs
-- HostBridge.Tests         runs, and an instance of each theorem
--
-- The registry (internal/registry) reads its catalog once, with Open (catalog.go). Each request goes
-- through ServeHTTP (handler.go), which reads the catalog and asks the cache for archives; the cache
-- builds them with BuildArchive (archive.go), whose paths pass SafeRelative. The catalog does not
-- change; the state is the cache, which each definition takes and returns. Its lock makes each Get
-- one step. A history of requests has them one after another; that the Get calls of two requests at
-- the same time may alternate is not modelled.
--
-- Registry.Pattern         identityPattern and versionPattern
-- Registry.Semver          semverCompare; Shape, Version, Identifiers, Precedence and Mirror under it
--   hold the order of versions and the proofs
-- Registry.Catalog         Open is open_catalog; Versions, Filed and Opened hold the proofs
-- Registry.Relative        SafeRelative; its proofs are in Relative.Confined
-- Registry.Manifest        entryPattern and dependencyPattern
-- Registry.Archive         BuildArchive is build_archive, with the callback of its walk as visit, and
--   ArtifactCache.Get is get_artifact; Walks, Built and Cached hold the proofs
-- Registry.Handler         what ServeHTTP is given and writes, nonnegative, and the page of a search
-- Registry.Handler.Serve   reply, problem, decorated, allPackages, serveStatic, the routes without a
--   package
-- Registry.Handler.Http    the routes of a package, and ServeHTTP as serve_http; Head, Paging, Digits,
--   Answered, Download, Lasting and Placed under Handler hold the proofs
-- Registry.Tests           runs, and an instance of each theorem
--
-- Registryctl (cmd/registryctl) opens the same catalog and checks the files of its releases. Three
-- generators write releases: packageupgrade (cmd/packageupgrade) adds to those that are there, and
-- releasebatch2 and releasebatch3, one program for two lists of packages, make new ones and enter
-- them in the index that Open reads. Their state is the files, as a list of paths with contents, and
-- the index.
--
-- Tools.Imports            the two regular expressions of registryctl
-- Tools.Check              its checkRelease, and the commands verify and audit of main; Inside and
--   Verified hold the proofs
-- Tools.Names              names of releasebatch2 and exportNames of packageupgrade, one file at a
--   time; Names.Listing holds the proofs
-- Tools.Upgrade            packageupgrade: write, exportNames, and main as upgrade_packages; Texts has
--   the texts that it writes, Stored, Marked, Tested, Steady, Settled and Checked hold the proofs
-- Tools.Batch              releasebatch2 and releasebatch3, main as release_batch; Texts has the texts
--   that they write, Accepted, Released and Reopened hold the proofs
-- Tools.Tests              runs, and an instance of each theorem
--
-- Prelude                  tests, lists, orders, sorting, regular expressions, association lists,
--   and the functions of the packages strings, strconv, encoding/hex and path/filepath that the code
--   calls, on byte sequences and rooted paths with slashes
--
-- Bounds. A uint64 counter is written with % 2 ^ 64, so statements on histories ask for fewer than
-- 2 ^ 64 calls. format_nat writes at most twenty digits, which is enough for every int64. No other
-- definition runs on fuel: each loop is recursion on its list. An int of the registry stays below
-- 2 ^ 31: its sizes are bounded by the limits of an archive and its numbers have at most eight
-- digits. The counters of the tools are not bounded.
--
-- Sorting. Sort is insertion from the right, as sort.SliceStable sorts short slices. On distinct
-- names, and on the package ids, which are distinct, any sorting gives the same list. On more than
-- twenty versions of one package the Go library merges sorted blocks, which can give another list
-- where semverCompare is no order.
--
-- Parameters. Databases, url.Parse, the JSON reader, http.Client, the resolver, HMAC-SHA256, the
-- clock, the environment, the order of a walk over a Go map, what the output of the host takes, and
-- what the Go library does to text that is not ASCII are arguments; for the registry also the file
-- system, the JSON of the index and of the replies, net/url, the tar and gzip writers and SHA-256;
-- for the tools what filepath.Walk and os.ReadDir find, which files cannot be written, the verb %q
-- and the JSON of their input. Nothing is assumed of them.
--
-- Not modelled. The JSON of a frame and of its reply; deadlines and contexts, which show only in what
-- the outside answers; the settings of the TLS transport; that http.Client does not follow redirects;
-- Rows.Close; the JSON that a reply of the registry is encoded to, whose constant fields are left to
-- the encoder; the listening sockets, flags and signals of the commands; what a generator that fails
-- has written before; an index whose JSON has other types, or keys in another spelling, than the tags
-- of Index say, on which releasebatch2 and releasebatch3 panic or pass a package over.
pub mod Prelude
pub mod HostBridge
pub mod Registry
pub mod Tools
