-- ===== src/Lib.antt =====
-- etcd-play: a web page on which visitors start, kill and query a cluster of etcd processes.
--
-- The program has two packages. `proc` runs the processes: a cluster (proc/proc_cluster.go) holds
-- nodes by name, local ones that it starts as processes (proc/node_web_local.go) and remote ones
-- that an etcd agent starts for it (proc/node_web_remote_client.go), each with the flags of its
-- command line (proc/flags.go). `backend` is the web server: handlers (backend/backend.go) work on
-- the cluster and on the visitors' data (backend/cache.go), with the guard that a visitor may not
-- ask too often, and background loops pull the cluster's status, drop old visitors and revive a
-- cluster that was killed.
--
-- Files and code:
--   Base/*                      texts, maps, sorting, time, and calls that may block or panic
--   Proc/Flags                  proc/flags.go, proc/utils_map.go: Flags, GenerateFlags, CombineFlags,
--                               IsValid, Pairs, String, StringSlice, getAllPorts, getPairValueByName
--   Proc/Flags/{Render,Generate,Combine,Tags,ReadBack}   theorems on the command line, ports,
--                               CombineFlags, and reading a value back
--   Proc/RandomBytes            proc/utils_random_bytes.go, and theorems on it
--   Proc/Error, Proc/Message    the errors and the log lines, one constructor for each format string
--   Proc/Node                   Endpoint, StatusEndpoint, and the specification of a node's life
--   Proc/Node/{Local,Remote}    Start, Restart, Terminate, Clean and IsActive of the two kinds
--   Proc/Node/Output            Write of a local node, and theorems on it
--   Proc/Node/{Refines,Spacing,Locks,Lines}   theorems on the nodes
--   Proc/Node/Turns             the methods of a local node one critical section at a time, and
--                               (Turns/System) goroutines that take turns, with theorems on them in
--                               Turns/{Sequential,Signals,Progress}
--   Proc/Cluster                the state of defaultCluster, Stream, Write, and calls of a node
--   Proc/Cluster/Create         the options and NewCluster
--   Proc/Cluster/Control        Start, Restart, Revive, Terminate, Clean, Bootstrap, Shutdown
--   Proc/Cluster/Report         Endpoints, Leader, getStatus, Status
--   Proc/Cluster/Kv             Put, Get, Delete, Stress
--   Proc/Cluster/{Lookup,Named,Reached,Found,Unnamed,Life,Survey,Reports,Leading}, and
--   Proc/Cluster/{Revive,Rounds,Idle,Boot,Halt}   theorems on them
--   Proc/Cluster/Behind         what a local node sends after its method has returned
--   Proc/Cluster/Fit            what every method of the cluster keeps
--   Backend/UserId              backend/utils_id.go, backend/utils_backend.go
--   Backend/State               globalCache, globalStatus and globalFlags as one record, the answers
--   Backend/Cache               backend/cache.go: withCache, okToRequest
--   Backend/Loops               backend/cache.go: the goroutines of initGlobalData, and theorems on them
--   Backend/Start               backend/backend.go: startCluster and the goroutine it leaves
--                               behind, and theorems on them
--   Backend/Start/Turns         startCluster one critical section at a time up to its answer and after
--                               it, requests that take turns, and theorems on them
--   Backend/Router              backend/backend.go: the default flags, CommandFunc, its routes, and
--                               ContextAdapter; theorems on the paths and the buttons of the page
--   Backend/Handlers/*          backend/backend.go: the handlers, and theorems on them
--   Backend/Sound               what every handler and loop keeps
--   Backend/Server              the server: requests, loops and what startCluster leaves running as
--                               steps, and the reachable states
--   Proc/Helpers, Backend/Helpers   utils_file.go, utils_tls.go, utils_http.go, utils_html.go and
--                               utils_time.go of the two packages, and getWelcomeMsg
--   Main                        main.go
--   Tests/*                     the theorems on concrete data
--
-- A Go text is the list of its bytes, and a map an association list whose order stands for the
-- order in which `range` hands the keys out. A time is a number of nanoseconds on one clock, a
-- duration is an integer clipped to 63 bits as time.Sub clips it, and the readings of the clock
-- within a call are arguments. A call passes the state on and returns, waits for good on a locked
-- mutex or a full channel, or panics. The count of requests and the port counter keep the width of
-- the source's machine integers. All recursion is structural except in the decimal and hexadecimal
-- digits of a number, whose fuel is the number plus one, more than it has digits.
--
-- Parameters: what url.Parse finds as the host of a URL, and what processes, agents, etcd servers,
-- the file system, the clock, uuid and SHA-512 answer. Where the range over the nodes starts for a
-- request without a node name is an argument of that call. The cluster of startCluster's goroutine
-- is that of globalCache: one that another start has replaced is not followed. Goroutines of one
-- method of the cluster run one after the other, and the steps of Backend/Server are whole calls;
-- the interleavings of critical sections are those of Proc/Node/Turns and Backend/Start/Turns. The
-- random words of randBytes are a list, and a run that needs more of them has no result. TrimSpace
-- and ToLower treat the ASCII characters only. Not modelled: parsing the command line and serving
-- HTTP and files, which are left to third-party packages, logging, and the HTML around the values
-- that an answer shows.
pub mod Base
pub mod Proc
pub mod Backend
pub mod Main
mod Tests
