-- ===== src/Lib.antt =====
-- InProxy is an edge proxy: it terminates TLS for HTTP sites and domains, passes other domains
-- through by SNI, relays ports, and keeps kernel DNAT rules, all from one JSON configuration that
-- an admin page edits. This library models the configuration and its validation, the store that
-- keeps it, the routing tables and decisions, the listeners, the nat table, the admin page, and the
-- process that main builds of them from its start to its end.
--
-- Common        names of the standard library passed on, results, lists, integers, association lists
-- Text          bytes and the functions of strings, strconv and net that the program calls
-- Config        config.go: the configured objects; Config/Patterns the two regular expressions,
--               Config/Endpoints normalizeHostPort and normalizeListen, Config/Validate validateSite,
--               validate, validateForward, validateDNAT and validateDomain, Config/Errors the errors
-- Proxy         proxy.go: buildProxy, buildTerminateProxy and their directors; Proxy/Paths
--               singleJoiningSlash, Proxy/Serve compiledRoute.serve and the limiter of a route
-- Relay         the copying of handleTCP (forward.go) and spliceTo (domains.go)
-- Store         config.go: the struct Store, persistLocked, commitLocked, the listeners.
--               Store/Compile is recompileLocked, Store/Match the lookups, Store/Table what the four
--               Upsert methods have in common; Store/Sites, Store/Forwards, Store/Dnat and
--               Store/Domains are the methods of each table, Store/Runs sequences of them, and
--               Store/Load is NewStore and parseConfig
-- Routing       main.go and startPort of domains.go: which handler answers, what the SNI listener
--               decides, which hosts certificates are asked for
-- Forwarder     forward.go: Apply, Shutdown, startListener and stop, with Forwarder/Open the sockets
--               that a listener holds; Forwarder/Udp is udpLoop, and Forwarder/Tcp handleTCP
-- DomainRouter  domains.go: Apply and Shutdown; DomainRouter/Header proxyProtoV2Header,
--               DomainRouter/Replay peekConn and prefixConn, DomainRouter/Sni handle and spliceTo,
--               DomainRouter/Accepting the goroutines of the SNI listener
-- Auth          auth.go: the session cookie, the allowlist, the password; Auth/Issue IssueCookie and
--               ClearCookie
-- Kernel        dnat.go: the DNATManager and the two chains of the nat table
-- Tls           tls.go: ensureTLS and fileExists
-- Process       main.go: the store with the three listeners that main sets; Process/Races the edits of
--               callers that interleave
-- Admin         admin.go: Admin/Forms what the forms ask for, Admin/Handlers the handlers, their table
--               and the two gates, with Admin/Handlers/Told what a user is told
-- Start         main.go: the environment, the start in its order, and the shutdown
-- Examples      a small configuration and a small machine, and the theorems at them
--
-- How the parts interact. A method of the store validates its argument, edits one list, compiles
-- the routing tables where sites or domains changed, writes the file, and calls the listener. The
-- model passes the store explicitly: a method gives its error or success beside the new store,
-- since what it changed before an error stays changed. A run is a list of such edits, each with
-- what the file system does (written, or the write or the rename fails). The store's lock makes
-- every interleaving of callers such a list. The handlers read the tables that the last compilation
-- left. The listeners of the store are the Apply functions of the forwarder, the manager of the nat
-- table and the domain router: a method leaves a list of calls in the store, and Process/perform
-- makes them before the next edit, as one caller does. A handler of the admin page performs one
-- edit at most. Start/start builds such a process from what main finds outside.
--
-- Correspondence. Go maps are association lists with one entry for a key; the order of iteration
-- does not matter where the code iterates. A function that mutates its argument returns the new
-- value. A sort.SliceStable by prefix length is an insertion sort of the same order. An error is a
-- constructor of Config/Errors for each message. Integers are unbounded where the code only
-- compares them; what strconv.Atoi reads is bounded by int64. Every loop is structural recursion
-- over its list; strconv.FormatInt alone is on fuel, one more than the number, which is more than
-- it has digits. strings.ToLower, EqualFold and TrimSpace are those of ASCII; the patterns admit
-- ASCII only, and texts beyond it are left alone by the model.
--
-- Parameters. url.Parse is a function from texts to an optional URL, and json.Unmarshal one from
-- texts to optional objects. Opening a socket, resolving an address, dialling a backend and running
-- iptables are functions that give the error, if there is one. SHA-256, HMAC, net.ParseCIDR,
-- net.ParseIP and IPNet.Contains are functions. The name that the TLS library reads from a
-- ClientHello is a function of the bytes. How many bytes a read gives, and what the file system
-- does with a write, are passed along. Of the admin page, FormValue and the query are functions of
-- a key, and the JSON of its lists and the cleaning of a path are functions. Loading a certificate,
-- opening the main port and each call of ensureTLS give their error, if there is one. Nothing is
-- assumed of any of them but where a theorem says so.
--
-- Concurrency. The listeners of the store are called behind its lock: Process/Races has a step for
-- each edit, each copy of the forwards, and each beginning and end of an Apply, in any order. The
-- requests of a route, each in a goroutine of its own, are the clients of Proxy/Serve, with a step
-- for each send and receive; that ServeHTTP returns is an event from outside, since the backend may
-- never answer and the transport sets no time limit for it. net/http serves the admin page with a
-- goroutine for each request: Admin/Gates/InForce is about requests of which each begins when the
-- one before it has ended, and Process/Races about edits that overlap. The two goroutines that copy between two connections, and the
-- goroutines of the SNI listener, are step relations of the same kind: the steps of the program are
-- apart from those of the network. The UDP loop, its reaper and the goroutines that copy replies
-- share a table under a mutex; an execution is a list of events in any order. Sockets are held in a
-- list, so that what is opened and never closed shows.
--
-- Not modelled: the syntax of JSON, the HTML of the pages, acceptLoop of forward.go, TLS itself,
-- deadlines, and the servers of net/http while they run. The limiter of a route is taken as it was
-- compiled: requests that hold slots of an earlier compilation are not counted. The two files of a
-- certificate are taken to be at different paths.
mod Common
pub mod Text
pub mod Config
pub mod Proxy
pub mod Relay
pub mod Store
pub mod Routing
pub mod Forwarder
pub mod DomainRouter
pub mod Auth
pub mod Kernel
pub mod Tls
pub mod Process
pub mod Admin
pub mod Start
mod Examples
