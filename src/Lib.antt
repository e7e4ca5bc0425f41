-- ===== src/Lib.antt =====
-- doh-auth-proxy: a DNS proxy that forwards queries over DoH, ODoH and relays.
--
-- A server (dap-lib/src/proxy) takes a packet by UDP or TCP, counts it, and passes it to the DoH
-- client (dap-lib/src/doh_client). The client parses the query, lets the query manipulators answer
-- or block it, looks it up in the cache, chooses a healthy path to a target, sends it over HTTP and
-- stores the response in the cache.
--
-- Files:
--   Prelude, Text: shared helpers; texts as lists of code points.
--   Globals: dap-lib/src/globals.rs and constants.rs. Prelude/Errors: dap-lib/src/error.rs.
--   Url, Hickory, Cache/Linked, Manipulation/Libs, Client/Http: the interfaces to other crates, with
--     the laws that their documentation gives. They are parameters of everything that uses them.
--   Dns: dap-lib/src/doh_client/dns_message.rs, with build_query_a in Dns/BuildQuery; proofs in Laws.
--   Path: path_manage.rs, with DoHPathManager::new in Path/Build; proofs in the other children.
--   Cache: cache.rs; its calls against a specification in Refines, and the interleavings of their
--     steps under the lock in Threads; proofs in the other children.
--   Manipulation: manipulation/domain_block.rs in Block, domain_override.rs in Override, and mod.rs
--     with the implementations of apply in Apply; proofs in the other children.
--   Client: doh_client_main.rs in Query and Exchange, odoh.rs and odoh_config_store.rs in Odoh,
--     doh_client_healthcheck.rs in Health and HealthRound, DoHClient::new in New and resolve_ips in
--     Resolve; proofs there and in QueryLaws and OdohLaws.
--   HttpClient: dap-lib/src/http_client and trait_resolve_ips.rs, with bootstrap.rs in Bootstrap;
--     proofs in Service.
--   Auth: dap-lib/src/auth; proofs in Laws.
--   Entry: entrypoint of dap-lib/src/lib.rs. Supervision: how the services are started.
--   Proxy: counter.rs in Counter and, for its atomic steps, in Threads; serve_tcp_query and
--     serve_udp_query in Serve, for one query at a time, and socket.rs in Sockets. Service has
--     proxy_main.rs with both listeners, the responder and the tasks, whose steps are interleaved in
--     any order. Proofs are in ServeLaws, ServiceLaws, Interleaved, Capacity, CapacityLaws, Answering.
--   Config: the conversion of the parsed file in dap-bin/src/config/target_config.rs, with the structs
--     of toml.rs and the tests of utils_verifier.rs; plugins.rs in PluginFiles, and the loop of
--     dap-bin/src/main.rs that reloads the file in Reload; proofs there and in Laws.
--   Legacy: the crate legacy/, which the present ones replace. Its plugins/ are in Plugins, config/ in
--     Config, context.rs in Context, client/credential.rs in Credential, client/http_bootstrap.rs in
--     HttpClient, servers/ in Servers. Client has client/odoh.rs and how doh_client.rs builds a client;
--     its children have the queries (Query, Exchange), the relays between (Relays) and the check of a
--     target (Health). Proxy has the turns of the services of proxy.rs, and Proxy/Service the services
--     and the entrypoint. Libs has the interfaces to other crates; proofs in the other children.
--   Tests: instances of the interfaces, and the theorems at concrete inputs.
--
-- State is passed explicitly: an operation on the cache, the counter or the client returns the new
-- state with its result. Results are values, errors or panics (Outcome). Numbers are natural, and
-- casts keep their wrap-around. Instants are nanoseconds, with one reading of the clock for each
-- operation; random draws, responses of servers and the token are parameters. A text of a number is
-- printed with fuel one above the number, which bounds its digits; no other loop has fuel.
--
-- Loops that never end are functions of the list of what comes in their turns, or steps of which any
-- number are taken. In the legacy crate a turn of a service has one answer of each server, one reading
-- of the clock and one random draw of each kind; clients that are polled together take their turns in
-- order, and code that never gets the lock that it asks for has nothing as its result (RwLock).
--
-- Not modelled: the sockets themselves, logging, the token client of dap-lib and its JSON calls, the
-- parsing of the configuration file and the watching of it; in legacy/, main.rs and the loops of the
-- listeners. The cache, the
-- counter, the DNS messages and the lookups in the rules of legacy/ are the same code as in dap-lib up
-- to the names of the libraries, and the models of those are used for both.
pub mod Prelude
pub mod Text
pub mod Url
pub mod Globals
pub mod Hickory
pub mod Dns
pub mod Path
pub mod Cache
pub mod Manipulation
pub mod Proxy
pub mod Legacy
pub mod Client
pub mod Config
pub mod HttpClient
pub mod Entry
pub mod Supervision
pub mod Auth
mod Tests
