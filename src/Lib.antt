-- ===== src/Lib.antt =====
-- The web framework go_web: its routing tree, server, middlewares, caches and sessions, as functions
-- on explicit state, and theorems on them.
--
-- Parts and files
--   web/router.go: Router/Node.antt has the tree (`node`), Router/Register.antt has `Route` with
--     `ChildOrCreate` and `parseFaram`, Router/Search.antt has `BackSearchChild` and `findRouter`.
--     The modules below Register and Search, and Router/RoundTrip.antt, hold the theorems on each.
--     Router/Dispatch.antt and the modules below it have the two together: all routes of a program
--     registered, and then any request. Router/Range.antt has an order for `range`.
--   web/handler_based_on_map.go: HandlerMap.antt, the router that the tree replaced.
--   web/context.go, web/middleware.go: Http.antt has the context, handlers, middlewares and
--     `flashResp`; Http/Values.antt has the values read from a context.
--   web/server.go, web/group.go: Server.antt, with `ServeHTTP`, `serve` and the groups;
--     Server/Dispatched.antt, Server/Grouped.antt and Server/Nested.antt have the way of a request
--     through it, and Server/Sort.antt a sort of groups as sort.Slice may be.
--   web/file.go: Files.antt has the file system as a parameter, Files/Transfer.antt upload and
--     download, Files/Static.antt static resources. web/template.go: Http/Template.antt.
--   view/views.go: View.antt.
--   middlewares/: Middlewares.antt, with recover, accesslog, errhandle and limiter;
--     Middlewares/Metrics.antt (prometheus) and Middlewares/Tracing.antt (opentelemetry), with the
--     calls on a span as events in Middlewares/Tracing/Events.antt.
--   cache/LRU.go: Cache/Lru.antt, on the lists of Cache/Linked.antt (container/list).
--   cache/LFU.go: Cache/Lfu.antt; Cache/Lfu/Links.antt and Cache/Lfu/Valid.antt have its invariant.
--   cache/Group.go, Cache.go, singleflight.go, ByteView.go: Cache/Group.antt, on the LRU cache;
--     Cache/Flight.antt has `Do` of singleflight.go as a step relation on any number of goroutines,
--     and Cache/Registry.antt the registry of the groups with its lock.
--   session/manager.go, session_type.go: Session.antt; session/memory, session/redis and
--     session/cookie: Session/Memory.antt, Session/Redis.antt and Session/Cookie.antt.
--     Session/Redis/Removed.antt has a session of the redis store before and after Remove,
--     Session/Laws.antt what a store promises, and Session/Life.antt a session over several
--     requests.
--   Prelude.antt, Strings.antt and Int64.antt hold what these share: names of the libraries, maps and
--     lists, strings as lists of bytes, and int64 as a bit pattern.
--
-- How they interact
--   The server holds a router whose handlers are functions on the context. ServeHTTP wraps the
--   routed handler in the middlewares of the groups and of the engine, runs it on a new context, and
--   writes the response. A handler ends by returning or by a panic, with the context as it leaves it,
--   and its type has a parameter for the state that handlers share. A cache group reads through its
--   LRU cache to a data source. The session manager calls a store and a propagator through their
--   interfaces and keeps the session in the context.
--
-- How the code is read
--   A Go map is an association list with one entry for a key; where the code ranges over a map and
--   the order matters, the order is a parameter (`order` for the regular expressions of a node),
--   which visits the entries of the map (`IsRange`). A pointer that is shared (a list element, an
--   entry of the LFU cache, a memory session) is a number that names a place of a store.
--   A panic is a value: `Panic` for Route, `nil_dereference` for the
--   LFU cache, `panicked` for handlers. An int64 is a number below 2 ^ 64, with sums modulo 2 ^ 64 and
--   the signed order. The calls of an eviction callback are a log.
--
-- Parameters
--   The regexp package (`RegexpLib`), the result of sort.Slice on the groups (`sorted`), the
--   bucket package (`Ratelimit`, and `IsMetered` for what it does), the data source of a cache
--   group (`getter`), the cache package behind the memory store (`GoCache`), the redis client
--   (`RedisClient`), files, forms and ServeFile (`FileSystem`, `Filepath`), golang-lru
--   (`LruLib`), html/template (`TemplateLib`), prometheus (`Prometheus`), opentelemetry (`Otel`),
--   the decoders of encoding/json and net/url, and the test of net/http on the name of a cookie
--   (`valid_name`). What WriteHeader of net/http does with a status code is written out
--   (`checked_header`). A theorem that relies on what one of them does
--   has it as a hypothesis.
--
-- Fuel
--   The loops that evict in `Set` run on fuel. In the LRU cache, fuel above the number of elements is
--   enough, as each round takes one; `none` means that the fuel ran out. In the LFU cache the outcome
--   `out_of_fuel` is a loop that goes on. All else is structural recursion.
--
-- Not modelled
--   The program main.go, SetCookie of the context, Start and Shutdown of the server, and output on the console and in
--   logs: they call net/http and fmt and nothing else. Goroutines, but for the single flight: locks are
--   left out, except for that of the registry, and a cache group is run by one goroutine. A failed write
--   of the response, which ends the process.
pub mod Prelude
pub mod Int64
pub mod Strings
pub mod Router
pub mod Http
pub mod HandlerMap
pub mod Server
pub mod Middlewares
pub mod Cache
pub mod Session
pub mod Files
pub mod View
