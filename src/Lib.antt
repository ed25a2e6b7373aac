-- ===== src/Lib.antt =====
-- Verification of the search service: it copies products, merchants and orders from three services
-- into a search engine, and answers searches over them.
--
-- The parts, and how they meet. A syncer (internal/indexing) pages through what changed in a source
-- since a checkpoint, writes it to the live generation of an index, and saves the checkpoint, under the
-- lock of the collection; a reindexer builds a whole new generation and moves the alias to it. A finder
-- (internal/querying) asks the engine and adds how fresh the index is. Both know the others by the
-- interfaces of internal/search only. The clients of the catalog, order and identity services are the
-- sources, internal/typesense is the index and the searcher, internal/postgres the checkpoint and the
-- lock; internal/grpcapi and internal/httpapi put a finder before callers.
--
-- Files, and the code that each is about:
--   Search/Errors, Identifier, Document, Query, Service: internal/search. Search/Call is the shape of a
--     call of an interface: a function of the state behind it, which returns a value or an error and
--     the state. Search/Time has the functions of package time that the program calls.
--   Querying: internal/querying/finder.go. Indexing/Syncer and Indexing/Reindexer: syncer.go and
--     reindexer.go of internal/indexing; each has a Protocol, a step relation on the calls that a run
--     may make, and Runs, that every run keeps to it. Reindexer/Counts tells by
--     the pages what a rebuild must hold. Indexing/Memory is a world in which no call fails, for the
--     examples, and the writes to an index. Indexing/Delivered has both runs on
--     the index of Typesense/Index: the root says what is relied on of the engine, the source, the
--     checkpoint and the lock, over a view of the world, Indexed has the index's operations there,
--     Runs the sync, Rebuilds the rebuild, and Tables is about the checkpoint of Postgres as the one
--     that they use.
--   Typesense/Query, Schema, Documents, Searcher, Index, Engine: the files of internal/typesense of
--     those names, and errors.go in Engine, beside the parameter that stands for the engine's client.
--   Upstream, Upstream/Catalog, Order, Identity: internal/catalogclient, orderclient, identityclient.
--   Postgres: checkpoint.go and lock.go of internal/postgres; Postgres/Table: the statements of
--     queries.sql.go on the table of internal/migrations.
--   Mesh: internal/mesh/spiffe.go. Grpc/Authorization, Grpc/Server: internal/grpcapi. Http:
--     internal/httpapi. Config: internal/config.
--   Mesh/Credentials, Grpc/Credentials: credentials.go of internal/mesh and internal/grpcapi.
--     Upstream/Dial: `Dial` of the three clients. Typesense/Client: client.go of internal/typesense.
--   Wiring: internal/wiring; Wiring/Sources its sources.go, Wiring/Serving its grpc.go and http.go, which
--     put the parts above together.
--   Commands: cmd/reindex/main.go. Commands/Syncd, Migrate, Searchd: the commands of these names.
--   Arglayout: tools/arglayout/main.go, a check that the service's own sources pass. It stands apart:
--     Syntax has what it reads of a syntax tree, Check its `violations`, Rewrite its `outermost` and
--     `rewrite`, Files its `process`, walk and `main`.
--   Common: shared names and lemmas; integers, strings and floating-point numbers of Go.
--   Tests: concrete inputs, and the theorems at them.
-- A method is a function of the same name in snake_case that takes its receiver's fields first; a part
-- of a longer method that has a name of its own says so in a comment.
--
-- Conventions. A pair of a value and an error is one or the other. A string is its runes. Numbers are
-- integers, and wrap to 64 or 32 bits where the code's arithmetic or a conversion can reach the bound.
-- An unset pointer is `none`; nil and an empty slice are the same list. The loops over pages of Once and Run take
-- fuel, one unit a page, and answer `none` when it ends, since a source may claim more pages for ever; a
-- fuel of the number of pages is enough.
--
-- The rounds of arglayout's repair are twenty, as in the code; the daemon's loop takes a list of the
-- events that end its waits.
--
-- Not modelled: contexts and deadlines, logging, the container that calls the providers, signals and
-- exit statuses of the service's commands, the generated contracts, migrations, HTTP routing and the
-- printing of JSON. The engine's client, the gRPC stubs and connections, timestamps of protobuf,
-- `float64`, the database driver, goose, the file system, TLS, and Go's parser and formatter are
-- parameters.
pub mod Common
pub mod Search
pub mod Indexing
pub mod Querying
pub mod Typesense
pub mod Upstream
pub mod Postgres
pub mod Mesh
pub mod Grpc
pub mod Http
pub mod Config
pub mod Commands
pub mod Wiring
pub mod Arglayout
pub mod Tests
