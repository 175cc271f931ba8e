-- ===== src/Lib.antt =====
-- Agentic RAG: a question-answering service over indexed documents. A graph of nodes plans, searches,
-- answers and audits the answer (app/agents); an answer cache stands in front of it (app/cache); a
-- conversation memory is read and written around each run (app/memory); a TTL cache holds
-- embeddings (app/core/cache.py); retrieval turns plans into searches (app/retrieval).
--
-- The parts and their files:
--   Core/Errors      the exceptions of app/core/exceptions.py; a call that may raise is a `Result`
--   Core/Exec        coroutines over a state, which may raise and keep what was written before
--   Core/TtlCache    app/core/cache.py: `get`, `set`, `clear` as functions on the state, with History for
--                    any sequence of calls; Flight is `get_or_load` among concurrent callers: a
--                    schedule chooses whose step is next and whether that caller's scope is
--                    cancelled, as the request timeout does; the loader, the lock of the `finally`
--                    block and the wait are points of suspension
--   Core/Retry       app/core/retry.py: the retry loop over any operation and any sleep
--   Cache/Memory     app/cache/memory.py: the key/value half and the index half; Interface is the
--                    backend that the gateway takes
--   Cache/Keys       app/cache/keys.py, with the Unicode tables and SHA-256 as parameters
--   Cache/Versions   app/cache/versions.py: the knowledge base version in the backend
--   Cache/Gateway    app/cache/gateway.py: `lookup` (Lookup) and `store` (Store), over any backend
--   Cache/Agent      app/cache/agent.py: `invoke`, over any wrapped agent; Stream is its
--                    `stream_events`
--   Memory           app/memory: Models for records, facts and snapshots, Store for the sessions
--   Agents           app/agents: Models, State, Context, one module for each group of nodes (Nodes), and
--                    the graph (Graph) with its routers; Policy is its
--                    loop, Outage its behaviour when services fail; Rag is the summary that
--                    the answer cache reads
--   Retrieval        app/retrieval: Filters, Similarity, Fusion and Diversity (the marginal relevance) for
--                    its arithmetic; Base and Query for the request and its defaults; Chroma for the
--                    vector store over any collection; Vector, Hybrid and Compression for the searches,
--                    with the stages in Compressors; Factory for the choice of a retriever
--   Ingestion        app/ingestion: Metadata, Chunker, Indexer and Pipeline
--   Services         app/services: Embeddings for the provider's vectors and the cache of query vectors,
--                    Chat for the replies of the chat model (llm.py)
--   Tools            app/tools: the calculator and the clock; the registry is in Agents/Nodes/Tools
--   Core/Timeout     app/core/timeout.py: a request as the sequence of what happens to it; the
--                    cancellation that the deadline requests arrives at a later await
--
-- How they interact: the cached agent asks the memory whether a question stands alone, then the
-- gateway, then the wrapped agent, and stores the answer by the gateway's own rule. The graph's
-- loader and writer use the same memory. The gateway is generic in the backend, in the floats, in
-- the JSON codec and in the embedding service; Tests instantiates it with the in-memory backend. An
-- ingestion advances the knowledge base version in the backend that the gateway reads its versions
-- from. A retriever is a record of a name, its capabilities and its search, which compression and
-- fusion take and give; the factory's are built from the vector retriever.
--
-- Bounds and fuel: the limit on the steps of a run of the graph is the engine's own recursion limit.
-- The rounds of the marginal relevance and of the batches are as many as there are candidates and
-- documents: each of them selects or removes one at least. Times are whole ticks of the clock. A
-- floating-point number is an element of a type with an order; no algebraic law of its arithmetic
-- is assumed. Every operation that the source runs under a lock is one step.
--
-- Not modelled: logging, tracing and the records of usage; the HTTP interface; the clients of
-- Chroma, Redis and the model provider and the loader of PDF files, which are parameters or left
-- out; the events that the graph itself streams. The two sides of a hybrid search and the batches
-- of an ingestion, which run concurrently in the program, run in their order here. The factory's
-- memo of wrapped retrievers is left out, as these keep no state of their own.
mod Prelude
mod Dict
pub mod Core
pub mod Cache
pub mod Memory
pub mod Retrieval
pub mod Agents
pub mod Services
pub mod Ingestion
pub mod Tools
mod Tests
