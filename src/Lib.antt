-- ===== src/Lib.antt =====
-- A verification library for the runtime of API2Agent (the Python package api2agent/): how a
-- credential is resolved, how a provider is chosen, how a capability is executed and replayed, how
-- a proxied call is gated, forwarded, recorded and accounted, and how schemas and tools are shaped.
--
-- The parts, and the code that they are about:
--   Credentials    api2agent/credentials/models.py; Credentials/Resolver is resolver.py
--                  (`LocalCredentialResolver`), Credentials/Config is config.py. Proofs in
--                  Credentials/Answers, Selection and Secrets.
--   Capabilities   api2agent/capabilities/models.py; Naming, Policies, Failover, Normalization,
--                  Registry and Routing under it are the files of these names. Proofs in
--                  Registry/Packages, Registry/Names, Routing/Best and Routing/Region, and beside
--                  the definitions of Failover and Normalization.
--   Control        api2agent/control/models.py; Control/Storage is `UsageStore` of storage.py, with
--                  `metrics_for_capability` in Control/Metrics and `ledger` in Control/Ledger;
--                  Control/Proxy is `execute_proxy_call` of proxy.py, and Control/Request what is
--                  recorded and forwarded of its request. Control/Handler is
--                  its HTTP handler, and Control/Rows has the rows of the table usage_events.
--                  Proofs in the modules below these.
--   Execution      Capabilities/Execution is api2agent/capabilities/execution.py, with the
--                  loop of attempts in Execution/Attempts, the shadow attempts in
--                  Execution/Shadow and `execute_capability` in Execution/Run.
--   Schemas        api2agent/schema_shaping.py: discriminators, hints (Schemas/Hints) and the
--                  shaping by direction (Schemas/Shaping).
--   Ir             api2agent/ir/models.py and safety/classifier.py; Ir/Naming is utils/naming.py,
--                  and Ir/Filters is filters.py.
--   Replay         api2agent/replay.py, with `execute_replay` in Replay/Execute and the answers of
--                  adapters/models.py in Adapters; Sdk is sdk.py, with `call` in Sdk/Call.
--   Examples       concrete runs, and the theorems at work on them.
--   Python         what the code uses of Python: texts, integers and floats, JSON values, times and
--                  the stable `sorted`. Common has the types, tests, list and dict lemmas of all.
--
-- How the parts interact: the proxy asks the store for the count of the project's events, the
-- resolver for a credential, sends the request with the credential's patch put in, and records one
-- event. The store's events are the source of the metrics by which routing ranks the providers,
-- and of the summaries and the ledger. A capability is executed by the providers that routing
-- ranks, with the credentials of the resolver, and a replay repeats what an event has recorded.
--
-- Conventions. A function keeps the name of the Python function without its leading underscore.
-- State is passed explicitly: an operation of the store takes the store and gives the next one. An
-- exception is `none`, the `err` of a result type, or a constructor of the function's own result.
-- A table is the list of its rows in the order of insertion; a column of the type REAL keeps no NaN,
-- which is NULL there, and no sign of a zero, as SQLite does, and a status code is taken to fit in
-- the 64 bits of an INTEGER. A dict is its list of entries. A float
-- is its pattern of 64 bits: comparison and truncation are defined on it, rounding arithmetic is
-- the parameter `Arith`, sums and means are the parameter `Sums`. Loops are structural
-- recursion over their lists; only the walks over the children of a schema (Schemas/Hints) have
-- fuel. It is one more than the nesting of the schema, and Schemas/Hints/Fuel shows that no walk
-- comes to its end.
--
-- Parameters stand for code outside the repository: the validation of models by pydantic, `json`,
-- `urlparse`, the HTTP client (`Backend`), a package's generated runner (`Runner`, `Runtime`),
-- files, the printing of floats and containers (`repr`), the seeded shuffle, and what a call draws
-- from `uuid4`, the clocks and the environment (`Moment`, `Draw`, `CallDraws`, `Stamps`).
-- Lower and upper case and `strip` cover the ASCII characters.
--
-- Not modelled: what the module of a provider's runner does to the environment when
-- `_load_runner` of execution.py loads it (the loader of replay.py has it), keys of the parameters
-- of a proxied request that are no text, the socket server of proxy.py, the migration of the
-- database and the columns of its routing decisions, the one-line summaries of schemas, the
-- benchmark, the adapters, the parsers, generators and command line, and the Go services: they are
-- the surroundings of the parts above, or read and print files.
pub mod Common
pub mod Python
pub mod Credentials
pub mod Capabilities
pub mod Control
pub mod Schemas
pub mod Adapters
pub mod Replay
pub mod Ir
pub mod Sdk
pub mod Examples
