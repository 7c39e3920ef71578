-- ===== src/Lib.antt =====
-- The indexer shim (zeronym/shim): a reverse proxy between a Zcash wallet and an indexer that speaks
-- CompactTxStreamer. It classifies every SendTransaction; where a hub is configured, a transaction with
-- an Orchard bundle, and whatever cannot be read, goes to the hub and never to the indexer, and
-- lookups are answered by the hub.
--
-- How the parts interact. `main` turns the command line into the arguments of `serve_with_shutdown`,
-- which admits connections and gives each its own `UpstreamPool`. `handle` routes a request by its
-- path. SendTransaction goes through `inspect` to the classifier, and then to the operator's indexer
-- (`pass_through`, over the `UpstreamPool`) or to the hub (`HubTransport`). The hub is reached over
-- clearnet (`HubClient`) or over the mixnet: `NymHandle` frames requests with the wire protocol and offers them to the transport loop,
-- which hands them to the driver and correlates the replies; the driver owns the mixnet client, and the
-- supervisor tells it when to rebuild; `MixnetStatus` shows its health.
--
-- The files, and the code that each models (paths below zeronym/shim/src):
--   Wire          wire.rs: the four frames of the hub protocol, one encoder and one decoder each
--   Classify      classify.rs: `classify`, `classify_with_evidence` and the verdict
--   Intercept     intercept.rs: `send_transaction`, `divert`, `get_transaction`, `inspect`
--   Http          proxy.rs and intercept.rs: gRPC replies and the header operations
--   Route         proxy.rs: `route_for`
--   Forward       proxy.rs `pass_through` and `forward`; intercept.rs `ReplayBody`
--   Handle        proxy.rs: `handle`, `forward_to_bootproofd` and the local replies
--   Pool          proxy.rs: `UpstreamPool::get`
--   Hub           hub.rs: `HubClient` (its attempts in Attempt), `HubTransport`; nym.rs: `local_txid`
--   Nym           nym.rs: `NymHandle::submit`, `get_transaction`, `each_target`, `await_reply`,
--                 `NymError`
--   Correlator    nym.rs: `deliver`, `correlate`, `run_transport`
--   Supervisor    nym.rs: `RotationPolicy`, `run_supervisor`
--   Mixnet        main.rs: the driver and the supervisor over their two channels; the way of a request
--                 from `NymHandle` to the SDK, and of a hub's reply back to the waiter
--   Driver        nym_driver.rs: `run_driver`, `build_when_told`, `GatewaySelector`
--   Status        nym.rs: `MixnetStatus`
--   Config        config.rs: `hub_selection`, `is_nym_address`
--   Listener      proxy.rs: `serve_with_shutdown`, `serve_connection`, the classes of accept errors
--   Tls           tls.rs: `BackendTls`, `ServerTls::accept`; proxy.rs: `Backend`, `Upstream::connect`
--   Startup       main.rs: `main`, `nym_diversion`, `build_nym_transport`; hub.rs: `HubClient::new`;
--                 config.rs: the other options, and the texts of `ConfigError`
--   External      the operations of zebra-chain and zaino-proto that the shim calls
--   Prelude, Bytes, Text: lists and tests over native numbers, byte buffers, strings
--   Samples, and the Samples below Correlator, Driver, Supervisor, Mixnet, Listener and Startup:
--                 concrete data on which the theorems are applied
--
-- State and errors. A struct is a record, an enum a data type with the source's variants, and a
-- fallible function returns `Result`. A function that reaches another party returns its contacts
-- beside its result. A `select!` loop is a function of the arm that fired, with the guards of the arms
-- apart; runs are sequences of arms. What the network, the clock, the random source and the libraries
-- answer is an argument.
--
-- Bounds. Machine integers keep their wrap where they can reach it: the counters of `MixnetStatus` and
-- the cursor of `each_target` are taken modulo 2 ^ 64, lengths in frames modulo 2 ^ 32 and 2 ^ 64.
-- Every loop is structural in the list of addresses, events or bytes that it walks, so no fuel is used.
--
-- Not modelled: zebra-chain and zaino-proto are copies of other projects' libraries, and stand as
-- parameters, as do the crates under vendor. What rustls, ACME, hyper and the Nym SDK do is input to
-- the parts above, as are sockets, tasks and timers; the parse of the command line, logging and the
-- handlers of signals (main.rs, lib.rs) are input and output around them. What the SDK
-- does with a message that it took is outside: a send that fails is only logged, and a disconnect
-- discards the SDK's buffers. A body is its bytes and
-- trailers rather than a stream of frames. The channels between the tasks have room in the model; the
-- one that the transport loop reserves a place in is an arm of that loop.
pub mod Prelude
pub mod Bytes
pub mod Wire
pub mod Text
pub mod External
pub mod Classify
pub mod Http
pub mod Route
pub mod Hub
pub mod Forward
pub mod Intercept
pub mod Status
pub mod Handle
pub mod Correlator
pub mod Nym
pub mod Supervisor
pub mod Driver
pub mod Pool
pub mod Tls
pub mod Config
pub mod Listener
pub mod Startup
pub mod Mixnet
pub mod Samples
