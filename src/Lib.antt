-- ===== src/Lib.antt =====
-- DL-DSR in Rust: dynamic source routing over UDP daemons, in two modes. In the mode `dsr` a
-- payload carries the ids of the nodes on its way; in the mode `dl_dsr` it carries one-byte labels
-- that neighbours give each other in hellos, and each node reads the next label alone.
--
-- `crates/dldsr-core` has the data: packets, topology, tables, route cache, counters, and the
-- simulation of a benchmark. `crates/dldsr-node` has the protocol as a state machine, which turns a
-- packet, a command or a tick into a new state, packets to send and events, and the daemon that
-- feeds it. `crates/dldsr-bench` compares the two modes.
--
-- The files, and the code that they are about:
--   Base            shared names: Boolean tests, lists over native numbers, fixed-width additions,
--                   results
--   HashMap         `std::collections::HashMap` as the list of its entries in iteration order
--   Core.Socket     socket addresses and text
--   Core.Packet     crates/dldsr-core/src/packet.rs, error.rs: the packets, the modes, the codec
--   Core.Topology   crates/dldsr-core/src/topology.rs
--   Core.Tables     crates/dldsr-core/src/tables.rs: `NeighborTable`, `LabelTable`
--   Core.Routes     crates/dldsr-core/src/route.rs: `RouteEntry`, `RouteCache`
--   Core.Seen       crates/dldsr-core/src/route.rs: `SeenRequests`
--                   Seen.Window states what it promises, as a memory without a bound
--   Core.Metrics    crates/dldsr-core/src/metrics.rs: the counters
--   Core.Float      `f64` as an interface, with the laws of IEEE 754 that the code relies on
--   Core.Energy     crates/dldsr-core/src/energy.rs, and the averages of metrics.rs
--   Core.Simulation crates/dldsr-core/src/metrics.rs: `simulate_chain`, `percentile`
--   Node.State      crates/dldsr-node/src/protocol.rs: `ProtocolState`, its events and actions
--   Node.Lookup     the lookups in the topology: `logical_neighbors`, `endpoint`, `are_adjacent`,
--                   `previous_in_trace`, `next_data_endpoint`
--   Node.Origin     `origin_data`, `drop_data`, `flush_pending`, `drop_pending_for_dst`
--   Node.Discovery  `discover_and_send`, `start_discovery`, `retry_expired_discoveries`,
--                   `handle_tick`
--   Node.Hello      `handle_hello`, `handle_hello_reply`
--   Node.Rreq       `handle_rreq`
--   Node.Rrep       `handle_rrep`, `validate_rrep`
--   Node.Data       `handle_data`, `validate_data_delivery`
--   Node.Handle     `handle_packet`, `handle_command`
--   Node.Daemon     crates/dldsr-node/src/daemon.rs, udp_transport.rs: one round of the loop
--   Node.Request    daemon.rs, main.rs: the object of a control message, and its reader
--   Node.Control    daemon.rs, main.rs: the `send` command, and the answer to it
--   Node.Snapshot   daemon.rs: the file of metrics
--   Node.Config     crates/dldsr-node/src/config.rs, cli.rs: `load`
--   Node.Startup    daemon.rs: what `run_with_channels` sets up before its loop
--   Node.Main       crates/dldsr-node/src/main.rs
--   Node.*          the other modules of Node hold the proofs: Frame says what each handler leaves
--                   alone, Pending, Queued and Tabled are the parts of the invariant, Reach its
--                   closure over all rounds, Agreement and Stable are about labels, Flood and
--                   Copies about requests, Reply and Accept about replies, Flush about the queue,
--                   Fate about what becomes of a payload, GiveUp about discoveries that fail
--   Network         several nodes: the journey of a payload along a route (SourceRoute, LabelRoute),
--                   of a request (RequestRoute), of a reply (ReplyRoute), and of both (RoundTrip);
--                   Answer is about the destination of a request
--   Network.Truth   what it means that the labels in a packet or a table are true
--   Network.Asked   what it means that a payload was asked for
--   Network.System  all daemons and all datagrams that were ever sent, as a step relation over the
--                   rounds of the daemons: a datagram may arrive late, twice, out of order or never,
--                   but none is made up. Truths has the invariant of labels, Delivery what
--                   follows from it, Provenance the invariant of payloads
--   Bench           crates/dldsr-bench/src/main.rs, report.rs: the comparison, the summaries
--   Tests           the unit tests of the crates, and inputs at which the theorems apply
--
-- How state is modelled: a handler is a function from the state and its arguments to the new state
-- and the actions. Each reading of the clock takes the next value of a function from the number of
-- the reading (`Clock`), so nothing is assumed of time. A counter wraps at its width, as the release
-- build does. A round of the daemon takes the input that `select!` chose, and whether the socket
-- takes each packet, as arguments. `bincode` is a parameter (`Codec`) with one law, its documented
-- round trip. Loops are over lists; none needs fuel.
--
-- The file system is the content of each file, and any call on it may fail. The text of JSON,
-- TOML, floating point and the binding of sockets are parameters (`Json`, `Host`, `F64`, `Bind`). Of
-- `Json` it is assumed that the object of an integer and a string is read back as it was written;
-- the keys of a control message and the checks of its fields are in the model.
--
-- Not modelled: the sockets, channels, timers and tasks of tokio, of which a round gets what they
-- return; logging; the JSON output of the benchmark; `clap`, which fills `Cli` and `Args`; the
-- prototype of io_uring, which prints a line; the eBPF program, scripts and containers, which are in
-- other languages. They hold no decision of the protocol. A node that lies, and a label table that
-- is lost by a restart, are outside `Network.System`.
pub mod Base
pub mod HashMap
pub mod Core
pub mod Node
pub mod Network
pub mod Bench
mod Tests
