-- ===== src/Lib.antt =====
-- kaas-lib: a Kafka client in Rust (crates/kafka-conn, kafka-meta, kafka-consume, kafka-produce,
-- kafka-read, kafka-admin). This library models the parts that decide what is sent, where, when and
-- with which numbers, as functions of explicit state.
--
-- The parts, and the files that model them.
--
-- Conn, of crates/kafka-conn/src:
--   Conn.ErrorCode (error_code.rs): the broker's error codes with their wire values (Code), names
--     (Name) and retry axes; Conn.Errors (error.rs): the client's error type and its classification.
--   Conn.ApiKey (api_key.rs): the api keys, both directions of the wire code (Code), names (Name),
--     the keys that mutate, and key sets (KeySet, `ApiKeySet`).
--   Conn.Gate (config.rs): `ConnectionConfig::permits`, the gate in front of every request.
--   Conn.Versions (versions.rs): the version table of a broker and the negotiation.
--   Conn.Sanitize (sanitize.rs): `control_safe`.
-- Meta, of crates/kafka-meta/src:
--   Meta.Routing (routing.rs), Meta.Scope (cluster.rs: `Cluster::scoped` and `in_scope`, over the
--     gate of the connections), Meta.Snapshot (snapshot.rs: `MetadataSnapshot`), Meta.Retry (retry.rs:
--     `RetryPolicy`) and Meta.Retry.Reask (`reask`).
-- Consume, of crates/kafka-consume/src:
--   Consume.Session (session.rs: `FetchSession`); Session.Broker describes the broker's side as
--     KIP-227 does, independently of the client's code.
--   Consume.Group (group.rs: `Membership`): Reconcile holds `reconcile`, Beat the heartbeats and the
--     leaving of a member.
--   Consume.Consumer (consumer.rs: `Consumer`): Reassign holds `reassign`; Deliver and Fetches follow
--     what a fetch does to a position and to the buffer.
--   Consume.GroupConsumer (consumer.rs: `GroupConsumer`): a membership with a consumer inside. Laws
--     and Settle follow what a settling does to the assignment, Beaten a heartbeat, Agreement a poll
--     and any number of them.
--     Consume.Task holds what its steps are written with, Consume.Rebalance (rebalance.rs) what is
--     told to the listener; Rebalance.Told and Rebalance.Lost say which partitions it was told of and
--     which left the assignment.
--   Consume.Classic (classic.rs: `ClassicMembership`): Wire holds the embedded subscription and
--     assignment, Messages the requests, Member the membership. Consume.ClassicConsumer (consumer.rs:
--     `ClassicConsumer`): Poll holds `poll` and `leave`; Announce, Moves, Join and Rounds follow the
--     assignment through a poll.
--   Consume.Assign (classic.rs: the assignors): Cooperative and Balance hold
--     `assign_cooperative_sticky`, Owners the members' claims, Range the arithmetic of `assign_range`.
-- Produce, of crates/kafka-produce/src:
--   Produce.Idempotence (idempotence.rs: `Sequences`), Produce.Partition (partition.rs),
--   Produce.Accumulator (accumulator.rs and the data of record.rs). Types holds the data, Buffer the
--     operations on one partition's batches, Actor and Upkeep the methods of `Actor`, and Work the
--     order of the calls in one turn of `Actor::run`. Life follows one partition's buffer over its
--     whole life.
--   Produce.Transactions (transactions.rs): the state, `check_live`, `note` and `call_coordinator`;
--     Operations holds the methods, each with its check and its completion apart.
-- Read, of crates/kafka-read/src:
--   Read.Record (record.rs), Read.Header and Read.Batch (batch.rs: `peek_header`, `decode_partition`),
--     Read.Decompress (decompress.rs: `bounded`). Batch.Hiding and Batch.Reference hold the
--     description that the walk is compared with.
--   Read.Scan (scan.rs): Plan holds `plan` and `scan`, Absorb `refill`, Step `emit_next` and
--     `next_event`.
--
-- How they interact: a request passes the handle's scope and then the connection's gate, both of
-- which read `is_mutating`; a key's version comes from the negotiation; an error's axes decide on
-- refreshes and retries. The accumulator buffers records by partition, stamps a batch with numbers
-- of `Sequences` when it is dispatched, and learns from the send task which numbers to give back. What
-- its transaction answers is a parameter there. A scan and a consumer decode what they fetch
-- with the walk of Read.Batch, which reads headers and bounds the decompression.
--
-- A group consumer acts on what its membership's heartbeat answers, by reassigning the consumer inside,
-- and a classic consumer on what its membership's join and sync answer; its leader computes with the
-- assignors.
--
-- How state is written down: a method with `&mut self` returns the new record, together with what it
-- answers. A caller that waits on a channel is a number, and what it is told is a pair of the number
-- and the answer. A `HashMap` is an association list in no particular order, a `BTreeSet` an ascending
-- list, a moment and a `Duration` a number of nanoseconds; an i16, i32 or i64 is an integer, with the
-- saturating and wrapping operations written out (Prelude.Words). An `async fn` that a caller may drop
-- while it waits is a step that returns its answer or that it was dropped, the calls that others
-- see, and the state it reached (Consume.Task).
--
-- Parameters, for code that is not in the repository: the codec's version ranges, its embedded
-- messages and its judgement of a code (kafka_protocol), random draws (rand), the arithmetic of floats,
-- the clock, and what the broker and the transaction say in a turn of the accumulator. What is assumed of
-- one is a hypothesis of the theorem that needs it.
--
-- Bounds: counts of members, partitions and records are far below 2 ^ 31, so their conversions to i32
-- keep the number; where a conversion can fail on data from a broker the failure is written out.
--
-- Fuel: the loop of `reask` takes as many rounds as time units are left before its deadline, and its
-- theorem shows that this is enough where the clock advances between rounds. The walk over the batches
-- takes one turn for each byte and one more, and its theorem shows that this is enough. The loop of
-- `next_event` waits on brokers, so no number of turns is enough for all of them. A poll of a classic
-- consumer takes six turns, as the code does. All other loops are
-- structural recursion.
--
-- Not modelled: sockets, framing, TLS, SASL, SCRAM, OAuth and OIDC; the pool and the dispatch of
-- Cluster; the clocks of a snapshot; the backward walk and the fetch requests of kafka-read; the
-- fetchers of kafka-consume, the answers of its commits, and its `NegotiatedConsumer`; the encoder, the
-- dispatcher and `send_group` of kafka-produce; kafka-admin; the descriptions of the error codes and all formatting;
-- the memory permits of `Accumulator::append`.
-- They are input and output, cryptography, or code of other libraries for the most part.
pub mod Prelude
pub mod Conn
pub mod Meta
pub mod Consume
pub mod Produce
pub mod Read
