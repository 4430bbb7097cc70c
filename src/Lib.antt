-- ===== src/Lib.antt =====
-- The transport core of rmw_axon, the ROS 2 middleware AXON: the parts of the Rust crate axon_core
-- that hold, order and encode messages, as pure functions on explicit states.
--
-- The parts. A publisher writes its messages to a ring in shared memory (`RingBuffer`), which a
-- `LocalPubSub` wraps with wake-ups, time stamps and loans; subscribers on the same host read the
-- ring, each with a cursor of its own. Messages of other hosts arrive over QUIC, are put into a
-- `SubscriberQueue` by the receiving worker, and are read from there by the same cursors. The daemons
-- of the hosts exchange their graphs, nodes with their topics, as the messages of `peer_sync`, and
-- merge what they receive into a node table in shared memory. A protected message travels in an
-- envelope, whose key the daemons agree on and keep in the QKD store of shared memory.
--
-- The files.
--   Ring          axon_core/src/local.rs, `RingBuffer`: `create_mapped` is what `create_with_fd` does
--                 behind a successful mapping; `write`, `read_slot`, `slot_data_size`, `read`,
--                 `data_available_from` and the rest have the source's names. `published_slot` is the
--                 check that `read_slot` and `slot_data_size` share.
--   Ring/Interleave  the same `write` and `read_slot` on one slot, each load and store a step of a
--                 relation on the slot, the writer's stores to come and the reader.
--   PubSub        axon_core/src/local.rs, `LocalPubSub`: publishing, and the loans, `borrow_buffer`,
--                 `commit_buffer` and `take_loaned`. `fill_loan` is what the borrower does in between.
--   SubscriberQueue  axon_core/src/subscriber_queue.rs. `evict` is the loop of `push`, `take_newest` and
--                 `take_at` are the two branches of `try_take`, and `message_at` is the search that
--                 `read_at`, `peek_prefix` and `peek_size` share.
--   PeerSync      axon_core/src/daemon/peer_sync.rs: the encoders (PeerSync/Encode) and the decoders
--                 (PeerSync/Decode), each over a buffer and an offset, with their errors.
--   Envelope      axon_core/src/security.rs: the sealed messages of the QKD mode, over the key store of
--                 `Qkd`; `parse_wire` is the first half of `open_wire`. The cipher is a parameter, and
--                 what it documents is `IsAead`. `Later` is a relation, a client's calls with the
--                 store changed by other processes in between.
--   NodeTable     axon_core/src/daemon/discovery_shm.rs, the node table, with `merge_remote_nodes` of
--                 axon_core/src/daemon/peer_sync.rs; `merge_node` is one turn of its loop, and the time
--                 an argument. `Fields` is axon_core/src/session/routing.rs, the quality of
--                 service in an entry, with `topic_entry_qos_compatible`.
--   PeerDiscovery axon_core/src/daemon/peer_discovery.rs: the HELLO of a daemon and its codec; with the
--                 wire values of axon_core/src/security_mode.rs.
--   Qkd           axon_core/src/qkd.rs: `Store` has the keys of messages of `QkdKeyStore`, where `scan` is
--                 one pass of the loop of `claim_message_key` and `claim_loop` the loop, `Sessions`
--                 the keys of sessions, `Codec` the messages of the key agreement. A pass that starts
--                 again has emptied an entry, so one more turn than there are entries is fuel enough
--                 unless a live process is in the middle of a claim.
--   Security      axon_core/src/security.rs, `AclEngine` and `AuditLog`; `add_rules` is the loop of
--                 `from_env` over the rules of one variable, and a glob pattern is a parameter.
--   Events        axon_core/src/events.rs: `EventMonitor`; `trigger_all` and `change_all` are the loops of
--                 its two checks. A count is the bit pattern of its `i64`.
--   Qos           axon_core/src/qos.rs: the profiles and `qos_profiles_compatible`.
--   Bucket        axon_core/src/resource.rs: `LeakyBucket`; `refilled` is the first half of `try_send`.
--   Compress      axon_core/src/compress.rs; zstd is a parameter, `Zstd`, and what it documents is
--                 `Zstd.IsCodec`. `decompress_payload` is the part of `decompress_into` behind the checks.
--   Prelude       numbers, lists, maps, `Result` and byte buffers, which these share.
--
-- How the code is read. Every call is one step, but in Ring/Interleave: the ring's atomics and what
-- the queue's mutex guards are fields of a record that a function takes and returns. `&mut [u8]` is
-- the list of its bytes, returned as the call leaves it; `Instant::now()` is an argument; an eventfd
-- is its count. A `u64` counter wraps at `2 ^ 64`, which a theorem's hypothesis excludes where the
-- order of the numbers is at stake; a length stored in 16 or 32 bits is cut to them. Only `claim_loop`
-- of Qkd/Store, and `open_wire` that calls it, run on fuel; each other loop follows a list or a count
-- that its source bounds.
--
-- Not modelled: several writers on one slot at the same time, the reordering of loads and stores that
-- weak memory allows, the interleavings of the other calls, the creation and mapping of segments,
-- descriptors and threads, QUIC and TLS, races for one entry of the QKD key store, the C interface,
-- and the session and daemon that drive the parts above.
pub mod Prelude
pub mod SubscriberQueue
pub mod Ring
pub mod PubSub
pub mod PeerSync
pub mod Qos
pub mod Bucket
pub mod Compress
pub mod Events
pub mod Security
pub mod Qkd
pub mod PeerDiscovery
pub mod NodeTable
pub mod Envelope
