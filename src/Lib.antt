-- ===== src/Lib.antt =====
-- Ziggurat is a Zigbee coordinator stack. This library models the data structures, the network layer
-- and the send tables of crates/ziggurat-zigbee, which hold the state that the driver's handlers in
-- crates/ziggurat-driver read and change, and the serial framing and the requests of the radio driver.
--
-- The parts, with the files that model them:
-- - FlatMap: crates/ziggurat-zigbee/src/flat_map.rs, a map as a sorted vector. Each table of the
--   network layer is one. `get_mut` with a write is `modify`, a loop over `values_mut` is
--   `update_values`, and `entry(k).or_insert_with` is `or_insert`.
-- - RingBuffer: crates/ziggurat-zigbee/src/ring_buffer.rs, the last values pushed.
-- - Time: crates/ziggurat-zigbee/src/time.rs, instants as microseconds.
-- - Nwk.Security: crates/ziggurat-zigbee/src/nwk/security.rs, and the path of a secured frame in
--   crates/ziggurat-driver/src/zigbee_stack/mac.rs, which asks for the key and decrypts, and
--   nwk.rs beside it, which notes the counter. Whether the ciphertext opens is a flag of the frame.
-- - Nwk.Addresses: crates/ziggurat-zigbee/src/nwk/addresses.rs, the map of device addresses.
-- - Nwk.Broadcasts: crates/ziggurat-zigbee/src/nwk/broadcasts.rs, the transaction table.
-- - Nwk.Routing, with Discovery and Replies: crates/ziggurat-zigbee/src/nwk/routing.rs. A step
--   relation over all operations gives the states that a history can reach.
-- - Nwk.Frame: the header types of crates/ziggurat-zigbee/src/nwk/frame.rs.
-- - Nwk.NextHop: crates/ziggurat-zigbee/src/nwk/next_hop.rs, the decision where a unicast goes,
--   from the routing tables, the neighbor table and the route that the host supplies.
-- - Nwk.Neighbors: crates/ziggurat-zigbee/src/nwk/neighbors.rs, the neighbor table. `Children` has
--   attachment, keepalives and removal; `Links` has aging, activity and link status commands.
-- - Sends: crates/ziggurat-zigbee/src/sends. `Unicasts`, `Broadcasts` and `Unrouted` are the
--   tables of unicasts.rs, broadcasts.rs and unrouted.rs, and `Front` and `Settling` are `Sends`
--   of mod.rs, which the driver calls. A call that changes state gives the new tables with the
--   actions; `some none` is a refusal. `resolve` of the driver and the conversion
--   `From<SendFailure>` are arguments. `World` has the frames that the sender holds beside the
--   tables and may write, and the calls as events of a step relation. Its histories have fewer
--   than 2^32 sends, after which ids would repeat, and schedules with a copy.
-- - Spinel: crates/ziggurat-spinel/src/lib.rs, the packed integers (`Packed`), the framing with its
--   checksum (`Hdlc`), the receiver's buffer (`Stream`), the header and the frames (`Frames`),
--   `parse_frames_from_bytes` (`Inbound`), the requests by transaction id with the routing of
--   inbound frames (`Requests`), and `handle_inbound_bytes`, which joins the two halves (`Bytes`).
--   The update of the checksum, which the `crc_all` crate does, is an argument. The enums of
--   commands, properties and statuses stand for their numbers. The channels of responses and
--   updates are tokens, and what is sent on them is a list of deliveries: a full or closed channel
--   is not modelled.
-- - Driver.BroadcastBudget: crates/ziggurat-driver/src/broadcast_budget.rs, the token bucket that
--   admits broadcasts.
-- - Protocol.SendTracker: crates/ziggurat-protocol/src/send_tracker.rs, the confirm frames of tracked
--   sends, over the slot of crates/ziggurat-driver/src/zigbee_stack/send_handle.rs.
-- - Base and Types: the helpers and the address types that the parts share.
--
-- Numbers are natural numbers; what the code computes in a machine width is written with its wrap
-- or its clamp (the request identifier and the ring's length are `u8`, frame counters are `u32`,
-- instants `u64`). An extended address stands for its eight bytes as a number with the same order.
-- A panic is `err` or `none`, as each file says. Loops are structural recursion on lists, but for
-- four on fuel: the search for a frame, which has one round more than bytes, the loop over frames,
-- which has one round more than bytes as well, the search for a free transaction id, which has the
-- seven ids, and the groups of a packed integer, of which a `u32` has five at most.
-- `binary_search_by` of the standard library is its result on a sorted vector.
--
-- Not modelled: logging, iterators, debug assertions and trait implementations, the codecs of the
-- frames and commands, cryptography, the asynchronous handlers, the wire format of the host protocol,
-- and the radio backends.

pub mod Base
pub mod Types
pub mod FlatMap
pub mod Time
pub mod RingBuffer
pub mod Nwk
pub mod Sends
pub mod Spinel
pub mod Driver
pub mod Protocol
mod Tests
