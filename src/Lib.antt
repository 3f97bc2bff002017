-- ===== src/Lib.antt =====
-- A model of the NDN Forwarding Daemon (NFD): the parts of the daemon that keep the state of the
-- forwarding plane, and what makes each of them correct.
--
-- A packet reaches the daemon at a face. A transport moves link-layer packets and has a state; the
-- link service above it cuts network-layer packets into fragments and puts them together again. The
-- forwarder records an Interest in a PIT entry, looks for Data in the Content Store and for a loop
-- in the Dead Nonce List, and a strategy chooses next hops of a FIB entry, decides on
-- retransmissions, and answers Nacks. The RIB computes what the FIB holds from routes.
--
-- Base: Boolean tests on numbers, lists, `std::find_if` and its kin, lists of keyed records.
-- Packet: faces, Interests, Data and Nacks, and the parts of ndn-cxx and of names that the models
--   take as parameters.
-- FaceSystem.Transport: daemon/face/transport.cpp. The state, counters and persistency of
--   Transport; `set_state`, `close`, `send`, `receive` are its setState, close, send, receive.
--   What doClose of a subclass does is an argument of `close`.
-- FaceSystem.Lp: daemon/face/lp-fragmenter.cpp (Lp.Fragmenter, `fragment_packet`),
--   daemon/face/lp-reassembler.cpp (Lp.Reassembler, `receive_fragment`, `timeout_partial_packet`)
--   and GenericLinkService::assignSequences (`assign_sequences`). Sequence numbers wrap at 2 ^ 64.
-- FaceSystem.Lp.Congestion: GenericLinkService::checkCongestionLevel (`check_congestion_level`).
-- Table.Pit: daemon/table/pit-entry.cpp and the records in pit-face-record.cpp, pit-in-record.cpp
--   and pit-out-record.cpp.
-- Table.Fib: daemon/table/fib-entry.cpp and fib-nexthop.hpp.
-- Table.PitTable, Table.FibTable: daemon/table/pit.cpp and fib.cpp, with the longest prefix match of
--   name-tree.cpp. The entries that hang on the nodes of the name tree are a list; a PIT entry has an
--   identity for its shared pointer. FibTable.AsMap is the map from names to next hops that the FIB
--   implements. Table.Cleanup: daemon/table/cleanup.cpp.
-- Table.Cs: daemon/table/cs.cpp, cs-entry.cpp, cs-policy.cpp and the LRU policy of
--   cs-policy-lru.cpp: `insert`, `erase_impl`, `find` and `set_limit` are insert, eraseImpl, findImpl
--   and setLimit. Cs.Synced and Cs.Lru relate the queue to the set, Cs.Use and Cs.History carry
--   that through look-ups, erasures and whole histories of calls.
-- Table.DeadNonceList: daemon/table/dead-nonce-list.cpp, with its timers as events.
-- Fw.Algorithm: daemon/fw/algorithm.cpp. Fw.RetxSuppression: daemon/fw/retx-suppression-fixed.cpp and
--   retx-suppression-exponential.cpp. Fw.ProcessNack: daemon/fw/process-nack-traits.cpp.
-- Fw.Forwarder: daemon/fw/forwarder.cpp. A `Forwarder` holds the tables, the counters and the log of
--   what the faces were given to send and of the removals of faces, after which a face has the
--   invalid identifier; `on_incoming_interest`, `on_incoming_data`,
--   `on_incoming_nack`, `on_interest_finalize`, `on_outgoing_interest` and so on are the pipelines
--   of these names, `on_new_next_hop` is onNewNextHop. Fw.Forwarder.Run makes events of them, with the
--   removal of a face.
-- Fw.Strategy: the interface of a strategy, a record of triggers with the law that each
--   trigger acts through the pipelines and the PIT entry alone (`Acts`). Strategy.Base and
--   Strategy.Lookup are daemon/fw/strategy.cpp; Strategy.BestRoute, Strategy.Multicast and
--   Strategy.Random are best-route-strategy.cpp, multicast-strategy.cpp and random-strategy.cpp, and
--   fill the interface. Fw.UnsolicitedData: daemon/fw/unsolicited-data-policy.cpp.
-- Rib.Entry: daemon/rib/rib-entry.cpp and route.hpp, and the update of a route in Rib::insert.
-- Rib.Announcement: RibEntry::getPrefixAnnouncement.
-- Tests: runs at concrete inputs.
--
-- State is passed explicitly, an exception or a dereferenced end iterator is a value, a timer is the
-- time at which it is due, and the clock is an argument. All loops are structural recursions over
-- the sequence that the code walks along, so that no model needs fuel. Integers are natural numbers;
-- where the code's integers wrap on purpose (sequence numbers, the capture counter) the wrap is
-- written out. `std::sort` and `std::nth_element` are parameters with what the standard promises,
-- and so are the hash of the Dead Nonce List, names, and the encoder and the parser of packets.
--
-- Not modelled: Forwarder::onDroppedInterest and processConfig, the strategies other than best route,
-- multicast and random, the name tree itself with the measurements and strategy choice tables built
-- on it, the RIB as a tree and its FIB updates, the reliability of links
-- (daemon/face/lp-reliability.cpp), the concrete transports, channels and factories, which are socket
-- input and output, management and configuration files, the priority-FIFO policy of the Content
-- Store, and the tools.
pub mod Base
pub mod Packet
pub mod FaceSystem
pub mod Table
pub mod Fw
pub mod Rib
pub mod Tests
