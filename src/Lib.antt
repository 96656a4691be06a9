-- ===== src/Lib.antt =====
-- GateKeeper: the in-memory store of the server. Clients reach `MemoryStore`
-- (include/gatekeeper/storage/memory_store.h, src/storage/memory_store.cpp) through command
-- handlers; it routes each key to one of 64 shards by its FNV-1a hash, and a shard keeps four
-- hash tables (include/gatekeeper/storage/hash_table.h): entries, rate limits, reservations and
-- idempotency records.
--
-- - Base: tests into Bool, lists under native indices, byte strings, signed integers.
-- - HashTable: hash_table.h. A bucket's linked nodes are a list; `std::hash` and the `float` load
--   test are parameters. Children: Models, Nodes and Laws for each operation as a map from
--   keys, Copies for the copy constructor, Scans for runs of `Scan`.
-- - Tables: the interface between the hash table and the store, with the laws that the store
--   relies on; Tables/Hashed fills it with the hash table.
-- - Storage: src/storage/memory_store.cpp and include/gatekeeper/storage/entry.h. Entry has the
--   records, Shard the look-up with its lazy removal, and Keys, Ttl, Counter, RateLimit, Quota and
--   Idempotency the operations on one shard; Purge, Sweeps and Pattern the loops over entries and
--   shards; Store the 64 shards and the operations of the class.
-- - Maps: `std::unordered_map` as a list of pairs.
-- - Protocol: the GKWP/2 wire protocol. Frame is src/protocol/gkwp2/frame.cpp with header.h, Decoder is
--   decoder.cpp, Streams is stream_manager.cpp, Codec is
--   include/gatekeeper/protocol/gkwp2/binary_codec.h and Requests the argument reading of
--   src/service/processor.cpp. The decoder's loop runs on fuel, the number of bytes
--   from the read offset on, since every round takes a header of 24 bytes at least.
-- - Domain: ParkingLot is src/domain/idempotency/parking_lot.cpp, where callers wait for a request in
--   progress. Calls has runs of its operations, Weights what each does to a measure of the waiters, and
--   Waiters the balance of a run.
-- - Json: src/protocol/json_reader.cpp, a reader as a function from the rest of the input to a value
--   and the rest, or the message of its exception; Quote is src/protocol/response.cpp. Strings and
--   Numbers read back what is written. The loops over a string, an array and an object run on fuel,
--   the number of bytes that are left, since every round takes a byte at least; a loop without fuel is
--   `unfinished`, which is neither a value nor an exception. Fuel and Arrays are on the loops over a
--   string and an array.
-- - Http: include/gatekeeper/protocol/http/http_types.h; Url is the reading of a query in
--   src/service/http_service.cpp, and Framing, Sending and Channel are
--   src/protocol/http/http_channel.cpp. The loop over the requests in the read buffer runs on fuel; the
--   number of bytes and one is enough where the loop ends at all.
-- - Commands: the handlers of JSON commands. Commands has the loop over the members of a body, Strings
--   is src/domain/kv/string_ops.cpp, StringBody string_body.cpp, Keys key_ops.cpp, Ttl ttl_ops.cpp,
--   Counter src/domain/ratelimit/counter_ops.cpp, Reservation src/domain/quota/reservation_ops.cpp,
--   Idempotency src/domain/idempotency/idempotency_ops.cpp, and Dispatcher src/command/dispatcher.cpp
--   with name.cpp. Envelope is src/protocol/json_parser.cpp. Bodies has lemmas on the bodies that the
--   processor writes.
-- - Aof: the append-only file, src/storage/aof/aof_writer.cpp and aof_loader.cpp. The outcomes of
--   `write` are a list; the handlers return the records that they append.
-- - Service: Processor with Replies is src/service/processor.cpp, from the bytes of a request to the
--   reply, the records for the append-only file and the store. Http is src/service/http_service.cpp, and
--   Http/Routes its `Handle`.
-- - Examples: tests, on the hash table over a small hash function.
--
-- An operation holds its shard's mutex from its start to its end, and is one step here: a
-- function from the arguments, the time (`CurrentTimeMs`) and the shard to the reply and the
-- shard. `std::uint64_t` arithmetic is written out modulo 2 ^ 64. `std::to_string`,
-- `std::stoull` and `std::stoll` are defined in Storage/Decimal as the C++ library documents
-- them. `double` is a parameter (Storage/RateLimit), with the one law that rounding to nearest
-- gives. The glob matcher runs on fuel: each round reads on in the pattern or gives up a byte of
-- the string, so that (length of the string + 1) * (length of the pattern + 1) + length of the
-- pattern rounds are enough.
--
-- Not modelled: the network, the event loop, the opening, syncing and closing of the append-only
-- file, configuration, logging and the command line; the interleaving of `Keys`, `DbSize`,
-- `Scan` and `PurgeExpired`, which take the shards' mutexes one after the other, with other
-- callers. A command that calls the store several times, as `DEL` and `EXISTS` do for their
-- keys, does so at one time here, but for the two calls of `HandleKvTtl`.
pub mod Base
pub mod Maps
pub mod Json
pub mod Http
pub mod Commands
pub mod Aof
pub mod Service
pub mod HashTable
pub mod Tables
pub mod Storage
pub mod Protocol
pub mod Domain
pub mod Examples
