-- ===== src/Lib.antt =====
-- exio, a C++ library that gives an application administration, monitoring and alerting over TCP:
-- the SAM message and its encoding, the buffers that carry it, and the tables that are published.
--
-- How the parts interact. An application updates tables (libexio/Table.cc); a table turns each change
-- into events and messages. A message (libexio/sam.cc) is a tree of named fields; it is encoded into
-- a DynamicSamBuffer (libexio/SamBuffer.cc), whose header is written last, and the bytes are put in
-- the outbound queue of a Client (libexio/Client.cc), which the reactor's thread writes to the socket.
-- Bytes that arrive are copied into a ReactorReadBuffer, from which decodeMsg takes one message at a
-- time; an incomplete one waits for more bytes.
--
-- Files and sources:
-- - Prelude, Error: shared names; the exceptions, each a constructor, and the result of a run. A
--   write outside of an array, undefined in the source, is the error out_of_bounds.
-- - Dict: std::map with string keys, an association list in the order of its keys.
-- - Sam/Container: txContainer, txField, txMessage of libexio/exio/sam.h and libexio/sam.cc. Items is
--   the ordered list of items; the two maps of a container are lookups of the first item of a name.
-- - Sam/Path: qname, and the members that take one; tokenize of libexio/utils.cc.
-- - Sam/Encode, Sam/Decode: SAMProtocol's encodeMsg, calc_encoded_size, check_enc_size, decodeMsg and
--   what they call. Sam/Encode/Wire has the reference encoding, Sam/RoundTrip both together.
-- - SamBuffer: DynamicSamBuffer, with append, check_space and encode_header. SamBuffer/Header has the
--   frame, the header that a body ought to get.
-- - ReadBuffer: ReactorReadBuffer, and the copy of a chunk into it by Client::do_work.
-- - Client/Outbound: the outbound queue of Client: queue, handle_output, events, shutdown_outq.
-- - Client/Inbound: the delivery loop of Client::do_work, and AdminSession::process_input of
--   libexio/AdminSession.cc, over functions for what a session does with a message.
-- - Reactor: the run states of a client, and the loops of libexio/Reactor.cc that hand clients from the
--   reactor's thread to its workers, in Reactor/Steps as a step relation whose states are the clients,
--   the queue, the hands of the threads and the lists of clients; Reactor/Service has the steps that
--   serve clients.
-- - Session: AdminSession, over the Outbound of its client. Session/Delivery puts the queue, the socket,
--   the read buffer and the peer's delivery loop together.
-- - Registry: the sessions of AdminInterfaceImpl, libexio/AdminInterfaceImpl.cc: the slots, the expired
--   and the external sessions, which are pointers into a heap.
-- - Admin/Reply, Admin/Request: the responses and requests of libexio/AdminCommand.cc, and the request that
--   src/admin.cc builds. Admin/Dispatch: how AdminInterfaceImpl answers a request and a logon; an admin
--   is a function from a request and a state, of which the session is a part, to an outcome and the state. Admin/Builtin:
--   the admins for the tables and for their snapshots.
-- - Table/Row: DataRow and the table events. Table/Position: the map from keys to positions that a
--   table keeps for its rows and for its columns. Table/Defs: DataTable. Table/Messages: the messages
--   of a row's update, of its removal and of a cleared table, of libexio/TableEvents.cc and
--   libexio/TableSerialiser.cc. Table/Snapshot: the serialisers of libexio/Table.cc for a snapshot and for
--   a table's description, and the batches of a snapshot.
-- - Monitor: libexio/Monitor.cc over tables that have subscribers, which are numbers of slots of the
--   registry; with the parts of libexio/Table.cc that send to sessions. A table keeps the events of a
--   call until they are sent, at the end of the call.
--
-- Numbers. A size_t is a natural number; where the source's arithmetic on it can wrap around
-- (the room left in a buffer and below the queue's limit, the sum in check_enc_size) the wrap
-- modulo 2 ^ 64 is written out, and so is the int of process_input. The growth of the read
-- buffer, which the source computes through a double, is exact here; the two agree up to a
-- capacity of 2 ^ 53. The byte counter of a client is unbounded.
--
-- Fuel. decode_items recurses on fuel, the number of bytes left and one more; each item takes a
-- byte at least. Printing and counting digits take the number itself as fuel. reserve_loop takes
-- the room that is asked for: each growth adds to the capacity. The search for a free slot takes
-- the number of slots, as the source's loop does. A snapshot takes the number of rows and the
-- batch size together: each round sends a row at least or halves a batch size above 1. The
-- delivery loop takes the bytes in the buffer as fuel: each round consumes one at least.
--
-- The outside. atoi of the C library is a parameter, of which one theorem supposes that it reads
-- printed numbers; so is the text of an exception. The socket is the list of the answers of
-- ::send. The local time that DataRow prints into RowLastUpdated is a function of the number of
-- events on the list. Locks are not modelled: each method holds its lock throughout, and is a
-- step.
--
-- Not modelled: poll and the pipe of the reactor, the contents of the queue of inbound chunks,
-- most of the admins that the interface itself registers, the formatter of messages, logging, and the
-- programs and tests around the library: they are input and output, or text for a reader.
pub mod Prelude
pub mod Error
pub mod Sam
pub mod SamBuffer
pub mod ReadBuffer
pub mod Client
pub mod Reactor
pub mod Session
pub mod Registry
pub mod Admin
pub mod Dict
pub mod Table
pub mod Monitor
