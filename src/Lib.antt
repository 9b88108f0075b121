-- ===== src/Lib.antt =====
-- Verification of ProtoRelay, a mail relay with its own HTTP stack and node network.
--
-- The files, and the code that each models:
--   Base: lists, options, byte strings, association lists, big-endian integers.
--   LruCache: include/framework/cache/lru_cache.h. `m_list` is the list of nodes, the most recent
--     first, and `m_map` takes a key to an iterator. An iterator is the key of its node, since
--     `splice` and the removals move no other node. Times are numbers that a caller passes.
--   Node/Envelope: the codec in src/framework/node/node_proto.cpp (`encode_envelope`,
--     `decode_envelope`). A byte is a number below 256, a position a suffix of the wire string.
--   Node/Router: the class `NodeRouter` of the same file. The executor runs posted lambdas one at a
--     time: `posted` is its queue, and `run_task` runs one. `outstanding` holds the writes that a
--     link has taken and whose callback has not run, `effects` the calls of handlers and
--     completions and the frames given to links. Node/Router/Handlers has `run_send` and `deliver`,
--     Forward has `forward`, `receive`, the lambda of `handoff` and the callback of `notify`,
--     Replay the nonce windows and the seen message ids, Requests the public operations.
--     Node/Router/Flight has the step relation: a posted request, a task that runs, a frame from a
--     link, a write whose callback runs, with or without an error, and `stop`.
--   Snowflake: src/mail_system/back/algorithm/snow.cpp. The clock is the list of readings that
--     `current_millis` returns; the wait for the next millisecond walks down that list.
--   Http/Framer: src/framework/http/h2/h2_framer.cpp. Http/Hpack: h2_hpack.cpp beside it, with the
--     tables in Http/Hpack/Tables and Huffman; `read_*` return the rest of the block where the
--     source moves `pos`, and `decode` is a loop over `turn`.
--   Fsm: include/framework/fsm/fsm_desc.h, a protocol machine as data. Fsm/Smtps: the table of
--     include/mail_system/back/mailServer/fsm/smtps/smtps_desc.h, Fsm/Pop3: that of
--     pop3/pop3_desc.h. Fsm/Runs: the runs along the rows of a table. The handlers of SMTP are not
--     modelled.
--   Node/Trust: src/framework/node/node_trust.cpp and its header, the trust store of a link.
--   Node/LinkWire: the frames and the handshake's payloads in src/framework/node/node_link.cpp.
--   Node/Link: the class `NodeLink` of that file: its state and the helpers of its operations.
--     Node/Link/Handlers has `consume` and `handle_frame`, Sessions the life of a connection, Tasks
--     the lambdas that calls post, Events the steps: calls, posted tasks, callbacks of the
--     connection and timers, each with what it reads from the outside (clock, random bytes, jitter,
--     transport). A callback carries the generation that it was made in; the events may come in any
--     order. An exception sets `raised`, which ends the loop of `consume`. Kept and the modules
--     beside it carry an invariant through every operation; Calm and Handshake say what a frame may
--     change.
--   LineFolder: include/mail_system/back/algorithm/line_folder.h, the filter in front of the
--     storage of inbound mail. `none` stands for a loop that has not ended.
--   Fsm/Session: include/framework/session_base.tpp, the command buffer and the pipeline of a
--     session with LF line ends; `effects` is what it asks of its connection, in order. Fsm/Engine:
--     include/framework/fsm/fsm_engine.h. A handler gets the drain of the session as an argument,
--     since a handler that settles drains the buffer in its turn. `aborted` is the abort of the
--     strict check.
--   Pop3: include/mail_system/back/mailServer/fsm/pop3/traditional_pop3_fsm.tpp with pop3_types.hpp
--     and session/pop3_session.tpp. Pop3/Listing, Retrieve and Handlers have the handlers of the
--     commands, Login the chain of `LoginOperation` by what its calls answer or throw, Commands the
--     parser and the steps of a session: reads, writes, ends of operations, posted ends of
--     transitions, in any order. `Job` is the operation in flight. Kept, KeptHandlers, KeptTable,
--     Safe and Steps carry an invariant through every step; Shorter, ShorterTable and Drained show
--     that a drain ends. Pop3/Numbers: common/safe_parse.h.
--   SmtpWire: include/mail_system/back/common/smtp_wire.h, the body of an outbound message.
--     Intrusion: include/framework/intrusion_detector.h; the records stand in the order that the
--     container iterates in, and an exception of `std::stoi` is `none`.
--
-- How they interact: the router keeps its nonce windows and its seen message ids in LRU caches,
-- encodes and decodes each message with the codec, and calls a link by `notify`. A link asks the
-- trust store for the keys of its neighbors, and hears of a new snapshot by a posted task. The POP3
-- handlers are entries of the engine over the POP3 table, and write states only through its write
-- points.
--
-- Parameters: AES-256-GCM (OpenSSL) is the record `Gcm` of two functions, used by no theorem beyond
-- that it returns. The signatures of a link are the record `Credentials`. `std::stoi` is the
-- parameter `stoi`. The clocks and the random generators are the record `Fresh`.
--
-- Bounds: integers are natural numbers, with the widths of the wire fields written out where they
-- are read and written; every loop is structural, without fuel, but for `decode` (the length of the
-- block, since a turn takes a byte at least), `write_more` (five bytes hold 32 bits), `consume`
-- (the length of the buffer), the loops that drain a session or follow a read (the length of the
-- buffer, since a line takes a byte at least), the eviction of the intrusion detector (the number
-- of its records) and `append_folded` (the length of the line, since each start is a place in it
-- and a start that comes back comes back for ever). The counters of an address and of failures do
-- not overflow.
--
-- Not modelled: locks (each operation is one step), the lifetime of shared pointers, allocation
-- failure, exceptions of `post` and of the id generator in a POP3 handler and those of a
-- connection's executor, logging, the network, databases and storage, and the components that the
-- files above do not name.
pub mod Base
pub mod Fsm
pub mod Http
pub mod Intrusion
pub mod LineFolder
pub mod LruCache
pub mod Node
pub mod Pop3
pub mod SmtpWire
pub mod Snowflake
mod Tests
