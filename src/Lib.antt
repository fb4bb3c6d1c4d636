-- ===== src/Lib.antt =====
-- CoreDesk: a model of the file search service and of its wire protocol, with proofs.
--
-- CoreDesk scans a directory tree, builds an index of it, answers searches, and moves files between
-- machines. Frames with JSON or binary payloads carry requests and replies. A scan runs on a thread
-- of its own; when it ends, its index replaces the last one as an immutable snapshot with a generation
-- number, while searches go on.
--
-- The parts and their models:
--   Common           include/coredesk/common/Error.h and Result.h. `Result<T>` is a sum of a value and
--                    an error; `Result<void>` is its error record, whose code is Ok for a success.
--   Protocol/MessageTypes, Protocol/Frame
--                    include/coredesk/protocol/MessageTypes.h, Frame.h, src/protocol/FrameCodec.cpp.
--                    `encode` is FrameEncoder::encode; `push` is FrameDecoder::push with its buffer as
--                    an argument and a result, `drain` its loop and `round` one round of it. Layout
--                    reads what was written, Decode takes an encoded frame off the buffer, Accept is
--                    the converse, Append and Chunks cut the input anywhere, Stream sends many frames.
--   Protocol/Json, Protocol/Payload
--                    src/protocol/JsonPayload.cpp. The JSON library is a parameter (JsonLibrary) with
--                    laws (JsonLaws): dumping and parsing, the members of an object, and the kinds of
--                    a value. Json/Sample is an instance. `throws` says where a decoder lets an exception of
--                    the parser out, which its callers test first. Payload has a module for each group of
--                    payloads, with its round trips; Kinds joins them.
--   Index/LruCache   include/coredesk/index/LruCache.h. The list of items and the map of iterators, an
--                    iterator being the number of its node. Spec is the list of recent pairs, Moves and Refines
--                    the proof for each call, History for any calls, Kept what the pairs inherit.
--   Index/Tokenizer  src/index/Tokenizer.cpp.
--   Index/Snapshot, Index/IndexBuilder
--                    include/coredesk/index/IndexSnapshot.h, src/index/IndexBuilder.cpp. `cancelled n`
--                    is the answer of the cancellation token to the n-th question. Bounds, Postings
--                    and Order are proofs.
--   Index/SearchEngine
--                    src/index/SearchEngine.cpp. Postings finds the candidates, Ranking orders the
--                    hits, Key is the cache key, Engine the search with its cache, whose engine is an
--                    argument and a result. Intersect, Candidates, Bounds, Coherence and History are
--                    proofs.
--   Network/Qt       Qt and the file system as adapters/qt_network calls them: a parameter (Qt) with laws
--                    (QtLaws for files, SocketLaws for sockets). A call is what it returns and the
--                    world after it. Memory is an instance.
--   Network/Server   adapters/qt_network/TcpTransferServer.cpp. Server has the connections and how a frame
--                    is sent, Receive the file that is received, Handlers the handlers of frames and
--                    signals and `run`. A socket is a number; the hash is the bytes that were added to
--                    it. `terminated`, here and in the client, says that an exception has left a slot, after
--                    which nothing runs. The other modules are proofs: Calm is what a handler that only sends
--                    leaves, Progress (in Invariant) what the handler of one frame does; Session follows one
--                    file from its offer to its finish.
--   Network/Client   adapters/qt_network/TcpTransferClient.cpp. Client has the state and how it sends and
--                    fails, Transfer the transfer of a file, Handlers the handlers of frames and
--                    signals and `run`. Flow, Sent, Writes, Pump, Offers, Flowing, Liveness, Quiet
--                    and Silence are proofs.
--   Concurrency/ThreadPool
--                    src/concurrency/ThreadPool.cpp. A step is what a worker or a caller does under one hold
--                    of the mutex; `run` does any sequence of them. The calls of `submit` and `wait_idle` that
--                    wait are part of the state. The other modules are proofs.
--   Service/Controller
--                    src/service/ServiceController.cpp. `start_scan` (in two halves, as it
--                    takes the lock twice), `cancel_scan` and `shutdown` (in two halves, around its join)
--                    are functions of the controller; Steps has them and the steps of the scan thread, each
--                    what happens under one hold of a lock, and runs any sequence of steps; Invariant,
--                    ThreadSteps, Calls, Windows and Safety are proofs. Race has a run that ends the program inside `start_scan`.
--
-- Conventions. A byte, a size and an identifier are native numbers; a byte is below 256 where a theorem
-- needs it, and words of 16, 32 and 64 bits have their wrap-around written out. The shifted bytes of a
-- word are joined by a sum, which is their bitwise or. A path is its generic UTF-8 text. A hash map is
-- the list of its entries. Where the source would read out of range, follow a dangling iterator or end
-- by std::terminate, the model returns a value of its own for it (`none`, `terminates`).
-- A mutex that is held for a whole call makes the call one step. The clock, the file system and
-- exceptions are arguments. `std::sort` is an insertion sort; where the order of two elements is open,
-- the model picks one. `std::set_intersection` is a merge, and `std::lower_bound` on sorted tokens drops
-- those that are less.
--
-- Fuel. `drain` gets one more round than the buffer has bytes; each round that goes on takes off a
-- header of 24 bytes at least, so that the fuel is enough and more of it changes nothing (used by
-- Chunks). `digits` gets one more step than the number; each step divides by ten.
--
-- In Network, a handler that a call of Qt runs before it returns (of `disconnected`, when a socket is
-- closed) runs inside the call; all other signals and timers are events of their own, in any order. A
-- helper by clauses stands for the rest of a function after a call that can fail.
--
-- Not modelled: the file scanner, the logger, the Qt adapter for local sockets, the
-- transfer manager, the programs and the user interface. In the transfer client, a callback that calls
-- the client before it returns, and the loop that hashes a file on a thread of its own, whose result is
-- an event; in both ends of a transfer, what goes to the log. In the service controller,
-- log messages, the progress callback and the payload of a search are left out, exceptions are thrown
-- by `scan` and `build` only, and there is one call of `start_scan` at a time. The moves and the
-- storage of Result, and `to_string` of error codes, are left out.
pub mod Base
pub mod Common
pub mod Index
pub mod Protocol
pub mod Service
pub mod Concurrency
pub mod Network
