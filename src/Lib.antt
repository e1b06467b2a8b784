-- ===== src/Lib.antt =====
-- StreamMachine, a streaming audio server: a model of its core, and proofs about it.
--
-- The model follows the compiled program, js/src/streammachine, under which the
-- paths below stand. A source sends frames of audio,
-- which become chunks with a timestamp; the mount passes on the chunks of its active source; each
-- stream keeps the chunks of the last minutes in a rewind buffer, from which every client reads
-- through a rewinder of its own, at its own distance from live; for HTTP Live Streaming the chunks
-- in the buffer are also cut into segments. Alerts watch the whole.
--
-- The files, and the code that they model:
--   Rewind/Store: rewind/memory_store.js and rewind/base_store.js. The sorted buffer (`insert`,
--     `truncate`), and in Rewind/Store/Seek the reads by offset and by Date (`at`, `range`).
--   Rewind/Rewinder: rewind/rewinder.js. A client's queue and its counters (`read`, `insert`).
--   Rewind/Buffer: rewind_buffer.js. Seconds and offsets, the clients of a stream, and what a new
--     chunk does (`data_func`); in Rewind/Buffer/Pump the pumps and bursts with which a client
--     starts (`pump_from`, `burst_from`, `get_rewinder`, the constructor of a rewinder).
--   Hls/Injector, Hls/Finalizer: rewind/hls_segmenter.js. Open segments, and the numbered ones.
--   Alerts: alerts.js. The states and timers of the alerts, for each code and key;
--     in Alerts/PagerDuty the sender that turns alerts into incidents.
--   SourceMount: master/source_mount.js. The sources of a mount, and the switches between them.
--   Mp3/Header: parsers/mp3.js, `parseFrame`. The 32 bits of a frame's header.
--   Mp3/Parser: parsers/mp3.js, the function that strtok calls with each token. The library strtok
--     cuts the bytes into tokens of the lengths that this function asks for; the model takes the
--     tokens, and the theorems show that they have these lengths.
--   FrameChunker: sources/_frame_chunker.js. Frames become chunks.
--   BatchedQueue: util/batched_queue.js. Objects become batches, for the analytics.
--   Debounce: util/debounce.js. The timer that notices a source which has gone silent.
--   Rewind/Dump, Rewind/Load: rewind_buffer.js, the dump of a buffer (RewindWriter) and its loading. The
--     libraries that write and read bytes and JSON are parameters.
--   DumpRestore: rewind/dump_restore.js. The dumps of all streams one after the other, and their
--     loading at the start; what the file system does comes as events.
--   SlaveStream: slave/stream.js. The listeners, who wait for the source of the stream.
--   Strtok, Aac: parsers/aac.js, in the same way as Mp3. Strtok is the library's part.
--   WorkerPool: modes/worker_pool.js. The processes of a slave; in WorkerPool/Closing their shutdown.
--   Hls/Index: rewind/hls_index.js. The playlists of a stream's segments, and their sending. The texts
--     that are put into them are parameters.
--   Prelude: what the files share.
--
-- How the code corresponds to the model. An object is a record with the object's fields, and a
-- method is a function from the record to the record and what the method emits, calls back or
-- returns. A callback that the event loop runs later (a timer, vitals that arrive, the next tick) is
-- an operation of its own, so that a history is a list of operations in any order. An exception is
-- a result (`Reply.threw`, `Outcome.threw`) or an output. Timestamps are milliseconds and natural
-- numbers. Durations, which are fractions of milliseconds in the code, are natural numbers of a
-- unit that a parameter gives where it matters (`suc u` units make a millisecond). JavaScript's
-- numbers are exact in the ranges that occur, and no bound is put on them here; the 33-bit
-- presentation timestamp is the exception, with its wrap-around as written. Every function of the
-- model is total by structural recursion: no fuel is used.
--
-- Not modelled: sockets, HTTP, configuration, logging and analytics, which only call
-- libraries; of the modelled files, the clients that ask for a segment or a point in time,
-- the group synchronisation of segments, the sender of mails, the options of a mount, the status
-- of the workers, and the metadata and options of a slave's stream.
pub mod Prelude
pub mod Rewind
pub mod Hls
pub mod Alerts
pub mod SourceMount
pub mod Mp3
pub mod FrameChunker
pub mod BatchedQueue
pub mod Debounce
pub mod Strtok
pub mod Aac
pub mod WorkerPool
pub mod DumpRestore
pub mod SlaveStream
