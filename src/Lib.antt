-- ===== src/Lib.antt =====
-- Verification of sim-logger, a logging library for simulations in C++.
--
-- A program asks the registry for loggers by dotted names. A logger inherits its level, its sinks
-- and its flush setting from its parent unless it overrides them, and gives each record that passes
-- its level to its sinks. A sink may be asynchronous: it puts records into a bounded queue, from
-- which a worker thread takes them in batches to a wrapped sink. File and console sinks print records
-- by a pattern, and a file sink may rotate its file. Programs log by macros or through a C interface.
--
-- Files and what they model:
-- - Level: logger_core/include/logger/level.hpp and logger_core/src/level.cpp; the functions keep
--   their names.
-- - LogRecord: logger_core/include/logger/log_record.hpp. Sink: logger_core/include/logger/sink.hpp,
--   as an interface: a record of the two operations over the state of all sinks, which may throw.
-- - Queue: logger_core/include/logger/detail/async_queue.hpp and mutex_ring_buffer_queue.hpp beside
--   it. Each method of MutexRingBufferQueue is one function on the record of its fields, as it holds
--   the mutex throughout; a wait whose test fails leaves its thread asleep, which is counted. Calls
--   has the methods as one step function, Fifo the abstract bounded queue, Inv the representation
--   invariant, Ring the lemmas on slots, Batch the loop of dequeue_batch, Refine, Wakeups and
--   Blocked the theorems, Effects what clients use.
-- - Async: logger_core/include/logger/async_sink.hpp and logger_core/src/async_sink.cpp. write is
--   `submit`, the constructor `create`, request_stop_ `request_stop_once`; flush is cut at its
--   atomic accesses into `request_flush`, `kick` and `flush_returns`; worker_loop_ is the step
--   function `work` over its places in the code (`Phase`). Schedule interleaves these steps in any
--   order. Books, Totals, Worker and Accounts follow the records; Reaches, Ending, Shutdown and Served
--   are about the worker running alone; InLoop, Moves, Gens, Delivery and Covers about what a stop and
--   a flush come to after any schedule from a new sink. Played and WrappedFile put a file sink behind
--   it, which alone uses its directory; Failures is about the counter of failures. FlushWait has the
--   wait on flush_cv and its notices at the level of the mutex.
-- - Logger: logger_core/include/logger/logger.hpp and logger_core/src/logger.cpp. Loggers live in a
--   heap, a parent pointer is a cell's index. Effective and Emit are about the settings and `log`,
--   Change and Settings about the loggers that a change of a setting reaches.
-- - Registry: logger_core/include/logger/logger_registry.hpp and logger_core/src/logger_registry.cpp.
--   `insert` is the part of get_logger behind the call for the parent.
-- - Formatter: logger_core/include/logger/pattern_formatter.hpp and
--   logger_core/src/pattern_formatter.cpp. The loops walk the rest of the pattern in place of an
--   index. snprintf on a double and the hash of a thread id are parameters. A text of 64 characters
--   or more makes the code read behind its buffer; the model has it read the bytes that stand there,
--   which are part of the parameter, though the behaviour is undefined.
-- - Disk: what the file sinks use of the C and C++ file functions, on one directory of regular files;
--   which calls fail, and how much a failing fwrite has written, are parameters. A test for the
--   existence of a file that fails answers no; which tests fail is a parameter of its own.
-- - FileSink: logger_core/include/logger/file_sink.hpp and logger_core/src/file_sink.cpp; the names of
--   the functions are the source's without _locked and _or_throw. The public flush is `flush_locked`,
--   the destructor `close`, both under the mutex.
-- - RotatingSink, Rotation, Prune: logger_core/include/logger/rotating_file_sink.hpp and
--   logger_core/src/rotating_file_sink.cpp. `write_formatted` is write behind the formatter,
--   `rotate`, `move_away` and `resume` are rotate_locked from its start, behind the close, and behind
--   the rename. Rotation has the search for a free name and parse_rotation_suffix, Prune has
--   prune_old_rotations_locked. Form says what the names of rotated files are, by the lemmas of Parts,
--   and Reads which of them are found. The text of the clock is an argument of the operations; Rotation
--   has make_timestamp_utc, which makes it, with strftime a parameter.
-- - Console: logger_core/include/logger/console_sink.hpp and logger_core/src/console_sink.cpp.
-- - TestSink: logger_core/include/logger/test_sink.hpp and logger_core/src/test_sink.cpp.
-- - Time: logger_core/include/logger/global_time.hpp, time_source.hpp, dummy_time_source.hpp and
--   posix_time_source.hpp beside it, and logger_core/src/global_time.cpp, dummy_time_source.cpp and
--   posix_time_source.cpp, whose steady clock is an argument.
-- - Entry and Macros: logger_core/include/logger/log_macros.hpp: the functions behind the macros, with
--   vsnprintf a parameter, and the expansion of the macros by the preprocessor.
-- - Pipeline: loggers in front of file sinks: FileSink as an implementation of Sink's interface.
-- - CApi: logger_c_api/include/sim_logger/c_api.h and logger_c_api/src/c_api.cpp. Handles are cells, as
--   loggers are, and a released one is empty; the shared pointers that C++ code holds are an argument
--   of the release, which destroys a logger whose last owner goes, as clear of the registry does.
-- - Prelude: shared names, lists over native numbers, texts as lists of bytes.
--
-- Bounds and fuel: size_t and uint64_t wrap at 2^64, and queue capacities are below it. The climb to
-- a logger's parents has fuel for every cell of the heap and one more, which is enough as parents
-- stand in earlier cells; get_logger has fuel for the nesting of its calls, at most one per byte of
-- the name and two more; parent_name_for, format and extract_tokens have fuel for each byte of their
-- text and one more; decimal digits have fuel for the 20 digits of 64 bits; the search for a name
-- makes the 9999 rounds of its loop.
--
-- Not modelled: failing allocations; memory orders of the atomics, which are taken as sequentially
-- consistent; spurious wake-ups of waiting threads; the join in AsyncSink's destructor; the buffer
-- between a stream and its file, so a flush only succeeds or fails; directories in the paths of files;
-- the examples. Setting a parent by hand is outside the registry's invariant.
pub mod Prelude
pub mod Level
pub mod LogRecord
pub mod Sink
pub mod Logger
pub mod Queue
pub mod Async
pub mod Registry
pub mod Formatter
pub mod Time
pub mod Disk
pub mod Entry
pub mod Pipeline
pub mod CApi
pub mod Macros
pub mod FileSink
pub mod Console
pub mod TestSink
pub mod Rotation
pub mod Prune
pub mod RotatingSink
