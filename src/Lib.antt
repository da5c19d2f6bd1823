-- ===== src/Lib.antt =====
-- A verification of lmcore, the C++ utility library of this repository (lmshao::lmcore).
--
-- Each component of the library has a module named for it, in a file that gives the path of the
-- code. Its state is a record with the class's fields, and each method is a function that returns
-- the new state; what a method returns, and a fault where memory is accessed out of range, are part
-- of the result. Child modules prove what holds of it, and `Tests` runs it on small inputs.
--
--   Prelude        shared names, lists with native indices, machine words, bit laws, byte tables
--   Window         the values in a circular buffer
--   CircularQueue  include/lmcore/circular_queue.h
--   DataBuffer     src/data_buffer.cpp, include/lmcore/data_buffer.h
--   ThreadPool     src/thread_pool.cpp, include/lmcore/thread_pool.h
--   ByteOrder      include/lmcore/byte_order.h
--   Hex            src/hex.cpp
--   Base64         src/base64.cpp
--   StringUtils    src/string_utils.cpp
--   Uuid           src/uuid.cpp
--   ObjectPool     include/lmcore/object_pool.h
--   Crc32          src/crc32.cpp
--   TaskQueue      src/task_queue.cpp, include/lmcore/task_queue.h
--   AsyncTimer     src/async_timer.cpp, include/lmcore/async_timer.h
--   SpscChannel    include/lmcore/spsc_channel.h
--   SpmcChannel    include/lmcore/spmc_channel.h
--   MpscChannel    include/lmcore/mpsc_channel.h
--   MpmcChannel    include/lmcore/mpmc_channel.h
--   Md5            src/md5.cpp, include/lmcore/md5.h
--   Url            src/url.cpp, include/lmcore/url.h
--   TimeUtils      src/time_utils.cpp
--
-- How the parts interact: Uuid uses the digits of Hex and the letters of StringUtils; the values of
-- CircularQueue lie in a circular buffer, which is the business of Window. The thread pool, the
-- task queue and the object pool are step relations: an event is what the code does between taking
-- its mutex and releasing it, so a run is any interleaving of the threads at that grain (but the
-- two parts of the pool's AddTask under the mutex are one event). Wake-ups of waiting threads may
-- come at any time at which the predicate of the wait holds. So is the timer, with the clock in its
-- state, and over it the thread pool is the list of callbacks that no worker has started; its test
-- of a callback and the call are two events, and so are the parts of the calls that schedule,
-- before the mutex and under it. The channels have no lock: their events are the accesses to atomic
-- variables and, with several producers or consumers, to the slots, each of which is taken as a
-- single step; Size, Empty and Full load the two positions in two states; MpscChannel shows its
-- slots to differ by Window. Url uses the digits of Hex and the letters of StringUtils. Its regular
-- expression is a value of a data type; what it calls of the standard library (the matching of it,
-- the reading and printing of numbers) is an argument, the record `Std`, with its documented
-- behaviour as the laws `IsStd`, which for the match are by the function of Url/Match; Url/Sample
-- has functions that satisfy them. Md5/Rfc states the steps and tables of RFC 1321 apart from the
-- code.
--
-- Machine words are natural numbers with the wrap-around written out. Loops are recursive on the
-- text or the list they go over. Fuel is used three times: the loops of Split and ReplaceAll get one
-- round more than the text has characters, the loop of SetMaxPoolSize as many as there are objects, and
-- that of MD5's Update as many as there are bytes; the theorems on them hold of those amounts.
--
-- The runs of the channels are of fewer than 2 ^ 64 events, within which their counters do not wrap.
--
-- Not modelled: the clocks and calendar times, the logger, the mapped file, the clearing of the
-- channels, and printing, thread names and the joining of threads.
pub mod AsyncTimer
pub mod Base64
pub mod ByteOrder
pub mod CircularQueue
pub mod Crc32
pub mod DataBuffer
pub mod Hex
pub mod Md5
pub mod MpmcChannel
pub mod MpscChannel
pub mod ObjectPool
pub mod Prelude
pub mod SpmcChannel
pub mod SpscChannel
pub mod StringUtils
pub mod TaskQueue
pub mod ThreadPool
pub mod TimeUtils
pub mod Url
pub mod Uuid
pub mod Window
