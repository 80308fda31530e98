-- ===== src/Lib.antt =====
-- Verification of the Numcore messaging library.
--
-- The library passes messages between programs through a RabbitMQ server. It has four parts:
--   * messaging/slaim: the message, its wire format, a buffer of raw blocks, an error log.
--   * messaging/claim: messages with attributes, which travel as a list of messages inside the text
--     of one message, and a binary format for files.
--   * messaging/numrabw: the connection to the server, whose threads exchange messages through a
--     buffer that limits their number and bytes.
--   * numcfc: ini files, times, logs, threads and identifiers, which the other parts use.
--
-- The files, and what they model:
--   * Common: shared names, list functions over the native numbers, byte strings (a byte is a
--     number, and `memchr` a search), and signed numbers.
--   * Decimal: `ostream << n` and `atoi`. OrderedMap: `std::map` with string keys, as a sorted list.
--   * Outcome: what a call may come to: a result, an exception, a failed assert, undefined
--     behaviour, or a loop that has not ended.
--   * Slaim/Message: `Message`. Slaim/Wire: `SerializeMessage`, `ExtractSingleMessageFromBufferItem`,
--     `ConvertMessageListToSingleMessage` and `ConvertSingleMessageToMessageList`, of
--     messaging/slaim/messaging.cpp. The extraction is cut at its nested tests into
--     `extract_located`, `extract_measured`, `extract_announced` and `extract_contents`.
--   * Slaim/Buffer: messaging/slaim/buffer.h and messaging/slaim/bufferitem.h. Blocks live in an
--     explicit heap, so that a pointer to a freed block is seen.
--   * Slaim/Segments: `ExtractSingleMessage`, over that heap.
--   * Slaim/ErrorLog: messaging/slaim/errorlog.h.
--   * Claim/AttributeMessage, Claim/Streaming: messaging/claim/AttributeMessage.cpp and
--     messaging/claim/MessageStreaming.cpp.
--   * Claim/PostOffice: the connect string of messaging/claim/PostOffice.cpp and the limits of the
--     buffers, from the settings of messaging/claim/PostOfficeInitializer.cpp. How a text becomes
--     a number is a parameter, as `atof` is. PostOffice/Creation is `CreatePostOffice` and `Initialize`,
--     over the post office of Numrabw.
--   * Claim/ThroughputStatistics: messaging/claim/ThroughputStatistics.h, before the division by the
--     length of the window.
--   * Numrabw/LimitedSizeBuffer: messaging/numrabw/LimitedSizeBuffer.h. What other threads call while
--     `pop_front` waits, and what the clock shows, is a script that the call is given.
--   * Numcfc/IniFile: the records of numcfc/IniFile.cpp, with `GetValue`, `EditRecord` and
--     `SetValue`; IniFile/Deletion, IniFile/Listing, IniFile/Comment and IniFile/Numbers hold the other
--     operations, IniFile/Text `operator >>` and `operator <<`, and IniFile/Disk `Load`, `Save`,
--     `Refresh` and `SetFilename`, with what the file system does as a parameter. A reference that
--     `EditRecord` returns is the function that its caller applies to the record.
--   * Numcfc/ThreadRunner: numcfc/ThreadRunner.cpp, with what the owner and the thread do as a list of
--     events, and a wait's wakes as another; `MultiThreadRunner` is in ThreadRunner/Multi.
--   * Numrabw/PostOffice: messaging/numrabw/numrabw_postoffice.cpp. A call of the AMQP library is
--     recorded, or throws what a script says. Receiver is a session of `RunReceiverThread`
--     without its messages, with `shared_buffer` as an interface, and ReceiverThread its outer
--     loop; Sender is a session of `RunSenderThread`, and SenderThread its outer loop; Handling is
--     `HandleReceivedMessage`, Status `GetStatusMessage`, Health what both threads report of
--     their connection, and Front the public methods, whose calls reach the threads through the
--     pending actions and the two buffers; Construction holds the constructors. Traffic lets the
--     client's `Send` and the sender's calls follow one another in any order.
--   * Numcfc/Time: the extended ISO form and the comparisons of numcfc/Time.cpp. A fraction of a second
--     is a number of units of 2^-33 seconds; the rounding of a `float` is written out. Time/Seconds is
--     the arithmetic in seconds, where a `double` is a number of units of 2^-63 seconds and its
--     rounding is written out, with `timegm` and its kin as a parameter; Time/Clock holds the
--     constructors that ask the clock, and `TimeElapsed`.
--   * Numcfc/Logger: numcfc/Logger.cpp, over the texts of the files by their names.
--   * Numcfc/IdGenerator: numcfc/IdGenerator.cpp, with what the system answers as a parameter.
-- The Tests of each part run the definitions and apply the theorems at concrete inputs.
--
-- Bounds and fuel. `size_t` has 64 bits, `int` and `unsigned int` 32, and sums and differences wrap
-- round where the source's do. `ConvertSingleMessageToMessageList` runs on one round more than its
-- text has bytes: each round shortens the text. The waits run on the wakes of their scripts, and the
-- loops of the threads on the rounds of theirs. The receiver takes pending actions on one round more
-- than there are. The times of the post office are whole microseconds, and a wait of 2^31 milliseconds
-- or more, which the cast to `int` does not hold, is undefined. A `double` is rounded as in
-- the machine below 2^181 units, which is more than a `time_t` holds, and a number of seconds to
-- add is a multiple of 2^-33.
--
-- Not modelled: the AMQP client and the server, of which the repository holds no code; the Python
-- clients; the samples; `Sleep`, which only calls `usleep`, and numcfc/StringBuilder.h, a wrapper of
-- `std::ostringstream`; that the destructor of the post office waits for its futures and joins its
-- threads, and how the receiver's steps follow on the client's beyond the calls that a wait meets.
-- What `<<` prints of a number that is not whole is a parameter.
mod Common
pub mod Decimal
pub mod Outcome
pub mod OrderedMap
pub mod Slaim
pub mod Claim
pub mod Numrabw
pub mod Numcfc
