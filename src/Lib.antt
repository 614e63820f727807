-- ===== src/Lib.antt =====
-- Trilogy, a client library of the MySQL protocol in C: a model of its buffers, its readers and writers of
-- packets, its incremental parser of frames, its client and its blocking calls, and theorems about them.
--
-- The parts, and the files that model them:
--   Buffer: src/buffer.c, the growing byte buffer. `buff` is the first `len` bytes, `cap` the capacity.
--   Builder: src/builder.c, which writes packets into a buffer and cuts them into frames of
--     TRILOGY_MAX_PACKET_LEN bytes. Builder/Frames says what frames are, apart from the code; Builder/Packs has the
--     rules for code that finishes a packet.
--   Reader: src/reader.c, which reads fields from the bytes of a packet.
--   PacketParser: src/packet_parser.c, the state machine that takes a stream of bytes apart and calls back.
--     Its callbacks are a parameter.
--   Protocol: src/protocol.c, the parsers of the server's packets, over the reader, and the packets that the client
--     builds: Protocol/Commands, Protocol/Execute (the execution of a statement) and Protocol/Auth (the
--     authentication). Protocol/RoundTrip and the modules Packed state what the packets look like, apart from the code.
--     Protocol/Bounds is about the arrays of the handshake.
--   Client: src/client.c. Client/Callbacks and Client/ReadPacket collect a packet in a buffer, and Client/Reassembly
--     follows a packet that arrives in pieces. Client/Connection is trilogy_conn_t and the socket's operations,
--     Client/Phase the building and writing of a command, Client/Responses what is made of the answers,
--     Client/Commands the commands, Client/Auth the beginning of a connection, Client/Escape trilogy_escape;
--     Client/Answers, Client/Keeps and Client/Password are about them.
--   Blocking: src/blocking.c, the calls that wait. Client/Wait has the loops around TRILOGY_AGAIN.
--     Blocking/Flush, Blocking/Delivery and Blocking/Requests are about what is written, and Blocking/Answer and
--     Blocking/Success about a wait: over a socket that may return TRILOGY_AGAIN as long as nobody has waited for it.
--   Wire: the fields of the protocol as its documents describe them.
--   Prelude: the shared library; Prelude/Status has the status codes of inc/trilogy/error.h, and the type
--     `Run` of code that changes a state and returns a status. Tests: the theorems at concrete inputs.
--
-- A pointer with a length is a list of bytes. A result is `ok`, `err` with one of the library's codes, or
-- `fault`, which stands for an access out of bounds or to memory that nothing was written to, or for a loop that has run
-- out of fuel. TRILOGY_HAVE_RESULTS and TRILOGY_AUTH_SWITCH, which are answers rather than errors, are values. Machine
-- integers are natural numbers with the wrap-around written out; floats are their bit patterns. The allocator is a
-- parameter, `grants`, which says whether a block of a size is to be had. The digests of OpenSSL are parameters. The
-- socket is a record of operations over a state of the world outside, as the client has it behind pointers.
--
-- Fuel: the loop that doubles a capacity has 65 rounds, since 64 doublings pass any size_t; the rounds
-- of trilogy_builder_write_buffer are bounded by the run's length and two; those of the packet parser by the bytes
-- given and two, since only the first round may take none; those over session state by the bytes and one, since
-- each entry takes a byte at least; those of trilogy_escape by the string's length and one. The loops that wait on the
-- network have a bound that is a parameter.
--
-- Not modelled: src/socket.c, which is system calls and TLS, behind the record of operations; the texts of the error
-- codes; the tables of character sets; the aliasing of the error message and the rows with the packet buffer; the
-- Ruby binding, vendored code and the example.
pub mod Prelude
pub mod Wire
pub mod Reader
pub mod Protocol
pub mod Buffer
pub mod Builder
pub mod PacketParser
pub mod Client
pub mod Blocking
pub mod Tests
