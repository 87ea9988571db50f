-- ===== src/Lib.antt =====
-- A verification development for the HTTP service in audio_tool_api/: what its own C and C++ code
-- makes of bytes, buffers and connections.
--
-- The program. `http_server` accepts connections and gives each to the `http_work_thread` with the
-- lightest load; a work thread hands connections to its `http_worker`s; a worker reads a request,
-- makes an `http_request` of it (the target's parameters, the headers, the files of a multipart
-- body), finds a handler for the path, runs it and writes the response. Handlers keep
-- users, sessions (whose tokens are base64), files and projects in a database, and run uploaded
-- audio through ffmpeg with in-memory buffers (`AP`).
--
-- The files.
--   Prelude           lists, association lists and Boolean tests over the native numbers. A string
--                     is the list of its bytes; an unordered_map is an association list.
--   Base64            audio_tool_api/utilities/base64.cpp: both loops of `base64_encode` and
--                     `base64_decode`, structurally on the input, with the array `char_array_4` as
--                     the list of the characters pending. `Encoding` is on the shape of the output,
--                     `RoundTrip` on decoding what was encoded, `Stops` on where decoding ends. The
--                     uninitialised part of the decoder's array is a parameter.
--   Multipart         audio_tool_api/http/multipart_parser.c: the state machine, one function for
--                     each larger case of the `switch`, with the caller's callbacks as a record of
--                     optional functions on the caller's data. `buf + mark` up to `i` is kept as the
--                     slice of the bytes between, and `i --` as handling the same byte again in the
--                     next state, so the loop is structural on the body and needs no fuel. `Bounds`
--                     is on the two arrays.
--   Request           audio_tool_api/http/http_request.cpp: the constructor. `Target` is on the
--                     target's path and parameters, `Marks` on a mark inside a value; `Data`, `Headers`, `Matching`, `Runs` and
--                     `Files` follow the parser through a well-formed body.
--   Effects           runs with a state that may return early: a monad that keeps the state behind an
--                     error and tells a crash and a loop out of rounds from an error. `Rules` says
--                     how a property of a run is put together, `Keeps` how one of the state is
--                     carried through a run.
--   Audio             audio_tool_api/audio/audio_processor.cpp: `read_packet` and `write_packet`
--                     with the buffers behind them (`Buffers`), what successive reads deliver
--                     (`Reading`) and what successive writes leave (`Writing`). `malloc` is a
--                     parameter. The doubling loop of `write_packet` runs on fuel, one round more
--                     than the packet has bytes; a block is never empty, so each round adds at least
--                     one byte of room and that is enough. `Pipeline` is the class `AP` from
--                     `process` down (`Setup`, `Process`), on Effects, with a number of rounds granted
--                     to each loop; what is called of ffmpeg is a record of functions of the history of the
--                     calls before. `Order`, `Packets` and `Writing` are on what is written and when,
--                     `Rounds` and `Ending` on how many rounds are enough, `Faults` on what goes
--                     wrong.
--   Http              `Worker` is audio_tool_api/http/http_worker.{h,cpp}: the life of a worker as a
--                     machine driven by the completion of its asynchronous operations, with the
--                     effects on the sockets recorded in order, where an exception that leaves `process` ends
--                     the program; `Life` is on its histories. `Threads`
--                     is audio_tool_api/http/http_work_thread.h and the acceptor's choice of a
--                     thread in audio_tool_api/http/http_server.cpp: `Order` is on the order of the
--                     loads, `Choice` on the acceptor's loop, `Busiest` on the search for a thread
--                     to steal from, `Held` and `Dequeue` on the connections that the threads hold.
--                     `Server` is audio_tool_api/http/http_server.{h,cpp}, http_work_thread.cpp and the
--                     count in http_connection.h: acceptor, threads and workers together, with
--                     `Rounds` on a round of the acceptor, `Workers` and `Soundness` on the workers, `Account` on
--                     what becomes of the connections, `Capacity` on their number.
--                     `Response` is audio_tool_api/http/http_response.{h,cpp}. `Process` is the way
--                     from a request to the reply in http_worker.cpp (`process`, `find_route`, both
--                     `build_response`), with audio_tool_api/http/routes.h: `Utf8` is on
--                     the texts that the JSON library writes, `Answers` on what is asked of it and of the
--                     operations, `Replies` on when there is a reply, `Guard` on authentication, `Routing` on the prefix, `Frame` on
--                     what the operations keep.
--   Processor         audio_tool_api/audio/processor.{h,cpp}: `AudioProcessor`. What is called of ffmpeg
--                     is a record of functions of the history of the calls before, so it may answer
--                     anything; the methods are runs of Effects. `Opening`, `Decoding`,
--                     `Encoding` and `Execute` are the methods. `Rules` and `Received` have the rules for its
--                     calls of ffmpeg and their answers; `Media` and `Ownership` read a history;
--                     `Invariants` is what the loops keep; `Storing`, `Sending` and
--                     `Safety` are on what holds whatever ffmpeg answers; `Chunks`, `Draining`,
--                     `Flushing`, `Total` and `Whole` on an ffmpeg that does as documented, for which
--                     a round for each packet and one more are enough; `Faults` on what goes wrong,
--                     `Again` on a second `execute`.
--   Database          audio_tool_api/utilities/database.{h,cpp}: a query and the iterator over its
--                     rows; `Rows` is on the range-based `for`, which is granted one round more than
--                     the server returned rows. `Connection` is the connections of the handlers and
--                     their mutex, with the events in the order in which they get to it.
--   Models            audio_tool_api/models/session.{h,cpp} and user.{h,cpp} on the tables that
--                     their SQL statements name, with the clock as a number of seconds: `Sessions`
--                     is on the life of a session, `Passwords` on `authenticate`, with the memory
--                     behind its arrays, `Registration` on a user who was created, `Rows` on a
--                     table's last row.
--   Content           audio_tool_api/models/file.{h,cpp} and project.{h,cpp}: files and projects on
--                     their tables, with `Files` and `Projects` on what is found afterwards.
--   Handlers          audio_tool_api/handlers/files.cpp, project.cpp and user.cpp: the methods, on
--                     the tables of Models and Content. `Uploads` is on the way from an upload to a
--                     download, `Owners` on who may change a project, `Keeping` on
--                     what a method keeps of the tables. The JSON library and the audio
--                     processor are parameters. `Login` is audio_tool_api/handlers/auth.cpp, with curl
--                     and the configuration as parameters: `Forwarding` is on where `get` forwards
--                     to, `Admission` on whom `post` and `put` let in, `Keeping` on the users' table. `Base` is the base class and
--                     audio_tool_api/handlers/decode_file.cpp, with `Dispatching` on the way from a
--                     request to the reply of the base class.
--   Service           the whole between a request and the tables: the handler of every route of
--                     audio_tool_api/http/routes.h on one state, a page, through `process`.
--                     `Entry` is on who gets in, `Downloads` on an upload and its download,
--                     `Logins` on a login and its token, `Growth` with `Turns` on what no request
--                     changes,
--                     `Strangers` on a request without a user.
--   Escaping          `url_encode` of audio_tool_api/utilities/requests.h, and the escapes of a token
--                     in audio_tool_api/handlers/auth.cpp, with a decoder in `Decoding`.
--   Tests             concrete runs.
--
-- Code that is not the program's own is a parameter: the request that boost::beast parsed and its
-- `int_to_status`, ffmpeg and its calls of the callbacks, curl, `malloc`, the sockets, the JSON
-- library, the hash of a password, the random bytes, the clock. Not modelled: the
-- web sockets, the configuration, the timers and the metrics client. Bytes of the native type
-- `char` are numbers below 256; lengths and sizes do not wrap.
pub mod Prelude
pub mod Effects
pub mod Processor
pub mod Base64
pub mod Multipart
pub mod Request
pub mod Tests
pub mod Audio
pub mod Http
pub mod Models
pub mod Content
pub mod Handlers
pub mod Escaping
pub mod Database
pub mod Service
