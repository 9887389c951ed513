-- ===== src/Lib.antt =====
-- MiniWebSrv: an HTTP and WebSocket server library, MiniWebSrv/HTTP.
--
-- A connection reads the socket's bytes into a read buffer, parses requests or frames from it, and
-- commits what it answers to a write queue. The parts meet in the read buffer, which the HTTP
-- connection and the WebSocket connection use by the same four calls (request, consume, release,
-- receive), and in the query parameters, which the request line and the content of a request fill.
--
-- ReadBuff.antt: Common/StreamReadBuff.h. The record `Buff` has the class's members, the storage as
--   its bytes; one function per method, `receive` for the loop of Connection::ContinueRead.
--   Unsigned subtraction and addition wrap at 2^32, written out. The bytes of a new storage that
--   nothing has written are the parameter `garbage`. ReadBuff/View and ReadBuff/Steps have the
--   abstract stream: the bytes kept, and the bytes not yet consumed.
-- WebSocket.antt: WebSocket/. Mask is the unmasking of Connection::ProcessFrame, for a machine that
--   is little-endian; Frame is ProcessIncoming, ProcessFrame and the control frames; Session is the
--   connection with its read buffer, its timeouts, the writes under way and the end of its handler, where
--   an argument says how many buffers the write queue gives; Send is the header
--   that Allocate writes; Base64 is the encoder of WSRespSource.cpp, and Handshake the rest of it, with
--   the SHA-1 digest and the making of a handler as parameters. Two bytes of a close frame
--   that the code leaves unset are the parameters `w2` and `w3`. Messages and the end are outcomes;
--   what a handler does with them is outside.
-- Query.antt: QueryParams.cpp and QueryParams.h. Params is the map of parameters, Url the two
--   percent decoders, Boundary the search of AppendFormMultipart. The calls of AppendToCurrentPart
--   and StartNewPart are events, which Parts handles; the handler of uploaded files is an interface
--   there, which Parts/TempFile fills with Upload, the default handler. Form is the whole object. The
--   making of a file and the success of a write are the parameters `create` and `accepts`; what the
--   constructors leave unset is an argument.
-- Http.antt: Connection.cpp and Header.cpp. Head is HeaderHandler, which finds the lines of a head
--   in the read buffer; Content is ContentHandler, which reads what its headers announce; the
--   socket's reads are a list, and a handler that waits behind its end says so. RequestLine is
--   ParseRequestLine and ParseMethod, HeaderLine is ExtractHeader with the table of names,
--   ContentType is GetContentType and ParseContentDisposition, Delimited is ParseDelimitedKeyValue,
--   Month is the month of GetDateTime, Compare is CompareLowercaseSimple. Connection is the loop of
--   ProtocolHandler over Head and Content, with what ResponseHandler returns as the parameter
--   `respond`, and OnStep. Response is the choice of the response and its headers, printed into a
--   block of the write buffer, with the names of Common.cpp; Body is the part of ResponseHandler
--   behind the headers; what a response's Read gives is a list.
-- Sources.antt: RespSources/. Combiner is the dispatch of CombinerRespSource.cpp to the sources
--   that are mounted under prefixes; the sources' type is the parameter `S`. Text is StringResponse.h
--   and StaticRespSource.cpp, Preflight is CORSPreflightRespSource.cpp.
-- WriteQueue.antt: Common/WriteBuffQueue.h. The root has the positions in the static buffer, Queue
--   the buffers with their states and one function per method; `put` is an allocation, the copy
--   into it and the commit of what was copied. Queue/Ring and Queue/Placed say where the buffers
--   lie in the static buffer; Queue/Order is the abstract queue: texts being written, and bytes
--   that wait. The HTTP connection's loops over it are Http/Write.
-- Server.antt: Server.cpp. The state has the list of connections, the counts and what is under way;
--   a connection is of a parameter type with its OnStep, since ConnectionBase is an interface.
--   Reach has the states that the callbacks lead to.
-- Strings.antt: Common/StringUtils.h, comparison without case, trimming and tokens.
-- Base.antt: lists, tests and bits over native numbers, which the other parts share.
--
-- Bytes are numbers below 256, and texts are lists of bytes. Loops over bytes are structural
-- recursion. A recipient of chunks, which is no code of the library, runs on fuel: one more than
-- the chunks that are written is enough; the loops of the handlers run on one more than the reads,
-- which is enough since each round takes a read. The loop over the requests of a connection gets its
-- fuel as an argument: more than the requests that are sent is enough. A read or a write behind the
-- end of a text is the result `none`.
--
-- Not modelled: the numbers in a header's value, which are the parameter `to_number`, the server's
-- setters and its thread, the sources of files, archives and coroutines with their responses, the
-- pages of errors, the logs, the sample program, and all that asio, the file system, the clock and
-- the C library's printing of dates do.
pub mod Base
pub mod ReadBuff
pub mod WebSocket
pub mod Query
pub mod Http
pub mod Sources
pub mod WriteQueue
pub mod Strings
pub mod Server
