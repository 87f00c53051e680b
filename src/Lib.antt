-- ===== src/Lib.antt =====
-- Verification of the C code of AWS, the Ada Web Server, and of the Ada code next to it.
--
-- AWS is written in Ada. Its C code links it to the system: a template from which the constants of
-- the system are extracted when the library is built, functions over the macros of system headers,
-- OpenSSL and GnuTLS, texts for error codes on Windows, and a demonstration with gSOAP. Each part
-- has a module here.
--
-- * OsLib is config/setup/os_lib-tmplt.c. The C compiler turns the template into an assembly listing
--   with a marker for each constant, from which the tool xoscons writes the package AWS.OS_Lib.
--   A state is what the preprocessor has defined and the markers so far; a directive or a macro call
--   is a function on it. OsLib.Headers is the part before `main`, General to Secure its
--   sections in order (`headers`, `general`, `sizes`, `poll_sizes`, `poll_values`, `io_constants`,
--   `errno_values`, `socket_constants`, `secure_sockets`, `mingw_constants`), and `compile` the whole
--   template. The macros and sizes of the target's headers are a parameter, `Platform`; none is
--   a template that does not compile. Sites holds the places of the markers, Values, Windows and
--   OpenSslValues the values.
-- * XosCons is config/setup/xoscons.adb, the tool. Listing reads the markers (`Parse_Int`,
--   `Parse_Asm_Line`) to a table, Output is `Output_Info`, Condition is `Parse_Cond`, and Template the
--   loop over the preprocessed template and the program, `xoscons`. A line is a list of
--   character codes, a file a list of lines, which are at most 256 characters long, as the tool's
--   variable for them is. An exception, or a read of what was not set, is none; one in a line of the listing
--   is caught there. What the tool finds behind the end of its table, in In_Template before it is set
--   and in its line buffer are the parameters `beyond`, `in_template` and `buffer`. A round of a
--   loop takes a line, so rounds for the number of lines, and one more in `xoscons`, are enough.
--   Parts describes a preprocessed template, Types is the comment with the types in
--   config/setup/os_lib-tmplt.c; RoundTrip, Decisions, TypesText and Package join
--   the tool with OsLib.
-- * ErrorText is src/win32/gai_strerror.c: `AWS_gai_strerror` and `socket_strerror`, by lists of
--   their cases. The values of the codes are a parameter.
-- * FdSet is src/poll/os_support.c: the functions over FD_ISSET, FD_SET and FD_ZERO, which are a
--   parameter with what POSIX says of them.
-- * PollEvents is src/core/aws-net-poll_events.adb, the set of descriptors that a wait is on, and
--   PollEvents.Select is src/core/aws-net-poll_events-g_poll.adb, which waits by `select` through
--   the functions of FdSet, with the FD_ZERO of the instance as a parameter. Replace lets a negative
--   descriptor in, on which FD_SET is undefined; what G_Poll does with one is not said. An exception is a value of `Outcome`; the state at an exception is
--   not kept. Asked has the view of a client, a list of descriptors. `next` runs its loop on
--   Length + 1 - Index rounds, after which the index is past the end. PollEvents.Wait has `wait`, whose
--   loop goes on after interruptions: the separate procedure that calls the system is a parameter
--   there, by the number of the call, with the time that has gone after it, and it raises no exception.
--   One more round than there are interruptions is enough. A Duration is in nanoseconds.
-- * OpenSsl is config/ssl/openssl/wrappers.c, over the library as a parameter: a function of it
--   takes the library's state to a result and a state.
-- * GnuTls is config/ssl/gnutls/wrappers.c, against the imports of
--   config/ssl/ssl-thin__gnutls.ads.
-- * GSoap is demos/gSOAP/c_server_doc.c, c_server_rpc.c, c_client_doc.c and c_client_rpc.c. Memory
--   has blocks of bytes with strcpy and strcat, where undefined behaviour is none. The loop of a
--   server never ends by itself, so `serve_loop` has a number of rounds; one more than the
--   connections that come before an accept fails is enough. Its counter is a natural number, where
--   the C code has an int.
-- * Hpack is the header compression of HTTP/2. Huffman is src/http2/aws-http2-hpack-huffman.adb:
--   `Create_Tree`, `Decode` and `Encode`, where a string is a list of character codes; Codes has its
--   table. Store_Bits has a round for each bit of a code, and each round stores one at least. Table
--   is src/http2/aws-http2-hpack-table.adb, with the calls of `Insert_Static` in
--   Table.Fields; what Settings has for the size of the dynamic table is an argument.
--   Integers is `Get_Integer` and `Send_Integer` of src/http2/aws-http2-hpack.adb, with the bytes not
--   yet read as a list; five rounds are enough for a Positive. Headers is `Decode` and `Encode` there
--   over a list of headers: each round of `Decode` takes a byte at least, so it has as many rounds as
--   there are bytes. The list of headers is a list of pairs in the order in which they were added. An
--   exception is a value of Hpack.Outcome, and what an exception leaves of the state is not kept.
--
-- Base has the shared helpers: tests and lists over the native numbers, lines of text, integers, the
-- conversion to a C int. Modules named Tests apply the theorems to concrete inputs.
--
-- Not modelled: the comments of the template with the imported routines, which the tool copies as they
-- are; the numbers that Long_Unsigned'Value reads besides plain digits; include/zlib, a copy of zlib;
-- the debugging output of HPACK; and the other Ada code of AWS.
pub mod Base
pub mod OsLib
pub mod XosCons
pub mod ErrorText
pub mod FdSet
pub mod PollEvents
pub mod OpenSsl
pub mod GnuTls
pub mod GSoap
pub mod Hpack
