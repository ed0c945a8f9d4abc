-- ===== src/Lib.antt =====
-- circle-stdlib: a model of the MQTT client, the HTTP client, the network routines and the TLS sockets of
-- its library circle-mbedtls, and of the mutexes, condition variables and threads of its library
-- libcxx-threading, with theorems about them.
--
-- The program. CMQTTClient is a task that keeps one connection to an MQTT broker. The application calls
-- its methods (`Connect`, `Publish` and others) and overrides its callbacks (`OnMessage` and others).
-- Each round of the task takes received packets apart (`Receiver`), sends unacknowledged packets again
-- (`Sender`), and asks the broker for a sign of life (`KeepAliveHandler`). A packet to send is built and
-- sent by CMQTTSendPacket; received bytes are collected and read by CMQTTReceivePacket.
-- CHTTPClient sends one request over a plain or a TLS socket and parses the response, character by
-- character, while it receives it. Tasks of a C++ program lock mutexes and wait at condition variables,
-- which are built from Circle's semaphores. mbed TLS reads and writes through its network routines, which
-- find a socket of Circle by a handle, or through the callbacks of a TLS socket, which connects, has the
-- handshake done, and loads the certificates that the server is verified with.
--
-- The files.
--   Common and its children: names of the libraries, tests, lists, computations that may fault
--     (`none` is a failed assertion or an access outside of an object), and bit operations.
--   Common/Chars: the functions of the C library on strings that the HTTP client calls, by their
--     documented behaviour; Tokens, Scan and Strtok have their lemmas.
--   Mqtt: include/circle-mbedtls/mqtt.h.
--   Mqtt/SendPacket: src/circle-mbedtls/mqttsendpacket.cpp and its header; a function for each method,
--     with `Send` cut into `encode_length`, `insert_header`, `prepare` and `transmit`. The children have
--     the body of a packet (Body), the frame that is sent (Wire) and the packets that can be sent at all
--     (Sendable).
--   Mqtt/ReceivePacket: src/circle-mbedtls/mqttreceivepacket.cpp and its header; `Receive` is `receive`,
--     with `decode_length`, `basic_checks`, `parse` and `store_received` as its parts. The children have
--     the length field (Length), whole and partial frames (Frames), the reads (Reads, Strings),
--     `Complete` (Completion) and the invariant (Usable).
--   Mqtt/RoundTrip: both together.
--   Mqtt/Client: include/circle-mbedtls/mqttclient.h, the state as a record; its children model
--     src/circle-mbedtls/mqttclient.cpp: Queue (retransmission queue, identifier store), Connection
--     (`CloseConnection`, `SendPacket`), Requests (the public methods), Handlers (the cases of
--     `Receiver`) and Task (`Receiver`, `Sender`, `KeepAliveHandler`, `Run`). Invariant has the
--     well-formedness of a client between two calls; Creation, Sending, Retained, Methods, ConnectPacket,
--     Connecting, Receiving, Acknowledging, Publishing, Running, KeepAlive and Rounds are about it and the methods,
--     Sessions about calls and rounds in any order.
--   Mqtt/Examples and Mqtt/Client/Examples: the theorems at concrete packets and a concrete client.
--   Http: include/circle-mbedtls/http.h. Its children model src/circle-mbedtls/httpclient.cpp and its
--     header: Response is the part of `Request` that parses the response (`step_in` is the body of the
--     inner loop, `feed` the inner and `receive_loop` the outer loop, `conclude` the end), Request is the
--     state of CHTTPClient and its methods. Segments is about the loops, Lines and Ends about the lines of
--     the header, Flow, Header, Content, ChunkHeader, ChunkData and Chunks about the parts of a response,
--     Replies, Messages, Delivery, Closing and Download about whole responses, Safety and Robust about any
--     bytes. Examples has the theorems at concrete responses.
--   Threads: libs/libcxx-threading/src/mutex_impl.h (NonRecursiveMutexImpl), mutex.cpp and condvar.cpp;
--     a function for each piece of code that runs without a switch of tasks. Threads/System has the
--     tasks: a step is what one task does between two points where it can wait. Consistency, Waiters and
--     Exclusion are about the states that tasks reach. Once, Lifetime and Local model
--     `__libcpp_execute_once`, the join handle of a thread and the thread-local values with their
--     destructors (libs/libcxx-threading/src/thread.cpp), and Time the waiting times. Examples has two
--     tasks.
--   Net: the error codes and what the network routines use of Circle. Net/Adapter is CAdaptedSocket
--     (src/circle-mbedtls/adaptedsocket.cpp and its header) and Net/Contexts the routines themselves
--     (src/circle-mbedtls/net_sockets.cpp). Store and Table are about the objects and the handles, Stream,
--     Receiving and Reads about the bytes that `Receive` hands over, Waiting, Idling and Timeouts
--     about `ReceiveTimeout`, Handles, Opening, Kept, Calls and Runs about the table under sequences of calls,
--     and Accepting about accepted connections. Examples has concrete connections.
--   Tls: what the TLS sockets use of mbed TLS and of the file system. Tls/Certificates is
--     src/circle-mbedtls/x509certchain.cpp, Tls/Socket CTLSSocket (src/circle-mbedtls/tlssocket.cpp) and
--     Tls/Client CTLSSimpleClientSocket (src/circle-mbedtls/tlssimpleclientsocket.cpp). Loading is about
--     the files of a path, Verifying about the configuration that `Setup` makes, and Handshakes about
--     `Connect`. Entropy is `EntropyPoll` (src/circle-mbedtls/entropymodule.cpp). Examples has a library
--     that counts.
--
-- What the program uses of Circle (clock, memory, DNS, sockets, scheduler) and the application's
-- callbacks are the fields of the record `Circle`, a parameter. `IsFriendly` states what the client
-- relies on in them: the socket stores bytes and no more than it may, `new` returns as much memory as
-- was asked for, and there is memory for packet and socket objects, whose assertions are in the model;
-- callbacks and other tasks use the client by methods that keep its invariant and do not start a new
-- session within `OnConnect` and `OnMessage`. What the constructor of the client leaves unset is the record
-- `Unset`, with any values.
--
-- The sockets of the HTTP client are the fields of the record `Network`, a parameter as well. A response
-- is described by the sequence of pieces that `Receive` gives, from the world in which it is called
-- (`Delivers`).
--
-- The sockets of the network routines, the clock and the scheduler are the fields of the record
-- `NetSubSystem`, a parameter too. A pointer to a CSocket may be null (`is_null`), and the assertions on it
-- are in the model. `Gives` describes the frames that a socket delivers, and `Clock` a
-- clock that each round of the loop of `ReceiveTimeout` moves on.
--
-- mbed TLS and the file system are the fields of the record `TlsLibrary`, a parameter; `Setting` stands
-- for the calls of CTLSConfig, and a configuration is the list of them.
--
-- Circle's CSemaphore is the record `Semaphore`, a parameter with the laws of counting: `Up` adds one,
-- `TryDown` succeeds if and only if there is one to take, and `Down` returns when it could be taken.
--
-- Numbers are natural numbers with the wrap-around of 8, 16 and 32 bits written out where the code can
-- reach it; `unsigned` and `size_t` have 32 bits. `decode_length` has fuel 5 and `encode_length` fuel 4:
-- the first returns in its fifth round at the latest, the second has an assertion that fails then.
-- `receiver` takes a number of rounds, since a peer that goes on sending keeps its loop running, and
-- `sender_loop` fuel, since a packet that is sent again goes back into the queue; the theorems are for
-- every such bound. `receive_loop` has fuel for the calls of `Receive`: one more than the pieces of the
-- response is enough. `wait_bytes` has fuel for the rounds of its loop: more than the cycles of the clock
-- in the timeout are enough. `shake_hands` has fuel for the calls of the handshake: more than those that
-- ask for another one are enough. `entropy_poll` gives its loop one round more than there are bytes.
--
-- Not modelled: logging, the texts of the errors, and `m_IPServerString`, which only they use; the module
-- for threads and the headers that only pass calls on to mbed TLS, and the TLS callbacks, which only call
-- CAdaptedSocket; the recursive mutexes of libcxx-threading, which only call Circle's, its block of
-- thread-local storage and `__cxa_thread_atexit`; samples, tests and build scripts.
pub mod Common
pub mod Mqtt
pub mod Http
pub mod Threads
pub mod Net
pub mod Tls
