-- ===== src/Lib.antt =====
-- Verification library for the C core of skynet: the scheduling of messages (skynet/skynet-src), the
-- sockets (skynet/skynet-src/socket_server.c), the buffer and the connections of its services
-- (skynet/service-src), and the codecs of its Lua bindings (skynet/lualib-src).
--
-- Parts. A service is a context with a handle and a message queue. `Handle` models the table that maps
-- handles and names to contexts (skynet/skynet-src/skynet_handle.c). `Mq` models one message queue, a ring
-- that grows (skynet_mq_push, skynet_mq_pop, skynet_mq_length, skynet_mq_overload and expand_queue of
-- skynet/skynet-src/skynet_mq.c). `GlobalQueue` puts the queues on a heap, with the linked list of those that
-- have messages (skynet_globalmq_push, skynet_globalmq_pop, skynet_mq_mark_release, skynet_mq_release of the
-- same file) and the workers of skynet/skynet-src/skynet_server.c that take queues from it and put them
-- back. `Timer` models the timer wheel that sends messages later (skynet/skynet-src/skynet_timer.c).
--
-- Correspondence. Each parent file holds the definitions, under the names of the C functions (without the
-- prefix skynet_ where the module says it), and its child modules hold what is proved about them:
--   Prelude: shared names, Boolean tests, lists over the native numbers, `&` and `|` with masks.
--   Mq: the ring as a record (Prelude.Ring has the loop that copies it), the queue it stands for (Refine, with
--   Int for the rings whose slots an int counts), the overload warning.
--   GlobalQueue: a state monad over the heap, where none is a failed assertion or a null pointer; System is
--   the step relation of the threads; Invariant and Moves are its invariant and what each action does to it.
--   Timer: the wheel as functions from indices to lists; Division and Shift are the arithmetic of the
--   levels, Wheel and Calendar read it as a calendar, Countdown compares it with a list of countdowns, and
--   Clock with Readings is the loop of skynet_updatetime.
--   Handle: Register, Grow and Enter are skynet_handle_register, Slots is grab and retire, Forget the names
--   that retire leaves, Names the table of names, where `strcmp` is a parameter that orders the strings.
--   Monitor: skynet/skynet-src/skynet_monitor.c, with which a monitor thread finds a worker that does not
--   come to the end of a message.
--   Seri: skynet/lualib-src/lua-seri.c, which turns the arguments of a message into bytes and back. Blocks
--   reads a chain of blocks as a sequence of bytes; Pack and Unpack are the two directions, Pack.Encode the
--   bytes of a value, Unpack.RoundTrip and Unpack.Ends what comes of unpacking.
--   Crypt: of skynet/lualib-src/lua-crypt.c the codecs (Hex, Base64, Xor) and the key exchange (Dh), with the
--   arithmetic modulo its prime that the exchange rests on.
--   Netpack: skynet/lualib-src/lua-netpack.c, which splits the data of sockets into packets. Stream reads a
--   stream byte by byte, Waiting says what the queue holds, Split and Queued what lfilter and lpop do to it;
--   Delivery runs it over chunks of data, with the loop of skynet/lualib/snax/gateserver.lua that pops packets,
--   where the handler of a packet does not yield.
--   Socket: one TCP socket of skynet/skynet-src/socket_server.c. Send has its two lists of buffers, Close the
--   ways in which it is closed, Request what worker threads write or send through the pipe, Request.Reach the
--   steps of the threads. Buffers, State, Low, Flush, Append, Serve and Stream say what each function does to the packets;
--   Request.Order, with Once and Drain below it, what follows for all that the threads do.
--   HashId: skynet/service-src/hashid.h, the table in which the gate finds its connections, with chains of
--   nodes. Chain reads them as lists, Refine says for which map a table stands, Clear and Remove, Insert and
--   Count what the operations do to it.
--   DataBuffer: skynet/service-src/databuffer.h, what a connection has received and the service has not read.
--
-- Integers are natural numbers with the wrap of their width written out where the code can reach it. Where an
-- int of the code overflows, which C leaves undefined, the definitions answer none: expand_queue, put_int and
-- length_int of Mq (the slots of a ring), tohex and b64encode (the length of a text), updatetime (the rounds of
-- its loop), pack_one (the length of a string and of an array), find_free of HashId. The int len of struct
-- write_block wraps, and luaseri_pack answers none when it is negative. The step relation of GlobalQueue uses
-- put, which is put_int while the doubled slots of the ring are an int, that is, below 2 ^ 30 messages in one
-- queue; Mq.Int shows that the two agree there.
--
-- Each section under a lock is one step; where a lock is given up in the middle of a function (timer_execute,
-- the loop of skynet_updatetime), what other threads do there is an argument.
--
-- Bounds and fuel. The loop of timer_shift has fuel 4, which is enough since its mask then reaches 2 ^ 32;
-- the loop that drains a queue has one round more than its length; the binary search has as many rounds as
-- there are entries; luaseri_unpack has four units for each byte and each call; lb64decode has one
-- round more than the text has characters; the loops of hashid.h have as many rounds as the table has nodes;
-- the powers of the key exchange have 64 rounds, one for each bit; push_more has one round for
-- each byte that is left; skynet_handle_register has 2 rounds, the second one with twice the slots.
--
-- Not modelled. Of the socket server the slots, the opening and accepting of sockets and UDP: a Socket is one
-- slot while its id is in use, a step of Socket is one call as a whole, and what write and read
-- answer is an argument (an empty list of answers is a write that would block). Nor are the other Lua
-- bindings and the services, logging, process control and the copies of other projects (skynet/3rd,
-- skynet/lualib-src/sproto). Of the modelled files:
-- skynet_timeout, skynet_handle_retireall, the count of references that skynet_handle_grab and
-- skynet_handle_retire change, and allocation failures; messagepool_free; the
-- ciphers and digests of lua-crypt.c, which have no independent description here; what lua-netpack.c and
-- lua-seri.c free, and netpack's pack and tostring; the rest of skynet_server.c.
pub mod Prelude
pub mod Mq
pub mod GlobalQueue
pub mod Timer
pub mod Handle
pub mod Monitor
pub mod DataBuffer
pub mod Seri
pub mod Crypt
pub mod Netpack
pub mod Socket
pub mod HashId
