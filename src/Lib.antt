-- ===== src/Lib.antt =====
-- The core of the event-driven server under src/redis-ae: the dynamic strings of sds.c and sds.h,
-- the event loop of ae.c and ae.h, the linked lists of adlist.c, and of networking.c the requests and
-- the replies.
--
-- The program's parts. A server registers file events and time events with the event loop (ae.c), which
-- waits in a polling layer (ae_epoll.c and its three alternatives, one of which the build includes) and
-- calls the functions registered for what happened. Those functions read and write dynamic strings
-- (sds.c), which hold what comes from and goes to the clients (networking.c); configuration lines and
-- the client program's lines are cut into arguments by sdssplitargs.
--
-- Base          names and lemmas that the parts share: lists and lookup over the native numbers, the
--               integers, Boolean tests, and Outcome, the result of C code that touches memory: a value,
--               NULL, or a fault (an access outside a block or through NULL).
-- Sds           src/redis-ae/sds.h: Sds is a header with the block behind it; IsValid is the layout
--               that sds.c keeps, Holds what a string stands for.
-- Sds.Memory    blocks, memcpy, and the allocator behind s_malloc and s_realloc, which sdsalloc.h chooses
--               at compile time: a parameter with the documented laws of malloc and realloc. It may
--               refuse any request.
-- Sds.Room      sdsMakeRoomFor, sdsRemoveFreeSpace, sdsAllocSize, sdsupdatelen, sdsclear.
-- Sds.Write     sdsnewlen, sdsempty, sdsnew, sdsdup, sdsgrowzero, sdscatlen, sdscat, sdscatsds,
--               sdscpylen, sdscpy, sdsIncrLen.
-- Sds.Edit      sdstrim, sdsrange, sdstolower, sdstoupper, sdsmapchars.
-- Sds.Repr      sdscatrepr, sdssplitargs, is_hex_digit, hex_digit_to_int.
-- Sds.Split     sdssplitlen, sdsjoin, sdsjoinsds, sdscmp.
-- Sds.Ctype     isprint and isspace, parameters with what the standard says of every locale.
-- Ae            src/redis-ae/ae.h: the event loop, its events and masks; the interface Api stands for the
--               polling layer, Clock for gettimeofday and time, Procs for the registered functions.
-- Ae.FileEvents aeCreateEventLoop, aeResizeSetSize, aeCreateFileEvent, aeDeleteFileEvent,
--               aeGetFileEvents.
-- Ae.TimeEvents aeAddMillisecondsToNow, aeCreateTimeEvent, aeDeleteTimeEvent, aeSearchNearestTimer,
--               processTimeEvents.
-- Ae.Process    aeProcessEvents, aeMain, aeStop, aeSetBeforeSleepProc, aeSetAfterSleepProc, aeWait.
-- Ae.Epoll      src/redis-ae/ae_epoll.c, an implementation of Api over a kernel that is a parameter, with
--               what epoll_ctl(2) and epoll_wait(2) document. Any call of epoll_ctl may fail.
-- Adlist        src/redis-ae/adlist.h and adlist.c: a heap of nodes, a list as a value, and a small monad
--               of steps on the heap in which an access through NULL or of a node given back is a fault.
--               IsAdList is what a list stands for: the addresses and values in order, linked both ways.
--               Adlist.Iterate has the iterator, listDup, listSearchKey and listIndex.
-- Net           src/redis-ae/server.h, networking.c: the state of a client connection.
-- Net.Limits    getClientType, checkClientOutputBufferLimits, freeClientAsync,
--               asyncCloseClientOnOutputBufferLimitReached.
-- Net.Reply     prepareClientToWrite, addReplyProto and the replies built on it. The stream of a client is
--               what it is still to be sent: the buffer, then the blocks, less the bytes sent.
-- Net.Headers   the headers of aggregates in both versions of the protocol, and addReplyVerbatim.
-- Net.Write     writeToClient. The socket is a parameter: it may give anything at each call, but takes no
--               more bytes than it is given.
-- Net.Request   processInlineBuffer, processMultibulkBuffer. The query buffer is the bytes of its sds;
--               string2ll, which the repository does not define, is a parameter.
-- Endian        src/redis-ae/endianconv.c on a little-endian host.
--
-- How state and operations correspond. A function of sds.c takes and gives an Sds by value, as the
-- callers of the source replace their pointer by the one returned. The event loop is passed through
-- every operation and every callback; what a callback does is a function of the loop, so it may register,
-- delete and mark events, and resize the table of file events; a pointer into the table, or to a timer,
-- that a callback has left dangling and that is then used ends the round as `dangling`. A C pointer to a
-- function or to a list node is a number, its address. A string that a function of sds.c goes on with
-- untested is a fault if it is NULL (`used` of Base.Outcome).
--
-- Numbers. Lengths are natural numbers reduced where a field or a size_t of 64 bits would wrap; the
-- build is a 64-bit one. Times and identifiers of the event loop are unbounded and not negative.
--
-- Fuel. sdssplitargs has one round more than the line has bytes, and a token one more than what is left
-- of the line: each round of a token reads a byte, and each argument at least one. sdssplitlen has one
-- round more than the string has bytes, and each round goes on by one at least. processTimeEvents has as
-- many rounds as the list has events: a round goes on to the next node, and callbacks that add events add
-- them in front. listSearchKey and listDup have one round more than the list
-- has nodes, and each round goes on to the next. writeToClient has one round for each byte to
-- be sent, one for each block and one more. processMultibulkBuffer has a round for each argument. aeMain
-- runs for as long as nothing stops it, and its fuel counts its rounds.
--
-- Not modelled: the functions of sds.c that print by vsnprintf, and sdscatfmt, sdsll2str and sdsull2str;
-- the three polling layers other than epoll; of networking.c the reading from the socket, the life of
-- clients, the deferred lengths, the I/O threads and the commands; rax.c, config.c, zmalloc.c, anet.c,
-- server.c and redis-cli.c under src/redis-ae.
-- src/redis-ae/deps is third-party code, and src/redis-ds/sds a copy of a library.
pub mod Adlist
pub mod Ae
pub mod Base
pub mod Endian
pub mod Net
pub mod Sds
