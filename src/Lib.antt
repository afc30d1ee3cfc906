-- ===== src/Lib.antt =====
-- nanomsgpp: the C++ wrapper of nanomsg (src/nanomsgpp) and its command-line client (src/client).
--
-- The library wraps nanomsg's C functions. A message is a list of parts, each of which owns a buffer
-- that malloc or nn_allocmsg made; a socket owns a descriptor and remembers the endpoints that it is
-- bound or connected to; a poller is a table of descriptors; a device joins two sockets. Whatever
-- nanomsg refuses with -1 is thrown as internal_exception. The client reads its options, opens one
-- socket, sets it up and runs one of four loops that send, receive or do both, and prints what it
-- receives.
--
-- Code and files:
-- - src/nanomsgpp/exception.hpp: World.antt (`InternalException`, `Exception`) and World/Calls.antt
--   (its constructors, `throw_internal`).
-- - src/nanomsgpp/socket_type.hpp and socket_option.hpp: SocketType.antt.
-- - src/nanomsgpp/message.hpp and message.cpp: Message.antt, `part_copy`, `part_destroy`, `write`,
--   `gen_nn_msghdr` and so on; theorems in Message/Ownership, Writing, Lifetime, Moves,
--   Header and Traced.
-- - src/nanomsgpp/socket.hpp and socket.cpp: Socket.antt, and Socket/Transfer.antt for `sendmsg` and
--   `recvmsg`; Socket/Endpoints and Socket/Word hold the map of endpoints and the bytes of an int;
--   theorems in Socket/Lifetime, Registry, Strings and Word, below Socket/Transfer and below
--   Socket/Descriptors, where a step relation has the operations on sockets.
-- - src/nanomsgpp/poller.hpp and poller.cpp: Poller.antt, theorems in Poller/Laws and, against a table
--   of watches for each descriptor, Poller/Spec.
-- - src/nanomsgpp/device.hpp and device.cpp: Device.antt.
-- - src/client/options.hpp and options.cpp: Client/Options.antt and Client/CommandLine.antt, theorems
--   in Client/Options/Names and Client/CommandLine/Reading.
-- - src/client/nanomsgpp.cpp: Client/Print.antt (`print_message`), Client/Loops.antt (set-up and loops)
--   and Client/Main.antt (`main`); theorems below Client/Print and in Client/Setup, Payload, Reading,
--   Connecting, Draining, Sending, Silent, Rounds, Answering, Growth, Leaks, Input, Usage,
--   Exits, Terminating, Survival and, on
--   the memory of the whole client, below Safety; Client/Peers has two clients, of which one sends
--   to the other. Client/Accepted has the set-up where nanomsg accepts all that is asked, and below it
--   are whole runs of `main`: Sends, Prints and, of two programs, Exchange.
--   Client/Session gives the order of the client's calls as an indexed data type; World/Traces and the
--   Traced modules follow the calls through the commands, and what those change of nanomsg's state,
--   under a `Policy` (World/Policy.antt) that says which calls and which changes are allowed.
--
-- The state. A `World` has the heap (Memory.antt: blocks of cells, each made by malloc or by nanomsg),
-- nanomsg's own state, the socket objects, the calls made so far, standard input and the two output
-- streams. A method is a `Cmd`, which ends in a value, an exception, std::terminate or undefined
-- behaviour, or is still running; an exception keeps the state that it leaves. A destructor is
-- `noexcept`, as C++11 makes it. Undefined behaviour is an outcome where the code writes through null,
-- frees what malloc did not give, or reads or writes past a buffer.
--
-- What the repository does not hold is a field of `Platform` (Platform.antt): the constants of
-- nanomsg's headers, its functions, malloc's choice to fail, boost's parser and printer, and files.
-- `FreesChunks`, `GathersOnly`, `Delivers`, `DeliversText`, `StoresFirst`, `StoresPast`, `Carries`,
-- `CarriesOver`, `TakesMessages`, `TakesOptions`, `Accepts`, `Inbox`, `NothingComes`, `Remembers`, `PollsInPlace`, `Descriptors`,
-- `Works` and `MallocWorks` are
-- hypotheses, of single theorems, that state what nanomsg's manual says of nn_freemsg, nn_sendmsg,
-- nn_recvmsg, nn_setsockopt, nn_bind, nn_connect, nn_poll, nn_socket, nn_close and nn_device, and that
-- malloc succeeds. The files below Tests give platforms that meet them.
--
-- Bounds and fuel. Numbers are natural numbers; an int of an option is four bytes in two's complement,
-- and an overflow of its product is undefined behaviour. A size_t made of an int wraps at 2 ^ 64.
-- The client's `int buflen = strlen(buf)` is followed below 2 ^ 31 only: printing a longer text, which
-- the conversion makes another number, counts as undefined, as does isprint of a negative char, where
-- char is taken as signed. A cast of boost's that fails throws bad_any_cast.
-- Lengths of strings and of messages are unbounded. A loop of the client takes the number of rounds
-- that it may make, and is still running when they are used up; the theorems on the loops hold for
-- every number of rounds, or say how many are enough.
--
-- Not modelled: the clock (a sleep is a recorded call), std::bad_alloc of C++ strings and containers,
-- errors of the output streams, the iterators of a message, the moved-from state of std::map beyond
-- what it commonly is (empty), and signals. The unit tests and the build files are left aside.
pub mod Prelude
pub mod Memory
pub mod Platform
pub mod World
pub mod SocketType
pub mod Message
pub mod Socket
pub mod Poller
pub mod Device
pub mod Client
pub mod Tests
