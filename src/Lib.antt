-- ===== src/Lib.antt =====
-- XSKY, a transparent proxy: kernel modules that pick packets out of the network, and a user-space
-- controller that serves them.
--
-- The parts, and the files here that model them:
--
-- * common/common.h, the constants and packed headers that all parts share: Common.
-- * route/, a kernel module. Its netfilter hook takes UDP datagrams of a subnet, puts them into a
--   ring of buffers and wakes the reader of a character device, which also sets the subnet.
--   - route/queue.h: Route/Queue.antt has its functions init, push, pop, reset and release without
--     their prefix xsky_queue_. A pointer is the number of the node that the allocator returned, and
--     an operation that reads through NULL is none. Chain and Ring say what a ring of buffers is,
--     Inv that the operations keep it, Refine that it is a bounded FIFO, Run what histories show.
--     Race takes a push apart at its lock.
--   - calc_subnet and xsky_is_subnet of route/main.c: Route/Subnet.antt; Bytes and Prefix compare
--     them with the bits of an address. The uninitialised buffer of the code is an argument.
--   - the globals, the file operations and nf_handle_in of route/main.c: Route/Device.antt, under the
--     names of the code; Settings is about chr_ioctl, Datagrams and Hook about the hook, Histories
--     and Run about sequences of all of these.
--   - nf_register_hook and nf_unregister_hook of route/main.c: Route/Hooks.antt. What the kernel
--     returns for a namespace is a parameter.
--   - create_dev, delete_dev, xsky_init and xsky_exit of route/main.c: Route/Lifecycle.antt, as the
--     lists of what is taken from the kernel and given back; Lifecycle/Balance compares the lists.
-- * server/main.c, the netfilter module of a gateway: Gateway/Packet.antt is what it reads of a
--   socket buffer and its _device, Gateway/Classify.antt the functions skb_is_* and is_local_*,
--   Gateway/Handle.antt the functions load_*, skb_recv_*, skb_sendto_*, route_nf_handle and
--   route_init. common/common.c, which the module includes, is not in the repository: its hash maps
--   and structs are the record Library, which also holds what the kernel's fresh buffers are like. The
--   host's byte order is a parameter. The fields of the two versions of IP are read as those of two
--   headers; in memory they overlap, and the one function that writes such a header, skb_recv_dns,
--   writes the fields of both. A crash of the kernel is none.
-- * server/server.c with server/server.h, the kernel module of a proxy server:
--   - the route table: Sky/Data.antt and Sky/Table.antt, with insert_route_sky, find_route_sky and
--     remove_route_sky. A pointer to an entry is its bucket, page and index. Table/Lookup says what a
--     search finds, Routes what an insertion does, Hits, Removal, Frame and Stale what a removal does,
--     Shape how many pages there are, Histories what a sequence of insertions does.
--   - the hook of the server's host: Sky/Server.antt is server_pre_routing_sky, Sky/Toa.antt
--     get_toa_data_sky, Sky/Xor.antt xor_data_sky. What the code reads of its stack without setting
--     it is an argument. The memory from skb->data on, where the search for the option starts to
--     count, is a field of its own. Server/Sessions leads a sender through the hook, Server/Misread
--     is about a search that finds nothing.
--   - the hook of the host that routes to the server: Sky/RouteHook.antt has set_toa_data_sky and
--     route_pre_routing_sky on the bytes of the packet, through Sky/Memory.antt, with the kernel's
--     checksums as a parameter. RouteHook/Insertion and Opening are about the option, Scrambled and
--     Again about the payload, and Tunnel leads a packet through both hooks.
--   - sky_init, sky_exit and the file operations: Sky/Lifecycle.antt. Opening the device registers
--     the hook of the routing host: Lifecycle/Doubled; Lifecycle/Pages counts the pages of routes.
--   The host is little-endian and its pointers have eight bytes; memcpy on ranges that overlap is
--   taken to copy what was there before.
-- * controller/, the user-space proxy:
--   - controller/mmap.cpp: Controller/Mmap.antt has read and write of the bitmap, Mmap/Open.antt its
--     open and close on Windows, as open_map and close_map, with what the process holds.
--   - controller/apnic.cpp: Controller/Apnic.antt is the list, with asio's address parser as the
--     record Addresses, Apnic/Lifecycle.antt its init and release, Apnic/Marks what a line does.
--   - controller/controller.cpp: Controller/Create.antt is controller::create, and
--     Controller/Pool.antt its task_pool, as a relation of the steps of its threads; Pool/Conserved,
--     Runs, Works and Drain say where sequences of steps lead. The packed headers of common.h are laid
--     out as the compiler of the build for Windows does it, with each bit-field in a unit of its type.
-- * client/, the user's Qt application: Client/Controller.antt is Controller of client/Controller.cpp,
--   with its file, its datagrams and its signal as values of the state; Restart says what the file
--   and the datagrams keep. The dialogs call its setters with what the user leaves in them:
--   - client/DomainListDialog.cpp and client/DeviceListDialog.cpp: Client/Rows.antt, with the form of
--     a hardware address in Client/Mac.antt. What Qt does to split and print texts is the record
--     QtText, its laws are IsQtText, and QtText/Plain is an instance.
--   - client/ProtocolDialog.cpp: Client/Protocols.antt; client/ServerListDialog.cpp:
--     Client/Servers.antt, with the array of config.ini as a list.
--   - client/MainWindow.cpp: Client/Window.antt, whose slot follows the client's signal.
--   - client/CaptureDialog.cpp: Client/Capture.antt; Button is about its state and the selection,
--     Ethernet about the text of a header.
--
-- Base has what these share: Boolean tests on the native numbers, lists over them, byte order. Each
-- part ends in a module Tests with its theorems at concrete values.
--
-- Bounds: bytes, 16-bit and 32-bit words are native numbers with the wrap-around written out. Loops
-- recurse on the number of rounds that the code makes. The search of TCP options runs on fuel, the
-- length of the options, which is enough since every round takes a byte or more; so does the
-- scrambling, whose index grows eightfold in each round.
--
-- Not modelled: locks and threads but for Race, Pool and release (elsewhere a call is one step),
-- the algorithms of the checksums, and the checksums that the gateway and the hook of the server's
-- host write, the download of the APNIC list, system calls beyond their results, the accept loop
-- of the controller, whose device and tasks hold no logic, and the drawing of the client.
-- client/QHexView is another project's library.
pub mod Base
pub mod Common
pub mod Route
pub mod Controller
pub mod Sky
pub mod Gateway
pub mod Client
