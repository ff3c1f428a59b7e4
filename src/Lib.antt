-- ===== src/Lib.antt =====
-- OpenMesh Messenger: what its packets, servers, sessions and stores do.
--
-- The program is a peer-to-peer messenger. Peers exchange packets over UDP. A packet has an
-- envelope (libs/protocol) that anyone can read and a payload that only the two ends of a
-- session can (libs/messaging, on libs/crypto). Contacts, messages and requests lie in an
-- encrypted file (libs/storage). A signaling server (servers/signaling) tells a peer where
-- another one is, once that one has proved that it owns its key; a relay (servers/relay)
-- forwards packets between peers that cannot reach each other directly. The client (cli) has a
-- line interface and a full-screen one over the engine of libs/messaging.
--
--   Base       lists of bytes, association lists for hash maps, integers
--   Endian     the put_uN and get_uN of libs/protocol/src/packet.cpp and libs/storage/src/blob.hpp
--   Protocol   libs/protocol: PacketType, Packet, and in Wire serialize, parse, associated_data
--   Core       libs/core/include/openmesh/core/hex.hpp, with from_hex of cli/src/main.cpp
--   Net        libs/net: Endpoint with its text, Datagram, UdpSocket is src/udp_socket.cpp over the
--              system calls of Posix, with lives of two sockets in UdpSocket/Histories, Transport is
--              src/transport.cpp, and src/signaling_client.cpp: parse_endpoint in Endpoint, the
--              class in SignalingClient
--   Crypto     libs/crypto: the wrappers Aead, Sign, KeyAgreement and Kdf of libsodium
--   Signaling  servers/signaling/src: Registry is registry.cpp, Server is server.cpp; in
--              Registration the client of Net and the server meet
--   Relay      servers/relay/src: Router is router.cpp, Server is server.cpp; Server/Ideal has the
--              router that the relay is to be
--   Messaging  libs/messaging: Session is src/session.cpp; Engine is src/engine.cpp, with its
--              probes and paths in Engine/Paths, its sessions and contacts in Engine/Contacts,
--              poll in Engine/Poll and the calls of the application in Engine/Commands; Engine/Steps
--              has the lives of an engine, which are sequences of these calls
--   Storage    libs/storage: Reader is the reader and writers of src/blob.hpp, Blob is blob.cpp,
--              Records the encoding and Store the class of store.cpp, IdentityStore is
--              identity_store.cpp; Disk is the file system they call
--   Cli        cli/src: Streams is what both programs use of std::istringstream; Tui is tui.cpp, with
--              its network thread in Tui/Backend, build_snapshot in Tui/Snapshot, on_key in Tui/Keys
--              and the wrapping of text in Tui/Layout; ChatApp and Main are main.cpp, with the
--              commands in ChatApp/Commands, handle in ChatApp/Handle and run in ChatApp/Run
--   Tests      runs on concrete input, with stand-ins for libsodium, the disk and the kernel
--
-- A class is a record of its fields, and a method a function that takes the record and returns
-- it with the method's result; an output parameter is returned too. A guard that returns early
-- is an if. A part of a method that stands behind a lookup has a function of its own, by clauses
-- on the answer. A byte is a number, and so are the unsigned integers, with their wrap-around
-- written out; where a value comes from the wire, that it fits its type is a theorem or the
-- hypothesis IsWire or IsBytes. Times are integers without bound. A hash map is an association
-- list in which each key stands at most once. Of the engine's functions only `tick` looks at its
-- order, and in the client those that list the peers or the chats do.
--
-- libsodium is not part of the repository: it is the parameter Sodium, whose documented laws are
-- the hypotheses IsSodium. Random bytes (challenges, nonces, the seed of a key pair) are
-- arguments; an engine draws its nonces from a numbered stream. The laws promise nothing about
-- forgery: what a session or a server accepts is stated as what libsodium has verified. The file
-- system is the parameter Disk with the hypotheses IsDisk in the same way: whether closing a
-- stream flushed it is its own answer, since the code does not look at it. The system calls
-- of a socket are the parameter Posix with the hypotheses IsPosix. The programs do not call the
-- model of the socket: a turn of a server takes the datagram that arrived, if any, and returns
-- what it sends, and the signaling client reads a script of answers. The loops of the source are
-- recursions on their list, number or history. Two run on fuel: the digits of a number n on n + 1,
-- one turn for each, and the rows of a text on its length and 1, since a row takes at least one
-- character.
--
-- What send_to answers is a parameter of the engine and of the signaling client: each answer may
-- depend on all that the socket was given before, so that a datagram can fail once and succeed
-- later. The readings of the clocks are arguments. The calls of the handlers that an application
-- gives the engine are kept in order, and the line client acts on them. Local time and its
-- printing are the parameter Libc of the full-screen client, and the key codes of ncurses are the
-- constructors of Key.
--
-- Not modelled: logging; what ncurses draws in render and init_ui; the threads of the client, which
-- take turns under a mutex; the lines that main reads from the terminal; the main functions of the
-- servers; the Qt client and the demonstration tools.
pub mod Base
pub mod Endian
pub mod Protocol
pub mod Core
pub mod Net
pub mod Crypto
pub mod Signaling
pub mod Relay
pub mod Messaging
pub mod Storage
pub mod Cli
pub mod Tests
