-- ===== src/Lib.antt =====
-- xotpad: a packet assembler/disassembler (PAD) for X.25 over TCP (XOT).
--
-- A virtual circuit (libxotpad/src/x25/vc.rs) exchanges X.25 packets with its peer. Each packet is
-- encoded by libxotpad/src/x25/packet.rs, with the addresses of libxotpad/src/x121.rs and the
-- facilities of libxotpad/src/x25/facility.rs inside it, and framed by libxotpad/src/xot/link.rs for
-- TCP. The sequence numbers and the window of libxotpad/src/x25/seq.rs limit the packets that are
-- sent and not acknowledged.
--
-- Which module is about which file:
--   Base            lists, byte buffers, tests on numbers, and `Result<T, String>` with panics; its
--                   `Error` has one constructor for each message, with the number in it
--   Seq             libxotpad/src/x25/seq.rs: `X25Modulo`, `next_seq`, `Window`
--   X121            libxotpad/src/x121.rs: `X121Addr`
--   Facility        libxotpad/src/x25/facility.rs: `X25Facility`, `encode_facilities`,
--                   `decode_facilities`
--   Packet          libxotpad/src/x25/packet.rs: `X25Packet`; below it Header, Blocks (addresses and
--                   facilities), Call, Clear, Data and Flow (receive ready, receive not ready, reset)
--   Xot             libxotpad/src/xot/link.rs: the frames and `XotLink::recv`; below it Resolver
--                   (libxotpad/src/xot/resolver.rs, and `connect` of libxotpad/src/xot/mod.rs)
--   Vc.Params       libxotpad/src/x25/params.rs and the negotiation in libxotpad/src/x25/vc.rs
--   Vc.Queue        the packets of a message, in `Svc::send` and `pop_complete_data`
--   Vc.Engine       `VcState`, and the methods of `VcInner` that send packets or change the state; below
--                   it Written, the frames of data packets on the link
--   Vc.Handle       `VcInner::handle_in_packet`, one function for each state
--   Vc.Client       the calls of `Svc` and `SvcIncomingCall`; below it the steps of a circuit and the
--                   states that it reaches
--   Vc.Run          the loop of `VcInner::run` and its thread that reads packets
--   X3              libxotpad/src/x3.rs; below it UserPadParams (src/x3.rs) and PadParams (those of
--                   libxotpad/src/pad.rs)
--   X29             libxotpad/src/x29.rs: `X29PadMessage`, `X29CallUserData`
--   Pad             libxotpad/src/pad.rs: `Pad` with its queues; below it Remote, the X.29 messages that
--                   its thread handles and the requests to the other PAD
--   X28             src/x28: Selection (selection.rs), the parser of the selections that a user types,
--                   Command (command.rs), that of the commands, Signal (signal.rs), what is printed, and
--                   Text, the operations of `str` that they use
--   UserPad         src/user_pad.rs: CommandLine, the line of a command; Parameters and Calls, the
--                   functions behind `run`; Session, the state of `run`, with the bytes of data (Data),
--                   the commands (Commands), one round of the loop and of the thread that listens (Step),
--                   and the start and the loop (Run)
--   Main            src/main.rs: `load_config`
--   Tests           the theorems at concrete inputs, and runs of the code
--
-- Numbers are natural numbers, with the wrap-around of `u8` and `u16` written out where the source
-- shifts or adds; a byte is a number below 256 where a theorem says so. A buffer is a list of
-- bytes: what the source reads from the front is taken off the list, and what it writes is appended.
-- A function that fails gives `err`, one that panics `panic`; `stuck` is a loop of the model that
-- ran out of fuel. Fuel is used in `Facility.decode_loop`, `Vc.Queue.chunks_with`,
-- `X28.Selection.facilities_loop` and `X28.Selection.addrs_loop`: the length of the buffer, of which
-- each turn of the loop takes at least one byte; in
-- `Xot.Resolver.digits_loop`: the number itself; and in `Vc.Run.read_loop`, for the packets, of which the
-- theorems have one less.
--
-- A PAD (libxotpad/src/pad.rs) offers the characters of a terminal to the circuit, as its parameters
-- (libxotpad/src/x3.rs) say, and exchanges messages about these parameters with the PAD at the other
-- end (libxotpad/src/x29.rs). To `Pad` the circuit is a parameter, the record `Circuit` of the calls
-- of `Svc` that it makes. Its two threads are one function each for a round of their loops. A wait is
-- an outcome: `Pad.read` gives `none`, and a request to the other PAD is split into what it sends and
-- the end of its wait, `recv_indicate`.
--
-- The socket is a parameter of `Vc`: a state and a function that writes bytes to it and says
-- whether it succeeded. `Xot.recv` is given what the socket's reads return. Locks are held for the
-- whole of a method of `VcInner`, so a method is one step; condition variables and threads are not
-- modelled. An `Instant` is a number.
--
-- A session of a user (src/user_pad.rs) is a record of the variables of `run`; each message from its
-- channel is one step, which gives the session and whether the loop goes on. What is written to the
-- terminal is appended to a list, and what the session uses of circuits, sockets and the threads of its
-- PAD are the fields of the record `Environment`. The X.3 parameters are one object that the session
-- shares with its PAD: a PAD runs on the session's and leaves them in the session. The circuits that the
-- session gave up are kept in `released`. Text in src/x28 is ASCII: the upper case and the blanks of other
-- characters are not modelled. Regular expressions are a parameter of `Xot.Resolver`.
--
-- Not modelled: the interleaving of the threads of a circuit and of a PAD, the time-out of
-- `Svc::listen_timeout`, the shutdown of sockets, the calls of `Pad` that only pass on to the circuit,
-- warnings on the error output, the raw mode of the terminal, and the parsing of the program's arguments.
pub mod Base
pub mod Seq
pub mod X121
pub mod Facility
pub mod Packet
pub mod Xot
pub mod Vc
pub mod X3
pub mod X29
pub mod X28
pub mod UserPad
pub mod Main
pub mod Pad
pub mod Tests
