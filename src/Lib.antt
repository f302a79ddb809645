-- ===== src/Lib.antt =====
-- Verification library of the Omron FINS client: fins/, a Go package that reads and writes the memory
-- of an Omron PLC over UDP or TCP, and that has a simulator of a PLC for its tests.
--
-- The parts and how they interact. A method of a client builds a command (fins/driver.go), puts a
-- header with a fresh service id before it (fins/header.go), frames it for its transport, writes it to
-- the connection, and waits for the response with that id. A goroutine, `listenLoop`, reads the
-- connection, decodes what arrives and sends it on the channel of its id. The simulator decodes a
-- datagram, serves it from two areas of bytes and encodes the answer.
--
-- Which file models which part:
-- Errors: the error types of fins/error.go and their texts.
-- Bytes: fins/bytes.go; Parse, Write and Bools hold its functions, RoundTrip the proofs.
-- Utils: fins/Utils.go; Swaps and Copies are proofs.
-- Address, Header, MemoryArea, EndCode, CommandCode: the types and constants of fins/address.go,
--   header.go, memory_area.go, end_code.go and command_code.go.
-- Driver: fins/driver.go; Frames (`decodeHeader`, `encodeHeader`, `decodeRequest`,
--   `decodeResponse`, `encodeResponse`), Commands (`readCommand`, `writeCommand` and the memory
--   addresses) and Bcd (`encodeBCD`, `decodeBCD`).
-- Server: fins/udp_server.go; `handler` is split where the source switches, `round` is one round of
--   the receive loop with the buffer that it reuses. Memory is an abstract memory, what the simulator
--   is for; Memory/Requests has the requests for its calls, and Memory/Refinement relates `handler`
--   to it. The other children are proofs.
-- Client: fins/client.go and the methods that fins/client_udp.go and fins/client_tcp.go have in the
--   same words; Send is `sendCommand`, Read and Write are the methods, by their Go names in snake
--   case. They take a `Transport`: how a command is framed and what one read of `listenLoop` does.
--   Cells and Waiting are about the channels that a client's commands make. Channels has the
--   goroutines and the channels between them: a step relation over any number of callers in
--   `sendCommand` and the listener in `listenLoop`.
-- Interface: the interface of fins/client.go as a record of operations, with both clients as its
--   implementations.
-- UdpClient, TcpClient: those transports. UdpClient/Answers and UdpClient/Clock are about answers of
--   any other side. TcpClient/Methods has the methods of `TcpClient` by name, TcpClient/Cells is about
--   both listeners, TcpClient/Dropped about reads that the listener passes over, and
--   TcpClient/Agreement compares the two transports: the side that speaks FINS/TCP is a parameter
--   there, with what it makes of a well-formed frame as a hypothesis.
-- Session: a client and the simulator joined by a network that loses nothing. `Link` is the interface
--   that it needs of a transport; UdpClient/Simulator fills it.
--   Memory relates a client's series of calls to the abstract memory of Server/Memory.
-- Common: lists, results, Go's slices, machine words and byte orders. Tests: concrete inputs.
--
-- How the code corresponds. A machine integer is a natural number, its wrap-around written out, and
-- its range is a hypothesis where a theorem needs it. A Go slice is `Slice`: the bytes of its array
-- from its start on, and its length, so that a slice expression may reach past the length, up to the
-- capacity, as in Go. A function returns a `Result`: `ok`, `err` for an error value, `panic`, and
-- `hang` for a wait that never ends. A function that writes into its argument returns the bytes
-- afterwards. A float is its IEEE bit pattern, and a Go string its bytes.
--
-- The loops are structural recursion, but for the digit count of `encodeBCD`, which goes by
-- well-founded recursion on the number; no definition has fuel. The buffers keep the sizes of the
-- source: 1024 bytes in the simulator, 2048 in the clients, 32768 in each data area.
--
-- Two views of `sendCommand`: Client/Send is one command as a function, which the methods are built
-- on, with the other side and the network as a function of a state of theirs: the write of a frame
-- fails, never returns, or is followed by the reads that the listener makes while the caller waits
-- (`Reply`), each of which brings bytes or fails (`Arrival`). The cells of `resp` hold the numbers of
-- channels. `deliver` lets the listener and the caller meet if both cells hold one channel; otherwise
-- the listener is blocked, which `listening` keeps for the commands after. What comes after the
-- answer belongs to the next command. Client/Channels is every order in which the callers, the
-- listener, the network and the time limits can take their steps. The methods but `ReadBytes` and
-- `WriteFloat32` hold a lock from start to end, so that there is one caller unless one of those two is
-- called directly; the steps allow any number.
--
-- What is not modelled: sockets, dialling, logging and printing, and data races on the client's own
-- fields. The zone of `time.Date` is left out. In fins/address.go, `net.ParseIP` is a parameter, and so
-- are the verbs of fmt in the texts of errors. A read of the TCP connection is taken as one event,
-- whatever bytes it has.
pub mod Common
pub mod Errors
pub mod Bytes
pub mod Utils
pub mod Address
pub mod Header
pub mod Driver
pub mod MemoryArea
pub mod EndCode
pub mod CommandCode
pub mod Server
pub mod Client
pub mod Interface
pub mod Session
pub mod UdpClient
pub mod TcpClient
pub mod Tests
