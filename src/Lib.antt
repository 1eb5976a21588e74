-- ===== src/Lib.antt =====
-- Wireline: a binary request/response protocol over TCP and UDP (src/wireline/).
--
-- The program is a stack of layers. `protocol/codec.py` turns a frame into bytes and back, with a
-- CRC and a keyed hash; `protocol/messages.py` reads and writes the JSON payloads of control frames;
-- `transport/framing.py` finds the frames in a byte stream; `session.py` is the server's state
-- machine, which answers each frame with a reaction (frames to send, whether to close).
-- `transport/udp.py` puts a window of replies in front of one such session for each address, and
-- `server.py` and `client.py` are the two ends over TCP. Beside them stands the capture analyser: it
-- reads a pcap file (`sniff/pcap.py`), takes its packets apart layer by layer, and finds the frames
-- in the byte stream of each direction with the same buffer as the server (`sniff/dissect.py`).
-- `__main__.py` is the command line over client and analyser, with the secret of `config.py`.
--
-- The files, with the code that each models:
--   Errors      src/wireline/protocol/errors.py: `ErrorCode`, `ProtocolError`; exceptions as `Result`
--   Codec       src/wireline/protocol/codec.py: `encode`, `decode_header`, `decode_frame`, `decode`
--               (Texts: the messages; Layout: the header; Cut: the slices; Encoding: frames and
--               bytes as a relation; RoundTrip and Keys: the theorems)
--   Framing     src/wireline/transport/framing.py: `read_frame` as `read_frame`, `FrameBuffer` with
--               `feed`, `pop`, `drain` (Pop, Turns, Drain: lemmas; Chunks, Stream, Encoded: theorems)
--   Messages    src/wireline/protocol/messages.py: `encode_*` and `decode_*`, `_load` as `load`
--   Session     src/wireline/session.py: `on_frame`, `_dispatch` as `dispatch`, `_error` as
--               `error_reaction`, `_frame` as `make_frame`, `ack` as `ack_frame`
--               (Cases: the ways through `on_frame`; Runs: histories of calls; Closing: when a
--               reaction closes; Invariant, Numbers, Replay, Failures: the theorems; Echo: the answer to
--               DATA)
--   Udp         src/wireline/transport/udp.py: Window is `DedupWindow` (History: its theorem); Server
--               is `UdpServer`, with `_on_datagram` as `on_datagram` (Peers: the dictionary of
--               peers; Once: the theorems); Client is `split_datagram` and `UdpClient._await_reply` as
--               `await_reply` (Answers: the theorems; Requests: `UdpClient.request` as `request`, over
--               the datagrams that arrive before each timeout; Lifecycle: `connect`, `send_data` and
--               `close`, with Greeting and Meeting: a client and a server that meet); Link is
--               `LossyLink`, with one in front of each end: Delivery and Served follow the copies of a
--               request in the server, Rounds the attempts in the network, Retries and Exchange the
--               client, Outcomes has the theorems; Closing and Repeated: a BYE that comes twice
--   Server      src/wireline/server.py: `_handle` as `handle`, `_apply` as `apply`; a read ends with a
--               frame or an exception, and a connection is handled over the list of these ends
--               (Histories: what it is to be after some reads; Traces, Ends, Undecodable: the theorems)
--   Client      src/wireline/client.py: `connect`, `_handshake` as `do_handshake`, `request`, `ping` as
--               `ping_server`, `send_data`, `close`, `_send` and `_recv` as `send` and `recv`
--               (Replies, Invariant, Lifecycle, Operations: its calls in any order; Pairing, Talks, Handshakes:
--               with the server's connection, which reads the bytes that the client has written)
--   Sniff       src/wireline/sniff/: Pcap is `read_packets` and `write_packets` (Records, Reading,
--               Files, Writing: the theorems); Rows is `Row` and `try_parse_wireline` (Frames: its
--               theorem); Dissect is `_dissect_packet` as `dissect_packet`, layer by layer; Flows is
--               `reassemble_flows` and `summarise` (Directions, Recovered: the theorems); Output is
--               `format_rows`
--   Tools       tools/make_pcap_fixture.py: Packets builds the packets that the analyser takes apart
--               (Layers, Network, Dissected, Checksum: the theorems); Sessions is `tcp_session` and
--               `udp_session` (Heard: what the analyser finds in the packets; Captured: the theorem)
--   Config      src/wireline/config.py: `load_secret`
--   Cli         src/wireline/__main__.py: `_ping` as `ping_command`, `_send` as `send_command`, `sniff`,
--               `describe_failure`, and `main` as `conclude_main`, from how a command ends to how the
--               process does (Echo, WrongKey: the theorems, with the server's connection)
--   Base        shared names, byte fields, text formats; Fixtures: data for the tests
--
-- How the code is rendered. `bytes` and `str` are lists of numbers. A method that changes an object
-- returns the new object; where it can raise, the object comes back beside the exception too. The
-- `IntEnum`s are data types with their numbers. Sequence numbers wrap by `% 2 ^ 32`; a frame's
-- fields are natural numbers, so the lower bound of `encode`'s range check holds of itself.
--
-- Parameters. `zlib.crc32` and `hmac` are the record `Crypto`; that a digest has 32 bytes is the
-- hypothesis `IsDigest`. `json` is the record `Json`; that an object is read back from its own text
-- is the hypothesis `ReadsBack`, for the one object at hand. Nonces and session ids are arguments;
-- an address is a number, since the program only compares addresses. The arithmetic on timestamps,
-- which are floats, is the record `Floats`. How a read, a write, `wait_closed` or `open_connection`
-- of asyncio ends is an argument, and so is whether a link drops a datagram, which the program draws
-- at random, and what the process calls an exception of asyncio.
--
-- Fuel. The loop of `drain`: a frame takes at least 51 bytes from the buffer, so the length of the
-- buffer, plus one, is enough; `reads`, the ends of the reads of a stream, has the length of the
-- stream, plus one, for the same reason, and so has the scan of a payload. A record of a capture file
-- takes at least 16 bytes, and each turn of `fold_carries` makes the total smaller: the length of the
-- file and the total, plus one, are enough.
--
-- Not modelled: what only calls sockets, asyncio, logging, argparse or ssl; the endless `serve`, the
-- timeouts as times (a read ends in one or not, as the argument says); the certificate tool and the
-- benchmark. Two tasks that use one TCP client at once are not modelled.
pub mod Base
pub mod Errors
pub mod Client
pub mod Codec
pub mod Framing
pub mod Messages
pub mod Session
pub mod Udp
pub mod Server
pub mod Sniff
pub mod Tools
pub mod Fixtures
pub mod Config
pub mod Cli
