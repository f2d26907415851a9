-- ===== src/Lib.antt =====
-- MiSTer_GroovyRelay sends video fields and audio to a MiSTer over the Groovy UDP protocol. This
-- library models the parts of the relay that decide what goes on the wire and what the sessions,
-- queues and rings around it do, and proves them against each other or against an independent
-- description.
--
-- The parts. `Groovy` is internal/groovy: the constants (constants.go, core.go), the packet
-- builders and the modeline (builder.go), and the status datagram (ack.go). `Net.Sender` is
-- internal/groovynet/sender.go up to the handshakes: Send, SendPayload, MarkBlitSent,
-- WaitForCongestion and SendIfIdle; `Net.Handshake` is the rest of it, SendInitAwaitACK with its
-- retries, flushStaleDatagrams and ProbeVersion. `FakeMister` is internal/fakemister, the receiver
-- that the relay's tests run against: ParseCommand (`Command`), the Reassembler, and RunWithFields
-- as a step on each datagram that arrives (`Listener`). `Nlc` is internal/groovy/nlc, the near-
-- lossless codec: `Colour`, `Planes` (the rows of the three planes), `Residual`, `BitIo` (the bit
-- writer and reader), `Dpcm` (the line coder) and `Pack` (the tiled and the Rice packing of a
-- line's residuals) are codec.go, and `Frame` is encode.go and decode.go, EncodeInto with the
-- scratch of its planes and Decode. `Session` is internal/core/state.go. `EventLog` is
-- internal/eventlog/log.go. `Dataplane` holds internal/dataplane/audioring.go, fieldparity.go and
-- codec.go. `Streams` is internal/adapters/streams/queue.go. `Hls` is internal/hlsbuffer: `Cache`
-- is cache.go, the segments on disk, `Playlist` is playlist.go, the parser of playlists, `Variant`
-- is variant.go, the choice of a master playlist's variant, and `Validator` is validator.go, the
-- URLs and addresses that may be requested. `Torrent` is the choice of a file in
-- internal/adapters/torrent/select.go. `Playback` is internal/adapters/registry.go (`Registry`) and
-- internal/playback/dispatcher.go (`Dispatcher`).
--
-- How they interact. The sender's datagrams are the receiver's arrivals: the builders' packets are
-- what ParseCommand reads, and the chunks of SendPayload are what the Reassembler collects. The
-- dispatcher finds the provider of a request in the registry, by the active session's source and
-- adapter reference. The line coder's residuals are what the packing writes through the bit writer,
-- and the finished segments of the three planes are the records of a frame's stream.
--
-- How the code is modelled. A method that changes its receiver is a function from the record of the
-- receiver's fields to the new record, with what it returns beside it; a mutex makes such a method
-- one step. Integers are natural numbers, with the wrap-around of their width written out where the
-- code can reach it, and ℤ for the codec's signed values, which stay far inside of their types.
-- Slices are lists. What the socket, the clock and the standard library's shuffle do is an
-- argument. A panic is `none`, or `outside` where the decoder reads its input. Loops are structural
-- recursion, or recursion on a number of rounds: the payload's number of chunks in `send_from`, the
-- number of pending bits in `flush_loop`, the number of bits asked for in `load_loop`, the number
-- of values in `pack_tiles` and `unpack_tiles`, the number itself in `power_loop`, the number of
-- lines in `encode_lines`, `put_records` and `decode_lines`, the redirects allowed and one more in
-- `hop_loop`, and 4096 reads in `drain`, as in the source. Each of these is enough, since every
-- round but the last one consumes at least one of what is counted.
--
-- Not modelled: sockets, goroutines and timers, logging, pacing (which moves datagrams in time, but
-- neither changes nor reorders them), floating-point rates (a parameter), LZ4 (a third-party
-- library), the adapters' exchange with external services, the HTTP servers and the user interface,
-- configuration files, and the wiring in cmd.
--
-- The files. `Prelude` holds what the others share: Boolean tests on the native numbers, lists and
-- sorting, integers, bits and bytes. A component's `Tests` applies its theorems at concrete values.
-- The other files are named for what they define or prove.
pub mod Prelude
pub mod Groovy
pub mod Hls
pub mod Net
pub mod Nlc
pub mod FakeMister
pub mod Session
pub mod EventLog
pub mod Dataplane
pub mod Streams
pub mod Torrent
pub mod Playback
