-- ===== src/Lib.antt =====
-- A model of the core of gocanopen, a CANopen stack, and what its parts promise.
--
-- The program is a stack of services for one CAN bus. The bus manager (bus_manager.go) hands each
-- received frame to the services that subscribed to its identifier. A node runs its services in
-- turn: each has a `Handle` for frames and a `Process` that is called every few milliseconds with
-- the time that has passed. Services share the object dictionary (pkg/od), whose entries they
-- read, and whose writes they intercept by extensions, and the emergency object (pkg/emergency),
-- to which they report errors. The fifo and the CRC (internal) carry the block transfers of the
-- SDO services.
--
-- Files and the code they model:
--
-- - Base: shared names, lists under native indices, integers, machine words, bit operations.
-- - Crc: internal/crc/crc.go. `Crc.Bitwise` has the shift register that the table stands for.
-- - Fifo: internal/fifo/fifo.go. The contents of a fifo are a list (`Fifo.Refine`), its places a
--   window of the buffer (`Fifo.Window`).
-- - Can: bus.go and misc.go, frames and restricted identifiers.
-- - Bus: bus_manager.go, subscriptions and the dispatch of frames.
-- - Od: pkg/od. `Od.Errors` is constants.go, `Od.Stream` the readers and writers of streamer.go,
--   `Od.Entry` the entries with NewStreamer and the typed accessors of entry.go, `Od.Lookup` the
--   dictionary of od.go as the list of its entries, `Od.Encoding` the encodings of variable.go. A
--   run-time panic is the outcome `panicked`.
-- - Emergency: pkg/emergency. `Emergency.Access` is extensions.go.
-- - Sdo: pkg/sdo, the server. `Sdo.Message` and `Sdo.Abort` are common.go, `Sdo.Buffer` what the
--   Go library documents of bytes.Buffer. `Sdo.Server` is the struct of server.go,
--   `Sdo.Server.Dictionary` its access to the dictionary, `Sdo.Server.Download`, `DownloadBlock`,
--   `Upload` and `UploadBlock` the files of those names, and `Sdo.Server.Process` the state
--   machine of requests.go and responses.go with the loop of server.go. `Process.Setup` has
--   NewSDOServer and extensions.go, `Process.Refused` the requests that the dictionary turns down,
--   and `Process.Running` the server among the other calls of its node.
-- - Pdo: pkg/pdo. `Pdo` is the mapping of common.go, `Pdo.Rpdo` the RPDO of rpdo.go, `Pdo.Tpdo`
--   the TPDO of tpdo.go, each with its set up in a child `Setup`, and `Pdo.Parameters` the
--   accesses of extensions.go; a mapped streamer keeps the place of the variable that it shares
--   its bytes with, and the flag bytes of the extensions are a state of the TPDO. `Pdo.Transfer`
--   is a frame from a TPDO to an RPDO, `Pdo.Parameters.Lifetime` a TPDO through any accesses and
--   calls.
-- - Config: pkg/config, over an SDO client as an interface (`Config.Client`) with the typed
--   accesses of pkg/sdo/io.go; `Config.Services` is general.go, heartbeat.go, sync.go and time.go,
--   `Config.Pdos` is pdo.go. What the node does with the accesses is a record of laws,
--   `Config.Pdos.Stored.Keeps`.
-- - Nmt: pkg/nmt. `Heartbeat`: pkg/heartbeat. `Sync`: pkg/sync. `Time`: pkg/time.
--
-- A struct is a record, a method that changes it returns the new record beside its results, and
-- what it sends or hands to a callback is returned in order. A nil pointer is `none` where the
-- code tests for it. Unsigned arithmetic wraps as in Go, with the modulus written out. Where a
-- method releases its mutex to send, the events of other goroutines in that time are an argument
-- (`Nmt.process`, `Sync.process`); the other releases of a mutex are taken as undisturbed. A
-- handler of the SDO server returns a `Run`: the server, with an abort code where the code returns
-- an error, or a panic. Two functions run on fuel. `Fifo.alt_finish_loop` has one round for each
-- place of the buffer, since each round moves the read position on by one place and it meets the
-- other position before it comes round. `Process.process_outgoing` has 257 rounds, one for each
-- segment of a block and the empty call after it, since sequence numbers are bytes and a block
-- ends at its size.
--
-- Not modelled: logging, the drivers, the clock of the machine, the EDS parsers, and so far the
-- SDO client, and the node, network and gateway packages.
pub mod Base
pub mod Crc
pub mod Fifo
pub mod Od
pub mod Can
pub mod Config
pub mod Bus
pub mod Emergency
pub mod Nmt
pub mod Pdo
pub mod Heartbeat
pub mod Sync
pub mod Time
pub mod Sdo
