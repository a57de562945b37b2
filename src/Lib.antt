-- ===== src/Lib.antt =====
-- Verification of the firmware of the LED display arena controller (G6). Paths are from the
-- repository's root.
--
-- The program is one loop on a Teensy. A host sends commands over USB serial
-- (src/SerialManager.cpp) or TCP (src/NetworkManager.cpp); both cut the bytes into commands in the
-- same way. The command processor (src/CommandProcessor.cpp) handles a command and answers over the
-- link it came from. What happens is logged in a ring in memory that survives a reset
-- (src/Telemetry.cpp), which the host drains by commands. Patterns come from the card
-- (src/SdManager.cpp) and go to the panels over SPI (src/SpiManager.cpp).
--
-- Modelled here:
--
-- Telemetry is src/Telemetry.cpp and src/Telemetry.h. Telemetry/Layout has the constants,
-- RingHeader and the file's variables; Ring the cursors, makeRoom and appendRaw, cut at its cache
-- flushes; Record the records; Producers cmd, frame, state, service, configure and the heap guard;
-- Boot the header check, repairChain, initRing and begin; Drain ack, peek and the block header.
-- Chain says which records stand between the cursors, and the other files move it through the
-- operations. The record area is a function from offsets to bytes and has 65504 of them. Loops over
-- records run on fuel: data_size rounds or one more, of which each moves a cursor by a byte at
-- least. What the surroundings give (the heap break, micros(), the reset cause of Health) is an
-- argument.
--
-- Transport is the two links. Rx has the receive buffer and parseIncoming, Link the services and
-- readBulkBytes, Tx the responses and the loops of sendRaw. Wire states the wire format on its own.
-- The receive buffer is a function from offsets to bytes with a length, so the bytes behind the
-- length are there too. The drivers are arguments: the bytes ready on the link, how many of those
-- asked for a read hands over (at most all), and what a round of a sending loop sees (a tick). The
-- sending loops run on a list of ticks and say whether they returned. The size of the receive
-- buffer is an argument, as it depends on the board. A firmware or pattern upload is a command of
-- its header; its body is read by readBulkBytes. The rounds of one link in Link know when the
-- dispatch holds the link back, and end at the header of an upload, whose handler takes over the
-- buffer and the link.
--
-- Panel is src/G6PanelProtocol.h (Protocol), src/Crc.h (Crc, with Bitwise for the reference) and
-- src/ErrorGlyph.cpp (Glyph, Frame). A message is the list of its bytes, and a picture a function
-- from row and column. popcount is the compiler's, and written out as a sum of bits.
--
-- Patterns is the name list of src/SdManager.cpp and its open handle (Catalog), its header checks
-- and readFrame (Header), and openPattern (Opening). The two arrays are lists of so many entries as
-- the count says. What the card answers is an argument. A rename looks for a free name in 999
-- rounds, as the source does.
--
-- Transfers is the part of src/CommandProcessor.cpp that moves files. Desk has the transfers under
-- way with what they share with the rest of the command processor; Download, Upload and Archive
-- have a call of serviceDownload, serviceUpload and serviceArchive each; Handlers the commands on
-- files and on the name list, serviceDisconnects and the dispatch that holds a link back; Resync
-- the draining of a refused upload. Downloading, Uploaded (with Room and Taking) and Archived (with
-- Streaming) follow a transfer through its calls. Format says what a ZIP file is, field by field,
-- on its own; Zip is all that the serializers write, Written shows that this is such a file, and
-- Zipped that it is what is sent. Interlock (with Apart, Starting and Deleting), Steps, Naming and
-- Refusing are about the commands and services in any order. The card, the reads, the writes and
-- the clock of each call are arguments, and so is what each sendRaw takes. The texts of the answers
-- are a data type.
--
-- Display is the part of src/CommandProcessor.cpp that fills and sends frames. Buffer has the frame
-- buffer and the functions that fill and patch it; Player the state, the loading of a frame, trials
-- and frame positions, with the refresh timer of src/SpiManager.cpp; Service a round of
-- serviceDisplay and the other display commands. Blocks, Holding, Loading, Playing, Commanding,
-- Rounds and Stepping carry the invariant; Patching is about what patchDispMode changes, and
-- Advancing about the frame of open-loop playback. The panel grid and the default refresh rates are
-- arguments. Mode 4 reckons in floating point: which frame it chooses is an argument. The
-- bookkeeping for telemetry and health is left out. The loops that catch up with the clock run at
-- most as many rounds as the pattern has frames, as in the source.
--
-- Digital is the two digital lines of src/CommandProcessor.cpp with the gates of the frame scan of
-- src/SpiManager.cpp: Lines has applyDioRole, the boot roles and the commands, Wiring and Setting
-- what they keep. A line logs what its wires were after each call on a pin; of a pin there is what
-- was last asked of it.
--
-- Not modelled: the commands of the analogue outputs and its table by time; the commands for
-- telemetry, health and information; firmware files; transfers over SPI beyond their guard and the
-- timer; the panel programming, the health record, pin tables and the start-up code; pattern
-- information and the manifest files; the cached address texts of the TCP link; the 5 s wait of the
-- USB sendRaw for a queued response. Ethernet, USB, the card and the timers are third-party.
-- Integers are natural numbers with the wrap-around of the C++ types written out where it can
-- occur.
pub mod Common
pub mod Telemetry
pub mod Transport
pub mod Panel
pub mod Patterns
pub mod Transfers
pub mod Display
pub mod Digital
