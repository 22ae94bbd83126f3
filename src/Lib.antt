-- ===== src/Lib.antt =====
-- go-rsyncfs: an rsync daemon and client over io/fs, in Go.
--
-- The protocol package encodes what the two ends send: integers, strings, argument lists, file
-- lists, checksum headers, transfer requests and delta streams; protocol/mux carries them, once a
-- connection is set up, in frames beside messages. A client and a server call these functions over a connection.
--
-- Base      shared names, lists of bytes, bits of native numbers, a stable sort
-- Io        io.Reader as the bytes to come, io.ReadFull, io.Writer as the bytes written; Exchange
--           a connection that is read and written, as the bytes to come and those written
-- Wire      protocol/wireint.go and protocol/vstring.go: Le the little-endian bytes, Fixed the
--           fixed integers and WriteLongInt/ReadLongInt, Var WriteVarint/ReadVarint and
--           WriteVarlong/ReadVarlong, Ndx the NdxState with WriteNdx/ReadNdx, Vstring the strings
-- Args      protocol/args.go: ReadArgs, WriteArgs, ExtractClientInfo, ExtractPreserveFlags,
--           ResolveCompatFlags
-- Checksum  protocol/checksum.go: Checksum1, Checksum2, FileChecksum, WriteSumHead, ReadSumHead
-- Selector  protocol/selector.go: ReadSelector, WriteSelector
-- Delta     protocol/delta.go: the DeltaWriter, the DeltaReader, ParseDeltaStream
-- Mux       protocol/mux/mux.go: Frame writeFrame and readFrame, Writer and Reader the two ends
-- Flist     protocol/flist.go and the flags of protocol/constants.go: Entry the entries and the
--           settings, Write the FlistWriter, Read the FlistReader, each group of fields of an entry
--           a function of its own; Xflags, Arrival, Name, Fields and RoundTrip follow an entry from
--           the one to the other, Bounds, Panics and Tame take any bytes
-- Equal     the equality of byte slices, bytesEqual, hashEqual and their copies
-- Sender    server-send.go: FileList the entries of a walk, modeToWire and sendFileList; Order
--           flistNameCmp and sortFlist; Match rollingChecksum and hashSearch; Transfer receiveSums,
--           matchSums and sendFile; Finish sendFiles over a parameter for sendFile, sendStats and
--           readFinalGoodbye; Filters recvFilterList; Session doServerSender over the entries of a walk
-- Server    server.go: NewServer and its modules; Handshake server-handshake.go, doHandshake from
--           the greeting to the seed
-- Client    client-connect.go: Connect runHandshake from the greeting to the filter list, with
--           Parts, Auth, Settles and Meets, which set it against the server's doHandshake;
--           client.go: Password PasswordAuth; client-open.go: FileList readFileList with the id lists and the trailer; Entries
--           findFlistEntry, sortFlistEntries and the choice of withEntry; Open openFile, what it
--           writes and what it does with the answer; Finish finishSession;
--           Info flistInfo and wireModeToFS
-- Pipe      pipe.go: one direction of BufPipe, as steps of its readers and writers; Wakes the calls
--           that sleep on its condition variable
-- Greet     protocol/greet.go: Negotiate, ApplyDefaults, and the protocol versions
-- Handshake protocol/handshake.go: lines, compat flags, NegotiateAlgorithms, ExchangeVersion; Text
--           what they use of strings and strconv; Greetings ReadGreeting, WriteGreeting,
--           ParseGreeting and String; Answers the module list, errors and authentication
--
-- Numbers: an intN is its bit pattern, a natural number below 2 ^ N, with the wrap-around of Go
-- written out. A Go error is a value of Io.Error, and so is a run-time panic; after an error the
-- bytes that are left are kept.
--
-- Fuel: WriteLiteral, Flush and Write run on the length of their data, since each round takes a
-- byte at least; ParseDeltaStream and the loops of the mux Reader run on the length of their input
-- and one more, since a token or a frame takes four bytes at least. The loops of
-- readFileList, readIDList and sendFiles run on the length of their input and one more, since an
-- entry, an id or a selector takes a byte at least. hashSearch runs on the length of its data and
-- one more, since a round moves by a byte at least, and openFile on the length of its input and one.
-- ReadAuthChallenge, the client's loop over the answers to its request, and recvFilterList run on
-- the length of their input and one more, since a line or a rule takes a byte at least.
--
-- Not modelled: MD4, MD5 and encoding/base64, which are parameters, as are the challenge and the
-- seed that a server draws; writers that fail part of the way; the walk of the file system; listings
-- of directories and modules, and root mode, on the client's side; HandleConnection, which
-- calls doHandshake and doServerSender.
pub mod Base
pub mod Io
pub mod Wire
pub mod Args
pub mod Checksum
pub mod Selector
pub mod Delta
pub mod Mux
pub mod Client
pub mod Equal
pub mod Flist
pub mod Greet
pub mod Handshake
pub mod Pipe
pub mod Sender
pub mod Server
