-- ===== src/Lib.antt =====
-- cabinet, a key-value store that is replicated with Raft: models of its cluster node and proofs.
--
-- A cluster node (src/Cluster.cpp) keeps a log of entries in a persistence file, the other nodes
-- (siblings), the connections of cabinet clients (parents) and its role. Connections deliver
-- commands in a text format. A leader appends a client's command to its log and sends it to the
-- siblings; their answers move the commit index; the reply of a server goes back to the client that
-- waits for the entry. A server runs the commands on its database, keeps the writing ones in a
-- persistence file, and runs that file when it starts.
--
-- The modules, each of which has its proofs in child modules:
--   Base: names of the library, tests, lists by native numbers, integers, byte strings, `std::map`
--     (IntMap), and `Outcome`, how a call ends: it returns, calls `exit(1)`, lets an exception pass,
--     or reads outside of a string, a vector or through a null pointer.
--   Number: `std::to_string`, `std::stoi` and `std::stol` on decimal texts.
--   Entry: src/Entry.cpp. `read_entry` and `write_entry` are `operator>>` and `operator<<`.
--   PersistenceFile: src/PersistenceFile.cpp on the bytes of the file. PersistenceFile.Abstract is
--     its specification, a list of entries; `Holds` relates a file to the list.
--   ProtocolStream: src/ProtocolStream.cpp. `resolve_receive_buf` is the parser, cut into the stages
--     of the function; ProtocolStream.Frame is the independent description of the text, and
--     ProtocolStream.Progress describes the runs of its loop as a relation.
--   Client: src/Client.cpp and src/ClusterClient.h; a reply is a text for a receiver.
--   Siblings: src/Siblings.cpp. Parents: src/Parents.cpp. Cluster: src/Cluster.cpp.
--   RequestVote: src/RequestVoteCommand.cpp and src/ReplyRequestVoteCommand.cpp.
--   AppendEntry: src/AppendEntryCommand.cpp (`operator>>` in AppendEntry.Send).
--   ReplyAppendEntry: src/ReplyAppendEntryCommand.cpp.
--   ClusterNode: src/ClusterNodeCommand.cpp and src/ReplyClusterNodeCommand.cpp.
--   Request: src/ClusterDefaultCommand.cpp and the reply part of src/FlushServerCommand.cpp.
--   Children: src/Children.cpp, the connections to the servers and the choice of one for a command.
--   Node: `cron` of src/Cluster.cpp on a cluster with its children, and `connectLostSiblings` of
--     src/Siblings.cpp. Node.Dispatch: src/ClusterClient.cpp, the commands of a node.
--   EventPoll: src/EventPoll.cpp and `sendReply` of src/Client.cpp; the kernel's `epoll_ctl` is an
--     interface, a record of the call and of what its manual says of it. EventPoll.Loop and
--     EventPoll.Process: `deleteClient` and `processEvent`; the virtual methods that they call are an
--     interface.
--   Database: src/DataBase.cpp and the commands of the server (src/SetCommand.cpp,
--     src/GetCommand.cpp, src/DelCommand.cpp, src/NoMatchCommand.cpp, src/CommandKeeper.cpp).
--   Server: src/ServerClient.cpp and `importPF` of src/Server.cpp; Server.Start: its start;
--     Server.Methods: what the event poll calls of it.
--   CabinetCli: `formatClientInput` of src/CabinetCli.cpp. CabinetCli.Session: its other operations;
--     CabinetCli.Main: `main` of src/cabinet-cli.cpp.
--   Util: the calls on sockets of src/Util.cpp, and of src/Cabinet.cpp.
--   Startup: `init` of src/Server.cpp and of src/Cluster.cpp, and `main` of src/cabinet-server.cpp and
--     of src/cabinet-cluster.cpp, up to `onFire`.
--   Configuration: src/Configuration.cpp, `recognizeSiblings` of src/Siblings.cpp and
--     `recognizeChildren` of src/Children.cpp; Configuration.Init: `initConfig` of src/Cluster.cpp.
--   Tests: sample data and runs.
--
-- `operator[]` of a command is the function of its name (`append_entry`, `request_vote`, ...), which
-- reads the arguments and calls the `handle_` function; `operator>>` is the `send_` function. They
-- take the time that `Util::getCurrentTimeInMs` returns, the client and the node, and give the
-- result code, the node after the call and what was sent.
--
-- Bounds and fuel: a `long` or an `int` is an integer of Base.Int, without overflow; texts are read
-- with the bounds of their types. The reading loop of a file takes one round for each byte and one
-- more, as each round but the last takes at least three delimiters. The loop over the parts of a
-- command has the same bound, as each round but the last takes at least one byte, and so has the
-- loop over the words of a typed line. The loop over the clients that were read takes at most one turn
-- for each of them and each byte in their buffers. The printing of a number has one step more than its value.
--
-- Outside of the model, as its parameters: what `connect`, `accept`, `read`, `write`, `epoll_ctl` and
-- the other calls of the operating system return, the hash of a text, and the times. The loop over the
-- clients that were read takes the methods of the cabinet as an interface, with the laws
-- EventPoll.Batch.Fresh, EventPoll.Queue.KeepsInputs and EventPoll.Ready.KeepsHeld; Server.Serving fills
-- it with the methods of a server (Server.Methods). Those of a cluster node are not filled in.
--
-- Not modelled: the text of the current time and the flags of a descriptor in src/Util.cpp; the
-- handler of SIGTERM with `shutDown`, and what destructors do at the end of the process; what the
-- terminal shows besides a reply; log output.
-- Whether a file can be opened is a part of the file's state. A write that fails in the middle of an
-- entry is not modelled.
pub mod Base
pub mod Number
pub mod Entry
pub mod PersistenceFile
pub mod ProtocolStream
pub mod Client
pub mod Siblings
pub mod Parents
pub mod Cluster
pub mod RequestVote
pub mod AppendEntry
pub mod ReplyAppendEntry
pub mod ClusterNode
pub mod Request
pub mod Children
pub mod Node
pub mod EventPoll
pub mod CabinetCli
pub mod Configuration
pub mod Database
pub mod Server
pub mod Startup
pub mod Tests
pub mod Util
