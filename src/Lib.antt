-- ===== src/Lib.antt =====
-- Raft, a fault-tolerant configuration manager, a sharded key/value service and MapReduce
--
-- The repository holds the parts of a distributed key/value store and a MapReduce, written in Go.
-- The peers of raft/ agree on a log of commands and deliver it to the service above them on a
-- channel. shardctrler/ is such a service: its controllers keep the numbered configurations that
-- give each of ten shards to a group of servers. shardkv/ is another: each group keeps the keys of
-- its shards, and its clerks ask the controllers which group to call. All calls of these three go
-- over the simulated network of labrpc/. mr/ stands alone: a coordinator hands map and reduce tasks
-- to workers. Most bodies of raft/raft.go and shardkv/server.go and some of shardctrler/server.go
-- are left out of the repository ("Code hidden"); such a body is a parameter here, or is missing.
--
-- The files:
-- Common: numbers, Booleans, options, lists and maps (association lists). A Go string that is
-- taken apart is a list of bytes, any other is a String; int, int64 and time.Time values that are
-- only compared, counted up or used as keys are natural numbers; a value of -1 is an integer.
-- Labrpc/Network: the Network of labrpc/labrpc.go and the methods that change it. Labrpc/Dispatch:
-- MakeService, Server.dispatch and Service.dispatch. Labrpc/Delivery: processReq; what happens to
-- the network while the handler runs, and the random numbers, are arguments, and the waiting loop
-- runs along the list of what its select meets, so that it ends or waits still. It also
-- has ClientEnd.Call. The proofs about a reply are in Labrpc/Answers and Labrpc/Calls, those about
-- ends set up as the tests do it in Labrpc/Setup.
-- Raft/Types, Raft/Storage and Raft/Peer: the types of raft/raft.go, raft/persister.go, and the
-- methods of Raft that have a body. Raft/Compaction and Raft/Votes: Snapshot, the log part of
-- InstallSnapshot, persist and RequestVote, which raft/raft.go leaves out but README.md lists.
-- Labgob/Types: the types and values of Go as package reflect shows them, and the globals of
-- labgob/labgob.go. Labgob/Capital: checkType. Labgob/Default: checkDefault. Labgob/Coder: the
-- encoder and the decoder around encoding/gob, Register and RegisterName.
-- The harness of the Raft tests, raft/config.go, is in seven modules. Raft/Harness: checkLogs, applier
-- and nCommitted. Raft/Snapping: applierSnap and ingestSnap. Raft/Leaders: checkOneLeader, checkTerms
-- and checkNoLeader. Raft/Waiting: wait and one. Raft/Wiring: connect and disconnect. Raft/Restart:
-- the persisters in crash1 and start1, on a memory in which two servers could share one.
-- Raft/Cluster puts the last two together to crash1, start1 and make_config.
-- Shardctrler/Types and Shardctrler/Server: shardctrler/common.go, and the apply loop with
-- sendToRaftAndWait of shardctrler/server.go. A controller is run along a list of events: Raft
-- delivers a message, an RPC handler submits an operation or ends its wait, the tester calls Kill.
-- handleJoin, handleLeave, handleMove, handleQuery and isOpMatched are parameters. The proofs
-- are in its children Dedup, Channels, Run, History and Numbering.
-- Shardctrler/Client: the clerk of shardctrler/client.go, with its loop in Client/Loop.
-- Shardctrler/Harness: shardctrler/config.go, with the persisters of Raft/Restart; the proofs are in
-- its children Parted, Halves, Clerks and Restarted.
-- Shardkv/Types, Shardkv/Client and Shardkv/Server: the types, the clerk of shardkv/client.go, and
-- of shardkv/server.go StartServer, sendToRaftAndWait and Kill.
-- Mr/Types, Mr/Names, Mr/Worker and Mr/Coordinator: mr/rpc.go, mr/worker.go and
-- mr/coordinator.go. The handlers of the coordinator are functions on its state; the handlers
-- that test before they lock are also given as single steps, which may interleave. Mr/Working: the
-- main loops of a worker that is the only one, against these handlers and the monitors. Mr/Redo: the
-- monitors and what a worker is asked to do again. Mr/Json: what encoding/json makes of a string.
--
-- A name of the source keeps its words: runShardCtrler's round is Shardctrler.Server.handle_msg,
-- ck.PutAppend is Shardkv.Client.put_append, and so on. An Outcome, Option or Tried that says
-- blocked, none or still waiting is a goroutine that stops, a panic or fatal exit, or a loop that
-- has not returned.
--
-- Fuel: the loops of the clerks go on for ever in the source, and are given a number of rounds;
-- the theorems on their return say how many are enough. The loops of a MapReduce worker are given
-- rounds, too; the second never ends. checkType of labgob is given fuel for its calls within one
-- another; one more than the number of types not yet marked is enough. The loop that groups sorted
-- pairs is given the length of the list, which each round shortens. All other loops run along a
-- list.
--
-- Not modelled: shardkv/config.go and the _test.go files; of raft/config.go and
-- shardctrler/config.go cleanup, the time limit of a test and the statistics; the delays of the
-- network, the sockets of mr/, and what has no body in the repository. Locks are the grain of the
-- steps. The coding of arguments and replies, encoding/gob, unicode.IsUpper, sort.Sort, the random
-- numbers and the clock are parameters.
pub mod Common
pub mod Labgob
pub mod Labrpc
pub mod Mr
pub mod Raft
pub mod Shardctrler
pub mod Shardkv
