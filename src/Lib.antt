-- ===== src/Lib.antt =====
-- A verification library for rpc-storage-cpp, a key-value store that is replicated by Raft.
--
-- The program. A client (src/raftClerk/clerk.cpp) sends a request to one server after another
-- until one answers. A server (src/raftCore/kvServer.cpp) hands each request to its Raft node as
-- a command, waits on a queue for the command to be committed, and answers from a skip list
-- (src/skipList/include/skipList.h). The Raft node (src/raftCore/raft.cpp) elects a leader,
-- replicates its log, hands committed commands and snapshots to its server, and keeps its state
-- in two files (src/raftCore/Persister.cpp). Its heartbeats and elections run on fibers
-- (src/fiber/fiber.cpp), whose timers are in src/fiber/timer.cpp; an I/O manager
-- (src/fiber/iomanager.cpp) lets them wait for file descriptors, and system calls that would
-- block are hooked (src/fiber/hook.cpp). Remote calls go through a channel and a provider
-- (src/rpc), which find each other by a configuration file.
--
-- The files.
--   Common: Boolean tests, lists, and `Result`, whose errors are `myAssert` of src/common/util.cpp
--     and an index or an address out of range, which end the process, and a loop without fuel.
--   Persister: the two output streams with what is on disk and what is in the buffer, and all member
--     functions. Persister/Reads: what comes back of what was saved.
--   Raft/State: the fields of class Raft and the messages. Raft/Log: access to the log, and persist.
--     Raft/Valid: the invariant of a node.
--   Raft/Vote: doElection, RequestVote, sendRequestVote. Raft/Append: AppendEntries1. Raft/Replicate:
--     Start, getPrevLogInfo, doHeartBeat, sendAppendEntries, leaderUpdateCommitIndex. Raft/Compact:
--     Snapshot, InstallSnapshot, leaderSendSnapShot. Raft/Apply: getApplyLogs. Raft/Start: init.
--     Raft/Tickers: the rounds of applierTicker, electionTimeOutTicker and leaderHearBeatTicker.
--     Raft/Node: all of these as the events of a node. Each has its theorems in the files below it.
--   SkipList: an interface for insert_element, delete_element and search_element, and the functions
--     that are written in terms of them. SkipList/Nodes: class SkipList with its nodes in memory and
--     their arrays of pointers, and these member functions with their loops (walk, descend, link,
--     unlink, lower). SkipList/Nodes/Shape: which cells the pointers of a list lead along.
--     SkipList/Implements: the nodes fill the interface. SkipList/Assoc: the interface over an
--     association list, for the tests. SkipList/Order: the order of std::string.
--   KvServer: class KvServer over that interface and over a Raft node. A request is its part up to the
--     wait (begin_request) and its part behind it (finish_put_append, finish_get).
--   Clerk: Get, PutAppend, Put and Append. Timer: Timer and TimerManager.
--   IoManager: addEvent, delEvent, cancelEvent, cancelAll, the loop of idle over what is ready, and
--     stopping, of class IOManager. IoManager/Pending: its invariant. IoManager/Steps, Trigger, Adding,
--     Keeps and Laws: what its operations do. Scheduler: the queue of class Scheduler, and the task that
--     a thread takes from it.
--   LockQueue: the queue between a node and its server, src/common/include/util.h.
--   FdManager: FdCtx and FdManager, the contexts of file descriptors.
--   Hook: do_io and connect_with_timeout of src/fiber/hook.cpp. Hook/Sockets: socket, connect, accept,
--     the calls that read and write, close, fcntl, ioctl and setsockopt. Hook/Retry, Flags and Closing:
--     their theorems.
--   Fiber: class Fiber on one thread (src/fiber/fiber.cpp). Fiber/Chain and Leaving: the fibers under way,
--     and what resuming and leaving does to them. Fiber/Switching and CameBack: their theorems.
--   Rpc: what is used of protobuf. Rpc/Channel: class MprpcChannel, whose CallMethod sends a request and
--     reads the response, with MprpcController. Rpc/Provider: class RpcProvider, whose OnMessage finds
--     the service and calls it. Rpc/Framing, Registering and Exchange: their theorems, the last over
--     both ends. Rpc/Coding: an encoding for the tests.
--   Config: class MprpcConfig, and the lines that RpcProvider::Run writes. Config/Trimming and Entries:
--     their theorems. Config/Nodes: Clerk::Init and the channels that the constructor of KvServer makes.
--
-- How the code is modelled. A member function is a function from the old state to the new one and
-- the result; what a thread is started for, a message or a call, is part of the result. A remote
-- call is made by one function, and what follows its return is another, with the reply as an
-- argument, or `none` for a call that failed. The clock is an argument. An `int` that the code
-- keeps at or above 0 is a number without bound, so the model is exact below 2 ^ 31; -1 in
-- m_votedFor and in m_maxRaftState and -100 in updatenextindex are `none`. A `uint64_t` of the
-- timers wraps at 2 ^ 64, and a port is 16 bits. Each handler runs under the node's mutex, so a
-- node's history is a sequence of events.
--
-- Fuel. The loop of the client goes on without an end, so `ask` has fuel for a number of
-- attempts, and Clerk/Retry says which number is enough. A walk on one level of a skip list has
-- fuel for one node more than the list counts, a dump for as many as it counts, and a list of a
-- shape never runs out of it. CallMethod sends and connects again until the request is sent, and
-- do_io calls again until it is not interrupted: Rpc/Exchange and Hook/Retry say how much fuel is
-- enough. All other loops are structural.
--
-- Parameters. The address that `new` returns for a node of a skip list, at which no node may
-- stand, and how many odd numbers `rand` returns are arguments of an insertion. Boost's archives
-- and the encoding of protobuf are functions of a record (Archive, KvArchive); the one law that
-- is used is that an `Op` is read back as it was written. How much of a buffer the stream library
-- writes early is the function `spill`. The servers of a client are a function from the attempt,
-- the server and the request to the reply. What `epoll_ctl` returns and what `epoll_wait` reports
-- are arguments of the I/O manager's operations. The encoding of protobuf is a record of
-- functions with the laws that the two ends rely on (Protobuf); the attempts to connect and to
-- send and what arrives are one of their own (Net), and so are the answers of the system to a
-- hooked call (Kernel). `std::to_string` and `atoi` are functions, of which the second reads back
-- a port that the first wrote. A service is what it does with a request.
--
-- Not modelled: the waiting of the three tickers for a change of the status, the threads
-- (src/fiber/thread.cpp), start, stop and the order of calls in run of the scheduler, what
-- RpcProvider::Run does with the network library, the threads and pauses of the constructor of
-- KvServer, logging, and the destructor and the printout of the skip list.
pub mod Common
pub mod Persister
pub mod Raft
pub mod SkipList
pub mod KvServer
pub mod Clerk
pub mod IoManager
pub mod Rpc
pub mod Config
pub mod FdManager
pub mod Hook
pub mod Fiber
pub mod LockQueue
pub mod Scheduler
pub mod Timer
