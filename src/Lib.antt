-- ===== src/Lib.antt =====
-- tinyBackend
--
-- The development models the parts of the C++ library tinyBackend that carry protocol and data
-- structure logic of their own: the Raft elections of Distributed/raft, with the wrap-around
-- versions of Base/VersionNumber.hpp that they compare; the ring buffer of Base/Buffer that the
-- message layers of Net read from and write to; the pool of blocks of Base/Buffer; the cache of
-- Base/LRUCache.hpp; and the B+ tree of Base/BPTree_impls, which keeps the blocks of its file in it.
--
-- Files and code
--
--   Prelude       shared names, list lemmas and tests; no code of the repository
--   Version       Base/VersionNumber.hpp: VersionNumber32 and VersionNumber64 as numbers below the
--                 number m of values of the word, with `++`, `+=` and the half-window order
--   Raft          Distributed/raft:
--     Message       RaftMessage.hpp, and the comparison of Net/InetAddress.hpp
--     Instance      the state of RaftInstance.hpp, with that of the transmitter, and the interface
--                   of RaftStateMachine.hpp
--     Transmitter   src/RaftTransmitter.cpp, one function for each kind of message
--     Agent         src/RaftAgent.cpp from respond_leader_check on: what the handlers are made of
--     Handlers      src/RaftAgent.cpp: the handlers by state and by event
--     Loops         src/RaftInstance.cpp: the turns of the thread, and synchronize_logs_to_followers
--     Spec          an abstract node: its state, leader, version, votes, and the votes that it gave
--     Frame, Refine, Switches, Steps   the handlers against the abstract node
--     Promises      the votes that the node gives, and the versions in which it stands
--     Safety        a step, and a run
--     Votes, Extra  the answer to a request for a vote; extra bytes and heartbeats
--   Ring          Base/Buffer/RingBufferWrapper.hpp and src/RingBufferWrapper.cpp, with
--                 Base/Detail/BufferArray.hpp (Ring.Arrays):
--     Cells, Inv    bytes by index; the invariant and the bytes that a ring holds
--     Offsets       the forms over arrays with an offset, transfers, Base/Buffer/RingBuffer.hpp
--     Queue, Peek, Scatter, Room, Vectors, Skipped, Reposition   the operations against lists of bytes
--   Pool          Base/Buffer/BufferPool.hpp and src/BufferPool.cpp: the tree of the largest free blocks
--     Sizes, Tree   the sizes of blocks; which entries fit together
--     Climb, Start, Loops, Frame   the loops that restore the entries above a node, and their effect
--     Descent, Blocks, Grant, Return, Fresh   positioning, get, put and the constructor
--   Cache         Base/LRUCache.hpp: the cache over a helper that its user writes
--     Held, Evict   values in use, and the choice of victims
--     Users, Uses   the number of users of a value, over get and put
--   BpTree        Base/BPTree_impls: the kinds of block and their sizes (Interpreter.hpp)
--     Pairs         the pairs of one block, IndexBlock_Impl.hpp and DataBlock_Impl.hpp
--     Store         the state of an open tree, and the access to blocks (src/Impl_Scheduler.cpp)
--     Free          the blocks that are free for new use (BPTree_impl.hpp, Interpreter.hpp)
--     Search, Ends, Insert   BPTree.hpp: the searches, the searches from the ends with the updates,
--                   and the insertion
--     Erase, Range, Between   BPTree.hpp: the erasure of a key, and of a range in the data blocks and in
--                   the index blocks; Absent: a key that is not there; Reuse: the free blocks
--     Bound, Halves, Sorted   the binary search and the split against lists in order
--     Shape         which tree of blocks the store holds, and which pairs the tree has
--     Descend, Reach, Cursor, Scans, Sought, Find, Lower, Whole   the searches against
--                   those pairs
--     Nodes, Parted, Rows, Written   the numbers of blocks, and what a write leaves alone
--     Grow          the insertion: into a data block (Leaf, Data), into a child and its parent (Place,
--                   Child, Take, Finish, Entries, Node, Down), at the root (Root, Whole), and the
--                   searches in the tree that results (Held)
--
-- How the code is modelled
--
-- An instance of Raft is one record, which the handlers pass on. It holds the fields of
-- RaftInstance and of its transmitter, an outbox with every message handed to the socket, the
-- newest first, and the number of readings of the clock so far. The clock is a function of that
-- number, so that two readings in one handler may differ. The clock and the callbacks of the state
-- machine, which the user of the library writes, are the parameter `env`. The peers, an
-- unordered_map, are an association list; `votes` is a natural number. Log output is left out, and
-- the mutex too: thread and callers take it for the whole of a step, and `run` interleaves steps in
-- any order. A failed `assert` and the exit at a split brain are outcomes without a state. Where a
-- handler is called with the field `_leader`, the reference is modelled: it reads what the field
-- holds when it is used. A datagram carries its length, so that one of a wrong length is no message.
--
-- A ring is a byte array with the two pointers as offsets. A failed `assert` is `none`, and so is
-- a memcpy over ranges that overlap. Sizes are uint32, and sums keep their wrap-around where the
-- code adds them.
--
-- A pool is its size and the array of entries; pointers are offsets, and the null pointer is `none`.
-- The loops run on a fuel of 64: a uint64 is doubled or halved to 0 within 64 steps, and a tree whose
-- size is a uint64 has at most 52 levels. The shift of an int in `location` and `positioning` is
-- undefined from 31 levels on, and so is the model's (`before_level`). The code asks for less memory
-- than the size of the pool when the total is no power of two; the model has no memory behind the
-- offsets.
--
-- A cache holds its helper's state; the functions of the helper are a parameter. Iterators are keys,
-- and what a node knows of its own iterators is whether they are set. The map's order, which only the
-- destructor follows, is that of the association list.
--
-- A tree's keys are numbers, which stand for any type with a total order; its values have a fixed
-- size. A block is the list of its pairs, and an offset the place of a pair. The buffers that the
-- scheduler hands out are the blocks of the list, so that a change is seen by each later access. The
-- descents take one unit of fuel for each level of index blocks; the loop of `upper_bound` one for
-- each pair. The loops with a limit recurse on it. The results are the pairs themselves.
--
-- Not modelled
--
-- Of the tree: what opening a file reads, and when the scheduler writes a block to the file; values
-- without a fixed size, whose code does not compile.
--
-- Of Raft: stop, and the loops of join_to_cluster and exit_cluster, whose handlers are there. Of the
-- cache: erase for a helper with a release, where the code does not compile. Threads, files, sockets,
-- the event loop, the logs and the containers are outside: much of them is calls of the
-- operating system.

pub mod Prelude
pub mod Version
pub mod Raft
pub mod Ring
pub mod Pool
pub mod Cache
pub mod BpTree
