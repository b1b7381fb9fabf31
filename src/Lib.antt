-- ===== src/Lib.antt =====
-- The verification library of AlphaDB: a model of the parts of the program that keep state, and
-- what is proved of them.
--
-- Parts and files:
--   * Io.HashTable, for io/hash_table.cc: the table from (descriptor, page) to the slot of the pool.
--   * Io.BufferManager, for io/buffer_manager.cc: the pool of page buffers over the table; each
--     method of class buffer_manager is the function of its name, in the monad of Io.Result, which
--     has the thrown std::exception and undefined behaviour as values. Io.Unix holds the system
--     calls lseek, read and write as a parameter, with their documented behaviour as laws.
--   * Io.FileHandle, for io/file_handle.cc: a paged file with its list of free pages, over the pool.
--   * Io.IoManager, for io/io_manager.cc: creating, opening and removing files.
--   * Io.Criterion, for io/iterator.cc: the test of a value in a scan.
--   * Index.Comparator, Index.Format, Index.Node, Index.Tree and Index.Iterator, for the files
--     comparator.cc, index_format.cc, leaf_node.cc with internal_node.cc, b_plus_tree.cc and
--     index_iterator.cc of index/b+tree: the comparison of keys, the page of a node, its sizes,
--     the descents from the root, and the scan of the leaves. Index.Tree.Update, for insertion
--     and removal in b_plus_tree.cc. Index.Manager, for index_manager.cc: the header of a new index.
--   * Table.Format and Table.Handle, for table/table_format.cc and table_handle.cc: a page of
--     records, and the operations of a table over a map of its pages. Table.Schema, for
--     table/table_manager.cc: the columns in the file of a table.
--   * Db, for db/alphadb.cc: the databases as directories.
--   * Raft.State, Raft.Server and Raft.Replication, for consensus/raft/log.h, rpc_args.h and
--     raft_server.cc: the data and the handlers of a raft server; Raft.Outcome has the handlers' results, where locking a
--     mutex that the thread holds and leaving a vector's bounds are values. Raft.Life has the
--     timers, starting and stopping, and all that reaches a server in its life. Raft.Store is the
--     text of the file that keeps a server's state; a read whose stream fails is none. Raft.Wire, for
--     consensus/raft/rpc_args.cc and log.cc: the messages in the buffer of a connection.
--   * Transaction.LockTable and Transaction.LockManager, for transaction/lock_table.cc and
--     lock_manager.cc: the entries of the items, and the requests of one item as steps of threads.
--     Transaction.TxnManager, for txn_manager.cc: the handles that a transaction manager keeps.
--   * Network.Buffer, Network.Coding and Network.Dispatcher, for network/buffer.cc, coding.cc and
--     dispatcher.cc: the ring buffer of a connection, integers in groups of seven bits, and timers.
--     Network.ThreadPool, for network/thread_pool.cc: the queue and the workers as steps.
--     Network.Codec, for network/rpc/codec.cc: the id of a call, and when a message is there.
--     Network.Conn, Network.RpcConn and Network.RpcServer, for conn.cc, rpc/rpc_conn.cc and
--     rpc/rpc_server.cc with rpc/rpc.cc: the bytes of a connection, its calls as steps of threads,
--     and the services of a server.
--     Network.Channel and Network.Poller, for network/channel.cc and poller.cc: the flags of a
--     channel, and one round of the poller of Linux. Network.Kqueue is the poller of macOS, with the
--     channels that the handlers of a round remove; its events are a parameter, as are the flags of
--     the channels, whose bits the system's headers give.
--   * Prelude: numbers, lists, integers, the bytes of the machine and tests that the parts share.
--     Tests: concrete kernels, files and servers.
--
-- How the parts interact: file_handle calls the pool, which calls the table and the kernel. The
-- raft server hands timers to the dispatcher and calls to its peers; both are events of its state.
-- Its messages go through the codec into the ring buffer. The iterator of an index starts at the
-- leaves that the tree finds, whose pages it reads through the index format with the comparator,
-- and it tests their keys with the criterion.
--
-- Conventions of the model:
--   * Descriptors and page numbers are natural numbers in the table and the pool; the page file
--     checks the sign of what its clients pass, and the model says where a negative number goes.
--     Sums and products of them are exact: they are taken to fit an int, so that a file has fewer
--     than 2 ^ 31 bytes.
--   * A char* into the pool is the number of its slot. used_map_ is the position of a slot in
--     used_list_, so erasing through it is erasing the slot's node. A doubly linked chain is a list,
--     an array is a function of the index. What a `new` leaves in memory is a parameter.
--   * Different descriptors name different files. The call that writes a file header is a
--     parameter of the functions that make it, since its source is not a page buffer.
--   * mutex_ is a flag of the server, and each handler is one step that finds it free or held.
--     voted_for_ = -1 is `none`; what the code converts to an int is converted. Terms wrap at 2 ^ 64 where the code counts them up; the int
--     indices next_index_ and match_index_ are integers.
--   * A byte is a natural number. The loop of encode_uint has fuel for ten groups, as many as
--     64 bits make; every other loop runs down a list or a number that the code counts
--     through. size_t positions wrap at 2 ^ 64 where a caller's length is added.
--   * The time of the clock is an argument of the functions that ask for it. The std::map of
--     the timers is the list of its pairs in the order of the keys; a timer's sequence number is new, so that insert and
--     assignment of its key are the same.
--   * A thread that waits for a lock evaluates the test when it is woken, under the entry's mutex:
--     each evaluation is one step, and steps come in any order.
--   * A pointer to a key, a record or a page is an address of a memory that maps addresses to
--     bytes, from which ints, longs and the bits of floats are read, the least significant byte
--     first. A leaf of a scan is the page id that its pointer stands for. Only the root's object of
--     a tree has a format: every other node is made anew. Calls of the file handle by the tree and
--     the table are recorded as a list; those of the table may throw.
--   * The loop of find_in_leaf has fuel for count + 1 tests, which is enough; get_next_free needs
--     four. Loops that may run for ever (the search of a table page, next of an iterator) have fuel as an argument, and none is the answer when it is used up.
--     A function that reaches its end with no return answers none too.
--
-- Not modelled: the SQL parser (generated and printing code), making and closing the sockets of
-- network/, closing a file, the rows of table/ (their encoder appends to a pointer that is never
-- set), what index/b+tree does with a node's parent and the splitting of a leaf (a page
-- holds fewer entries than a leaf must have before it is split, and a leaf that is found has no
-- parent), the transactions, which are empty, and consensus/paxos, which has only
-- empty declarations. In the raft server, opening the file of its persistent state, and printing.
pub mod Db
pub mod Index
pub mod Io
pub mod Network
pub mod Prelude
pub mod Raft
pub mod Table
pub mod Tests
pub mod Transaction
