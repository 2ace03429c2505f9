-- ===== src/Lib.antt =====
-- Models and proofs for the programs of this repository: a join server with versioned rows
-- (11_join_server) and its thread pool, the command grouper (07_bulk) and its server
-- (10_bulk_server), numbers of any size (timus/1153), a finder of duplicate files (08_bayan), a
-- filter of addresses (02_ip_filter), a sparse matrix (06_matrix), an allocator with a container
-- (03_allocator), an asynchronous grouper (09_async), a search for the best shots (timus/1152), the
-- carriages of trains (timus/1869) and the order of bytes (timus/2138).
--
-- Prelude.antt and its children hold what the parts share: numbers, lists, `std::map` as an ordered
-- list of pairs (Prelude/OrdMap), texts as lists of bytes, decimal numbers as `std::to_string` and
-- `std::stoi` write and read them (Prelude/Decimal), and calls that return or throw
-- (Prelude/Result; only the type of an exception is kept).
--
-- The join server: 11_join_server. JoinServer/Value models `TRowData`, JoinServer/Row the versions
-- of a row (`TRow`), JoinServer/Table a table (`TTable`), JoinServer/Database the commands on the
-- tables (`TDatabase`), JoinServer/Parser the request parser (`TParser`) and JoinServer/Session what
-- a session does with a request and how it writes rows and statuses into its buffer. Each
-- operation is one atomic step: the mutexes are not modelled, and the two locked sections of an
-- insertion are two functions.
--
-- The grouper: 07_bulk. Bulk/State models the two states `TNormalBlock` and `TDynamicBlock` and
-- their events, Bulk/Parser the parser of lines and the loop of `main`, Bulk/Printer the printers.
-- A handler returns the blocks that it hands to its printer, and the loop of `main` gives the blocks of
-- each line to the two printers of the program, where an empty block is undefined behaviour. The clock
-- is a parameter.
--
-- The bulk server: 10_bulk_server. BulkServer/Accumulator models the buffers of commands,
-- BulkServer/State the states of a connection, BulkServer/Printer the printers, and
-- BulkServer/Controller the parsers of all connections (`TParserController`) with the calls of
-- `async` as a list of requests. The events are those of Bulk/State, since bulk/event.hpp of the
-- server declares the same types. Whether the printer handles a block is a parameter.
--
-- The asynchronous grouper: 09_async. Async models the states, the parsers and `TParserController` with
-- the calls of async.hpp as a list of requests. The types of the states are those of Bulk/State, since
-- bulk/state.hpp declares the same. A handler that throws leaves its state, so that an outcome has the
-- state, the blocks that were printed and the exception; only the use of a parser that is not there ends
-- a run. Async/Alone says what a connection sees: its calls, its replies, and a parser that is alone.
--
-- The thread pool of the join server: 11_join_server/thread_pool.hpp and thread_safe_queue.hpp.
-- ThreadPool models the queue, the threads of `MakeThread` and the destructor as steps, each a locked
-- section of `Push` or `Pop` or the end of a handler, and a run as any sequence of the steps of the
-- owner and of all threads. A task is a number, and its handler returns. In
-- these steps a thread that waits may pop whenever the queue holds a task; ThreadPool/Wakeups adds the
-- condition variable: threads that sleep, one of which `notify_one` wakes. The pools of the other servers (utils/thread_pool.hpp) have
-- the same steps.
--
-- Numbers of any size: timus/1153/main.cpp. BigInt models the class of this name by its decimal
-- digits: construction, order, steps of one, sums, differences and halves; BigInt/Multiply and
-- BigInt/Divide the products and the long division; BigInt/Root the square root by bisection, the
-- answer of the problem, and `main` from the text that is read to the text that is printed. The fuel
-- of the conversion from a machine integer is the integer plus one, and each round divides by 10. The
-- bisection has four rounds for each digit of the number, and one more, since each round halves the
-- interval. The sums of a product are below 2^31 for numbers of less than ten million digits, and are
-- natural numbers in the model. The powers and `sqrt`, which the program does not call, are not
-- modelled.
--
-- The finder of duplicate files: 08_bayan. Bayan/Storage models the tree of block checksums
-- (`TBlockChecksumStorage`) with its groups, Bayan/Crawler the loop over the blocks to read
-- (`TFileCrawler::Run`), and Bayan/Computer the blocks of a file (`TFileBlockChecksumComputer`).
-- Bayan/Duplicates puts the three together. Files are numbers, their bytes and the checksum of bytes
-- are parameters, and a node of the tree is named by the checksums on the way to it. The loop runs on
-- fuel, one unit for each task: a task that is handled either adds no task, or reads one more block
-- and adds at most as many tasks as blocks are read, so that (blocks + 1) * blocks and one unit for
-- each file are enough. Bayan/Walk models what becomes of the entries that the directory iterators
-- give (`HandleDirectoryEntry`). The options and the printing are not modelled.
--
-- The filter of addresses: 02_ip_filter. IpFilter models `TAddress` and `TAddresses`: reading,
-- printing, the order, the descending sort and filters. `std::sort` is a parameter.
--
-- The sparse matrix: 06_matrix. MatrixRow models a row (row.hpp) as the ordered list of its cells, for
-- values of type `int`: reads, writes through the reference, the size, the last index and, in
-- MatrixRow/Dump, the printed form. Matrix models the matrix (matrix.hpp) as the ordered list of its
-- rows: a row is `none` where its pointer is null, and what uses a null pointer is undefined behaviour.
-- An iterator is the list of the rows from it on and the cells from it on. The loop over a matrix runs
-- on fuel, the number of the cells that it visits plus one.
--
-- The allocator and the container: 03_allocator. Allocator models `THeapAllocator`: its pools by their
-- sizes in bytes, as `std::size_t` has them, and a block by the number of its pool and its first byte
-- there. Container models `TContainer` with this allocator, and the memory as the list of all writes with
-- the blocks that were given out: an access that is not inside a block, or not inside its pool, is
-- undefined behaviour.
-- Requests below 2^63 bytes keep all sums below 2^64. The vector of pools is never empty, and `new` gives
-- what it is asked for.
--
-- The balconies: timus/1152/main.cpp. Balconies models the recursive search of `Step` with its bound on
-- the damage. The fuel is the number of balconies plus one, since each shot destroys a balcony. Sums of
-- damages are taken modulo 2^64.
--
-- The trains: timus/1869/main.cpp. Trains models the two routes with the tickets of each interval, sums
-- modulo 2^64, and the number of carriages. The rows of tickets are lists of numbers; their text is not
-- modelled.
--
-- The order of bytes: timus/2138/main.cpp. ByteOrder models the conversions to and from four bytes. The
-- loop runs on fuel, four rounds, since each divides a number of 32 bits by 256.
--
-- But for the asynchronous grouper, a throw ends a run of calls: the state that an object has after a
-- throw is not modelled.
-- Sockets, files, clocks and the other programs are not modelled.
pub mod Matrix
pub mod MatrixRow
pub mod Prelude
pub mod ThreadPool
pub mod Container
pub mod IpFilter
pub mod JoinServer
pub mod Examples
pub mod Allocator
pub mod Async
pub mod Balconies
pub mod Bayan
pub mod BigInt
pub mod Bulk
pub mod BulkServer
pub mod Trains
pub mod ByteOrder
