-- ===== src/Lib.antt =====
-- Containers, algorithms and utilities of the C++ playground, as pure functions, and what they do.
--
-- The parts. The components are headers under include/cpp_playground and programs under src, which
-- do not use one another, but that the two pointers share deleter.hpp; what they have in common is
-- the way they manage storage and report errors.
-- - Prelude: lists over the native numbers, 64-bit arithmetic that wraps (`add64`, `sub64`, for
--   `std::size_t` and `uint64_t`), and `Outcome`: a member function returns, throws and leaves its
--   object in some state, or has undefined behaviour (`fault`). An `Action` takes the state of the
--   object and gives an outcome; do blocks compose actions in the order of the statements.
--   Prelude/Places has lists of objects at addresses, and sums over them.
-- - Storage: raw storage for objects. A slot holds a live object or none; construction in a slot
--   that is alive, and destruction or a read of one that is not, fail. Storage/Ring has the
--   arithmetic of the slots of a ring, for the queue.
-- - FixedCapacityVector (include/cpp_playground/containers/fixed_capacity_vector.hpp): `m_size` and
--   `m_buffer` as the record `FixedCapacityVector`, each member function under its name;
--   FixedCapacityVector/Transfer has the copy and move operations (`copy_construct`, `copy_assign`,
--   `move_construct`, `move_assign`, and `_from` for another capacity), where a function of the
--   address stands for the store, so that self-assignment is an equation between addresses. The
--   list view is `of_list`: the live objects in the first slots, no others.
-- - FixedCapacityQueue (include/cpp_playground/containers/fixed_capacity_queue.hpp): the ring with
--   `m_head_index` and `m_size`; the list view is the predicate `Holds`.
-- - LruCache (include/cpp_playground/containers/lru_cache.hpp): the list of entries and the map
--   from keys to nodes. An iterator is the address of a node, which stays with the node when
--   `splice` moves it. The list view is `pairs`, under the invariant `IsValid`.
-- - Fibonacci (src/coroutines_fibonacci.cpp): `fibonacci_limit`, and the values that the coroutine
--   `fibonacci_numbers` yields, as a list; `main` prints those of `uint64_t`. In a signed type, a
--   sum above the greatest value overflows, and does not wrap.
-- - CompileTimeGcd (include/cpp_playground/compile_time_gcd.hpp): the template recursion, by
--   recursion on the accessibility of the second argument.
-- - MatrixView (src/matrix_view.cpp): `Matrix`, `MatrixView`, and `StridedMatrixView` in
--   MatrixView/Strided. A pointer into the elements of a matrix is the index of an element, and
--   `address` is what `operator()` refers to. MatrixView/Printing has what a matrix prints,
--   MatrixView/ViewPrinting and PartPrinting what a view prints, MatrixView/Filling and
--   MatrixView/Program `main`.
-- - MemoryPool (include/cpp_playground/memory/pool_allocator.hpp): the slots with the member of the
--   union that is alive, the free list as `IsChain`.
-- - Optional (include/cpp_playground/utility/optional.hpp): the union and the flag; `of_option` is
--   the object for a value, or none. `T` has a constructor from the union, without which the move
--   assignment does not compile; what it makes of the union, and what a move leaves of a value, are
--   parameters.
-- - SpscQueue (include/cpp_playground/concurrency/lf_spsc_queue.hpp): the constructor, and
--   `try_push` for a type of pointers, as the placement new is written: it takes the value of a slot
--   for the address.
-- - BlockingQueue (include/cpp_playground/concurrency/mpsc_blocking_queue.hpp): `emplace` and
--   `pop` as steps of any number of threads, with the mutex and who sleeps on which condition
--   variable. A schedule also picks the thread that a notification wakes, and spurious wake-ups.
-- - PThreadsMutex (include/cpp_playground/threading/pthreads_mutex.hpp): each member function, over
--   a record `PThreads` of the calls of the library. `CountsObjects` and `ChecksErrors` are what
--   POSIX says of them, as hypotheses; Tests has a library for which they hold.
-- - ArcPointer (include/cpp_playground/arc_pointer.hpp) and OwningPointer
--   (include/cpp_playground/memory/owning_pointer.hpp, with deleter.hpp): a store of the pointers,
--   and of the control blocks, by address, and the log of the objects that were deleted. Sums over
--   an arbitrary weight of the objects say which objects there are and how often.
--   ArcPointer/Threads has one control block under the steps of several threads.
-- - Function (include/cpp_playground/functional/function.hpp): a store of the `Function` objects and
--   of the callables that `std::make_unique` allocates, by address. A callable is a value of a type
--   `F`, and `invoked` is what it does with arguments: it returns or throws, and may change.
-- - LifetimeTracker (include/cpp_playground/testing/thread_local_lifetime_tracker.hpp): the
--   counters of each thread.
-- - ThreadRacer (src/thread_racer.cpp): the barrier before the race, as steps of the threads;
--   ThreadRacer/Missed, Arrivals and LostWakeup have the schedule that loses the notification, and
--   ThreadRacer/Scoreboard has the results and what `main` prints of them. The clock that the
--   threads read is a parameter, and so is `std::ranges::sort`: `IsSort` says what it does.
--
-- Bounds and fuel. A capacity is a `std::size_t`: less than 2 ^ 64 for the vector and, so that the
-- sum of an index and a size does not wrap, at most 2 ^ 63 for the queue, more than an object can
-- hold in either case. Loops whose end depends on the state take fuel: one more than the elements
-- for `clear` of the queue and `shrink_to_fit`, which remove one in each round; one more than the
-- elements, and than the capacity, for the two loops of `resize`; twice the greatest value of the
-- type, plus two, for the Fibonacci loops, whose variables grow. A loop that runs out of fuel
-- faults, or has no result, so that a theorem that gives a result shows that the fuel is enough.
--
-- Assumptions. The constructors, copies and moves of elements and keys do not throw and give equal
-- values. A reference that a function returns stands for the value that it reads. A failed
-- assertion counts as undefined behaviour. `std::list` and `std::unordered_map` are what the cache
-- uses of them: nodes in order, and an association list from keys.
--
-- The counters of ArcPointer are `uint64_t`; its member functions run one at a time, but for
-- ArcPointer/Threads, where the steps on the atomic counter interleave. A counter of the lifetime
-- tracker is an `int64_t`, and an increment past 2 ^ 63 - 1 is undefined.
--
-- Not modelled: `try_pop` of the lock-free queue, which passes the value of a slot to
-- `std::launder` and compiles for no type, and `push` of the blocking queue, whose `std::forward`
-- does not compile (`emplace` has the same statements). Nor CharString
-- (include/cpp_playground/char_string.hpp), which does not compile: its long strings use members
-- that the buffer does not have, `get` returns the address of an array as a pointer to a character,
-- and copy assignment writes to its constant argument. Nor the programs under src that only print
-- or measure (allocation_sizes, interference_size, crtp), those that wait for the operating system
-- (signal_handling, timers), and the concepts, which have no behaviour at run time.
pub mod Prelude
pub mod Storage
pub mod FixedCapacityVector
pub mod Function
pub mod FixedCapacityQueue
pub mod Fibonacci
pub mod CompileTimeGcd
pub mod LruCache
pub mod MatrixView
pub mod MemoryPool
pub mod Optional
pub mod SpscQueue
pub mod BlockingQueue
pub mod LifetimeTracker
pub mod ThreadRacer
pub mod ArcPointer
pub mod OwningPointer
pub mod PThreadsMutex
