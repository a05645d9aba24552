-- ===== src/Lib.antt =====
-- A verification library for the Odin memory allocator: a dlmalloc style allocator in segments of
-- virtual memory (MemAlloc.cpp), the allocators that are built on it or beside it, and the task
-- scheduler that uses them.
--
-- The model is of the Win32 build, the only one that the project file has: `size_t`, `uint32` and
-- pointers are words below 2 ^ 32, and each operation writes its wrap-around out (Base/Words). Memory
-- is a function from addresses to words (Memory). A shift takes its count modulo 32, as x86 does.
--
-- Parts, and the files that model them:
--   Base, Memory      words, bit operations and their arithmetic, lists, the store
--   Bytes             memory by the byte, for the links of FreeList.cpp, which are not aligned
--   SysAlloc          SysAlloc.cpp: reserve, commit, decommit, release; what VirtualAlloc answers is a
--                     parameter, and the calls made are recorded
--   Chunk             MemAlloc.cpp: constants, padRequest, requestToSize, chunk fields and heads
--   Bins, Space       bin indices and bit maps; the structure MemorySpace as a record of its scalar
--                     fields, with the bins in memory behind the address `self`
--   SmallBin          insertSmallChunk, unlinkSmallChunk, unlinkFirstSmallChunk, replaceDV
--   TreeBin           insertLargeChunk, unlinkLargeChunk, insertChunk, unlinkChunk; its parts describe the
--                     tree of a bin (Shape, Keys), insertion (Put, Hung, Descent, Insert) and unlinking
--                     (Remove, Replace, Rightmost, Transplant, Detach, Hang, Unlink)
--   TreeAlloc         treeAllocLarge, treeAllocSmall
--   Assertions        Assert.cpp and the macro of Assert.h: the handlers and the prompt
--   Checks            checkTopChunk, checkInuseChunk, checkFreeChunk, checkAllocedChunk
--   Validate          checkTree, checkTreebin, checkSmallbin, findInBin, traverseAndCheck,
--                     validateMemorySpace; TreeSearch, TreeContents and Finding are about findInBin, Rows,
--                     Detection, Acceptance and Traversal about traverseAndCheck
--   Alloc, Free       alloc and free, one definition for each branch, composed as the code does
--   AllocAligned      allocAligned
--   Create, Query     initMemorySpace and what makes, destroys and reads a space; calloc
--   LinearAllocator   LinearAllocator.cpp
--   FreeList          FreeList.cpp and PoolAllocator.cpp
--   GeneralAllocator  GeneralAllocator.cpp: the 21 memory spaces, on one memory
--   WorkQueue         WorkStealQueue.h: both queues, run by one thread; Threads: the work stealing queue
--                     with an owner and thieves, one step for each access to what they share
--   Scheduler         Scheduler.cpp: task numbers, finishTask, stealing from other threads
--   Tests             runs on concrete memory
--
-- An operation takes the memory space and gives the new one, with what the C++ function returns beside
-- it; 0 is the null pointer. An ASSERT_ERROR that does not hold is counted in the field `failed`, and
-- execution goes on, as it does when the handler ignores it. alloc calls the bins, which call back into
-- nothing; free and allocAligned call the bins and each other through the space only.
--
-- Fuel: the walks in a tree bin take fuel, one unit for each node on the way, and give `none` where it
-- runs out; the depth of the tree is enough. The theorems about alloc and free here are about
-- branches without such a walk and hold for every fuel. finishTask takes one unit for the task and each
-- parent, and the checks of Validate one for each turn of a loop. The loop of
-- allocAligned over powers of two has 32 turns, enough for every alignment up to 2 ^ 31.
--
-- Not modelled: mutexes. `alloc` and `free` hold the mutex of a space throughout; in allocAligned the
-- inner `alloc` and `free` lock while the splits between them do not, and the model runs it as if no
-- other thread came between. Nor are starting and joining the worker threads and their condition
-- variable, memory orders weaker than sequential consistency, the answer of a commit and accesses to
-- pages that are not committed (alloc commits one page at most for each cut off the top), the formatting
-- and the log file of assertions, and the templates MemoryArena, BoundsCheckingPolicy and
-- MemoryTrackingPolicy, which do not compile. The array of a work queue is a map from indices: an index
-- of 1024 or more reads and writes it as if it were larger, so theorems ask for a bottom inside of it.
-- Run by one thread, the exchange of `steal` and `pop` finds the top that was loaded; other threads are in
-- Threads only.
-- `sizeof(MemorySpace)` and `sizeof(Task)` depend on the standard library and are parameters, as are the
-- answer of GetTickCount and what sscanf_s, which is called without the size of its buffer, reads from a
-- line.
pub mod Base
pub mod Memory
pub mod Bytes
pub mod Chunk
pub mod Bins
pub mod SysAlloc
pub mod Space
pub mod SmallBin
pub mod Assertions
pub mod Checks
pub mod Validate
pub mod TreeBin
pub mod TreeAlloc
pub mod Alloc
pub mod Free
pub mod Query
pub mod Create
pub mod LinearAllocator
pub mod FreeList
pub mod WorkQueue
pub mod Scheduler
pub mod GeneralAllocator
pub mod AllocAligned
pub mod Tests
