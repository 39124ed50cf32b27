-- ===== src/Lib.antt =====
-- FaaSGraph runs graph algorithms on a cluster: a controller takes containers for a request, a
-- coordinator drives its rounds, executors compute on partitions of the graph, and a local manager on
-- each host holds the arrays that the executors of the host share. This library models the Go code
-- below, from the edge file and the request to the values that the request leaves.
--
-- Shared: Base (names passed on, lists indexed by numbers, Boolean tests, chains of Option), Bits
-- (single bits of `|` and `&`).
--
-- Parts, with the code that they are about:
--   Bitmap        src/graph_coordinator/src/common/bitmap.go (the copies in the executor and the
--                 controller have the same operations): `Add` is `add`, `Or2` is `or_two`, and so on.
--   Bytes         src/lambda_executor/src/common/util.go: words and their bytes.
--   Csr           util/txt2csr.go: edges to adjacency lists and to the files of offsets and edges.
--   Partition     util/split.go and `LoadGraphConfig` of src/faas_controller/src/common/config.go.
--   Hash          util/hash.go: identifiers numbered without gaps.
--   MemPool       src/lambda_executor/src/graphutil/mem.go; MemPool.Cas is `minCas` under contention,
--                 as steps of threads on one cell.
--   Graph         src/lambda_executor/src/graphutil/graph.go: loading a partition (Graph.File,
--                 Graph.Load), its edges, degrees and values.
--   Kernel        app/graph/bfs, cc and sssp: `Load` and `Calc` with its worklist; Kernel.Updates is
--                 the part of `Calc` that collects and sends updates.
--   Pull          app/graph/ccpull, pr and prpush: the kernels without a worklist.
--   Runner        src/lambda_executor/src/runner/graph_runner.go: which vertices a call computes on.
--   Wire          the readers of updates in src/lambda_executor/src/main.go and
--                 src/local_manager/src/main.go.
--   LocalManager  src/local_manager/src/mem.go and the handlers of main.go that use it.
--   Coordinator   src/graph_coordinator/src/container_set.go: the rounds of a request.
--   SharedMem     src/local_manager/src/mem.go and src/lambda_executor/src/graphutil/mem.go: the segments
--                 of shared memory; SharedMem.Os says what is relied on of the system calls.
--   Cluster       src/faas_controller/src/faas/cluster.go: `Get` takes slots, ports and processors of the
--                 nodes, `Put` gives them back; Cluster.Sort says what is relied on of `sort.Slice`.
--   ContainerSet  src/faas_controller/src/faas/container_set.go: the loops of `LoadGraph`.
--   Controller    src/faas_controller/src/application/graph.go: the loop in which a request asks for a
--                 set of containers.
--   Manager       src/faas_controller/src/faas/app_resource_manager.go: sets of containers that are free,
--                 in use, waited for and removed; Manager.System has its callers as steps.
--
-- How they meet: Csr writes the files that Graph loads, and Partition the start nodes that it reads;
-- the kernels work on a Graph and its MemPool, and what Kernel.Updates sends is what Wire reads and
-- LocalManager applies; the Coordinator sends a Bitmap and joins those that come back. The Manager asks
-- the Cluster for the places of a new set and gives them back; ContainerSet tells the executors of
-- each other, which is what `createWriters` of the Runner reads; the segments that the local manager
-- makes are those that the executors attach.
--
-- Conventions. A record is a struct and a function an operation; `none` is a panic of Go (an index out
-- of range, a nil map entry). Words are numbers below 2 ^ 32 with their wrap-around written out. Node
-- numbers, sizes and degrees are int32 and never negative, and stand as numbers. Float32 values are
-- their bits, with their arithmetic as a parameter. Go's maps are association lists.
--
-- A call that reads a file or a body may give fewer bytes than were asked for: the sizes are a
-- function of the model, chosen by the system. Files are read on until all is there; the readers of
-- bodies do not look at the number, and their theorems say where they ask for full reads. Frames of
-- updates are written by goroutines of their own, and come in any order. What executors answer to the
-- coordinator changes with a state of theirs.
--
-- Fuel. `read_loop` takes a round for each byte at most; the worklists take the number of active
-- vertices and the sum of the values; the readers of updates take a round for each frame; `starts` of Partition takes a round for
-- each node; `rounds` of the Coordinator takes the round limit.
--
-- Not modelled: HTTP, JSON and docker, attaching to shared memory, printing, and the text of the edge
-- files. Clocks are arguments. One call of `Calc` is modelled without writes of other executors in the
-- midst of it, and the goroutines of its blocks one after another. Between `Get` and `Put` of a set of containers
-- the Manager does not say what the set computes.
pub mod Base
pub mod Bits
pub mod Bitmap
pub mod Bytes
pub mod MemPool
pub mod Csr
pub mod Graph
pub mod Kernel
pub mod Wire
pub mod LocalManager
pub mod Partition
pub mod Hash
pub mod Pull
pub mod Runner
pub mod Coordinator
pub mod SharedMem
pub mod Controller
pub mod Cluster
pub mod ContainerSet
pub mod Manager
