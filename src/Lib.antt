-- ===== src/Lib.antt =====
-- The dataflow scheduler: the views of a device, the memory of a schedule and the tiling of its loops.
--
-- A pass of the scheduler works on MLIR and asks a few analyses. Those are what is modelled here: the
-- views that lib/Analysis/ArchViews builds of a device (its memories as a tree, its units and memories
-- as a graph of hops), the tracker that hands out addresses in a memory and the pass that assigns one
-- to each allocation, the analyses that group loops and choose the size of their tiles, and the one
-- that finds the dependencies of the stages of a pipeline by the tokens they pass, with the sorts of
-- these stages. Of the transformations there is the planner of the path expansion, which puts the
-- stages of a pipeline on a route of the device and adds those that are missing on the way, and of the
-- trees of operations the pointers between their nodes. The tree of memories gives the tracker its
-- capacities; the tracker serves the address assignment; the graph gives the planner its routes, and
-- the sort gives it the order of the stages.
--
-- Common, Common/Tests, Common/Lists, Common/Map, Common/Int, Common/Counting, Common/Options: shared
--   helpers; hash maps are association lists, and an `int` that may be negative is a signed integer
--   without overflow.
-- Arch/Device: the operations of a device, as both views walk them.
-- Arch/MemoryTree: lib/Analysis/ArchViews/MemoryTree.cpp. `initialize` and `populateAliases` are in
--   Build, the queries in Query and Aliases, the invariant in WellFormed, Linking and Scope, the
--   theorems in Depth, Levels, Chains and Path.
-- Arch/RoutingGraph: lib/Analysis/ArchViews/RoutingGraph.cpp. The construction is in Build, its
--   invariant in WellFormed and Initialized, `findShortestPath` in ShortestPath and the modules below
--   it (Route, Layers, Invariant, Visiting, Searching, Correct).
-- Arch/GroupLocalMemory: lib/Analysis/ArchViews/GroupLocalMemory.cpp (Shared, Local).
-- Memory/Tracker: lib/Analysis/MemoryTracker.cpp, on 64-bit words (Align, Laws, Init).
-- Memory/Assignment: lib/Transforms/AddressAssignment.cpp and `getElementSizeBytes` of
--   lib/Analysis/Utils.cpp (Size, Disjoint, Complete).
-- Tiling/TileSize: lib/Dialect/KTDF/Transforms/TileSizeSelection.cpp (Best).
-- Tiling/LoopNests: lib/Dialect/KTDF/Analysis/LoopTiling.cpp (Split, Computed, Strategies).
-- Stages/Dependencies: `analyzeStageDependencies` of lib/Dialect/KTDF/Analysis/GlobalStageDAG.cpp
--   (Mirror, Coloring, Cycles, Analyzed).
-- Stages/Sorting: `topologicalSortStages` of the same file (ByDag, Mirrored) and that of
--   lib/Analysis/PipelineTree.cpp (ByTree) with its source and sink stages (Sources). The loop over the
--   queue, which they share, is in Draining, and what a sort has to answer in Topological.
-- Expansion: lib/Transforms/PathExpansion/Planner.cpp, with the stages, transfers and plan of its header
--   in Expansion/Plan and PlannerFactories.cpp in Factories. The parts of the planner, in their order:
--   Chain (`sortAndValidateLinearPipelineStages`; Linear, Sorted), Resources
--   (`assignOriginalStageResources`, `collectOriginalStageResourcePath`; Rules, Passes, Assigning),
--   FullPath (`buildFullShortestPath`; Legs, Known), StageList (`buildExpandedStageList`; Steps, Pieces,
--   Covered, Expanded, Flag), Classify (`classifyOriginalStages`; Transfers, Fifos, Slots with Specs),
--   Populate (`populateIntermediateStageTransfers`) and Planner (`planPathExpansion`; Kept with
--   Classifying and Populating, Outcome with Answers and Legal).
-- OperationTree: lib/Analysis/OperationTree.cpp, nodes on a heap. Siblings says which list of children
--   the pointers stand for; Inserting (Free, Ends, Behind, Front), Unlinking and RoundTrip are about
--   `insertChildNode`, `insertAsFirstChild` and `unlink`, and Dissolving (Adopting, Moving) about
--   `unlinkNode`; the link over a node, which both ways to unlink set, is in Bypass. Children is the
--   insertion on lists, which the planner uses.
-- Tests: the theorems at concrete inputs.
--
-- Functions keep their names in lower case with underscores (`getNodeDepth` is `get_node_depth`).
-- Attributes, values and operations are numbers, of which only equality is used. An assertion, an
-- `llvm_unreachable` or an undefined operation is an outcome of its own or `none`.
--
-- Fuel. The walks up a memory tree run on its counter of ids: in a tree that `initialize` builds a
-- parent has a smaller id than its child. The search for a path runs on the number of nodes and one
-- more, since each round takes a node off the queue and a node enters it once; the way back runs on
-- the number of nodes, which no depth reaches. The search for a cycle has one unit for each stage,
-- since each call makes a white stage gray. The loop over the queue of a sort runs on the number of
-- stages and one more, since a stage enters the queue once; the second pass of the assignment of
-- resources on the same number, since each round but the last resolves a stage; the loops over
-- siblings on the number of nodes of the heap, since a list of children has no node twice. The candidates
-- for a tile size are counted down by structure.
--
-- Not modelled: printing; the rewriting of MLIR (the model of a pass says which value gets what, not
-- how the operations are replaced), and with it the materializer of the path expansion; the creation of
-- the constant that is its zero index; the overflow of the counters of the sorts, which are `int`, and
-- of the number of elements of an allocation, which is undefined in C++ and wraps around in the model;
-- the construction of the trees of operations and of the dag from MLIR, and their walks; the bounds of
-- dynamic sizes, perfect nesting and parallelism of loops, which MLIR computes and which are
-- parameters; the other analyses, transformations and conversions of the repository.
pub mod Common
pub mod Expansion
pub mod Arch
pub mod Memory
pub mod Tiling
pub mod Stages
pub mod OperationTree
pub mod Tests
