-- ===== src/Lib.antt =====
-- hypertrie: keys, node identifiers, nodes, their storage, the reads and updates of a node
-- context, the subscripts of Einstein summation, and the dependency graph of the operands of a
-- query. A hypertrie of depth `d` maps keys of `d` key parts to values; a key that is not an entry
-- has the value 0. A node is a full node (FN), with a map of edges for each key position, or a
-- single entry node (SEN), and is shared: nodes are found by identifiers, which are hashes of the
-- entries below them.
--
-- A subscript of the library einsum names the positions of several hypertries by labels; operators
-- choose what to do next by its type, and go on with the subscript that has one label less. A
-- label is a character. The subscripts know nothing of the nodes: the operators join
-- the two.
--
-- Paths are relative to libs/hypertrie/src/dice/hypertrie, those of Subscript to
-- libs/einsum/src/dice/einsum; a definition has the source's name.
--   Key, Key/Slice           Key.hpp and internal/raw/RawKey.hpp; Key/Merge and the modules below
--                            it say what slices mean
--   Key/Diagonal             internal/raw/RawDiagonalPositions.hpp
--   Trait                    Hypertrie_trait.hpp and internal/raw/node/SingleEntry.hpp
--   Bits                     single bits of words, for the tags of identifiers
--   Identifier               internal/raw/node/Identifier.hpp
--   Node                     internal/raw/node/{FullNode, WithEdges, SingleEntryNode}.hpp
--   Storage                  internal/raw/node/{NodeStorage, NodeContainer}.hpp
--   Context                  internal/raw/node_context/{RawHypertrieContext, SliceResult}.hpp;
--                            Context/Rep says what a container stands for
--   Update                   internal/raw/node_context/update_details: Update/Requests (what is asked
--                            of the nodes of a depth), Update/Plan, Update/Entries (the change of
--                            a full node) and Update/Apply; Update/Set has the operations of
--                            RawHypertrieContext.hpp that count and write
--   Subscript                internal/RawSubscript.hpp; Subscript/Labels says what its sets hold
--   Subscript/Graph          internal/util/UndirectedGraph.hpp
--   Subscript/Make, Cached   Subscript.hpp: the constructor but for the factors of products
--                            (`make_subscript`), with the dependency graph and the type, the
--                            look-ups, and the two caches
--   Subscript/Cartesian      Subscript.hpp: CartesianSubSubscripts, and the constructor with it
--                            (`construct_subscript`)
--   Subscript/Text           Subscript.hpp: `to_string` and `from_string`
--   Dependency               libs/query/src/dice/query/OperandDependencyGraph.hpp: which operands of a
--                            query are pruned (Prune), which are not optional (Roots), and where
--                            variables stand (Vars)
--   Product                  libs/einsum/src/dice/einsum/internal/operators/CartesianOperator.hpp: the
--                            iterator FullCartesianResult, for values that are words
--   BulkUpdater              internal/raw/node_context/SynchronousRawBulkUpdater.hpp, for any context;
--                            BulkUpdater/Stored has that of the node storage
--   Hypertrie                Hypertrie.hpp: the public type; Hypertrie/Contents says what it holds
--   HashJoin                 HashJoin.hpp without optional operands, over an interface `Diagonals` for
--                            HashDiagonal.hpp; what it `Promises` is assumed where a lemma says so
--   Einsum                   libs/einsum/src/dice/einsum/internal: `single_result` of the operators in
--                            operators, and CardinalityEstimation.hpp; Einsum/Meaning says what the
--                            operands stand for, Einsum/Sums has sums over assignments
--   Common, Tests            shared names, and runs on concrete inputs
--
-- The template parameters `depth` and `htt_t` are arguments; key parts and values are words, so
-- natural numbers. A node pointer is the node it points to; a null pointer that is followed
-- gives `none`. Positions are numbers that the definitions reduce where `pos_type`, 8 bits
-- wide, does. Hash maps are association lists. The hash of an entry and the invertible
-- combination of hashes belong to the library dice-hash and are parameters; `IsInvertible`
-- states what they are relied on for, which holds of the exclusive or. Recursion is on the
-- depth of a node. Fuel is given to the search for connected components, as many rounds as
-- there are labels left, to `from_string`, one round more than there are characters, to
-- `prune_graph`, a round for each empty operand and each edge, to `next_match` of a join, a
-- round more than its smallest operand has key parts, to the rounds of a join, one more than
-- the sizes of its diagonals together, to `evaluate`, one more than there are labels, and to
-- `construct_subscript`, two calls inside one another; the theorems on them show that it lasts,
-- those on joins and `evaluate` for diagonals that keep what the interface promises. An
-- `assert` is compiled out. Changes of reference counts are signed numbers without a bound, and
-- counts are 64-bit words. Hash collisions are outside the theorems: where one matters, a
-- hypothesis says so.
--
-- Not modelled: memory allocation, threads and the queue of the asynchronous bulk updater, the
-- iterators and the diagonals of a join, joins with optional operands, the generators of the
-- library einsum and its operator of Cartesian products but for its iterator, and of the library
-- query all but the dependency graph; of that, the caches, and the components of unions and of
-- Cartesian products.
pub mod Common
pub mod Key
pub mod Trait
pub mod Bits
pub mod Identifier
pub mod Node
pub mod Storage
pub mod Context
pub mod Update
pub mod Subscript
pub mod Dependency
pub mod Product
pub mod BulkUpdater
mod Tests
pub mod Hypertrie
pub mod HashJoin
pub mod Einsum
