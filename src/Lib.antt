-- ===== src/Lib.antt =====
-- hermit-rs: a reasoner for OWL 2 ontologies by the hypertableau calculus. This library models
-- its DL data model, its graph over interned elements, its dependency sets, and the storage of
-- its tableau.
--
-- The structural transformation turns an ontology into DL clauses and facts over terms, roles,
-- concepts and data ranges (src/model). The tableau derives facts from them; each fact carries a
-- dependency set (src/tableau/dependency_set.rs), which names the branching points that it rests
-- on and directs backtracking. The facts are tuples in tables (src/tableau/tuple_table.rs), found
-- by tries over their columns (src/tableau/tuple_index.rs), both kept by the extension tables
-- (src/tableau/extension_table.rs); the disjuncts of a disjunction are tried in the order of its
-- header (src/tableau/ground_disjunction_header.rs). The classification of the ontology collects
-- known and possible subsumptions in graphs (src/graph.rs) and closes them.
--
-- The files and what they are about:
--   Base: lists measured by native numbers, Boolean equality as an instance argument (`Eq`),
--     signed integers, and chains of results that may panic.
--   Collections: the hash sets and hash maps of the source, as lists.
--   Model: src/model. Model/Types has the data of all its files, Model/Sameness the equality of
--     handles; then one file for each `impl` (AtomicConcept for `impl AtomicConcept`, and so on)
--     with one definition for each method, under the method's name. Model/DlClause has
--     `get_safe_version`, its child Classify the tests on the shape of a clause; Model/DlOntology
--     has the constructor of `DLOntology` and its derived sets. Model/Negation,
--     Model/DlClause/Safe, Shapes and RoleShapes, the files Equality, and
--     Model/DlOntology/BodyOnly, GraphClosure, GraphFixpoint, GraphPasses and GraphCorrect have
--     theorems; Model/DlOntology/GraphRoles has `compute_graph_atomic_roles`.
--   Successors: the loops of src/graph.rs over the ids (`transitively_close`,
--     `is_reachable_successor`, `get_reachable_successors`), with their theorems.
--   Graph: the struct `Graph` of src/graph.rs and its methods under their names, a field for each
--     field of the source; its children are about the invariant, the edges, the closure and the
--     removal of edges.
--   DependencySet: src/tableau/dependency_set.rs. Permanent and Union are the two kinds of sets,
--     Factory is `DependencySetFactory`, Points the sorting and `dedup` of vectors; the other
--     children are about canonical vectors, the invariant, the operations, sharing, allocations
--     over time (Tracking, Interning), the maximum, usage counts, reachable states and the
--     reported size.
--   Tableau/GroundDisjunctionHeader: the struct of that name and its methods. The children: Order
--     is about `new`, Sinking about the loop of `increase_number_of_backtrackings`, Raising about
--     one partition, Valid about the invariant, Start, Backtracking and Offsets about the
--     results.
--   Tableau/Object: the elements of tuples, src/tableau/object.rs, and the raw keys of concepts
--     and predicates; Sources and Keys are about `unique_key`.
--   Tableau/TupleTable: the struct of that name and its methods; Stored, Removal and Comparison
--     are about the tuples that a table holds.
--   Tableau/TupleIndex: the struct of that name, its trie nodes and its methods. Links and Find
--     are about the chains of the buckets, Rehash and Growth about more buckets, Valid about the
--     invariant, Insert and Child about new nodes, Paths about the trie, Content, Adding and
--     Start about what it holds.
--   Tableau/ExtensionTable: the struct of that name, src/tableau/extension_table.rs, and its
--     methods. Indexed is about one index over the tuples, Storing and Marks about `store_tuple`,
--     Start about new tables.
--   Tests: concrete inputs.
--
-- Conventions. A handle of an interned type is its canonical content, so that pointer equality is
-- equality of contents; a description graph, which is not interned, has an address. In the
-- source, enumerations and restrictions that differ in order only are one handle; here the order
-- stays, and besides `same_data`, their `PartialEq`, only the tests for functionality compare
-- predicates, which are roles there. An `Arc` of a dependency set is the address of its
-- allocation with the contents, and the factory has the next unused address, since the source
-- also compares allocations. A `HashSet` is a list in the order of insertion and a `HashMap` an
-- association list; the source does not rely on the order of iteration. `none` is a panic (a
-- failed assertion, an index out of range, `unreachable!`) or fuel that ran out. Ids of graph
-- elements wrap at 2 ^ 32; other counters are not bounded, and the capacity of `size_in_memory`
-- is compared by exact products instead of `f64`, which is the same below 2 ^ 52.
--
-- In a trie of a tuple index a link is an `Option`; the casts of ids to `i32` are exact below 2 ^
-- 31 nodes. The keys of a tuple are read before the descent, which differs from the source only
-- if a column is out of range. `hash & mask` is the remainder by the length, a power of two, and
-- the load factor 0.8 is exact for these lengths. The counters of backtrackings wrap as `i32`, as
-- they do without overflow checks. Asserts of debug builds are left out.
--
-- Fuel. A loop of the graph gets as much fuel as there are edges, with the nodes it starts from:
-- every round takes a node off the list of nodes to visit, and a node is put there once for each
-- edge at most. The doubling of the capacity gets one unit for each set, since each doubling adds
-- 16 at least. The loop over the graph roles gets one unit for each role atom of the clauses and
-- one more. A walk along a chain of a bucket gets one unit more than there are nodes in all
-- chains, and the loop that moves an entry of a header one more than there are entries.
--
-- The address of an interned value is a parameter, `Allocations`: different values have different
-- addresses, above 3 and below 2 ^ 48, as the source says of the heap.
--
-- Not modelled: printing, hashing and the comparison `is_equal` of a header, which change no
-- state; the order of IRIs by UTF-16 units; parsed values of constants; the removal of tuples
-- from a tuple index and its retrieval cursor, and with them the backtracking and the indexed
-- retrieval of an extension table; and the other subsystems (the rest of the tableau,
-- hyperresolution, datatypes, classification, structural transformation, command line), which are
-- clients of those here.
pub mod Base
pub mod Collections
pub mod Model
pub mod Successors
pub mod Graph
pub mod DependencySet
pub mod Tableau
pub mod Tests
