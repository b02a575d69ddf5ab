-- ===== src/Graph.antt =====
-- src/graph.rs: a directed graph over interned elements. `none` is a panic (an id that no element
-- has) or, for the loops, fuel that ran out.
pub mod Valid
pub mod Edges
pub mod Closure
pub mod Changes
use hermit_rs.Base.{
  ℕ, ◌+◌, ◌%◌, ◌^◌, Bool, true, false, ◌&&◌, List, [], ◌∷◌, ◌++◌, Option, none, some, Eq, ◌==◌,
  if◌then◌else◌, nat_eq, length, get_elem?, is_empty,
}
use hermit_rs.Base.Panic.{◌>>=◌}
use hermit_rs.Collections.HashSet
use hermit_rs.Collections.HashMap
use hermit_rs.Collections.HashMap.{HashMap}
use hermit_rs.Successors.{SuccessorMap, successors, edge_count, close_keys, find_node, visit_nodes}

pub record Graph {ℓ} (A : Type ℓ) : Type ℓ where
  pub elements : List A
  pub ids : HashMap A ℕ
  pub elems : List A
  pub successors_by_id : SuccessorMap

-- The ids are `u32` values.
abbrev pub id_limit : ℕ
id_limit = 2 ^ 32

module _ {ℓ} {A : Type ℓ} where
  unfoldable pub new : Graph A
  new = record { elements = []; ids = []; elems = []; successors_by_id = [] }

  -- The elements of a set of ids.
  unfoldable pub elements_of : List A → List ℕ → Option (List A)
  elements_of elems [] = some []
  elements_of elems (id ∷ ids) = do
    x ← get_elem? elems id
    xs ← elements_of elems ids
    some (x ∷ xs)

module _ {ℓ} {A : Type ℓ} ⦃e : Eq A⦄ where
  unfoldable pub intern : Graph A → A → Graph A × ℕ
  intern g t = elim (HashMap.get g.ids t) [
    | some id ↦ (g, id)
    | none ↦
        let id = length g.elems % id_limit in
        (record g { elems = g.elems ++ t ∷ []; ids = HashMap.insert g.ids t id }, id)
  ]

  abbrev pub id_of : Graph A → A → Option ℕ
  id_of g t = HashMap.get g.ids t

  unfoldable pub add_edge : Graph A → A → A → Graph A
  unfolding intern successors
  add_edge g from to =
      let (g1, from_id) = intern g from in
      let (g2, to_id) = intern g1 to in
      record g2 {
        successors_by_id =
            HashMap.insert g2.successors_by_id from_id
              (HashSet.insert (successors g2.successors_by_id from_id) to_id);
        elements = HashSet.insert (HashSet.insert g2.elements from) to;
      }

  -- Interning the elements of a list.
  unfoldable pub intern_all : Graph A → List A → Graph A × List ℕ
  unfolding intern
  intern_all g [] = (g, [])
  intern_all g (t ∷ ts) =
      let (g1, id) = intern g t in let (g2, ids) = intern_all g1 ts in (g2, id ∷ ids)

  unfoldable pub add_edges : Graph A → A → List A → Graph A
  unfolding intern intern_all successors
  add_edges g from to =
      let (g1, from_id) = intern g from in
      let (g2, to_ids) = intern_all g1 to in
      record g2 {
        successors_by_id =
            HashMap.insert g2.successors_by_id from_id
              (HashSet.extend (successors g2.successors_by_id from_id) to_ids);
        elements = HashSet.extend (HashSet.insert g2.elements from) to;
      }

  unfoldable pub successors_is_empty : Graph A → A → Bool
  successors_is_empty g node = elim (id_of g node) [
    | some id ↦ elim (HashMap.get g.successors_by_id id) [ none ↦ true | some s ↦ is_empty s ]
    | none ↦ true
  ]

  unfoldable pub successor_contains : Graph A → A → A → Bool
  successor_contains g node target = elim (id_of g node) [
    | none ↦ false
    | some nid ↦ elim (id_of g target) [
      | none ↦ false
      | some tid ↦ elim (HashMap.get g.successors_by_id nid) [
        | none ↦ false
        | some s ↦ HashSet.contains s tid
      ]
    ]
  ]

  unfoldable pub successors_len : Graph A → A → ℕ
  successors_len g node = elim (id_of g node) [
    | some id ↦ elim (HashMap.get g.successors_by_id id) [ none ↦ 0 | some s ↦ length s ]
    | none ↦ 0
  ]

  unfoldable pub get_successors : Graph A → A → Option (List A)
  unfolding elements_of
  get_successors g node = elim (id_of g node) [
    | some id ↦ elim (HashMap.get g.successors_by_id id) [
      | some set ↦ elements_of g.elems set
      | none ↦ some []
    ]
    | none ↦ some []
  ]

  unfoldable pub transitively_close : Graph A → Option (Graph A)
  transitively_close g = do
    closed ← close_keys (HashMap.keys g.successors_by_id) g.successors_by_id
    some (record g { successors_by_id = closed })

  -- The inner loop of `Clone::clone`, over the successors of one node.
  unfoldable pub copy_edges : List A → A → Graph A → List ℕ → Option (Graph A)
  unfolding add_edge
  copy_edges elems from result [] = some result
  copy_edges elems from result (to_id ∷ ids) = do
    to ← get_elem? elems to_id
    copy_edges elems from (add_edge result from to) ids

  -- Its outer loop, over the entries of the map.
  unfoldable pub copy_entries : List A → Graph A → SuccessorMap → Option (Graph A)
  unfolding copy_edges
  copy_entries elems result [] = some result
  copy_entries elems result ((from_id, succs) ∷ m) = do
    from ← get_elem? elems from_id
    result' ← copy_edges elems from result succs
    copy_entries elems result' m

  -- The elements of a new set, to which those of a set are added.
  unfoldable pub clone : Graph A → Option (Graph A)
  unfolding new copy_entries
  clone g =
      copy_entries g.elems (record new { elements = HashSet.extend [] g.elements })
        g.successors_by_id

  -- The inner loop of `get_inverse`, over the successors of one node.
  unfoldable pub add_inverse_edges : List A → A → Graph A → List ℕ → Option (Graph A)
  unfolding add_edge
  add_inverse_edges elems from result [] = some result
  add_inverse_edges elems from result (to_id ∷ ids) = do
    to ← get_elem? elems to_id
    add_inverse_edges elems from (add_edge result to from) ids

  -- Its outer loop, over the entries of the map.
  unfoldable pub invert_entries : List A → Graph A → SuccessorMap → Option (Graph A)
  unfolding add_inverse_edges
  invert_entries elems result [] = some result
  invert_entries elems result ((from_id, succs) ∷ m) = do
    from ← get_elem? elems from_id
    result' ← add_inverse_edges elems from result succs
    invert_entries elems result' m

  unfoldable pub get_inverse : Graph A → Option (Graph A)
  unfolding new invert_entries
  get_inverse g = invert_entries g.elems new g.successors_by_id

  unfoldable pub remove_elements : Graph A → List A → Graph A
  remove_elements g [] = g
  remove_elements g (x ∷ xs) =
      remove_elements
        (record g {
          elements = HashSet.remove g.elements x;
          successors_by_id = elim (id_of g x) [
            | some id ↦ HashMap.remove g.successors_by_id id
            | none ↦ g.successors_by_id
          ];
        })
        xs

  unfoldable pub is_reachable_successor : Graph A → A → A → Option Bool
  unfolding edge_count find_node
  is_reachable_successor g from to = if from == to then some true else elim (id_of g from) [
    | none ↦ some false
    | some f ↦ elim (id_of g to) [
      | none ↦ some false
      | some t ↦ find_node (edge_count g.successors_by_id + 1) g.successors_by_id t [] (f ∷ [])
    ]
  ]

  -- The loop of `remove_successors`, over one successor set.
  unfoldable pub remove_ids : Graph A → List ℕ → List A → List ℕ
  remove_ids g s [] = s
  remove_ids g s (r ∷ rs) =
      remove_ids g (elim (id_of g r) [ some rid ↦ HashSet.remove s rid | none ↦ s ]) rs

  -- Replacing the successor set of a node that has one.
  unfoldable pub change_successors : Graph A → ℕ → (List ℕ → List ℕ) → Graph A
  change_successors g nid f = elim (HashMap.get g.successors_by_id nid) [
    | some s ↦ record g { successors_by_id = HashMap.insert g.successors_by_id nid (f s) }
    | none ↦ g
  ]

  unfoldable pub remove_successors : Graph A → A → List A → Graph A
  unfolding remove_ids change_successors
  remove_successors g node to_remove = elim (id_of g node) [
    | some nid ↦ change_successors g nid (λ s. remove_ids g s to_remove)
    | none ↦ g
  ]

  unfoldable pub remove_edge : Graph A → A → A → Graph A
  unfolding change_successors
  remove_edge g node successor = elim (id_of g node) [
    | none ↦ g
    | some nid ↦ elim (id_of g successor) [
      | none ↦ g
      | some sid ↦ change_successors g nid (λ s. HashSet.remove s sid)
    ]
  ]

  unfoldable pub clear_successors : Graph A → A → Graph A
  unfolding change_successors
  clear_successors g node = elim (id_of g node) [
    | some nid ↦ change_successors g nid (λ s. [])
    | none ↦ g
  ]

  unfoldable pub get_reachable_successors : Graph A → A → Option (List A)
  unfolding edge_count visit_nodes elements_of
  get_reachable_successors g from = elim (id_of g from) [
    | none ↦ some (from ∷ [])
    | some from_id ↦ (do
      visited ← visit_nodes (edge_count g.successors_by_id + 1) g.successors_by_id [] (from_id ∷ [])
      elements_of g.elems visited)
  ]
