-- ===== src/Tableau/Object/Sources.antt =====
-- Where the raw keys of `TableauObject::unique_key` come from: a constant, a node id, or the address
-- of an allocation.
use hermit_rs.Base.{
  ℕ, zero, suc, ◌≤◌, ◌≡◌, refl, ap, ◌⊎◌, inl, inr, Option, none, some, arith, nat_eq,
}
use hermit_rs.Base.Panic.{◌>>=◌}
use hermit_rs.Model.Types.{Concept, DlPredicate}
use hermit_rs.Tableau.Object.{TableauObject, Interned}

-- The source of a raw key.
pub data Source : Type 0 where
  constant : ℕ → Source
  allocated : Interned → Source

abbrev pub concept_source : Concept → Interned
concept_source (Concept.atomic_concept c) = Interned.atomic_concept c
concept_source (Concept.atomic_negation_concept c) = Interned.atomic_negation_concept c
concept_source (Concept.at_least_concept c) = Interned.at_least_concept c
concept_source (Concept.at_least_data_range c) = Interned.at_least_data_range c
concept_source (Concept.exists_description_graph c) = Interned.exists_description_graph c

abbrev source_concept : Interned → Option Concept
source_concept (Interned.atomic_concept c) = some (Concept.atomic_concept c)
source_concept (Interned.atomic_negation_concept c) = some (Concept.atomic_negation_concept c)
source_concept (Interned.at_least_concept c) = some (Concept.at_least_concept c)
source_concept (Interned.at_least_data_range c) = some (Concept.at_least_data_range c)
source_concept (Interned.exists_description_graph c) = some (Concept.exists_description_graph c)
source_concept _ = none

abbrev pub predicate_source : DlPredicate → Source
predicate_source (DlPredicate.atomic_concept p) = Source.allocated (Interned.atomic_concept p)
predicate_source (DlPredicate.atomic_role p) = Source.allocated (Interned.atomic_role p)
predicate_source (DlPredicate.at_least_concept p) = Source.allocated (Interned.at_least_concept p)
predicate_source (DlPredicate.at_least_data_range p) =
    Source.allocated (Interned.at_least_data_range p)
predicate_source (DlPredicate.annotated_equality p) =
    Source.allocated (Interned.annotated_equality p)
predicate_source (DlPredicate.node_ids_ascending_or_equal p) =
    Source.allocated (Interned.node_ids_ascending_or_equal p)
predicate_source (DlPredicate.datatype_restriction p) =
    Source.allocated (Interned.datatype_restriction p)
predicate_source (DlPredicate.constant_enumeration p) =
    Source.allocated (Interned.constant_enumeration p)
predicate_source (DlPredicate.internal_datatype p) = Source.allocated (Interned.internal_datatype p)
predicate_source (DlPredicate.atomic_negation_data_range p) =
    Source.allocated (Interned.atomic_negation_data_range p)
predicate_source (DlPredicate.description_graph p) = Source.allocated (Interned.description_graph p)
predicate_source (DlPredicate.exists_description_graph p) =
    Source.allocated (Interned.exists_description_graph p)
predicate_source DlPredicate.equality = Source.constant 1
predicate_source DlPredicate.inequality = Source.constant 2
predicate_source DlPredicate.node_id_less_equal_than = Source.constant 3

abbrev source_predicate : Source → Option DlPredicate
source_predicate (Source.constant (suc zero)) = some DlPredicate.equality
source_predicate (Source.constant (suc (suc zero))) = some DlPredicate.inequality
source_predicate (Source.constant (suc (suc (suc zero)))) = some DlPredicate.node_id_less_equal_than
source_predicate (Source.allocated (Interned.atomic_concept p)) =
    some (DlPredicate.atomic_concept p)
source_predicate (Source.allocated (Interned.atomic_role p)) = some (DlPredicate.atomic_role p)
source_predicate (Source.allocated (Interned.at_least_concept p)) =
    some (DlPredicate.at_least_concept p)
source_predicate (Source.allocated (Interned.at_least_data_range p)) =
    some (DlPredicate.at_least_data_range p)
source_predicate (Source.allocated (Interned.annotated_equality p)) =
    some (DlPredicate.annotated_equality p)
source_predicate (Source.allocated (Interned.node_ids_ascending_or_equal p)) =
    some (DlPredicate.node_ids_ascending_or_equal p)
source_predicate (Source.allocated (Interned.datatype_restriction p)) =
    some (DlPredicate.datatype_restriction p)
source_predicate (Source.allocated (Interned.constant_enumeration p)) =
    some (DlPredicate.constant_enumeration p)
source_predicate (Source.allocated (Interned.internal_datatype p)) =
    some (DlPredicate.internal_datatype p)
source_predicate (Source.allocated (Interned.atomic_negation_data_range p)) =
    some (DlPredicate.atomic_negation_data_range p)
source_predicate (Source.allocated (Interned.description_graph p)) =
    some (DlPredicate.description_graph p)
source_predicate (Source.allocated (Interned.exists_description_graph p)) =
    some (DlPredicate.exists_description_graph p)
source_predicate _ = none

pub some_eq {ℓ} : {A : Type ℓ} (a b : A) → some a ≡ some b → a ≡ b
some_eq a b h = ground arith

source_concept-concept_source : (c : Concept) → source_concept (concept_source c) ≡ some c
source_concept-concept_source (Concept.atomic_concept c) = refl
source_concept-concept_source (Concept.atomic_negation_concept c) = refl
source_concept-concept_source (Concept.at_least_concept c) = refl
source_concept-concept_source (Concept.at_least_data_range c) = refl
source_concept-concept_source (Concept.exists_description_graph c) = refl

source_predicate-predicate_source :
    (p : DlPredicate) → source_predicate (predicate_source p) ≡ some p
source_predicate-predicate_source (DlPredicate.atomic_concept p) = refl
source_predicate-predicate_source (DlPredicate.atomic_role p) = refl
source_predicate-predicate_source (DlPredicate.at_least_concept p) = refl
source_predicate-predicate_source (DlPredicate.at_least_data_range p) = refl
source_predicate-predicate_source (DlPredicate.annotated_equality p) = refl
source_predicate-predicate_source (DlPredicate.node_ids_ascending_or_equal p) = refl
source_predicate-predicate_source (DlPredicate.datatype_restriction p) = refl
source_predicate-predicate_source (DlPredicate.constant_enumeration p) = refl
source_predicate-predicate_source (DlPredicate.internal_datatype p) = refl
source_predicate-predicate_source (DlPredicate.atomic_negation_data_range p) = refl
source_predicate-predicate_source (DlPredicate.description_graph p) = refl
source_predicate-predicate_source (DlPredicate.exists_description_graph p) = refl
source_predicate-predicate_source DlPredicate.equality = refl
source_predicate-predicate_source DlPredicate.inequality = refl
source_predicate-predicate_source DlPredicate.node_id_less_equal_than = refl

-- The constants are below the addresses.
-- The sources under a tag: the node ids have the tag 4, and the other constants are below the
-- addresses.
abbrev pub IsOf : ℕ → Source → Type 0
IsOf t (Source.constant n) = (t ≡ 4) ⊎ (n ≤ 3)
IsOf t (Source.allocated x) = (t ≡ 4) → ⊥

tag_1 : suc 0 ≡ 4 → ⊥
tag_1 h = omega (arith, h)

predicate_source-IsOf : (p : DlPredicate) → IsOf 1 (predicate_source p)
predicate_source-IsOf (DlPredicate.atomic_concept p) = tag_1
predicate_source-IsOf (DlPredicate.atomic_role p) = tag_1
predicate_source-IsOf (DlPredicate.at_least_concept p) = tag_1
predicate_source-IsOf (DlPredicate.at_least_data_range p) = tag_1
predicate_source-IsOf (DlPredicate.annotated_equality p) = tag_1
predicate_source-IsOf (DlPredicate.node_ids_ascending_or_equal p) = tag_1
predicate_source-IsOf (DlPredicate.datatype_restriction p) = tag_1
predicate_source-IsOf (DlPredicate.constant_enumeration p) = tag_1
predicate_source-IsOf (DlPredicate.internal_datatype p) = tag_1
predicate_source-IsOf (DlPredicate.atomic_negation_data_range p) = tag_1
predicate_source-IsOf (DlPredicate.description_graph p) = tag_1
predicate_source-IsOf (DlPredicate.exists_description_graph p) = tag_1
predicate_source-IsOf DlPredicate.equality = inr (omega arith)
predicate_source-IsOf DlPredicate.inequality = inr (omega arith)
predicate_source-IsOf DlPredicate.node_id_less_equal_than = inr (omega arith)

-- The tag of an object and the source of its raw key.
abbrev pub object_tag : TableauObject → ℕ
object_tag (TableauObject.concept c) = 0
object_tag (TableauObject.dl_predicate p) = 1
object_tag (TableauObject.negated_atomic_role r) = 2
object_tag (TableauObject.description_graph g) = 3
object_tag (TableauObject.node id) = 4

abbrev pub object_source : TableauObject → Source
object_source (TableauObject.concept c) = Source.allocated (concept_source c)
object_source (TableauObject.dl_predicate p) = predicate_source p
object_source (TableauObject.negated_atomic_role r) =
    Source.allocated (Interned.negated_atomic_role r)
object_source (TableauObject.description_graph g) = Source.allocated (Interned.description_graph g)
object_source (TableauObject.node id) = Source.constant id

-- The object with a tag and a source.
abbrev pub source_object : ℕ → Source → Option TableauObject
source_object zero (Source.allocated x) = source_concept x >>= λ c. some (TableauObject.concept c)
source_object (suc zero) s = source_predicate s >>= λ p. some (TableauObject.dl_predicate p)
source_object (suc (suc zero)) (Source.allocated (Interned.negated_atomic_role r)) =
    some (TableauObject.negated_atomic_role r)
source_object (suc (suc (suc zero))) (Source.allocated (Interned.description_graph g)) =
    some (TableauObject.description_graph g)
source_object (suc (suc (suc (suc zero)))) (Source.constant id) = some (TableauObject.node id)
source_object _ _ = none

pub source_object-object_source :
    (x : TableauObject) → source_object (object_tag x) (object_source x) ≡ some x
source_object-object_source (TableauObject.concept c) =
    ap (λ o. o >>= λ d. some (TableauObject.concept d)) (source_concept-concept_source c)
source_object-object_source (TableauObject.dl_predicate p) =
    ap (λ o. o >>= λ q. some (TableauObject.dl_predicate q)) (source_predicate-predicate_source p)
source_object-object_source (TableauObject.negated_atomic_role r) = refl
source_object-object_source (TableauObject.description_graph g) = refl
source_object-object_source (TableauObject.node id) = refl

pub object_source-IsOf : (x : TableauObject) → IsOf (object_tag x) (object_source x)
object_source-IsOf (TableauObject.concept c) = λ h. absurd (omega (arith, h))
object_source-IsOf (TableauObject.dl_predicate p) = predicate_source-IsOf p
object_source-IsOf (TableauObject.negated_atomic_role r) = λ h. absurd (omega (arith, h))
object_source-IsOf (TableauObject.description_graph g) = λ h. absurd (omega (arith, h))
object_source-IsOf (TableauObject.node id) = inl refl
