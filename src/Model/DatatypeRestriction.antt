-- ===== src/Model/DatatypeRestriction.antt =====
-- datarange.rs, `impl DatatypeRestriction`, and `PartialEq` of its data. Of a
-- result in `Option`, `none` is the panic of an index out of range.
pub mod Equality
use hermit_rs.Base.{
  ℕ, String, ◌+◌, Bool, true, false, not, List, [], ◌∷◌, Option, some, ◌==◌, if◌then◌else◌, length,
  get_elem?, string_eq, nat_eq,
}
use hermit_rs.Base.Panic.{◌>>=◌}
use hermit_rs.Model.Types.{Constant, DatatypeRestriction, AtomicDataRange, LiteralDataRange}
use hermit_rs.Model.Sameness.{constant_eq}

-- The loop of `contains_facet` from index `j` on, over the URIs that are left.
facet_at : List String → ℕ → DatatypeRestriction → String → Constant → Option Bool
facet_at [] j data' uri value = some false
facet_at (u ∷ us) j data' uri value =
    let rest = facet_at us (j + 1) data' uri value in
    if u == uri
    then (do v ← get_elem? data'.facet_values j; if v == value then some true else rest)
    else rest

unfoldable pub contains_facet : DatatypeRestriction → String → Constant → Option Bool
unfolding facet_at
contains_facet data' uri value = facet_at data'.facet_uris 0 data' uri value

-- The loop of `eq` from index `i` on.
facets_from : List String → ℕ → DatatypeRestriction → DatatypeRestriction → Option Bool
facets_from [] i self other = some true
facets_from (u ∷ us) i self other =
    let rest = facets_from us (i + 1) self other in
    do
      v ← get_elem? self.facet_values i
      found ← contains_facet other u v
      if found then rest else some false

unfoldable pub same_data : DatatypeRestriction → DatatypeRestriction → Option Bool
unfolding facets_from contains_facet
same_data self other =
    if not (self.datatype_uri == other.datatype_uri)
    then some false
    else if not (length self.facet_uris == length other.facet_uris)
    then some false
    else facets_from self.facet_uris 0 self other

unfoldable pub arity : DatatypeRestriction → ℕ
arity r = 1

unfoldable pub get_negation : DatatypeRestriction → LiteralDataRange
get_negation r =
    LiteralDataRange.atomic_negation_data_range
      (record { negated_data_range = AtomicDataRange.datatype_restriction r })

unfoldable pub is_always_true : DatatypeRestriction → Bool
is_always_true r = false

unfoldable pub is_always_false : DatatypeRestriction → Bool
is_always_false r = false

unfoldable pub is_internal_datatype : DatatypeRestriction → Bool
is_internal_datatype r = false
