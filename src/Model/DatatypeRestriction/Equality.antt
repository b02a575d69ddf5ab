-- ===== src/Model/DatatypeRestriction/Equality.antt =====
-- `PartialEq` of a restriction's data (datarange.rs) against a comparison of sets of facets.
use mathlib.Core.List.{append_assoc}
use hermit_rs.Base.{
  pair_eq, String, ◌+◌, ◌≡◌, refl, ◌&&◌, List, [], ◌∷◌, ◌++◌, some, arith, ◌==◌, length, all, zip,
  length-append, get_elem?-middle, string_eq, nat_eq, sym, ◌∙◌, get_elem?,
}
use hermit_rs.Collections.HashSet.{contains}
use hermit_rs.Model.Types.{Constant, DatatypeRestriction}
use hermit_rs.Model.Sameness.{constant_eq}
use hermit_rs.Model.DatatypeRestriction.{facet_at, contains_facet, facets_from, same_data}

-- The facets as pairs of a URI and a value.
abbrev pub facets : DatatypeRestriction → List (String × Constant)
facets r = zip r.facet_uris r.facet_values

-- As many facet values as facet URIs: what every caller of `create` provides.
abbrev pub IsPaired : DatatypeRestriction → Type 0
IsPaired r = length r.facet_uris ≡ length r.facet_values

facet_at-contains :
    (us : List String) (pre vs : List Constant) (d : DatatypeRestriction) (uri : String)
    (value : Constant)
    → d.facet_values ≡ pre ++ vs
    → length us ≡ length vs
    → facet_at us (length pre) d uri value ≡ some (contains (zip us vs) (uri, value))
unfolding facet_at
facet_at-contains [] pre vs d uri value split eq = ground arith
facet_at-contains (u ∷ us) pre [] d uri value split eq = absurd (omega arith)
facet_at-contains (u ∷ us) pre (v ∷ vs) d uri value split eq =
    let shifted : d.facet_values ≡ (pre ++ v ∷ []) ++ vs =
      split ∙ sym (append_assoc pre (v ∷ []) vs) in
    let rest = facet_at-contains us (pre ++ v ∷ []) vs d uri value shifted (omega arith) in
    let next : length (pre ++ v ∷ []) ≡ length pre + 1 = length-append pre (v ∷ []) in
    let here : get_elem? d.facet_values (length pre) ≡ some v =
      rw split (get_elem?-middle pre v vs) in
    ground (arith, rest, next, here)

contains_facet-eq :
    (d : DatatypeRestriction) (uri : String) (value : Constant)
    → IsPaired d
    → contains_facet d uri value ≡ some (contains (facets d) (uri, value))
unfolding contains_facet
contains_facet-eq d uri value h =
    facet_at-contains d.facet_uris [] d.facet_values d uri value refl h

facets_from-all :
    (us : List String) (pre vs : List Constant) (r s : DatatypeRestriction)
    → r.facet_values ≡ pre ++ vs
    → length us ≡ length vs
    → IsPaired s
    → facets_from us (length pre) r s ≡ some (all (contains (facets s)) (zip us vs))
unfolding facets_from
facets_from-all [] pre vs r s split eq h = ground arith
facets_from-all (u ∷ us) pre [] r s split eq h = absurd (omega arith)
facets_from-all (u ∷ us) pre (v ∷ vs) r s split eq h =
    let shifted : r.facet_values ≡ (pre ++ v ∷ []) ++ vs =
      split ∙ sym (append_assoc pre (v ∷ []) vs) in
    let rest = facets_from-all us (pre ++ v ∷ []) vs r s shifted (omega arith) h in
    let next : length (pre ++ v ∷ []) ≡ length pre + 1 = length-append pre (v ∷ []) in
    let here : get_elem? r.facet_values (length pre) ≡ some v =
      rw split (get_elem?-middle pre v vs) in
    ground (arith, rest, next, here, contains_facet-eq s u v h)

-- For two restrictions with as many facet values as facet URIs the equality test does not panic,
-- and it compares the datatypes and the numbers of facets, and looks every facet of the first one
-- up among those of the second, wherever it stands.
same_data-eq :
    (r s : DatatypeRestriction)
    → IsPaired r
    → IsPaired s
    → same_data r s
      ≡ some (
          r.datatype_uri == s.datatype_uri
          && length r.facet_uris == length s.facet_uris
          && all (contains (facets s)) (facets r))
unfolding same_data
same_data-eq r s h k = ground (arith, facets_from-all r.facet_uris [] r.facet_values r s refl h k)
