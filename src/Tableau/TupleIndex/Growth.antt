-- ===== src/Tableau/TupleIndex/Growth.antt =====
-- The growing of the buckets does not change what a lookup finds.
use hermit_rs.Base.{ℕ, ◌≡◌, refl, sym, ap, ◌∙◌, Option, none, some, nat_eq}
use hermit_rs.Tableau.TupleIndex.{TupleIndex, get_child_node, resize_buckets}
use hermit_rs.Tableau.TupleIndex.Find.{Finds}
use hermit_rs.Tableau.TupleIndex.Valid.{
  IsValid, members, get_child_node_lem, Resized, resize_buckets_lem,
}

-- Two lookups with the same edges find the same node.
same_found :
    (t : TupleIndex) (v : IsValid t) (t' : TupleIndex) (r : Resized t v t') (p k : ℕ)
    (a b : Option ℕ)
    → Finds t'.nodes (members r.valid) p k a
    → Finds t.nodes (members v) p k b
    → a ≡ b
same_found t v t' r p k none none f g = refl
same_found t v t' r p k none (some d) f (m, (n, (found, (parent, key)))) =
    let (x, (there, (same, _))) = r.edges d n found in
    absurd (f d (r.members_same d ∙ m) (x, (there, (same.parent ∙ parent, same.key ∙ key))))
same_found t v t' r p k (some c) none (m, e) g =
    absurd (g c (sym (r.members_same c) ∙ m) (r.back p k c e))
same_found t v t' r p k (some c) (some d) (m, e) (m', e') =
    ap some (v.unique p k c d (sym (r.members_same c) ∙ m) m' (r.back p k c e) e')

-- For a well-formed index, `resize_buckets` does not panic and keeps the index well formed, and
-- every lookup of a child node ends and gives the same before and after.
pub get_child_node-resize_buckets :
    (t : TupleIndex)
    → IsValid t
    → (t' : TupleIndex) × ((resize_buckets t ≡ some t')
        × (IsValid t'
            × ((p k : ℕ)
                → (o : Option ℕ) × ((get_child_node t p k ≡ some o)
                    × (get_child_node t' p k ≡ some o)))))
get_child_node-resize_buckets t v =
    let (t', (run, r)) = resize_buckets_lem t v in
    (
      t',
      (
        run,
        (
          r.valid,
          λ p k.
              let (a, (look, f)) = get_child_node_lem t' r.valid p k in
              let (b, (look', g)) = get_child_node_lem t v p k in
              (b, (look', look ∙ ap some (same_found t v t' r p k a b f g))),
        ),
      ),
    )
