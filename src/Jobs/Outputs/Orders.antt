-- ===== src/Jobs/Outputs/Orders.antt =====
-- The orders of the output groups, as `_run` (src/formshift_server/jobs.py) indexes them.
use mathlib.Core.List.{Memᴰ}
use mathlib.Core.List.Memᴰ
use formshift_server.Prelude.{
  String, true, some, List, [], ◌∷◌, map, ◌≡◌, ◌≢◌, refl, ◌∙◌, inl, inr, string_eq, pair_eq, eq_iff,
  All, Distinct, arith,
}
use formshift_server.Prelude.Dict
use formshift_server.Prelude.Dict.{Dict, get-put}
use formshift_server.Graph.{OutputGroup}
use formshift_server.Jobs.Outputs.{group_orders}

group_orders-other :
    (k : String) (seen : Dict String String) (gs : List OutputGroup)
    → All (λ j. k ≢ j) (map (λ (g : OutputGroup). g.id) gs)
    → Dict.get k (group_orders seen gs) ≡ Dict.get k seen
unfolding group_orders
group_orders-other k seen [] h = refl
group_orders-other k seen (g ∷ gs) h = ground (
  arith,
  group_orders-other k (Dict.put g.id g.order seen) gs h.1,
  get-put g.id k g.order seen,
  eq_iff g.id k,
  h.0,
)

-- A declared group has its order.
pub group_orders-found :
    (g : OutputGroup) (seen : Dict String String) (gs : List OutputGroup)
    → Distinct (map (λ (x : OutputGroup). x.id) gs)
    → Memᴰ g gs
    → Dict.get g.id (group_orders seen gs) ≡ some g.order
unfolding group_orders
group_orders-found g seen [] d m = elim m [ ]
group_orders-found g seen (x ∷ gs) d m = elim (Memᴰ.cases_cons m) [
  | inl same ↦ rw same (
      group_orders-other x.id (Dict.put x.id x.order seen) gs d.0
      ∙ ground (arith, get-put x.id x.id x.order seen, eq_iff x.id x.id))
  | inr later ↦ group_orders-found g (Dict.put x.id x.order seen) gs d.1 later
]

group_orders-kept :
    (k : String) (seen : Dict String String) (gs : List OutputGroup)
    → Dict.has k seen ≡ true
    → Dict.has k (group_orders seen gs) ≡ true
unfolding group_orders
group_orders-kept k seen [] h = h
group_orders-kept k seen (g ∷ gs) h =
    group_orders-kept k (Dict.put g.id g.order seen) gs
      (ground (arith, get-put g.id k g.order seen))

pub group_orders-has :
    (k : String) (seen : Dict String String) (gs : List OutputGroup)
    → Memᴰ k (map (λ (x : OutputGroup). x.id) gs)
    → Dict.has k (group_orders seen gs) ≡ true
unfolding group_orders
group_orders-has k seen [] m = elim m [ ]
group_orders-has k seen (g ∷ gs) m = elim (Memᴰ.cases_cons m) [
  | inl same ↦
      group_orders-kept k (Dict.put g.id g.order seen) gs
        (ground (arith, get-put g.id k g.order seen, eq_iff g.id k))
  | inr later ↦ group_orders-has k (Dict.put g.id g.order seen) gs later
]
