-- ===== src/Resolvers/Connections/Schedules.antt =====
-- What goroutines add, when they end in another order.
use xgql.Prelude.{List, Reorders, none_left, keep, swap, both, Reorders-append, blocks}
use xgql.Resolvers.Objects.{Error}
use xgql.Resolvers.Connections.{collect}

module _ {R A : Type 0} (add : R → List A × List Error) where
  pub collect-Reorders :
      {xs ys : List R} → Reorders xs ys → Reorders (collect add xs).0 (collect add ys).0
  unfolding collect
  collect-Reorders none_left = none_left
  collect-Reorders (keep x r) = Reorders-append (add x).0 (collect-Reorders r)
  collect-Reorders (swap x y xs) = blocks (add x).0 (add y).0 (collect add xs).0
  collect-Reorders (both r s) = both (collect-Reorders r) (collect-Reorders s)
