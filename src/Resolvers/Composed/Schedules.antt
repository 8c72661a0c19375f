-- ===== src/Resolvers/Composed/Schedules.antt =====
-- The order in which the goroutines of `Resources` end: what the answer owes to it.
use xgql.Prelude.{
  Bool, true, false, List, ◌≡◌, refl, text_ord, All, stable, by_key, Reorders, stable-Reorders,
}
use xgql.Model.Id.{ReferenceId}
use xgql.Resolvers.Objects.{Error, Resource, Server}
use xgql.Resolvers.Connections.{collect}
use xgql.Resolvers.Connections.Schedules.{collect-Reorders}
use xgql.Resolvers.Composed.{sort_key, compose, settled, resources}

module _ (srv : Server) where
  settled-stable :
      (b : Bool) (got other : List Resource × List Error)
      → stable (by_key sort_key) got.0 ≡ stable (by_key sort_key) other.0
      → (settled srv b got).0 ≡ (settled srv b other).0
  unfolding settled
  settled-stable true got other p = p
  settled-stable false got other p = refl

  -- The goroutines of `Resources` may end in any order: if among the resources that they add (all of
  -- which satisfy P) no two different ones have one sort key, the connection has the same nodes in the
  -- same order.
  pub resources-Reorders :
      (P : Resource → Type 0) {xs ys : List ReferenceId}
      → ((a b : Resource) → P a → P b → sort_key a ≡ sort_key b → a ≡ b)
      → All P (collect (compose srv) xs).0
      → Reorders xs ys
      → (resources srv xs).0 ≡ (resources srv ys).0
  unfolding resources
  resources-Reorders P {xs} {ys} one h r =
      settled-stable srv.client (collect (compose srv) xs) (collect (compose srv) ys)
        (stable-Reorders sort_key P one h (collect-Reorders (compose srv) r))
