-- ===== src/Cache/LiveQueries/Broadcast.antt =====
-- Events of internal/cache/live_query.go reach the live queries, and drop the dead ones.
use xgql.Prelude.{
  ℕ, ◌≡◌, refl, inl, inr, Bool, false, ◌&&◌, Option, none, some, [], ◌∷◌, Dict, lookup,
  if◌then◌else◌, nat_eq, nat_beq, exists_in, arith, Bool-cases,
}
use xgql.Cache.Tracker.{Tracker}
use xgql.Cache.LiveQueries.{Handler, broadcast}

-- No id stands twice, as in every Go map.
abbrev pub IsMap : Dict ℕ Tracker → Type 0
IsMap [] = Unit
IsMap ((i, q) ∷ m) = (lookup m i ≡ none) × IsMap m

abbrev pub kept : (ℕ → Bool) → Handler → ℕ → Option Tracker → Option Tracker
kept live handle i none = none
kept live handle i (some q) = if live i then some (handle q).0 else none

abbrev pub told : (ℕ → Bool) → Handler → ℕ → Option Tracker → Bool
told live handle i none = false
told live handle i (some q) = live i && (handle q).1

module _ (live : ℕ → Bool) (handle : Handler) where
  -- A broadcast drops exactly the queries that are not live, hands the event to every other once, and
  -- triggers exactly those of them whose tracker says so.
  pub broadcast_lem :
      (m : Dict ℕ Tracker) (i : ℕ)
      → IsMap m
      → (lookup (broadcast live handle m).0 i ≡ kept live handle i (lookup m i))
        × (exists_in (nat_beq i) (broadcast live handle m).1 ≡ told live handle i (lookup m i))
  unfolding broadcast lookup exists_in
  broadcast_lem [] i h = (refl, refl)
  broadcast_lem ((j, q) ∷ m) i h = elim (Bool-cases (live j)) [
    | inl p ↦ ground (arith, p, h.0, broadcast_lem m i h.1)
    | inr p ↦ ground (arith, p, h.0, broadcast_lem m i h.1)
  ]
