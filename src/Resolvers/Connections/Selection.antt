-- ===== src/Resolvers/Connections/Selection.antt =====
-- Which nodes a connection has, and in which order.
use xgql.Prelude.{
  ◌≡◌, refl, ap, ◌∙◌, Bool, true, false, some, List, [], ◌∷◌, Text, text_eq, text_beq_iff, ◌==◌,
  text_ord, length, filter, by_key, by_key-IsLess, IsOrdered, stable-IsOrdered, filter-stable,
  arith,
}
use xgql.Model.Id.{ReferenceId, join}
use xgql.Resolvers.Objects.{Error}
use xgql.Resolvers.Connections.{Connection, listed}

module _ {A : Type 0} (id : A → ReferenceId) where
  abbrev key : A → Text
  key a = join (id a)

  -- The nodes are those of the items that pass the test: they stand in the order of their keys, those of
  -- one key in the order of the items. The count is theirs.
  abbrev pub IsSelection : (A → Bool) → List A → Connection A → Type 0
  IsSelection keep items c =
      IsOrdered (by_key key) c.nodes
      × ((k : Text)
          → filter (λ a. key a == k) c.nodes ≡ filter (λ a. key a == k) (filter keep items))
      × (c.total_count ≡ length c.nodes)

  one_key :
      (k : Text) (a b : A) → (key a == k) ≡ true → (key b == k) ≡ true → by_key key a b ≡ false
  one_key k a b p q =
      ground (arith, p, q, text_beq_iff (key a) k, text_beq_iff (key b) k, text_ord.less_irrefl k)

  pub listed-IsSelection :
      (e : Error) (keep : A → Bool) (items : List A)
      → IsSelection keep items (listed id e keep true (some items)).value
  unfolding listed
  listed-IsSelection e keep items = (
    stable-IsOrdered (by_key key) (filter keep items) (by_key-IsLess key),
    λ k. filter-stable (λ a. key a == k) (by_key key) (filter keep items) (one_key k),
    refl,
  )

  filter-same : (p q : A → Bool) (xs : List A) → ((a : A) → p a ≡ q a) → filter p xs ≡ filter q xs
  unfolding filter
  filter-same p q [] h = refl
  filter-same p q (x ∷ xs) h = rw (h x) (rw (filter-same p q xs h) refl)

  pub listed-wanted :
      (e : Error) (keep want : A → Bool) (items : List A)
      → ((a : A) → keep a ≡ want a)
      → IsSelection want items (listed id e keep true (some items)).value
  listed-wanted e keep want items h =
      let (ordered, same, count) = listed-IsSelection e keep items in
      (ordered, λ k. same k ∙ ap (filter (λ a. key a == k)) (filter-same keep want items h), count)
