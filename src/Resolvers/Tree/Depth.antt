-- ===== src/Resolvers/Tree/Depth.antt =====
-- How deep the tree of a resource is followed: enough depth gives an answer, and a cycle never gives one.
use xgql.Prelude.{
  ℕ, zero, suc, ◌+◌, ◌<◌, ◌≤◌, ◌≡◌, refl, inl, inr, Option, none, some, List, [], ◌∷◌, ◌++◌, All,
  All-map, Any, arith,
}
use xgql.Model.Id.{ReferenceId}
use xgql.Resolvers.Objects.{Error, Resource, id_of, Server}
use xgql.Resolvers.Tree.{
  Node, Walk, failing, descend, joined, walk_all, ended, under, level, get_all_descendant,
}

-- From depth n on, there is one answer.
abbrev IsSettled : (ℕ → Option Walk) → ℕ → Type 0
IsSettled below n = (w : Walk) × ((depth : ℕ) → n ≤ depth → below depth ≡ some w)

later :
    (below : ℕ → Option Walk) (n : ℕ) (w : Walk)
    → ((d : ℕ) → n ≤ d → below (suc d) ≡ some w)
    → (d : ℕ) → suc n ≤ d
    → below d ≡ some w
later below n w h zero le = absurd (omega (arith, le))
later below n w h (suc d) le = h d (omega (arith, le))

-- What is below a list of resources.
module _ (walk : ℕ → Resource → Option Walk) where
  walk_all-IsSettled :
      (n : ℕ) (rs : List Resource)
      → All (λ r. IsSettled (λ d. walk d r) n) rs
      → IsSettled (λ d. walk_all (walk d) rs) n
  unfolding walk_all joined
  walk_all-IsSettled n [] h = (failing [], λ d le. refl)
  walk_all-IsSettled n (r ∷ rs) ((w, p), h) =
      let (v, q) = walk_all-IsSettled n rs h in
      (
        record { nodes = w.nodes ++ v.nodes; errors = w.errors ++ v.errors },
        λ d le. rw (p d le) (rw (q d le) refl),
      )

joined-none : (w : Option Walk) → joined w none ≡ none
unfolding joined
joined-none none = refl
joined-none (some w) = refl

-- One resource without an answer leaves none for the list.
walk_all-none :
    (walk : Resource → Option Walk) (C : Resource → Type 0) (rs : List Resource)
    → ((r : Resource) → C r → walk r ≡ none)
    → Any C rs
    → walk_all walk rs ≡ none
unfolding walk_all joined
walk_all-none walk C [] h k = elim k [ ]
walk_all-none walk C (r ∷ rs) h (inl c) = rw (h r c) refl
walk_all-none walk C (r ∷ rs) h (inr k) = rw (walk_all-none walk C rs h k) (joined-none (walk r))

module _ (srv : Server) where
  level-IsSettled :
      (m : Node) (es : List Error) (n : ℕ) (below : ℕ → Option Walk)
      → IsSettled below n
      → IsSettled (λ d. level m es (below d)) n
  unfolding level under ended
  level-IsSettled m [] n below (w, p) = (ended m w.errors w.nodes, λ d le. rw (p d le) refl)
  level-IsSettled m (e ∷ es) n below h = (failing (e ∷ es), λ d le. refl)

  module _ (P : Resource → Type 0) (rank : Resource → ℕ) where
    settles_below :
        (n : ℕ) (parent : Option ReferenceId) (r : Resource)
        → ((c : Resource) → P c → All (λ d. P d × (rank d < rank c)) (descend srv c).0)
        → P r
        → rank r < n
        → IsSettled (λ d. get_all_descendant srv d parent r) n
    unfolding get_all_descendant
    settles_below zero parent r f p lt = absurd (omega (arith, lt))
    settles_below (suc n) parent r f p lt =
        let (rs, es) = descend srv r in
        let (w, h) = level-IsSettled _ es n _ (
          walk_all-IsSettled (λ d. get_all_descendant srv d (some (id_of r))) n rs
            (All-map (λ c q. settles_below n (some (id_of r)) c f q.0 (omega (arith, q.1, lt))) rs
              (f r p))) in
        (w, later (λ d. get_all_descendant srv d parent r) n w h)

    -- If the rank of each resource with P is larger than the ranks of those that it is made of, which
    -- have P again, the recursion ends: from a depth of more than the rank on there is an answer, and it is
    -- one answer for all of these depths.
    pub get_all_descendant-rank :
        (parent : Option ReferenceId) (r : Resource)
        → ((c : Resource) → P c → All (λ d. P d × (rank d < rank c)) (descend srv c).0)
        → P r
        → (w : Walk) × ((more : ℕ) → get_all_descendant srv (more + suc (rank r)) parent r ≡ some w)
    get_all_descendant-rank parent r f p =
        let (w, h) = settles_below (suc (rank r)) parent r f p (omega arith) in
        (w, λ more. h (more + suc (rank r)) (omega arith))

  -- If each of a set of resources is read without an error and refers to one of the set again, as on a
  -- cycle, no depth is enough: the recursion has no test of its own that ends it.
  pub get_all_descendant-cycle :
      (C : Resource → Type 0)
      → ((r : Resource) → C r → ((descend srv r).1 ≡ []) × Any C (descend srv r).0)
      → (depth : ℕ) (parent : Option ReferenceId) (r : Resource) → C r
      → get_all_descendant srv depth parent r ≡ none
  unfolding get_all_descendant level under
  get_all_descendant-cycle C h zero parent r c = refl
  get_all_descendant-cycle C h (suc depth) parent r c = rw (h r c).0 (
      rw
        (walk_all-none (get_all_descendant srv depth (some (id_of r))) C (descend srv r).0
          (get_all_descendant-cycle C h depth (some (id_of r))) (h r c).1)
        refl)
