-- ===== src/Resolvers/Tree/Parents.antt =====
-- The nodes that `getAllDescendant` returns, and their parents.
use xgql.Prelude.{
  ℕ, zero, suc, ◌≡◌, refl, sym, ap, ◌∙◌, ◌⊎◌, inl, inr, Option, none, some, List, [], ◌∷◌, ◌++◌,
  All, All-map, All-append, Any, Any-append_left, Any-append_right,
}
use xgql.Model.Id.{ReferenceId}
use xgql.Resolvers.Objects.{Error, Resource, id_of, Server}
use xgql.Resolvers.Tree.{
  Node, Walk, descend, joined, walk_all, ended, under, level, get_all_descendant,
}

each : {A : Type 0} (xs : List A) → All (λ c. Any (λ k. k ≡ c) xs) xs
each [] = tt
each (x ∷ xs) = (inl refl, All-map (λ c. inr) xs (each xs))

-- Of an answer, if there is one.
abbrev pub On : (List Error → List Node → Type 0) → Option Walk → Type 0
On P none = Unit
On P (some w) = P w.errors w.nodes

module _ (srv : Server) where
  -- A resource of S is the parent: the node has its id and one of the resources that it is made of.
  abbrev IsBelow : (Resource → Type 0) → Node → Type 0
  IsBelow S n =
      (p : Resource) × S p
      × (n.parent_id ≡ some (id_of p))
      × Any (λ c. c ≡ n.resource) (descend srv p).0

  -- The parent of each node is in S or stands before it.
  abbrev AreBelow : (Resource → Type 0) → List Node → Type 0
  AreBelow S [] = Unit
  AreBelow S (n ∷ ns) = IsBelow S n × AreBelow (λ r. S r ⊎ (r ≡ n.resource)) ns

  abbrev Has : List Node → Resource → Type 0
  Has ns c = Any (λ n. n.resource ≡ c) ns

  -- What the resources of the nodes are made of is in the list.
  abbrev IsClosed : List Node → List Node → Type 0
  IsClosed all ns = All (λ n. All (Has all) (descend srv n.resource).0) ns

  -- With errors there are no nodes; without, the resource comes first, under the parent that the caller
  -- gave, each other node has its parent before it, and what the resources are made of is there.
  abbrev pub IsTree : Option ReferenceId → Resource → List Error → List Node → Type 0
  IsTree parent r [] [] = ⊥
  IsTree parent r [] (n ∷ ns) =
      (n ≡ record { parent_id = parent; resource = r })
      × AreBelow (λ p. p ≡ r) ns
      × IsClosed (n ∷ ns) (n ∷ ns)
  IsTree parent r (e ∷ es) ns = ns ≡ []

  AreBelow-mono :
      (S T : Resource → Type 0) (ns : List Node)
      → ((r : Resource) → S r → T r)
      → AreBelow S ns
      → AreBelow T ns
  AreBelow-mono S T [] f h = tt
  AreBelow-mono S T (n ∷ ns) f ((p, s, q, m), h) = (
    (p, f p s, q, m),
    AreBelow-mono (λ r. S r ⊎ (r ≡ n.resource)) (λ r. T r ⊎ (r ≡ n.resource)) ns
        (λ r. elim [ inl q ↦ inl (f r q) | inr q ↦ inr q ]) h,
  )

  AreBelow-append :
      (S : Resource → Type 0) (xs ys : List Node)
      → AreBelow S xs
      → AreBelow S ys
      → AreBelow S (xs ++ ys)
  AreBelow-append S [] ys h k = k
  AreBelow-append S (x ∷ xs) ys (b, h) k = (
    b,
    AreBelow-append (λ r. S r ⊎ (r ≡ x.resource)) xs ys h
        (AreBelow-mono S (λ r. S r ⊎ (r ≡ x.resource)) ys (λ r. inl) k),
  )

  IsClosed-append :
      (xs ys : List Node) → IsClosed xs xs → IsClosed ys ys → IsClosed (xs ++ ys) (xs ++ ys)
  IsClosed-append xs ys h k =
      All-append (λ n. All (Has (xs ++ ys)) (descend srv n.resource).0) xs ys
        (All-map (λ n. All-map (λ c. Any-append_left (λ m. m.resource ≡ c) xs ys) _) xs h)
        (All-map (λ n. All-map (λ c. Any-append_right (λ m. m.resource ≡ c) xs ys) _) ys k)

  -- The lists of some of the resources that r is made of.
  abbrev AreTrees : Resource → List Resource → List Error → List Node → Type 0
  AreTrees r rs [] ns = AreBelow (λ p. p ≡ r) ns × All (Has ns) rs × IsClosed ns ns
  AreTrees r rs (e ∷ es) ns = Unit

  AreTrees-append :
      (r c : Resource) (rs : List Resource) (es fs : List Error) (ns ms : List Node)
      → Any (λ k. k ≡ c) (descend srv r).0
      → IsTree (some (id_of r)) c es ns
      → AreTrees r rs fs ms
      → AreTrees r (c ∷ rs) (es ++ fs) (ns ++ ms)
  AreTrees-append r c rs (e ∷ es) fs ns ms m h k = tt
  AreTrees-append r c rs [] (f ∷ fs) ns ms m h k = tt
  AreTrees-append r c rs [] [] [] ms m h k = elim h [ ]
  AreTrees-append r c rs [] [] (n ∷ ns) ms m (p, below, closed) (others, rest, all) =
      let root : n.resource ≡ c = ap Node.resource p in
      (
        AreBelow-append (λ q. q ≡ r) (n ∷ ns) ms
            (
              (r, refl, ap Node.parent_id p, rw root m),
              AreBelow-mono (λ q. q ≡ c) (λ q. (q ≡ r) ⊎ (q ≡ n.resource)) ns
                  (λ q e. inr (e ∙ sym root)) below,
            )
            others,
        (inl root, All-map (λ d. Any-append_right (λ k. k.resource ≡ d) (n ∷ ns) ms) rs rest),
        IsClosed-append (n ∷ ns) ms closed all,
      )

  joined-AreTrees :
      (r c : Resource) (rs : List Resource) (w v : Option Walk)
      → Any (λ k. k ≡ c) (descend srv r).0
      → On (IsTree (some (id_of r)) c) w
      → On (AreTrees r rs) v
      → On (AreTrees r (c ∷ rs)) (joined w v)
  unfolding joined
  joined-AreTrees r c rs none v m h k = tt
  joined-AreTrees r c rs (some w) none m h k = tt
  joined-AreTrees r c rs (some w) (some v) m h k =
      AreTrees-append r c rs w.errors v.errors w.nodes v.nodes m h k

  walk_all-AreTrees :
      (r : Resource) (walk : Resource → Option Walk) (rs : List Resource)
      → ((c : Resource) → On (IsTree (some (id_of r)) c) (walk c))
      → All (λ c. Any (λ k. k ≡ c) (descend srv r).0) rs
      → On (AreTrees r rs) (walk_all walk rs)
  unfolding walk_all
  walk_all-AreTrees r walk [] h m = (tt, tt, tt)
  walk_all-AreTrees r walk (c ∷ rs) h m =
      joined-AreTrees r c rs (walk c) (walk_all walk rs) m.0 (h c)
        (walk_all-AreTrees r walk rs h m.1)

  ended-IsTree :
      (parent : Option ReferenceId) (r : Resource) (es : List Error) (ns : List Node)
      → AreTrees r (descend srv r).0 es ns
      → (let w = ended (record { parent_id = parent; resource = r }) es ns in
          IsTree parent r w.errors w.nodes)
  unfolding ended
  ended-IsTree parent r [] ns (below, all, closed) = (
    refl,
    below,
    (
      All-map (λ c. inr) (descend srv r).0 all,
      All-map (λ n. All-map (λ c. inr) (descend srv n.resource).0) ns closed,
    ),
  )
  ended-IsTree parent r (e ∷ es) ns h = refl

  level-IsTree :
      (parent : Option ReferenceId) (r : Resource) (es : List Error) (below : Option Walk)
      → On (AreTrees r (descend srv r).0) below
      → On (IsTree parent r) (level (record { parent_id = parent; resource = r }) es below)
  unfolding level under
  level-IsTree parent r [] none h = tt
  level-IsTree parent r [] (some w) h = ended-IsTree parent r w.errors w.nodes h
  level-IsTree parent r (e ∷ es) below h = refl

  -- What a call of `getAllDescendant` ends with: with errors there are no nodes; without, the resource is
  -- the first node, under the parent that the caller gave, each other node has the id of a resource that
  -- stands before it and that refers to it, and each resource that a node's resource refers to is a node.
  pub get_all_descendant-IsTree :
      (depth : ℕ) (parent : Option ReferenceId) (r : Resource)
      → On (IsTree parent r) (get_all_descendant srv depth parent r)
  unfolding get_all_descendant
  get_all_descendant-IsTree zero parent r = tt
  get_all_descendant-IsTree (suc depth) parent r =
      let (rs, es) = descend srv r in
      level-IsTree parent r es _ (
        walk_all-AreTrees r (get_all_descendant srv depth (some (id_of r))) rs
          (get_all_descendant-IsTree depth (some (id_of r))) (each rs))
