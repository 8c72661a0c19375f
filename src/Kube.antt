-- ===== src/Kube.antt =====
-- The Kubernetes kinds that internal/cache and internal/graph/model compare.
use xgql.Prelude.{
  ◌≡◌, ◌↔◌, Bool, true, ◌&&◌, [], ◌∷◌, Text, lit, Eq, ◌==◌, text_eq, text_beq_iff, arith,
  if◌then◌else◌,
}

-- schema.GroupVersionKind
pub record Gvk : Type 0 where
  pub group : Text
  pub version : Text
  pub kind : Text

unfoldable pub gvk_beq : Gvk → Gvk → Bool
gvk_beq a b = a.group == b.group && a.version == b.version && a.kind == b.kind

pub gvk_beq_iff : (a b : Gvk) → (gvk_beq a b ≡ true) ↔ (a ≡ b)
unfolding gvk_beq
gvk_beq_iff a b = ground (
  arith,
  text_beq_iff a.group b.group,
  text_beq_iff a.version b.version,
  text_beq_iff a.kind b.kind,
)

instance abbrev pub gvk_eq : Eq Gvk
gvk_eq = record { beq = gvk_beq; beq_iff = gvk_beq_iff }

-- strings.TrimSuffix(kind, "List")
unfoldable pub trim_list : Text → Text
trim_list [] = []
trim_list (c ∷ s) = let rest = trim_list s in if c ∷ s == lit "List" then [] else c ∷ rest

unfoldable pub item_gvk : Gvk → Gvk
unfolding trim_list
item_gvk g = record g { kind = trim_list g.kind }
