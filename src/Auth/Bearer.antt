-- ===== src/Auth/Bearer.antt =====
-- Bearer tokens of internal/auth/auth.go: exactly the headers `Bearer <token>` give a token.
use xgql.Prelude.{
  ℕ, ◌≡◌, ◌≢◌, refl, ◌∙◌, sym, ap, inl, inr, List, [], ◌∷◌, ◌++◌, Text, ◌==◌, text_eq, text_beq,
  text_beq_iff, split_on, split_on_last, split_on-append, join_with, join_with-split_on,
  Avoids-split_on, Avoids, All, Bool-cases,
}
use xgql.Auth.Header
use xgql.Auth.Header.{Header}
use xgql.Auth.Credentials.{header_authn, prefix_bearer}
use xgql.Auth.Extract.{Request, bearer_of, extract_bearer_token}

-- A header of the scheme and one word gives that word.
extract_bearer_token-header :
    (r : Request) (t : Text)
    → Avoids b' ' t
    → Header.get r.header header_authn ≡ prefix_bearer ++ b' ' ∷ t
    → extract_bearer_token r ≡ t
unfolding extract_bearer_token bearer_of text_beq
extract_bearer_token-header r t h p = rw (
  p,
  split_on-append b' ' prefix_bearer t (refl, (refl, (refl, (refl, (refl, (refl, tt)))))),
  split_on_last b' ' t h,
)

bearer_of_some :
    (ps : List Text) (c : ℕ)
    → bearer_of ps ≢ []
    → All (Avoids c) ps
    → (join_with b' ' ps ≡ prefix_bearer ++ b' ' ∷ bearer_of ps) × Avoids c (bearer_of ps)
unfolding bearer_of join_with
bearer_of_some [] c h a = absurd (h refl)
bearer_of_some (p ∷ []) c h a = absurd (h refl)
bearer_of_some (p ∷ t ∷ []) c h a = elim (Bool-cases (p == prefix_bearer)) [
  | inl e ↦ rw e (ap (λ s. s ++ b' ' ∷ t) ((text_beq_iff p prefix_bearer).0 e), a.1.0)
  | inr e ↦ absurd (h (rw e))
]
bearer_of_some (p ∷ t ∷ u ∷ ps) c h a = absurd (h refl)

-- Whatever token is taken from a request is one word, and the header was `Bearer` and that word.
pub header-extract_bearer_token :
    (r : Request)
    → extract_bearer_token r ≢ []
    → (Header.get r.header header_authn ≡ prefix_bearer ++ b' ' ∷ extract_bearer_token r)
      × Avoids b' ' (extract_bearer_token r)
unfolding extract_bearer_token
header-extract_bearer_token r h =
    let s = Header.get r.header header_authn in
    let (p, q) = bearer_of_some (split_on b' ' s) b' ' h (Avoids-split_on b' ' s) in
    (sym (join_with-split_on b' ' s) ∙ p, q)
