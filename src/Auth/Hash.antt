-- ===== src/Auth/Hash.antt =====
-- What `Hash` of internal/auth/auth.go tells apart, and what it does not.
use mathlib.Core.List.{append_assoc}
use xgql.Prelude.{◌≡◌, refl, ap, List, [], ◌++◌, Text, Dict, exists_in, ◌==◌, text_eq}
use xgql.Auth.Credentials.{Credentials, hash}

-- The texts are in the one list exactly if they are in the other.
abbrev pub SameMembers : List Text → List Text → Type 0
SameMembers gs hs = (g : Text) → exists_in (λ h. h == g) gs ≡ exists_in (λ h. h == g) hs

module _ (digest : Text → Text) (sorted_set : List Text → List Text) where
  -- The hash is one for all credentials that agree on the two usernames and on the set of their
  -- groups: the order and the repetition of groups do not matter.
  hash-groups :
      ((gs hs : List Text) → SameMembers gs hs → sorted_set gs ≡ sorted_set hs)
      → (extra : Text) (c d : Credentials) → c.impersonate.username ≡ d.impersonate.username
      → c.authenticating_proxy.username ≡ d.authenticating_proxy.username
      → SameMembers
          (c.impersonate.groups ++ c.authenticating_proxy.groups)
          (d.impersonate.groups ++ d.authenticating_proxy.groups)
      → hash digest sorted_set extra c ≡ hash digest sorted_set extra d
  unfolding hash
  hash-groups canon extra c d p q s = rw (p, q, canon _ _ s)

  -- The hash does not depend on the bearer token, the basic credentials or the extra attributes: any
  -- two credentials that differ in these alone have one hash.
  pub hash-token :
      (extra : Text) (c : Credentials) (token user password : Text) (ie pe : Dict Text (List Text))
      → hash digest sorted_set extra c
        ≡ hash digest sorted_set extra (record {
          bearer_token = token;
          basic_username = user;
          basic_password = password;
          impersonate = record (c.impersonate) { extra = ie };
          authenticating_proxy = record (c.authenticating_proxy) { extra = pe };
        })
  unfolding hash
  hash-token extra c token user password ie pe = refl

  -- An impersonated username and a proxied one are run together: where no user is proxied, a hash is
  -- also that of each way to cut the username in two.
  hash-usernames :
      (extra u v : Text) (c : Credentials)
      → hash digest sorted_set extra (record c {
        impersonate = record (c.impersonate) { username = u ++ v };
        authenticating_proxy = record (c.authenticating_proxy) { username = [] };
      })
        ≡ hash digest sorted_set extra (record c {
          impersonate = record (c.impersonate) { username = u };
          authenticating_proxy = record (c.authenticating_proxy) { username = v };
        })
  unfolding hash
  hash-usernames extra u v c = ap digest (append_assoc u v _)
