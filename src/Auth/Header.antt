-- ===== src/Auth/Header.antt =====
-- Go's `http.Header`, as far as internal/auth/auth.go uses it: a map from canonical keys to values.
use xgql.Prelude.{
  ℕ, ◌+◌, ◌-◌, ◌≡◌, refl, Bool, true, false, ◌&&◌, ◌||◌, Option, none, some, List, [], ◌∷◌, ◌++◌,
  Text, lit, Dict, lookup, insert, leb, nat_beq, if◌then◌else◌, exists_in, text_eq,
}

abbrev pub Header : Type 0
Header = Dict Text (List Text)

is_upper : ℕ → Bool
is_upper c = leb b'A' c && leb c b'Z'

is_lower : ℕ → Bool
is_lower c = leb b'a' c && leb c b'z'

is_digit : ℕ → Bool
is_digit c = leb b'0' c && leb c b'9'

-- The bytes of a header field name.
is_token : ℕ → Bool
unfolding is_upper is_lower is_digit exists_in
is_token c = is_upper c || is_lower c || is_digit c || exists_in (nat_beq c) (lit "!#$%&'*+-.^_`|~")

all_tokens : Text → Bool
all_tokens [] = true
all_tokens (c ∷ s) = is_token c && all_tokens s

-- Upper case at the start and after a dash, lower case elsewhere.
canonical_from : Bool → Text → Text
canonical_from up [] = []
canonical_from up (c ∷ s) =
    let d = if up && is_lower c then c - 32 else if not_up up && is_upper c then c + 32 else c in
    d ∷ canonical_from (nat_beq c b'-') s
  where
    not_up : Bool → Bool
    not_up true = false
    not_up false = true

-- textproto.CanonicalMIMEHeaderKey
unfoldable pub canonical : Text → Text
unfolding is_token all_tokens canonical_from
canonical s = if all_tokens s then canonical_from true s else s

unfoldable pub values_of : Option (List Text) → List Text
values_of none = []
values_of (some vs) = vs

unfoldable pub first_of_values : List Text → Text
first_of_values [] = []
first_of_values (v ∷ vs) = v

-- Header.Values, Header.Get, Header.Set and Header.Add
unfoldable pub values : Header → Text → List Text
unfolding values_of
values h k = values_of (lookup h (canonical k))

unfoldable pub get : Header → Text → Text
unfolding first_of_values
get h k = first_of_values (values h k)

unfoldable pub set : Header → Text → Text → Header
set h k v = insert h (canonical k) (v ∷ [])

unfoldable pub add : Header → Text → Text → Header
add h k v = insert h (canonical k) (values h k ++ v ∷ [])

canonical_test : canonical (lit "x-remote-EXTRA-foo") ≡ lit "X-Remote-Extra-Foo"
unfolding canonical
canonical_test = refl
