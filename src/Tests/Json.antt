-- ===== src/Tests/Json.antt =====
-- JSON values as the objects of internal/unstructured, with the field paths and the decoding of a few
-- types.
use xgql.Prelude.{
  ℕ, ◌≡◌, refl, ap, Bool-cases, inl, inr, text_beq_iff, Bool, true, false, ◌&&◌, ◌||◌, Option, none,
  some, List, [], ◌∷◌, ◌++◌, Text, lit, text_eq, text_beq, ◌==◌, beq_refl, if◌then◌else◌, arith,
}
use xgql.Model.Meta.{Data, RawCondition}
use xgql.Model.Composites.{SecretReference}
use xgql.Model.Definitions.{RawNames, RawCrdVersion}
use xgql.Unstructured.RoundTrips.{Writable}
use xgql.Unstructured.Status.{Inline, Conditioning}
use xgql.Unstructured.{Paved, Codec, Segments, apart, field_of}

-- Values of the types that are decoded as a whole.
pub data Leaf : Type 0 where
  labels : Data → Leaf
  secret : SecretReference → Leaf
  conds : List RawCondition → Leaf
  names : RawNames → Leaf
  versions : List (RawCrdVersion Text) → Leaf

pub data Json : Type 0 where
  leaf : Leaf → Json
  null : Json
  text : Text → Json
  texts : List Text → Json
  number : ℕ → Json
  fields : (Text → Bool) → (Text → Json) → Json

abbrev pub has : Json → Text → Bool
has (fields h f) x = h x
has _ x = false

abbrev pub child : Json → Text → Json
child (fields h f) x = if h x then f x else null
child _ x = null

unfoldable pub get_at : Segments → Json → Option Json
get_at [] v = some v
get_at (x ∷ p) v = let deep = get_at p (child v x) in if has v x then deep else none

unfoldable pub set_at : Segments → Json → Json → Json
set_at [] w v = w
set_at (x ∷ p) w v =
    let deep = set_at p w (child v x) in
    fields (λ y. x == y || has v y) (λ y. if x == y then deep else child v y)

unfoldable pub string_of : Json → Option Text
string_of (text s) = some s
string_of _ = none

pub get_at-set_at : (p : Segments) (w v : Json) → get_at p (set_at p w v) ≡ some w
unfolding get_at set_at
get_at-set_at [] w v = refl
get_at-set_at (x ∷ p) w v = ground (arith, beq_refl x, get_at-set_at p w (child v x))

-- A field that is not there has nothing in it.
pub get_at-missing :
    (p q : Segments) (v : Json) (x : Text)
    → has v x ≡ false
    → apart p q ≡ true
    → get_at q (child v x) ≡ none
unfolding get_at apart
get_at-missing [] [] v x h a = absurd (ground (arith, a))
get_at-missing (z ∷ p) [] v x h a = absurd (ground (arith, a))
get_at-missing p (y ∷ q) (fields g f) x h a = ground (arith, h)
get_at-missing p (y ∷ q) null x h a = refl
get_at-missing p (y ∷ q) (leaf l) x h a = refl
get_at-missing p (y ∷ q) (text s) x h a = refl
get_at-missing p (y ∷ q) (texts s) x h a = refl
get_at-missing p (y ∷ q) (number n) x h a = refl

pub get_at-set_at-apart :
    (p q : Segments) (w v : Json) → apart p q ≡ true → get_at q (set_at p w v) ≡ get_at q v
unfolding get_at set_at apart
get_at-set_at-apart [] q w v h = absurd (ground (arith, h))
get_at-set_at-apart (x ∷ p) [] w v h = absurd (ground (arith, h))
get_at-set_at-apart (x ∷ p) (y ∷ q) w v h = elim (Bool-cases (text_beq x y)) [
  | inr e ↦ ground (arith, e)
  | inl e ↦ elim (Bool-cases (has v y)) [
    | inl k ↦ ground (arith, e, k, h, (text_beq_iff x y).0 e, get_at-set_at-apart p q w (child v x))
    | inr k ↦ ground (
      arith,
      e,
      k,
      h,
      (text_beq_iff x y).0 e,
      get_at-set_at-apart p q w (child v x),
      get_at-missing p q v y k,
    )
  ]
]

pub get_at-child :
    (v : Json) (x y : Text)
    → get_at (x ∷ y ∷ []) v ≡ field_of (λ w z. get_at (z ∷ []) w) y (get_at (x ∷ []) v)
unfolding get_at
get_at-child v x y = elim (Bool-cases (has v x)) [
  | inl e ↦ ground (arith, e)
  | inr e ↦ ground (arith, e)
]

-- A path leads through objects and values that are missing, but through no other.
abbrev pub is_object : Json → Bool
is_object null = true
is_object (fields h f) = true
is_object _ = false

unfoldable pub leads : Segments → Json → Bool
leads [] v = true
leads (x ∷ p) v = let deep = leads p (child v x) in is_object v && deep

unfoldable pub set : Json → Segments → Json → Option Json
set o p v = if leads p o then some (set_at p v o) else none

pub set-read : (o o' : Json) (p : Segments) (v : Json) → set o p v ≡ some o' → get_at p o' ≡ some v
unfolding set
set-read o o' p v e = elim (Bool-cases (leads p o)) [
  | inl h ↦ ground (arith, e, h, get_at-set_at p v o)
  | inr h ↦ absurd (ground (arith, e, h))
]

pub set-read-apart :
    (o o' : Json) (p q : Segments) (v : Json)
    → set o p v ≡ some o'
    → apart p q ≡ true
    → get_at q o' ≡ get_at q o
unfolding set
set-read-apart o o' p q v e a = elim (Bool-cases (leads p o)) [
  | inl h ↦ ground (arith, e, h, get_at-set_at-apart p q v o a)
  | inr h ↦ absurd (ground (arith, e, h))
]

pub string_of-text : (s : Text) → string_of (text s) ≡ some s
unfolding string_of
string_of-text s = refl

pub string_of-null : string_of null ≡ none
unfolding string_of
string_of-null = refl

pub leads-null : (q : Segments) → leads q null ≡ true
unfolding leads
leads-null [] = refl
leads-null (y ∷ q) = leads-null q

pub leads-set_at-apart :
    (p q : Segments) (w v : Json)
    → apart p q ≡ true
    → leads q v ≡ true
    → leads q (set_at p w v) ≡ true
unfolding leads set_at apart
leads-set_at-apart [] q w v h l = absurd (ground (arith, h))
leads-set_at-apart (x ∷ p) [] w v h l = refl
leads-set_at-apart (x ∷ p) (y ∷ q) w v h l = elim (Bool-cases (text_beq x y)) [
  | inr e ↦ elim (Bool-cases (has v y)) [
    | inl k ↦ ground (arith, e, k, h, l)
    | inr k ↦ ground (arith, e, k, h, l, leads-null q)
  ]
  | inl e ↦ ground (arith, e, h, l, (text_beq_iff x y).0 e, leads-set_at-apart p q w (child v x))
]

pub set-set-apart :
    (o o' o'' : Json) (p q : Segments) (v w : Json)
    → set o p v ≡ some o'
    → set o q w ≡ some o''
    → apart p q ≡ true
    → (r : Json) × (set o' q w ≡ some r)
unfolding set
set-set-apart o o' o'' p q v w e f a = elim (Bool-cases (leads p o)) [
  | inr h ↦ absurd (ground (arith, e, h))
  | inl h ↦ elim (Bool-cases (leads q o)) [
    | inr k ↦ absurd (ground (arith, f, k))
    | inl k ↦ (set_at q w o', ground (arith, e, h, leads-set_at-apart p q v o a k))
  ]
]

abbrev pub paved : Paved Json Json
paved = record {
  get = λ o p. get_at p o;
  set = set;
  field = λ w z. get_at (z ∷ []) w;
  string = string_of;
  text = text;
  null = null;
  get-set = set-read;
  get-set-apart = set-read-apart;
  set-set-apart = set-set-apart;
  get-field = get_at-child;
  string-text = string_of-text;
  string-null = string_of-null;
}

pub writable :
    (parent : Text) (o : Json)
    → (is_object o ≡ true) × (is_object (child o parent) ≡ true)
    → Writable paved parent o
unfolding set leads
writable parent o h field v = (set_at (parent ∷ field ∷ []) v o, ground (arith, h.0, h.1))

-- An object of the example's kind, without a specification and a status.
abbrev pub network : Json
network =
    fields (λ x. x == lit "apiVersion" || x == lit "kind")
      (λ x. if x == lit "kind" then text (lit "Network") else text (lit "example.org/v1"))

pub network-Writable : Writable paved (lit "spec") network
unfolding text_beq
network-Writable = writable (lit "spec") network (refl, refl)

abbrev pub read_text : Json → Text × Bool
read_text null = ([], true)
read_text (text s) = (s, true)
read_text _ = ([], false)

abbrev pub text_codec : Codec null Text
text_codec = record {
  zero = [];
  encode = text;
  decode = read_text;
  decode_by_value = λ v. ([], false);
  decode_by_value-fails = λ v. refl;
  decode-null = refl;
}

abbrev pub read_texts : Json → List Text × Bool
read_texts null = ([], true)
read_texts (texts ts) = (ts, true)
read_texts _ = ([], false)

abbrev pub texts_codec : Codec null (List Text)
texts_codec = record {
  zero = [];
  encode = texts;
  decode = read_texts;
  decode_by_value = λ v. ([], false);
  decode_by_value-fails = λ v. refl;
  decode-null = refl;
}

abbrev pub read_slice : Json → Option (List Text) × Bool
read_slice null = (none, true)
read_slice (texts ts) = (some ts, true)
read_slice _ = (none, false)

abbrev pub slice : Option (List Text) → Json
slice none = null
slice (some ts) = texts ts

pub read_slice-slice : (t : Option (List Text)) → read_slice (slice t) ≡ (t, true)
read_slice-slice none = refl
read_slice-slice (some ts) = refl

abbrev pub slice_codec : Codec null (Option (List Text))
slice_codec = record {
  zero = none;
  encode = slice;
  decode = read_slice;
  decode_by_value = λ v. (none, false);
  decode_by_value-fails = λ v. refl;
  decode-null = refl;
}

abbrev pub read_number : Json → ℕ × Bool
read_number null = (0, true)
read_number (number n) = (n, true)
read_number _ = (0, false)

abbrev pub number_codec : Codec null ℕ
number_codec = record {
  zero = 0;
  encode = number;
  decode = read_number;
  decode_by_value = λ v. (0, false);
  decode_by_value-fails = λ v. refl;
  decode-null = refl;
}

abbrev pub field_read : {T : Type 0} → Codec null T → Bool → Option Json → T × Bool
field_read c b none = (c.zero, b)
field_read c b (some v) = c.decode v

-- A struct with the one field.
abbrev pub inline_of : {T : Type 0} → Text → Codec null T → Inline null paved.field T
inline_of name c = record {
  name = name;
  part = c;
  read = λ v. field_read c (is_object v) (paved.field v name);
  read-none = λ v e. ap (λ m. (field_read c (is_object v) m).0) e;
  read-part = λ v w e. ap (field_read c (is_object v)) e;
}

abbrev pub conditions : Inline null paved.field (Option (List Text))
conditions = inline_of (lit "conditions") slice_codec

abbrev pub generation : Inline null paved.field ℕ
generation = inline_of (lit "observedGeneration") number_codec

-- A condition is its type.
abbrev pub first_of : Text → List Text → Text
first_of ct [] = lit "Unknown"
first_of ct (c ∷ cs) = if c == ct then c else first_of ct cs

abbrev pub items : Option (List Text) → List Text
items none = []
items (some cs) = cs

abbrev pub conditioning : Conditioning Text
conditioning = record {
  empty = [];
  merge = λ old new. some (items old ++ new);
  find = λ ct cs. first_of ct (items cs);
}

abbrev pub string : Text → Text
string r = r
