-- ===== src/Unstructured.antt =====
-- Reads and writes of unstructured objects: what the accessors of internal/unstructured do alike. The
-- field paths of crossplane-runtime and the JSON of Go are parameters, with what they document.
pub mod Composite
pub mod Claim
pub mod Managed
pub mod ProviderConfig
pub mod Crd
pub mod Fields
pub mod Unread
pub mod Status
pub mod Conditions
pub mod RoundTrips
pub mod Names
pub mod Detected
use xgql.Prelude.{
  ◌≡◌, Bool, true, false, not, Option, none, some, List, [], ◌∷◌, Text, lit, text_eq, ◌==◌,
  if◌then◌else◌, filter,
}

-- The segments of a field path.
abbrev pub Segments : Type 0
Segments = List Text

-- Neither path leads through the other's value.
unfoldable pub apart : Segments → Segments → Bool
apart [] q = false
apart (x ∷ p) [] = false
apart (x ∷ p) (y ∷ q) = let rest = apart p q in if x == y then rest else true

abbrev pub spec : Text → Segments
spec name = lit "spec" ∷ name ∷ []

abbrev pub status : Segments
status = lit "status" ∷ []

abbrev pub in_status : Text → Segments
in_status name = lit "status" ∷ name ∷ []

-- A field of a value that may not be there.
abbrev pub field_of : {V : Type 0} → (V → Text → Option V) → Text → Option V → Option V
field_of field x none = none
field_of field x (some v) = field v x

-- Package fieldpath on objects `O` with values `V`: GetValue, SetValue (`none` for an error), the field
-- of a value, GetString of a value, and the values of strings and of nil pointers. A value that was set
-- is read, what is apart from it stays and can be set as before, and a longer path reads a field of what
-- a shorter one reads.
pub record Paved (O V : Type 0) : Type 0 where
  pub get : O → Segments → Option V
  pub set : O → Segments → V → Option O
  pub field : V → Text → Option V
  pub string : V → Option Text
  pub text : Text → V
  pub null : V
  pub get-set : (o o' : O) (p : Segments) (v : V) → set o p v ≡ some o' → get o' p ≡ some v
  pub get-set-apart :
      (o o' : O) (p q : Segments) (v : V)
      → set o p v ≡ some o'
      → apart p q ≡ true
      → get o' q ≡ get o q
  pub set-set-apart :
      (o o' o'' : O) (p q : Segments) (v w : V)
      → set o p v ≡ some o'
      → set o q w ≡ some o''
      → apart p q ≡ true
      → (r : O) × (set o' q w ≡ some r)
  pub get-field : (o : O) (x y : Text) → get o (x ∷ y ∷ []) ≡ field_of field y (get o (x ∷ []))
  pub string-text : (s : Text) → string (text s) ≡ some s
  pub string-null : string null ≡ none

-- Package encoding/json on a type: what `Unmarshal` leaves in a zero variable that it is given a pointer
-- to, and whether it succeeds; given the variable itself, it always fails (InvalidUnmarshalError).
pub record Codec {V : Type 0} (null : V) (T : Type 0) : Type 0 where
  pub zero : T
  pub encode : T → V
  pub decode : V → T × Bool
  pub decode_by_value : V → T × Bool
  pub decode_by_value-fails : (v : V) → (decode_by_value v).1 ≡ false
  pub decode-null : decode null ≡ (zero, true)

-- A value that is decoded as it was encoded: a time of whole seconds, for instance, but no other.
abbrev pub Survives : {V T : Type 0} {n : V} → Codec n T → T → Type 0
Survives c t = c.decode (c.encode t) ≡ (t, true)

abbrev pub PointerSurvives : {V T : Type 0} {n : V} → Codec n T → Option T → Type 0
PointerSurvives c none = Unit
PointerSurvives c (some t) = Survives c t

-- The pointer that is returned when there was no error.
unfoldable pub ok_only : {T : Type 0} → T × Bool → Option T
ok_only (t, true) = some t
ok_only (t, false) = none

module _ {O V : Type 0} (p : Paved O V) where
  -- GetValueInto
  unfoldable pub decoded : {T : Type 0} → Codec p.null T → Option V → T × Bool
  decoded c none = (c.zero, false)
  decoded c (some v) = c.decode v

  unfoldable pub value_into : {T : Type 0} → Codec p.null T → Segments → O → T × Bool
  unfolding decoded
  value_into c q o = decoded c (p.get o q)

  -- GetValueInto, of a variable and no pointer to it.
  unfoldable pub value_by_value : {T : Type 0} → Codec p.null T → Option V → T × Bool
  value_by_value c none = (c.zero, false)
  value_by_value c (some v) = c.decode_by_value v

  -- A getter that returns nil on an error.
  unfoldable pub pointer_at : {T : Type 0} → Codec p.null T → Segments → O → Option T
  unfolding value_into ok_only
  pointer_at c q o = ok_only (value_into c q o)

  -- A getter that ignores an error and returns what the variable holds.
  unfoldable pub value_at : {T : Type 0} → Codec p.null T → Segments → O → T
  unfolding value_into
  value_at c q o = (value_into c q o).0

  -- GetString
  unfoldable pub text_of : Option V → Option Text
  text_of none = none
  text_of (some v) = p.string v

  unfoldable pub text_at : Segments → O → Option Text
  unfolding text_of
  text_at q o = text_of (p.get o q)

  -- A setter, which ignores an error.
  unfoldable pub kept : O → Option O → O
  kept o none = o
  kept o (some o') = o'

  unfoldable pub put : Segments → V → O → O
  unfolding kept
  put q v o = kept o (p.set o q v)

  unfoldable pub put_value : {T : Type 0} → Codec p.null T → Segments → T → O → O
  unfolding put
  put_value c q t o = put q (c.encode t) o

  unfoldable pub pointer : {T : Type 0} → Codec p.null T → Option T → V
  pointer c none = p.null
  pointer c (some t) = c.encode t

  unfoldable pub put_pointer : {T : Type 0} → Codec p.null T → Segments → Option T → O → O
  unfolding put pointer
  put_pointer c q t o = put q (pointer c t) o

  unfoldable pub text_pointer : Option Text → V
  text_pointer none = p.null
  text_pointer (some s) = p.text s

  unfoldable pub put_text : Segments → Option Text → O → O
  unfolding put text_pointer
  put_text q s o = put q (text_pointer s) o
