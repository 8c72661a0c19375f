-- ===== src/Tests/Paths.antt =====
-- Keys of maps and field paths at concrete inputs.
use xgql.Prelude.{
  ℕ, ◌≡◌, refl, true, none, some, [], ◌∷◌, lit, text_eq, ◌==◌, has_prefix, if◌then◌else◌,
}
use xgql.Model.Meta.{Data}
use xgql.Model.FieldPath.{Paved, contains, field_path_of}
use xgql.Model.FieldPath.Wildcards.{IsAnswer, field_path_of-IsAnswer}

abbrev labels : Data
labels = some ((lit "app", lit "web") ∷ (lit "tier", lit "front") ∷ [])

abbrev paved : Paved ℕ
paved = record {
  whole = some (lit "{}");
  get_value =
      λ path. if path == lit "a[0]" then some 1 else if path == lit "a[1]" then some 2 else none;
  expand_wildcards = λ path. some (lit "a[0]" ∷ lit "a[1]" ∷ []);
  marshal = λ v. some (lit "1");
  marshal_list = λ vs. some (lit "[1,2]");
}

has_wildcard : contains (lit "[*]") (lit "a[*]") ≡ true
unfolding contains has_prefix
has_wildcard = refl

field_path_of-IsAnswer_example :
    IsAnswer paved (some (lit "a[0]" ∷ lit "a[1]" ∷ [])) (field_path_of paved (some (lit "a[*]")))
field_path_of-IsAnswer_example = field_path_of-IsAnswer paved (lit "a[*]") has_wildcard
