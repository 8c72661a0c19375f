-- ===== src/Model/Package/Statuses.antt =====
-- What is lost of a package when it is modelled.
use xgql.Prelude.{
  Bool, true, false, zero, suc, ◌≡◌, ◌↔◌, refl, Option, none, some, List, [], ◌∷◌, Text, arith,
}
use xgql.Model.Meta.{RawCondition, text_ptr, get_conditions}
use xgql.Model.Package.{
  ℤ, pos, negsuc, PackageStatus, RawPackage, get_int_ptr, is_nil, shown, is_blank,
  get_package_status, get_package,
}
use xgql.Model.Package.Revisions.{
  RevisionStatus, RawRevision, shown_revision, is_blank_revision, get_revision_status, get_revision,
}

status_lem :
    (conditions : Option (List RawCondition)) (revision identifier : Text)
    → let out : PackageStatus = record {
      conditions = get_conditions conditions;
      current_revision = text_ptr revision;
      current_identifier = text_ptr identifier;
    } in
      (shown (is_blank out) out ≡ none)
      ↔ ((conditions ≡ none) × (revision ≡ []) × (identifier ≡ []))
unfolding shown is_blank is_nil get_conditions text_ptr
status_lem none [] [] = (λ h. (refl, refl, refl), λ h. refl)
status_lem none [] (c ∷ cs) = (λ h. absurd (ground (arith, h)), λ h. absurd (ground (arith, h.2)))
status_lem none (c ∷ cs) identifier =
    (λ h. absurd (ground (arith, h)), λ h. absurd (ground (arith, h.1)))
status_lem (some cs) revision identifier =
    (λ h. absurd (ground (arith, h)), λ h. absurd (ground (arith, h.0)))

-- A provider or a configuration has no status exactly if its conditions are nil and it has neither a current
-- revision nor a current identifier; and one whose history limit is zero is modelled as one without a limit.
get_package_lem :
    (p : RawPackage)
    → (((get_package p).status ≡ none)
        ↔ ((p.conditions ≡ none) × (p.current_revision ≡ []) × (p.current_identifier ≡ [])))
      × (get_package (record (p) { revision_history_limit = some (pos 0) })
          ≡ get_package (record (p) { revision_history_limit = none }))
unfolding get_package get_package_status get_int_ptr
get_package_lem p = (status_lem p.conditions p.current_revision p.current_identifier, refl)

is_nil-get_int_ptr : (i : ℤ) → is_nil (get_int_ptr (some i)) ≡ true → i ≡ pos 0
unfolding is_nil get_int_ptr
is_nil-get_int_ptr (pos zero) h = refl
is_nil-get_int_ptr (pos (suc n)) h = absurd (ground (arith, h))
is_nil-get_int_ptr (negsuc n) h = absurd (ground (arith, h))

shown_revision-none : (b : Bool) (s : RevisionStatus) → shown_revision b s ≡ none → b ≡ true
unfolding shown_revision
shown_revision-none true s h = refl
shown_revision-none false s h = absurd (ground (arith, h))

-- A revision without a status has no dependencies of any sort, installs nothing and asks for no permission.
get_revision-none :
    (r : RawRevision)
    → (get_revision r).status ≡ none
    → (r.object_refs ≡ none)
      × (r.found_dependencies ≡ pos 0)
      × (r.installed_dependencies ≡ pos 0)
      × (r.invalid_dependencies ≡ pos 0)
      × (r.permission_requests ≡ none)
unfolding get_revision get_revision_status is_blank_revision is_nil
get_revision-none r h =
    let b = shown_revision-none _ _ h in
    (
      ground (arith, b),
      is_nil-get_int_ptr r.found_dependencies (ground (arith, b)),
      is_nil-get_int_ptr r.installed_dependencies (ground (arith, b)),
      is_nil-get_int_ptr r.invalid_dependencies (ground (arith, b)),
      ground (arith, b),
    )
