-- ===== src/Unstructured/Conditions.antt =====
-- The conditions and the observed generation in a status, which every type of internal/unstructured
-- reads and writes alike.
use xgql.Prelude.{
  ◌≡◌, refl, sym, ap, ◌∙◌, true, false, Option, none, some, List, Text, lit, text_eq, text_beq,
  arith,
}
use xgql.Unstructured.{Paved, Codec, Survives, apart, status, in_status, field_of, put_value}
use xgql.Unstructured.Status.{
  Inline, Conditioning, inlined, status_into, put_in_status, found, read_only, get_condition,
  set_conditions, get_conditions, set_observed_generation, get_observed_generation,
}
use xgql.Unstructured.RoundTrips.{CanSet, Writable, CanSet-put, get-put, get-put-apart}

abbrev part_of : {V T : Type 0} {n : V} → Codec n T → Option V → T
part_of c none = c.zero
part_of c (some w) = (c.decode w).0

module _ {O V : Type 0} (p : Paved O V) {T : Type 0} (i : Inline p.null p.field T) where
  read-field : (v : V) (m : Option V) → p.field v i.name ≡ m → (i.read v).0 ≡ part_of i.part m
  read-field v none e = i.read-none v e
  read-field v (some w) e = ap (λ r. r.0) (i.read-part v w e)

  inlined-field : (m : Option V) → (inlined p i m).0 ≡ part_of i.part (field_of p.field i.name m)
  unfolding inlined
  inlined-field none = refl
  inlined-field (some v) = read-field v (p.field v i.name) refl

  -- The status is read as the path of the one field is.
  status_into_lem : (o : O) → (status_into p i o).0 ≡ part_of i.part (p.get o (in_status i.name))
  unfolding status_into
  status_into_lem o =
      inlined-field (p.get o status)
      ∙ ap (part_of i.part) (sym (p.get-field o (lit "status") i.name))

  inlined-some :
      (w : V) (m : Option V) → field_of p.field i.name m ≡ some w → inlined p i m ≡ i.part.decode w
  unfolding inlined
  inlined-some w none e = absurd (ground (arith, e))
  inlined-some w (some v) e = i.read-part v w e

  status_into-put :
      (t : T) (o : O)
      → CanSet p o (in_status i.name)
      → Survives i.part t
      → status_into p i (put_in_status p i t o) ≡ (t, true)
  unfolding status_into put_in_status put_value
  status_into-put t o w s =
      inlined-some (i.part.encode t) _ (
        sym (p.get-field _ (lit "status") i.name)
        ∙ get-put p (in_status i.name) (i.part.encode t) o w)
      ∙ s

  -- Another field of the status does not change what is read.
  status_into-put_other :
      {G : Type 0} (j : Inline p.null p.field G) (g : G) (o : O)
      → text_beq j.name i.name ≡ false
      → (status_into p i (put_in_status p j g o)).0 ≡ (status_into p i o).0
  unfolding put_in_status put_value apart text_beq
  status_into-put_other j g o h =
      status_into_lem (put_in_status p j g o)
      ∙ ap (part_of i.part) (
          get-put-apart p (in_status j.name) (in_status i.name) (j.part.encode g) o
            (ground (arith, h)))
      ∙ sym (status_into_lem o)

-- Conditions that are set are read as their merge with those that were there, also when there was no
-- status, and each is found in the merge; they leave the observed generation as it was. A generation
-- that is set is read, and leaves the conditions that a later merge starts from. The fields of the
-- object's status can be set, the two are different fields, and the generation and the merge are decoded
-- as they were encoded.
pub get-set_conditions :
    {O V C G : Type 0} (p : Paved O V) (k : Conditioning C)
    (i : Inline p.null p.field (Option (List C))) (j : Inline p.null p.field G) (cs : List C)
    (ct : Text) (g : G) (o : O)
    → text_beq i.name j.name ≡ false
    → text_beq j.name i.name ≡ false
    → Writable p (lit "status") o
    → Survives j.part g
    → Survives i.part (k.merge (status_into p i o).0 cs)
    → let merged = k.merge (status_into p i o).0 cs in
      (get_conditions p k i (set_conditions p k i cs o) ≡ merged)
      × (get_condition p k i ct (set_conditions p k i cs o) ≡ k.find ct merged)
      × (get_observed_generation p j (set_conditions p k i cs o) ≡ get_observed_generation p j o)
      × (get_observed_generation p j (set_observed_generation p j g o) ≡ g)
      × (get_conditions p k i (set_conditions p k i cs (set_observed_generation p j g o)) ≡ merged)
unfolding apart text_beq put_in_status put_value get_conditions set_conditions get_condition
    set_observed_generation get_observed_generation read_only found
get-set_conditions p k i j cs ct g o h h' w sg sc =
    let merged = k.merge (status_into p i o).0 cs in
    let again : CanSet p (set_observed_generation p j g o) (in_status i.name) =
      CanSet-put p (in_status j.name) (in_status i.name) (j.part.encode g) o (ground (arith, h'))
        (w i.name) in
    let old = ap (λ m. k.merge m cs) (status_into-put_other p i j g o h') in
    (
      ap (read_only p k i) (status_into-put p i merged o (w _) sc),
      ap (found p k i ct) (status_into-put p i merged o (w _) sc),
      status_into-put_other p j i merged o h,
      ap (λ r. r.0) (status_into-put p j g o (w _) sg),
      ap (read_only p k i) (status_into-put p i _ _ again (rw old sc)) ∙ old,
    )
