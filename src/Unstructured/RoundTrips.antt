-- ===== src/Unstructured/RoundTrips.antt =====
-- What the setters of internal/unstructured write, its getters read.
use xgql.Prelude.{
  Bool, ◌&&◌, arith, ◌≡◌, refl, ap, ◌∙◌, true, Option, none, some, List, [], ◌∷◌, All, Text,
  text_eq,
}
use xgql.Unstructured.{
  Paved, Codec, Survives, PointerSurvives, Segments, apart, ok_only, decoded, value_into,
  pointer_at, value_at, text_of, text_at, kept, put, put_value, pointer, put_pointer, text_pointer,
  put_text,
}

-- The path of the object can be set.
abbrev pub CanSet : {O V : Type 0} → Paved O V → O → Segments → Type 0
CanSet {O} {V} p o q = (v : V) → (o' : O) × (p.set o q v ≡ some o')

-- The fields of the object's field can be set: it is missing, or an object.
abbrev pub Writable : {O V : Type 0} → Paved O V → Text → O → Type 0
Writable p parent o = (field : Text) → CanSet p o (parent ∷ field ∷ [])

-- What a pointer that was set reads as: a nil pointer as the zero value.
abbrev pub or_zero : {V T : Type 0} {n : V} → Codec n T → Option T → T
or_zero c none = c.zero
or_zero c (some t) = t

module _ {O V : Type 0} (p : Paved O V) where
  pub get-put : (q : Segments) (v : V) (o : O) → CanSet p o q → p.get (put p q v o) q ≡ some v
  unfolding put kept
  get-put q v o w = let (o', e) = w v in rw e (p.get-set o o' q v e)

  pub get-put-apart :
      (q r : Segments) (v : V) (o : O) → apart q r ≡ true → p.get (put p q v o) r ≡ p.get o r
  unfolding put
  get-put-apart q r v o a = go (p.set o q v) refl
    where
      go : (m : Option O) → p.set o q v ≡ m → p.get (kept p o m) r ≡ p.get o r
      go none e = refl
      go (some o') e = p.get-set-apart o o' q r v e a

  pub CanSet-put :
      (q r : Segments) (v : V) (o : O) → apart q r ≡ true → CanSet p o r → CanSet p (put p q v o) r
  unfolding put
  CanSet-put q r v o a c = go (p.set o q v) refl
    where
      go : (m : Option O) → p.set o q v ≡ m → CanSet p (kept p o m) r
      go none e w = c w
      go (some o') e w = p.set-set-apart o o' (c w).0 q r v w e (c w).1 a

  -- Values are set one after another, the last of the list first.
  abbrev pub puts : List (Segments × V) → O → O
  puts [] o = o
  puts ((q, v) ∷ ws) o = put p q v (puts ws o)

  -- A path is apart from those that are set.
  abbrev pub is_apart : Segments → List (Segments × V) → Bool
  is_apart q [] = true
  is_apart q ((r, v) ∷ ws) = apart q r && apart r q && is_apart q ws

  -- No two of the paths that are set meet.
  abbrev pub are_apart : List (Segments × V) → Bool
  are_apart [] = true
  are_apart ((q, v) ∷ ws) = is_apart q ws && are_apart ws

  is_apart_all :
      (q r : Segments) (v : V) (ws : List (Segments × V))
      → is_apart q ((r, v) ∷ ws) ≡ true
      → (apart q r ≡ true) × (apart r q ≡ true) × (is_apart q ws ≡ true)
  is_apart_all q r v ws h = ground (arith, h)

  CanSet-puts :
      (q : Segments) (ws : List (Segments × V)) (o : O)
      → is_apart q ws ≡ true
      → CanSet p o q
      → CanSet p (puts ws o) q
  CanSet-puts q [] o a c = c
  CanSet-puts q ((r, v) ∷ ws) o a c =
      let (_, b, rest) = is_apart_all q r v ws a in
      CanSet-put r q v (puts ws o) b (CanSet-puts q ws o rest c)

  get-put_first :
      (q : Segments) (v : V) (o : O) (ws : List (Segments × V))
      → is_apart q ws ≡ true
      → All (λ w. p.get o w.0 ≡ some w.1) ws
      → All (λ w. p.get (put p q v o) w.0 ≡ some w.1) ws
  get-put_first q v o [] a h = h
  get-put_first q v o ((r, w) ∷ ws) a h =
      let (b, _, rest) = is_apart_all q r w ws a in
      (get-put-apart q r v o b ∙ h.0, get-put_first q v o ws rest h.1)

  -- Whatever is set at paths that do not meet is read there.
  pub get-puts :
      (ws : List (Segments × V)) (o : O)
      → are_apart ws ≡ true
      → All (λ w. CanSet p o w.0) ws
      → All (λ w. p.get (puts ws o) w.0 ≡ some w.1) ws
  get-puts [] o a c = tt
  get-puts ((q, v) ∷ ws) o a c =
      let b : is_apart q ws ≡ true = ground (arith, a) in
      (
        get-put q v (puts ws o) (CanSet-puts q ws o b c.0),
        get-put_first q v (puts ws o) ws b (get-puts ws o (ground (arith, a)) c.1),
      )

  pub pointer_at-get :
      {T : Type 0} (c : Codec p.null T) (q : Segments) (o : O) (x : Option T)
      → PointerSurvives c x
      → p.get o q ≡ some (pointer p c x)
      → pointer_at p c q o ≡ some (or_zero c x)
  unfolding pointer_at value_into decoded pointer ok_only
  pointer_at-get c q o none s e = ap (λ m. ok_only (decoded p c m)) e ∙ ap ok_only c.decode-null
  pointer_at-get c q o (some t) s e = ap (λ m. ok_only (decoded p c m)) e ∙ ap ok_only s

  pub value_at-get :
      {T : Type 0} (c : Codec p.null T) (q : Segments) (o : O) (t : T)
      → Survives c t
      → p.get o q ≡ some (c.encode t)
      → value_at p c q o ≡ t
  unfolding value_at value_into decoded
  value_at-get c q o t s e = ap (λ m. (decoded p c m).0) e ∙ ap (λ r. r.0) s

  pub text_at-get :
      (q : Segments) (o : O) (s : Option Text)
      → p.get o q ≡ some (text_pointer p s)
      → text_at p q o ≡ s
  unfolding text_at text_of text_pointer
  text_at-get q o none e = ap (text_of p) e ∙ p.string-null
  text_at-get q o (some s) e = ap (text_of p) e ∙ p.string-text s

  module _ {T : Type 0} (c : Codec p.null T) (q : Segments) (o : O) (w : CanSet p o q) where
    pub value_into-put_value :
        (t : T) → Survives c t → value_into p c q (put_value p c q t o) ≡ (t, true)
    unfolding value_into decoded put_value
    value_into-put_value t s = ap (decoded p c) (get-put q (c.encode t) o w) ∙ s

    pub value_at-put_value : (t : T) → Survives c t → value_at p c q (put_value p c q t o) ≡ t
    unfolding value_at
    value_at-put_value t s = ap (λ r. r.0) (value_into-put_value t s)

    pub pointer_at-put_pointer :
        (x : Option T)
        → PointerSurvives c x
        → pointer_at p c q (put_pointer p c q x o) ≡ some (or_zero c x)
    unfolding pointer_at value_into decoded put_pointer pointer ok_only
    pointer_at-put_pointer none s =
        ap (λ m. ok_only (decoded p c m)) (get-put q p.null o w) ∙ ap ok_only c.decode-null
    pointer_at-put_pointer (some t) s =
        ap (λ m. ok_only (decoded p c m)) (get-put q (c.encode t) o w) ∙ ap ok_only s

  pub text_at-put_text :
      (q : Segments) (o : O) → CanSet p o q → (s : Option Text) → text_at p q (put_text p q s o) ≡ s
  unfolding text_at text_of put_text text_pointer
  text_at-put_text q o w none = ap (text_of p) (get-put q p.null o w) ∙ p.string-null
  text_at-put_text q o w (some s) = ap (text_of p) (get-put q (p.text s) o w) ∙ p.string-text s
