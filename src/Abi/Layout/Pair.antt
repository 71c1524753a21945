-- ===== src/Abi/Layout/Pair.antt =====
-- A pair of structs, one behind the other, as rustc lays out the pair that CREATE is answered with.
use fuse_rs.Base.{◌≡◌, refl, ap, ap₂, ◌∙◌, List, [], ◌∷◌, ◌++◌}
use fuse_rs.Abi.Layout.{Scalar, Fields, AreValues, Struct}

abbrev pub join : (l m : List Scalar) → Fields l → Fields m → Fields (l ++ m)
join [] m f g = g
join (s ∷ l) m f g = (f.0, join l m f.1 g)

abbrev pub split : (l m : List Scalar) → Fields (l ++ m) → Fields l × Fields m
split [] m h = (tt, h)
split (s ∷ l) m h = let r = split l m h.1 in ((h.0, r.0), r.1)

pub split-join :
    (l m : List Scalar) (f : Fields l) (g : Fields m) → split l m (join l m f g) ≡ (f, g)
split-join [] m f g = refl
split-join (s ∷ l) m f g = ap (λ r. ((f.0, r.0), r.1)) (split-join l m f.1 g)

pub join-split :
    (l m : List Scalar) (h : Fields (l ++ m)) → join l m (split l m h).0 (split l m h).1 ≡ h
join-split [] m h = refl
join-split (s ∷ l) m h = ap (λ r. (h.0, r)) (join-split l m h.1)

pub AreValues-join :
    (l m : List Scalar) (f : Fields l) (g : Fields m)
    → AreValues l f
    → AreValues m g
    → AreValues (l ++ m) (join l m f g)
AreValues-join [] m f g hf hg = hg
AreValues-join (s ∷ l) m f g hf hg = (hf.0, AreValues-join l m f.1 g hf.1 hg)

module _ (A B : Type 0) ⦃a : Struct A⦄ ⦃b : Struct B⦄ where
  unfoldable pub pair_of_fields : Fields (a.layout ++ b.layout) → A × B
  pair_of_fields h = let r = split a.layout b.layout h in (a.of_fields r.0, b.of_fields r.1)

  unfoldable pub pair_to_fields : A × B → Fields (a.layout ++ b.layout)
  pair_to_fields p = join a.layout b.layout (a.to_fields p.0) (b.to_fields p.1)

  pub of_fields-to_fields : (p : A × B) → pair_of_fields (pair_to_fields p) ≡ p
  unfolding pair_of_fields pair_to_fields
  of_fields-to_fields p =
      ap (λ r. (a.of_fields r.0, b.of_fields r.1))
        (split-join a.layout b.layout (a.to_fields p.0) (b.to_fields p.1))
      ∙ ap₂ (λ x y. (x, y)) (a.of_fields-to_fields p.0) (b.of_fields-to_fields p.1)

  pub to_fields-of_fields :
      (h : Fields (a.layout ++ b.layout)) → pair_to_fields (pair_of_fields h) ≡ h
  unfolding pair_of_fields pair_to_fields
  to_fields-of_fields h =
      let r = split a.layout b.layout h in
      ap₂ (join a.layout b.layout) (a.to_fields-of_fields r.0) (b.to_fields-of_fields r.1)
      ∙ join-split a.layout b.layout h

instance abbrev pub pair_struct : {A B : Type 0} ⦃a : Struct A⦄ ⦃b : Struct B⦄ → Struct (A × B)
pair_struct {A} {B} ⦃a⦄ ⦃b⦄ = record {
  layout = a.layout ++ b.layout;
  to_fields = pair_to_fields A B;
  of_fields = pair_of_fields A B;
  of_fields-to_fields = of_fields-to_fields A B;
  to_fields-of_fields = to_fields-of_fields A B;
}
