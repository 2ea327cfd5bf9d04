-- ===== src/Explain/Laws.antt =====
-- The grid of an explanation, and the class of an image.
use kubefrog_kvmserver.Prelude.{
  ℕ, zero, suc, ◌+◌, ◌-◌, ◌*◌, ◌≡◌, ◌≢◌, ◌≤◌, ◌<◌, ◌⊎◌, inl, inr, refl, ◌∙◌, Bool, true, false,
  List, [], ◌∷◌, ◌++◌, length, all, arith, ◌==◌, nat_eq, if◌then◌else◌, Bool-cases,
}
use kubefrog_kvmserver.Python.Errors.{ok}
use kubefrog_kvmserver.Python.Json.{Json}
use kubefrog_kvmserver.Explain.{Cell, off, shown, draw, rows, plot, last_nonzero, actual_label}

-- Each label with its mask, in order.
abbrev pub shown_all : List Json → List Json → List Cell
shown_all (label ∷ labels) (mask ∷ masks) = shown mask label ∷ shown_all labels masks
shown_all _ _ = []

abbrev pub blanks : ℕ → List Cell
blanks zero = []
blanks (suc n) = off ∷ blanks n

draw-blanks : (n : ℕ) (masks : List Json) → draw n [] masks ≡ ok (blanks n)
draw-blanks zero masks = refl
draw-blanks (suc n) masks = rw (draw-blanks n masks) refl

draw-shown_all :
    (axes empty : ℕ) (labels masks : List Json)
    → length labels ≤ length masks
    → axes ≡ length labels + empty
    → draw axes labels masks ≡ ok (shown_all labels masks ++ blanks empty)
draw-shown_all axes empty [] masks enough e =
    let same : axes ≡ empty = omega arith in rw same (draw-blanks empty masks)
draw-shown_all (suc axes) empty (label ∷ labels) (mask ∷ masks) enough e =
    rw (draw-shown_all axes empty labels masks (omega arith) (omega arith)) refl
draw-shown_all zero empty (label ∷ labels) masks enough e = absurd (omega arith)
draw-shown_all (suc axes) empty (label ∷ labels) [] enough e = absurd (omega arith)

-- Every label of an answer with a mask for each label, and with a label at all, is drawn once, in
-- order, and fewer than five places of the grid stay empty, at its end.
pub plot-shown_all :
    (labels masks : List Json)
    → labels ≢ []
    → length labels ≤ length masks
    → (empty : ℕ) × (empty < 5) × (plot labels masks ≡ ok (shown_all labels masks ++ blanks empty))
unfolding plot
plot-shown_all [] masks some_label enough = absurd (some_label refl)
plot-shown_all (label ∷ labels) masks some_label enough =
    let no_rows : (rows (suc (length labels)) == 0) ≡ false = ground arith in
    (
      rows (suc (length labels)) * 5 - suc (length labels),
      omega arith,
      rw no_rows (draw-shown_all _ _ (label ∷ labels) masks enough (omega arith)),
    )

module _ {ℓ} {A : Type ℓ} (is_zero : A → Bool) where
  -- Not zero at this place, and zero at every later one.
  abbrev pub LastAt : ℕ → List A → Type 0
  LastAt n [] = ⊥
  LastAt zero (l ∷ labels) = (is_zero l ≡ false) × (all is_zero labels ≡ true)
  LastAt (suc n) (l ∷ labels) = LastAt n labels

  last_nonzero-LastAt :
      (x actual : ℕ) (labels : List A)
      → (all is_zero labels ≡ true) × (last_nonzero is_zero x actual labels ≡ actual)
        ⊎ ((k : ℕ) × LastAt k labels × (last_nonzero is_zero x actual labels ≡ x + k))
  last_nonzero-LastAt x actual [] = inl (refl, refl)
  last_nonzero-LastAt x actual (l ∷ labels) =
      elim (last_nonzero-LastAt (suc x) (if is_zero l then actual else x) labels) [
        | inr (k, last, e) ↦ inr (suc k, last, e ∙ omega arith)
        | inl (zeros, e) ↦ elim (Bool-cases (is_zero l)) [
          | inl z ↦ inl (rw z zeros, e ∙ rw z refl)
          | inr nz ↦ inr (0, (nz, zeros), e ∙ rw nz (omega arith))
        ]
      ]

  -- The class of an image is the place of the last label that is not zero, the first label aside, or
  -- zero if there is none.
  actual_label-LastAt :
      (first : A) (labels : List A)
      → (all is_zero labels ≡ true) × (actual_label is_zero (first ∷ labels) ≡ 0)
        ⊎ ((k : ℕ) × LastAt k labels × (actual_label is_zero (first ∷ labels) ≡ 1 + k))
  actual_label-LastAt first labels = last_nonzero-LastAt 1 0 labels
