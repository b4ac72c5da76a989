-- ===== src/Prelude/Strip.antt =====
-- `str.strip`: to strip again changes nothing.
use holon.Prelude.{
  ℕ, ◌≡◌, refl, sym, ap, ◌∙◌, Bool, false, if◌then◌else◌, Bool-cases, [], ◌∷◌, ◌⊎◌, inl, inr,
}
use holon.Prelude.Text.{is_space, lstrip, rstrip_where, strip, Text}

-- What `rstrip` puts before what is left of the rest
abbrev before_rest : Bool → ℕ → Text → Text
before_rest drop c [] = if drop then [] else c ∷ []
before_rest drop c (d ∷ s) = c ∷ d ∷ s

module _ (test : ℕ → Bool) where
  rstrip_before_rest :
      (c : ℕ) (s : Text)
      → rstrip_where test s ≡ s
      → rstrip_where test (before_rest (test c) c s) ≡ before_rest (test c) c s
  unfolding rstrip_where
  rstrip_before_rest c [] h = elim (Bool-cases (test c)) [
    | inl dropped ↦ rw dropped refl
    | inr kept ↦ rw kept (rw kept refl)
  ]
  rstrip_before_rest c (d ∷ s) h = ap (before_rest (test c) c) h

  rstrip_where-rstrip_where :
      (s : Text) → rstrip_where test (rstrip_where test s) ≡ rstrip_where test s
  unfolding rstrip_where
  rstrip_where-rstrip_where [] = refl
  rstrip_where-rstrip_where (c ∷ s) =
      rstrip_before_rest c (rstrip_where test s) (rstrip_where-rstrip_where s)

  before_rest-first :
      (c : ℕ) (s : Text) → test c ≡ false → (t : Text) × (before_rest (test c) c s ≡ c ∷ t)
  before_rest-first c [] h = ([], rw h refl)
  before_rest-first c (d ∷ s) h = (d ∷ s, refl)

lstrip-first :
    (s : Text)
    → (lstrip s ≡ []) ⊎ ((c : ℕ) × (t : Text) × (lstrip s ≡ c ∷ t) × (is_space c ≡ false))
unfolding lstrip
lstrip-first [] = inl refl
lstrip-first (c ∷ s) = elim (Bool-cases (is_space c)) [
  | inl space ↦ rw space (lstrip-first s)
  | inr other ↦ inr (c, s, rw other refl, other)
]

lstrip-kept : (c : ℕ) (t : Text) → is_space c ≡ false → lstrip (c ∷ t) ≡ c ∷ t
unfolding lstrip
lstrip-kept c t h = rw h refl

pub strip-strip : (s : Text) → strip (strip s) ≡ strip s
unfolding strip rstrip_where lstrip
strip-strip s = elim (lstrip-first s) [
  | inl blank ↦
      ap (λ l. rstrip_where is_space (lstrip (rstrip_where is_space l))) blank
      ∙ sym (ap (rstrip_where is_space) blank)
  | inr (c, t, e, other) ↦
      let (u, first) = before_rest-first is_space c (rstrip_where is_space t) other in
      let kept : rstrip_where is_space (lstrip s) ≡ c ∷ u =
        (ap (rstrip_where is_space) e ∙ first) in
      ap (λ l. rstrip_where is_space (lstrip l)) kept
      ∙ ap (rstrip_where is_space) (lstrip-kept c u other ∙ sym kept)
      ∙ rstrip_where-rstrip_where is_space (lstrip s)
]
