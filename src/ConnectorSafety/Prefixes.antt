-- ===== src/ConnectorSafety/Prefixes.antt =====
-- Prefixes of texts, as the guards of libs/holon_common/connector_safety.py use them.
use mathlib.Core.Path.{subst}
use holon.Prelude.{
  ℕ, ◌≡◌, refl, sym, ap, Bool, true, false, some, [], ◌∷◌, ◌++◌, ◌==◌, append_assoc, Bool-cases,
  inl, inr, arith,
}
use holon.Prelude.Text.{Text}
use holon.ConnectorSafety.{
  SafetyError, Verdict, accepted, guard_then, after_prefix, starts_with, has_char,
}

pub guard_then-accepted :
    (b : Bool) (e : SafetyError) (v : Verdict)
    → guard_then b e v ≡ accepted
    → (b ≡ true) × (v ≡ accepted)
guard_then-accepted true e v h = (refl, h)
guard_then-accepted false e v h = absurd (cc)

-- What follows a prefix, of a text with that prefix and more
pub after_prefix-append : (pre s : Text) → after_prefix pre (pre ++ s) ≡ some s
unfolding after_prefix
after_prefix-append [] s = refl
after_prefix-append (p ∷ pre) s = ground (arith, after_prefix-append pre s)

pub starts_with-append :
    (pre a s : Text)
    → starts_with (pre ++ a) s ≡ true
    → (rest : Text) × (after_prefix pre s ≡ some rest) × (starts_with a rest ≡ true)
unfolding after_prefix
starts_with-append [] a s h = (s, refl, h)
starts_with-append (p ∷ pre) a [] h = absurd (cc)
starts_with-append (p ∷ pre) a (c ∷ s) h = elim (Bool-cases (p == c)) [
  | inl same ↦ rw same (starts_with-append pre a s (rw same at h))
  | inr other ↦ absurd (cc (sym (rw other at h)))
]

pub starts_with-has_char :
    (c : ℕ) (t s : Text) → starts_with (t ++ (c ∷ [])) s ≡ true → has_char c s ≡ true
unfolding after_prefix
starts_with-has_char c [] [] h = absurd (cc)
starts_with-has_char c [] (d ∷ s) h = ground (arith, h)
starts_with-has_char c (a ∷ t) [] h = absurd (cc)
starts_with-has_char c (a ∷ t) (d ∷ s) h = ground (arith, h, starts_with-has_char c t s)

-- A text begins with one name and a separator at most, if names do not have the separator.
pub prefix_unique :
    (c : ℕ) (t u s : Text)
    → has_char c t ≡ false
    → has_char c u ≡ false
    → starts_with (t ++ (c ∷ [])) s ≡ true
    → starts_with (u ++ (c ∷ [])) s ≡ true
    → t ≡ u
unfolding after_prefix
prefix_unique c [] [] s ht hu kt ku = refl
prefix_unique c [] (b ∷ u) [] ht hu kt ku = absurd (cc)
prefix_unique c [] (b ∷ u) (d ∷ s) ht hu kt ku = absurd (ground (arith, hu, kt, ku))
prefix_unique c (a ∷ t) [] [] ht hu kt ku = absurd (cc)
prefix_unique c (a ∷ t) [] (d ∷ s) ht hu kt ku = absurd (ground (arith, ht, kt, ku))
prefix_unique c (a ∷ t) (b ∷ u) [] ht hu kt ku = absurd (cc)
prefix_unique c (a ∷ t) (b ∷ u) (d ∷ s) ht hu kt ku =
    ground (arith, ht, hu, kt, ku, prefix_unique c t u s)

-- The same after a text that both begin with
pub prefix_unique_after :
    (pre : Text) (c : ℕ) (t u s : Text)
    → has_char c t ≡ false
    → has_char c u ≡ false
    → starts_with (pre ++ t ++ (c ∷ [])) s ≡ true
    → starts_with (pre ++ u ++ (c ∷ [])) s ≡ true
    → t ≡ u
prefix_unique_after pre c t u s ht hu kt ku =
    let a =
      starts_with-append pre (t ++ (c ∷ [])) s
        (subst (λ q. starts_with q s ≡ true) (append_assoc pre t (c ∷ [])) kt) in
    let b =
      starts_with-append pre (u ++ (c ∷ [])) s
        (subst (λ q. starts_with q s ≡ true) (append_assoc pre u (c ∷ [])) ku) in
    let same : b.0 ≡ a.0 = cc (a.1, b.1) in
    prefix_unique c t u a.0 ht hu a.2 (subst (λ q. starts_with (u ++ (c ∷ [])) q ≡ true) same b.2)

-- Equal texts with a common start
pub append_cancel : (pre t u : Text) → pre ++ t ≡ pre ++ u → t ≡ u
append_cancel pre t u h =
    cc (after_prefix-append pre t, after_prefix-append pre u, ap (after_prefix pre) h)
