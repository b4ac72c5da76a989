-- ===== src/Denylist/Sets.antt =====
-- libs/holon_common/auth.py: Python sets of texts, of which only membership is read.
use holon.Prelude.{◌≡◌, Bool, false, not, ◌&&◌, ◌||◌, List, [], ◌∷◌, filter, arith, if◌then◌else◌}
use holon.Prelude.Text.{Text, text_eq, text_eq_iff}

unfoldable pub contains : Text → List Text → Bool
contains x [] = false
contains x (y ∷ s) = text_eq y x || contains x s

unfoldable pub add : Text → List Text → List Text
unfolding contains
add x s = if contains x s then s else x ∷ s

unfoldable pub discard : Text → List Text → List Text
discard x = filter (λ y. not (text_eq y x))

-- `s.update(x for x in xs if x)`
unfoldable pub update : List Text → List Text → List Text
unfolding add
update [] s = s
update ([] ∷ xs) s = update xs s
update ((c ∷ x) ∷ xs) s = update xs (add (c ∷ x) s)

pub contains-add :
    (x y : Text) (s : List Text) → contains x (add y s) ≡ (text_eq y x || contains x s)
unfolding add
contains-add x y s = ground (arith, text_eq_iff y x)

pub contains-discard :
    (x y : Text) (s : List Text)
    → contains x (discard y s) ≡ (if text_eq y x then false else contains x s)
unfolding contains discard filter
contains-discard x y [] = ground arith
contains-discard x y (z ∷ s) =
    ground (arith, text_eq_iff y x, text_eq_iff z x, text_eq_iff z y, contains-discard x y s)

pub contains-update :
    (x : Text) (xs s : List Text)
    → contains x (update xs s) ≡ ((not (text_eq [] x) && contains x xs) || contains x s)
unfolding update
contains-update x [] s = unfold contains in ground arith
contains-update x ([] ∷ xs) s =
    rw (contains-update x xs s) (unfold contains in ground (arith, text_eq_iff [] x))
contains-update x ((c ∷ y) ∷ xs) s =
    rw (contains-update x xs (add (c ∷ y) s), contains-add x (c ∷ y) s)
      (unfold contains in ground (arith, text_eq_iff [] x, text_eq_iff (c ∷ y) x))
