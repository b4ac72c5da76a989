-- ===== src/Paging/Examples.antt =====
-- Three ids in pages of two.
use holon.Prelude.{◌≡◌, refl, none, some, List, [], ◌∷◌, arith}
use holon.Prelude.Text.{Text, codes}
use holon.Urn.Decimal.{read_decimal}
use holon.Paging.{sort_key, sorted, clamp_page_size}
use holon.Paging.Keys.{AllDistinct}
use holon.Paging.Walk.{walk, walk-sorted}

abbrev id_of : Text → Text
id_of t = t

abbrev ids : List Text
ids = codes "10" ∷ codes "b" ∷ codes "9" ∷ []

ids-AllDistinct : AllDistinct id_of ids
unfolding sort_key read_decimal
ids-AllDistinct = (
  ((λ e. absurd (cc)), ((λ e. absurd (ground (arith, e))), tt)),
  (((λ e. absurd (cc)), tt), (tt, tt)),
)

walk-sorted_example : walk id_of 4 ids (some 2) none ≡ some (sorted id_of ids)
unfolding clamp_page_size
walk-sorted_example = walk-sorted id_of ids (some 2) 2 refl ids-AllDistinct
