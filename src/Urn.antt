-- ===== src/Urn.antt =====
-- libs/holon_common/urn.py: the URN of a resource, `build` and `parse`.
pub mod Decimal
pub mod RoundTrip
mod Examples
use holon.Prelude.{
  ℕ, Bool, true, false, not, ◌&&◌, ◌||◌, Option, none, some, List, [], ◌∷◌, ◌++◌, leb, ◌==◌,
  if◌then◌else◌,
}
use holon.Prelude.Text.{Text, codes}
use Decimal.{decimal, is_digit, read_decimal}

-- `class URN`
pub record Urn : Type 0 where
  pub tenant : Text
  pub workspace : Text
  pub kind : Text
  pub id : Text
  pub version : Option ℕ

abbrev colon : ℕ
colon = 58

abbrev at_sign : ℕ
at_sign = 64

abbrev newline : ℕ
newline = 10

-- `URN.unversioned`
unfoldable pub unversioned : Urn → Text
unversioned u = codes "hl:" ++ u.tenant ++ colon ∷ u.workspace ++ colon ∷ u.kind ++ colon ∷ u.id

-- `URN.__str__`
unfoldable pub str : Urn → Text
unfolding unversioned
str u = elim u.version [ none ↦ unversioned u | some v ↦ unversioned u ++ at_sign ∷ decimal v ]

unfoldable pub build : Text → Text → Text → Text → Option ℕ → Text
unfolding str
build tenant workspace kind id version =
    str (record { tenant = tenant; workspace = workspace; kind = kind; id = id; version = version })

-- The character classes of `_URN_RE`
abbrev is_lower : ℕ → Bool
is_lower c = leb 97 c && leb c 122

abbrev is_upper : ℕ → Bool
is_upper c = leb 65 c && leb c 90

abbrev pub lower_start : ℕ → Bool
lower_start c = is_lower c || is_digit c

abbrev pub mixed_start : ℕ → Bool
mixed_start c = lower_start c || is_upper c

abbrev hyphen : ℕ
hyphen = 45

abbrev lower_char : ℕ → Bool
lower_char c = lower_start c || (c == hyphen)

abbrev mixed_char : ℕ → Bool
mixed_char c = mixed_start c || (c == hyphen)

-- `start char*`, then a colon; the text after it
segment : (ℕ → Bool) → Text → Option (Text × Text)
segment char [] = none
segment char (c ∷ s) =
    if c == colon
    then some ([], s)
    else if char c
    then (elim (segment char s) [ none ↦ none | some (w, rest) ↦ some (c ∷ w, rest) ])
    else none

part : (ℕ → Bool) → (ℕ → Bool) → Text → Option (Text × Text)
unfolding segment
part start char [] = none
part start char (c ∷ s) = if start c then segment char (c ∷ s) else none

-- `$` also matches before a newline at the end.
chomp : Text → Text
chomp [] = []
chomp (c ∷ []) = if c == newline then [] else c ∷ []
chomp (c ∷ d ∷ s) = c ∷ chomp (d ∷ s)

before_at : Text → Text
before_at [] = []
before_at (c ∷ s) = if c == at_sign then [] else c ∷ before_at s

after_at : Text → Option Text
after_at [] = none
after_at (c ∷ s) = if c == at_sign then some s else after_at s

-- The end of the pattern, `[^@]+?` and the optional version: the id and the version
id_and_version : Text → Option Text → Option (Text × Option ℕ)
unfolding chomp
id_and_version [] v = none
id_and_version (c ∷ s) none = some (c ∷ chomp s, none)
id_and_version (c ∷ s) (some v) = elim (read_decimal (chomp v)) [
  | none ↦ none
  | some n ↦ some (c ∷ s, some n)
]

strip : Text → Text → Option Text
strip [] s = some s
strip (p ∷ prefix) [] = none
strip (p ∷ prefix) (c ∷ s) = if p == c then strip prefix s else none

infixl 5 ◌then◌
abbrev ◌then◌ {ℓ} : {A B : Type ℓ} → Option A → (A → Option B) → Option B
none then f = none
(some a) then f = f a

-- `parse`, where `none` is the InvalidURNError
unfoldable pub parse : Text → Option Urn
unfolding part before_at after_at id_and_version strip
parse urn = strip (codes "hl:") urn then λ r. part lower_start lower_char r then λ (tenant, r).
    part lower_start lower_char r then λ (workspace, r).
    part mixed_start mixed_char r then λ (kind, r).
    id_and_version (before_at r) (after_at r) then λ (id, version).
    some
      (record { tenant = tenant; workspace = workspace; kind = kind; id = id; version = version })
