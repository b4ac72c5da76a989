-- ===== src/Actions/Json/Path.antt =====
-- declarative_criteria.py: what `_deep_set` writes, read back along a path.
use holon.Prelude.{◌≡◌, refl, ◌≢◌, Option, some, List, [], ◌∷◌, arith, if◌then◌else◌}
use holon.Prelude.Text.{Text, text_eq, text_eq_iff}
use holon.Actions.Json.{Value, object, Fields, empty, item, find, put, as_fields, deep_set}

pub find-put :
    (key other : Text) (value : Value) (fields : Fields)
    → find other (put key value fields)
      ≡ (if text_eq key other then some value else find other fields)
unfolding find put
find-put key other value empty = refl
find-put key other value (item k v fields) = ground (
  arith,
  text_eq_iff k key,
  text_eq_iff k other,
  text_eq_iff key other,
  find-put key other value fields,
)

-- The value along a path, by `get` on each dict.
abbrev pub deep_get : Text → List Text → Fields → Option Value
deep_get key [] fields = find key fields
deep_get key (next ∷ rest) fields = deep_get next rest (as_fields (find key fields))

-- `_deep_set` puts the value at the path, whatever the dicts on the way held, and leaves every
-- other top-level key of the dict as it was.
pub deep_get-deep_set :
    (key : Text) (rest : List Text) (value : Value) (fields : Fields)
    → (deep_get key rest (deep_set key rest value fields) ≡ some value)
      × ((other : Text)
          → other ≢ key
          → find other (deep_set key rest value fields) ≡ find other fields)
unfolding deep_set
deep_get-deep_set key [] value fields = (
  ground (arith, find-put key key value fields, text_eq_iff key key),
  λ other d. ground (arith, find-put key other value fields, text_eq_iff key other),
)
deep_get-deep_set key (next ∷ rest) value fields =
    let inner = as_fields (find key fields) in
    let v : Value = object (deep_set next rest value inner) in
    (
      rw (find-put key key v fields, (text_eq_iff key key).1 refl)
          ((deep_get-deep_set next rest value inner).0),
      λ other d. ground (arith, find-put key other v fields, text_eq_iff key other),
    )
