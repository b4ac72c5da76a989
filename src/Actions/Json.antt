-- ===== src/Actions/Json.antt =====
-- services/knowledge/app/actions/declarative_criteria.py: `_deep_set`, and the JSON values that
-- parameters and properties hold. A dict is the list of its items in order of insertion.
pub mod Path
use holon.Prelude.{ℕ, Bool, true, false, Option, none, some, List, [], ◌∷◌, if◌then◌else◌}
use holon.Prelude.Text.{Text, text_eq}

mutual
  -- A number, a Boolean or an array is `scalar`, by its JSON text.
  pub data Value : Type 0 where
    null : Value
    text scalar : Text → Value
    object : Fields → Value

  pub data Fields : Type 0 where
    empty : Fields
    item : Text → Value → Fields → Fields

-- `fields.get(key)`, which tells a missing key apart
unfoldable pub find : Text → Fields → Option Value
find key empty = none
find key (item k v fields) = if text_eq k key then some v else find key fields

-- `fields[key] = value`
unfoldable pub put : Text → Value → Fields → Fields
put key value empty = item key value empty
put key value (item k v fields) =
    if text_eq k key then item k value fields else item k v (put key value fields)

-- `dict(v) if isinstance(v, dict) else {}`
abbrev pub as_fields : Option Value → Fields
as_fields none = empty
as_fields (some null) = empty
as_fields (some (text t)) = empty
as_fields (some (scalar t)) = empty
as_fields (some (object fields)) = fields

-- The path `key`, then `rest`: the code's path has at least one key.
unfoldable pub deep_set : Text → List Text → Value → Fields → Fields
deep_set key [] value fields = put key value fields
deep_set key (next ∷ rest) value fields =
    put key (object (deep_set next rest value (as_fields (find key fields)))) fields
