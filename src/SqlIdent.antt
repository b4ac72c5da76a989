-- ===== src/SqlIdent.antt =====
-- libs/holon_common/sql_ident.py: `require_identifier` and `quote_identifier`.
pub mod Quoted
mod Examples
use holon.Prelude.{
  ℕ, ◌+◌, Bool, true, false, not, ◌&&◌, ◌||◌, Option, none, some, List, [], ◌∷◌, ◌++◌, map, length,
  leb, ◌==◌, if◌then◌else◌,
}
use holon.Prelude.Text.{Text, text_eq, codes}

abbrev dot : ℕ
dot = 46

-- `name.split(".")`: the first part, and the others
unfoldable pub name_parts : Text → Text × List Text
name_parts [] = ([], [])
name_parts (c ∷ s) =
    let (part, parts) = name_parts s in if c == dot then ([], part ∷ parts) else (c ∷ part, parts)

abbrev is_start : ℕ → Bool
is_start c = (leb 65 c && leb c 90) || ((leb 97 c && leb c 122) || (c == 95))

abbrev pub is_char : ℕ → Bool
is_char c = is_start c || (leb 48 c && leb c 57)

abbrev pub all_chars : Text → Bool
all_chars [] = true
all_chars (c ∷ s) = is_char c && all_chars s

-- `[A-Za-z_][A-Za-z0-9_]*`
abbrev pub is_part : Text → Bool
is_part [] = false
is_part (c ∷ s) = is_start c && all_chars s

abbrev pub all_parts : List Text → Bool
all_parts [] = true
all_parts (p ∷ ps) = is_part p && all_parts ps

-- `IDENTIFIER_RE.fullmatch(name)`: one to three parts
unfoldable pub is_identifier : Text → Bool
is_identifier name =
    let (part, parts) = name_parts name in is_part part && (all_parts parts && leb (length parts) 2)

-- `require_identifier`, where `none` is the ValueError
unfoldable pub require_identifier : Text → Option Text
require_identifier name = if is_identifier name then some name else none

-- `str.lower`, on the ASCII letters
abbrev lower : Text → Text
lower [] = []
lower (c ∷ s) = (if leb 65 c && leb c 90 then c + 32 else c) ∷ lower s

abbrev or_postgres : Text → Text
or_postgres [] = codes "postgres"
or_postgres (c ∷ s) = lower (c ∷ s)

pub data Dialect : Type 0 where
  postgres mysql mssql snowflake : Dialect

-- `(dialect or "postgres").lower()`, if it is one of `_VALID_QUOTE_DIALECTS`
unfoldable pub dialect_of : Text → Option Dialect
dialect_of dialect =
    let d = or_postgres dialect in
    if text_eq d (codes "postgres")
    then some postgres
    else if text_eq d (codes "mysql")
    then some mysql
    else if text_eq d (codes "mssql")
    then some mssql
    else if text_eq d (codes "snowflake")
    then some snowflake
    else none

unfoldable pub quote_part : ℕ → ℕ → Text → Text
quote_part open_ close p = open_ ∷ p ++ close ∷ []

-- `".".join(… for part in parts)`
unfoldable pub join_quoted : ℕ → ℕ → Text → List Text → Text
unfolding quote_part
join_quoted open_ close p [] = quote_part open_ close p
join_quoted open_ close p (q ∷ ps) = quote_part open_ close p ++ dot ∷ join_quoted open_ close q ps

abbrev pub quoted_with : ℕ → ℕ → Text → Text
quoted_with open_ close name = let (p, ps) = name_parts name in join_quoted open_ close p ps

unfoldable pub render : Dialect → Text → Text
render postgres name = quoted_with 34 34 name
render mysql name = quoted_with 96 96 name
render mssql name = quoted_with 91 93 name
render snowflake name = name

-- `quote_identifier`, where `none` is a ValueError
unfoldable pub quote_identifier : Text → Text → Option Text
quote_identifier name dialect =
    if is_identifier name
    then (elim (dialect_of dialect) [ none ↦ none | some d ↦ some (render d name) ])
    else none
