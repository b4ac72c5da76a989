-- ===== src/SqlIdent/Examples.antt =====
-- A name of two parts, quoted for SQL Server.
use holon.Prelude.{◌≡◌, refl, some, [], ◌∷◌}
use holon.Prelude.Text.{codes}
use holon.SqlIdent.{
  dialect_of, mssql, quote_identifier, is_identifier, name_parts, render, join_quoted,
}
use holon.SqlIdent.Quoted.{read_part, read_part-quote_identifier}

read_part-quote_identifier_example :
    read_part 91 93 (codes "[a].[b]") ≡ some (codes "a" ∷ codes "b" ∷ [])
unfolding dialect_of quote_identifier is_identifier name_parts render join_quoted
read_part-quote_identifier_example =
    read_part-quote_identifier (codes "a.b") (codes "MSSQL") (codes "[a].[b]") mssql 91 93 refl refl
      refl
