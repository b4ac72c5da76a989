-- ===== src/SpicedbId/Injective.antt =====
-- libs/holon_common/spicedb_id.py: no two URNs share an object id.
use holon.Prelude.{
  ℕ, ◌≡◌, ◌≢◌, refl, sym, ap, ◌∙◌, List, [], ◌∷◌, ◌++◌, All, All-append, arith, ◌==◌, if◌then◌else◌,
  Option, none, some,
}
use holon.Prelude.Text.{Text, codes, text_eq, text_eq_iff}
use holon.SpicedbId.{spicedb_object_id, lookup, insert, index_from, index_by_spicedb_object_id}

-- The code of one character, read off the documentation of the encoding.
abbrev escape : ℕ → Text
escape c =
    if c == b'_'
    then codes "__"
    else if c == b'.'
    then codes "_d"
    else if c == b':'
    then codes "_c"
    else c ∷ []

spicedb_object_id-cons :
    (c : ℕ) (s : Text) → spicedb_object_id (c ∷ s) ≡ escape c ++ spicedb_object_id s
unfolding spicedb_object_id
spicedb_object_id-cons c s = ground arith

abbrev unescape : ℕ → ℕ
unescape c = if c == b'd' then b'.' else if c == b'c' then b':' else c

decode : Text → Text
decode [] = []
decode (c ∷ []) = c ∷ []
decode (c ∷ d ∷ s) = if c == b'_' then unescape d ∷ decode s else c ∷ decode (d ∷ s)

decode-escape : (c : ℕ) (s : Text) → decode (escape c ++ s) ≡ c ∷ decode s
unfolding decode
decode-escape c [] = ground arith
decode-escape c (d ∷ s) = ground arith

decode-encode : (s : Text) → decode (spicedb_object_id s) ≡ s
decode-encode [] = unfold decode spicedb_object_id in refl
decode-encode (c ∷ s) = rw (spicedb_object_id-cons c s, decode-escape, decode-encode s)

-- Two URNs with one object id are one URN.
pub spicedb_object_id-injective : (s t : Text) → spicedb_object_id s ≡ spicedb_object_id t → s ≡ t
spicedb_object_id-injective s t h = sym (decode-encode s) ∙ ap decode h ∙ decode-encode t

abbrev pub IsAllowed : ℕ → Type 0
IsAllowed c = (c ≢ b':') × (c ≢ b'.')

escape-IsAllowed : (c : ℕ) → All IsAllowed (escape c)
escape-IsAllowed c = ground arith

-- An object id holds no ':' and no '.', whatever the URN.
pub spicedb_object_id-IsAllowed : (s : Text) → All IsAllowed (spicedb_object_id s)
spicedb_object_id-IsAllowed [] = unfold spicedb_object_id in tt
spicedb_object_id-IsAllowed (c ∷ s) = rw (spicedb_object_id-cons c s) (
    All-append IsAllowed (escape c) (spicedb_object_id s) (escape-IsAllowed c)
      (spicedb_object_id-IsAllowed s))

same_id : (s t : Text) → text_eq (spicedb_object_id s) (spicedb_object_id t) ≡ text_eq s t
same_id s t = ground (
  arith,
  text_eq_iff s t,
  text_eq_iff (spicedb_object_id s) (spicedb_object_id t),
  spicedb_object_id-injective s t,
)

module _ {ℓ} {V : Type ℓ} where
  lookup-insert :
      (k j : Text) (v : V) (d : List (Text × V))
      → lookup j (insert k v d) ≡ (if text_eq k j then some v else lookup j d)
  unfolding lookup insert
  lookup-insert k j v [] = refl
  lookup-insert k j v ((i, w) ∷ d) =
      ground (arith, text_eq_iff k j, text_eq_iff i k, text_eq_iff i j, lookup-insert k j v d)

  -- The last row whose URN is `urn`, or `other`.
  abbrev pub last_row : (V → Text) → Text → List V → Option V → Option V
  last_row urn_of urn [] other = other
  last_row urn_of urn (row ∷ rows) other =
      last_row urn_of urn rows (if text_eq (urn_of row) urn then some row else other)

  lookup-index_from :
      (urn_of : V → Text) (urn : Text) (index : List (Text × V)) (rows : List V)
      → lookup (spicedb_object_id urn) (index_from urn_of index rows)
        ≡ last_row urn_of urn rows (lookup (spicedb_object_id urn) index)
  unfolding index_from
  lookup-index_from urn_of urn index [] = refl
  lookup-index_from urn_of urn index (row ∷ rows) = rw (
    lookup-index_from urn_of urn (insert (spicedb_object_id (urn_of row)) row index) rows,
    lookup-insert (spicedb_object_id (urn_of row)) (spicedb_object_id urn) row index,
    same_id (urn_of row) urn,
  )

  -- The index answers the object id of a URN with the last row of that URN, and with nothing if no
  -- row has it: rows of other URNs never stand in the way.
  pub lookup-index_by_spicedb_object_id :
      (urn_of : V → Text) (urn : Text) (rows : List V)
      → lookup (spicedb_object_id urn) (index_by_spicedb_object_id urn_of rows)
        ≡ last_row urn_of urn rows none
  unfolding index_by_spicedb_object_id lookup
  lookup-index_by_spicedb_object_id urn_of urn rows = lookup-index_from urn_of urn [] rows
