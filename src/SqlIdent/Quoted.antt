-- ===== src/SqlIdent/Quoted.antt =====
-- libs/holon_common/sql_ident.py: what a server reads in a quoted name.
use holon.Prelude.{
  ℕ, ◌≡◌, ◌≢◌, refl, sym, ap, ◌∙◌, true, false, Option, none, some, List, [], ◌∷◌, ◌++◌, arith,
  ◌==◌, ==_iff, if◌then◌else◌, Bool-cases, inl, inr, append_assoc, append-nil,
}
use holon.Prelude.Text.{Text}
use holon.SqlIdent.{
  dot, name_parts, is_char, all_chars, is_part, all_parts, is_identifier, Dialect, postgres, mysql,
  mssql, snowflake, dialect_of, join_quoted, quoted_with, render, quote_identifier,
}

-- The quotes of a dialect, if it has quotes.
abbrev pub quotes : Dialect → Option (ℕ × ℕ)
quotes postgres = some (34, 34)
quotes mysql = some (96, 96)
quotes mssql = some (91, 93)
quotes snowflake = none

-- How a server reads a quoted name: parts in quotes with dots between them, where a closing quote
-- twice in a row is a quote inside the part. `acc` is the part read so far.
unfoldable mutual
  pub read_part : ℕ → ℕ → Text → Option (List Text)
  read_part open_ close [] = none
  read_part open_ close (c ∷ s) =
      let rest = read_inside open_ close [] s in if c == open_ then rest else none

  pub read_inside : ℕ → ℕ → Text → Text → Option (List Text)
  read_inside open_ close acc [] = none
  read_inside open_ close acc (c ∷ s) =
      let more = read_inside open_ close (acc ++ c ∷ []) s in
      let over = read_behind open_ close acc s in if c == close then over else more

  pub read_behind : ℕ → ℕ → Text → Text → Option (List Text)
  read_behind open_ close acc [] = some (acc ∷ [])
  read_behind open_ close acc (c ∷ s) =
      let more = read_inside open_ close (acc ++ c ∷ []) s in
      let next = read_part open_ close s in
      if c == close
      then more
      else if c == dot
      then (elim next [ none ↦ none | some ps ↦ some (acc ∷ ps) ])
      else none

is_part-all_chars : (p : Text) → is_part p ≡ true → all_chars p ≡ true
is_part-all_chars [] h = absurd (cc)
is_part-all_chars (c ∷ s) h = ground (arith, h)

module _ (open_ close : ℕ) (outside : is_char close ≡ false) (not_dot : close ≢ dot) where
  read_inside-append :
      (acc p rest : Text)
      → all_chars p ≡ true
      → read_inside open_ close acc (p ++ close ∷ rest) ≡ read_behind open_ close (acc ++ p) rest
  unfolding read_inside
  read_inside-append acc [] rest h = rw ((==_iff close close).1 refl, append-nil acc) refl
  read_inside-append acc (c ∷ p) rest h =
      let differ : (c == close) ≡ false = ground (arith, h, outside, ==_iff c close) in
      let others : all_chars p ≡ true = ground (arith, h) in
      rw differ (
        read_inside-append (acc ++ c ∷ []) p rest others
        ∙ ap (λ a. read_behind open_ close a rest) (append_assoc acc (c ∷ []) p))

  behind-dot :
      (p s : Text) (ps : List Text)
      → read_part open_ close s ≡ some ps
      → read_behind open_ close p (dot ∷ s) ≡ some (p ∷ ps)
  unfolding read_behind
  behind-dot p s ps h =
      let differ : (dot == close) ≡ false = ground (arith, not_dot, ==_iff dot close) in
      rw (differ, h) refl

  read_part-join_quoted :
      (p : Text) (ps : List Text)
      → is_part p ≡ true
      → all_parts ps ≡ true
      → read_part open_ close (join_quoted open_ close p ps) ≡ some (p ∷ ps)
  unfolding read_part join_quoted
  read_part-join_quoted p [] h g =
      let inside = read_inside-append [] p [] (is_part-all_chars p h) in
      rw ((==_iff open_ open_).1 refl) inside
  read_part-join_quoted p (q ∷ ps) h g =
      let others = join_quoted open_ close q ps in
      let inside =
        ap (read_inside open_ close []) (append_assoc p (close ∷ []) (dot ∷ others))
        ∙ read_inside-append [] p (dot ∷ others) (is_part-all_chars p h) in
      rw ((==_iff open_ open_).1 refl) (
        inside
        ∙ behind-dot p others (q ∷ ps)
            (read_part-join_quoted q ps (ground (arith, g)) (ground (arith, g))))

quoted-read :
    (open_ close : ℕ) (outside : is_char close ≡ false) (not_dot : close ≢ dot) (name : Text)
    (o c : ℕ)
    → (o ≡ open_) × (c ≡ close)
    → is_identifier name ≡ true
    → read_part o c (quoted_with open_ close name)
      ≡ some ((name_parts name).0 ∷ (name_parts name).1)
unfolding is_identifier
quoted-read open_ close outside not_dot name o c e h =
    let (part, parts) = name_parts name in
    ap (λ a. read_part a c (quoted_with open_ close name)) e.0
    ∙ (ap (λ a. read_part open_ a (quoted_with open_ close name)) e.1
        ∙ read_part-join_quoted open_ close outside not_dot part parts (ground (arith, h))
            (ground (arith, h)))

render-read :
    (d : Dialect) (name : Text) (o c : ℕ)
    → quotes d ≡ some (o, c)
    → is_identifier name ≡ true
    → read_part o c (render d name) ≡ some ((name_parts name).0 ∷ (name_parts name).1)
unfolding render is_identifier
render-read snowflake name o c e h = absurd (cc)
render-read postgres name o c e h =
    quoted-read 34 34 refl (omega arith) name o c (ground (arith, e)) h
render-read mysql name o c e h = quoted-read 96 96 refl (omega arith) name o c (ground (arith, e)) h
render-read mssql name o c e h = quoted-read 91 93 refl (omega arith) name o c (ground (arith, e)) h

-- A server that reads a quoted name, closing quotes twice in a row included, finds in it exactly the
-- parts of the name that was given, so no name that `quote_identifier` accepts can end its quotes
-- early, in any dialect that quotes.
pub read_part-quote_identifier :
    (name dialect quoted : Text) (d : Dialect) (o c : ℕ)
    → dialect_of dialect ≡ some d
    → quotes d ≡ some (o, c)
    → quote_identifier name dialect ≡ some quoted
    → read_part o c quoted ≡ some ((name_parts name).0 ∷ (name_parts name).1)
unfolding quote_identifier
read_part-quote_identifier name dialect quoted d o c e q h =
    elim (Bool-cases (is_identifier name)) [
      | inr bad ↦ absurd (ground (arith, h, bad))
      | inl good ↦
          let same : render d name ≡ quoted = ground (arith, e, h, good) in
          ap (read_part o c) (sym same) ∙ render-read d name o c q good
    ]
