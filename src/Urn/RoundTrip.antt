-- ===== src/Urn/RoundTrip.antt =====
-- libs/holon_common/urn.py: `parse` reads back what `build` writes.
use holon.Prelude.{
  ℕ, ◌≡◌, refl, ◌≢◌, Bool, true, false, Option, none, some, [], ◌∷◌, ◌++◌, arith, All, ◌∙◌, ap,
  append_assoc,
}
use holon.Prelude.Text.{Text, codes}
use holon.Urn.Decimal.{decimal, is_digit, read_decimal-decimal, decimal-digits}
use holon.Urn.{
  Urn, colon, at_sign, newline, unversioned, str, build, lower_start, lower_char, mixed_start,
  mixed_char, segment, part, chomp, before_at, after_at, id_and_version, strip, parse,
}

abbrev pub IsSegment : (ℕ → Bool) → (ℕ → Bool) → Text → Type 0
IsSegment start char [] = ⊥
IsSegment start char (c ∷ s) = (start c ≡ true) × All (λ d. char d ≡ true) (c ∷ s)

abbrev pub IsId : Text → Type 0
IsId [] = ⊥
IsId (c ∷ s) = All (λ d. (d ≢ at_sign) × (d ≢ newline)) (c ∷ s)

-- The parts that the scheme allows, with no newline in the id.
pub record IsValid (u : Urn) : Type 0 where
  pub tenant : IsSegment lower_start lower_char u.tenant
  pub workspace : IsSegment lower_start lower_char u.workspace
  pub kind : IsSegment mixed_start mixed_char u.kind
  pub id : IsId u.id

segment-append :
    (char : ℕ → Bool) (w rest : Text)
    → char colon ≡ false
    → All (λ d. char d ≡ true) w
    → segment char (w ++ colon ∷ rest) ≡ some (w, rest)
unfolding segment
segment-append char [] rest e h = refl
segment-append char (c ∷ w) rest e h = ground (arith, e, h.0, segment-append char w rest e h.1)

part-append :
    (start char : ℕ → Bool) (w rest : Text)
    → char colon ≡ false
    → IsSegment start char w
    → part start char (w ++ colon ∷ rest) ≡ some (w, rest)
unfolding part
part-append start char [] rest e h = absurd h
part-append start char (c ∷ w) rest e h =
    ground (arith, h.0, segment-append char (c ∷ w) rest e h.1)

chomp-id : (s : Text) → All (λ d. d ≢ newline) s → chomp s ≡ s
unfolding chomp
chomp-id [] h = refl
chomp-id (c ∷ []) h = ground (arith, h.0)
chomp-id (c ∷ d ∷ s) h = ground (arith, chomp-id (d ∷ s) h.1)

before_at-append :
    (s v : Text)
    → All (λ d. (d ≢ at_sign) × (d ≢ newline)) s
    → (before_at (s ++ at_sign ∷ v) ≡ s) × (after_at (s ++ at_sign ∷ v) ≡ some v)
unfolding before_at after_at
before_at-append [] v h = (refl, refl)
before_at-append (c ∷ s) v h = ground (arith, h.0.0, before_at-append s v h.1)

before_at-id :
    (s : Text)
    → All (λ d. (d ≢ at_sign) × (d ≢ newline)) s
    → (before_at s ≡ s) × (after_at s ≡ none)
unfolding before_at after_at
before_at-id [] h = (refl, refl)
before_at-id (c ∷ s) h = ground (arith, h.0.0, before_at-id s h.1)

no_newline : (s : Text) → All (λ d. (d ≢ at_sign) × (d ≢ newline)) s → All (λ d. d ≢ newline) s
no_newline [] h = tt
no_newline (c ∷ s) h = (h.0.1, no_newline s h.1)

digits_no_newline : (s : Text) → All (λ d. is_digit d ≡ true) s → All (λ d. d ≢ newline) s
digits_no_newline [] h = tt
digits_no_newline (c ∷ s) h = (ground (arith, h.0), digits_no_newline s h.1)

-- The end of a URN, behind its type.
abbrev ending : Text → Option ℕ → Text
ending id none = id
ending id (some v) = id ++ at_sign ∷ decimal v

id_and_version-ending :
    (id : Text) (version : Option ℕ)
    → IsId id
    → id_and_version (before_at (ending id version)) (after_at (ending id version))
      ≡ some (id, version)
unfolding id_and_version
id_and_version-ending [] version h = absurd h
id_and_version-ending (c ∷ s) none h =
    rw ((before_at-id (c ∷ s) h).0, (before_at-id (c ∷ s) h).1)
      (rw (chomp-id s (no_newline s h.1)) refl)
id_and_version-ending (c ∷ s) (some v) h =
    rw ((before_at-append (c ∷ s) (decimal v) h).0, (before_at-append (c ∷ s) (decimal v) h).1)
      (ground (
        arith,
        chomp-id (decimal v) (digits_no_newline (decimal v) (decimal-digits v)),
        read_decimal-decimal v,
      ))

build-ending :
    (tenant workspace kind id : Text) (version : Option ℕ)
    → build tenant workspace kind id version
      ≡ codes "hl:"
        ++ (tenant ++ colon ∷ (workspace ++ colon ∷ (kind ++ colon ∷ ending id version)))
unfolding build str unversioned
build-ending tenant workspace kind id none = simp append_assoc
build-ending tenant workspace kind id (some v) = simp append_assoc

strip-codes : (r : Text) → strip (codes "hl:") (codes "hl:" ++ r) ≡ some r
unfolding strip
strip-codes r = refl

parse-parts :
    (urn r1 r2 r3 r4 : Text) (u : Urn)
    → strip (codes "hl:") urn ≡ some r1
    → part lower_start lower_char r1 ≡ some (u.tenant, r2)
    → part lower_start lower_char r2 ≡ some (u.workspace, r3)
    → part mixed_start mixed_char r3 ≡ some (u.kind, r4)
    → id_and_version (before_at r4) (after_at r4) ≡ some (u.id, u.version)
    → parse urn ≡ some u
unfolding parse
parse-parts urn r1 r2 r3 r4 u e1 e2 e3 e4 e5 = rw e1 (rw e2 (rw e3 (rw e4 (rw e5 refl))))

-- `parse` reads back what `build` writes, with and without a version, if the parts are what the
-- scheme allows and no newline stands in the id.
pub parse-build :
    (u : Urn) → IsValid u → parse (build u.tenant u.workspace u.kind u.id u.version) ≡ some u
unfolding build
parse-build u v =
    let id_text = ending u.id u.version in
    let kind_text = u.kind ++ colon ∷ id_text in
    let workspace_text = u.workspace ++ colon ∷ kind_text in
    let rest = u.tenant ++ colon ∷ workspace_text in
    parse-parts (str u) rest workspace_text kind_text id_text u
      (ap (strip (codes "hl:")) (build-ending u.tenant u.workspace u.kind u.id u.version)
        ∙ strip-codes rest)
      (part-append lower_start lower_char u.tenant workspace_text refl v.tenant)
      (part-append lower_start lower_char u.workspace kind_text refl v.workspace)
      (part-append mixed_start mixed_char u.kind id_text refl v.kind)
      (id_and_version-ending u.id u.version v.id)
