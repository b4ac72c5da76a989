-- ===== src/ConnectorSafety.antt =====
-- libs/holon_common/connector_safety.py: what a guard gives, and the parts of texts that guards look at.
pub mod EnvRefs
pub mod Refs
pub mod Topics
pub mod Prefixes
pub mod EnvIsolation
pub mod Isolation
pub mod Hosts
pub mod Pinned
mod Examples
use holon.Prelude.{
  is_some, ℕ, Bool, true, false, not, ◌&&◌, ◌||◌, Option, none, some, List, [], ◌∷◌, ◌++◌, any, ◌+◌,
  ◌-◌, leb, ◌==◌, if◌then◌else◌,
}
use holon.Prelude.Text.{is_space, lstrip, rstrip_where, strip, split, Text, codes, text_eq}

-- The ConnectorSafetyErrors, by what they refuse
pub data SafetyError : Type 0 where
  no_tenant : SafetyError
  no_name : SafetyError
  tenant_unfit : SafetyError
  platform_secret : SafetyError
  not_tenant_scoped : SafetyError
  not_plain_key : SafetyError
  malformed : SafetyError
  unsupported_scheme : SafetyError
  reserved_topic : SafetyError
  host_required : SafetyError
  host_not_allowed : SafetyError
  host_unresolved : SafetyError
  blocked_address : SafetyError
  answer_changed : SafetyError

-- A guard returns, or raises.
pub data Verdict : Type 0 where
  accepted : Verdict
  refused : SafetyError → Verdict

abbrev pub guard_then : Bool → SafetyError → Verdict → Verdict
guard_then true e v = v
guard_then false e v = refused e

-- `str.upper` and `str.lower`, on the ASCII letters
abbrev pub to_upper : ℕ → ℕ
to_upper c = if leb 97 c && leb c 122 then c - 32 else c

unfoldable pub upper : Text → Text
upper [] = []
upper (c ∷ s) = to_upper c ∷ upper s

abbrev pub to_lower : ℕ → ℕ
to_lower c = if leb 65 c && leb c 90 then c + 32 else c

unfoldable pub lower : Text → Text
lower [] = []
lower (c ∷ s) = to_lower c ∷ lower s

-- The rest of the text after a prefix
unfoldable pub after_prefix : Text → Text → Option Text
after_prefix [] s = some s
after_prefix (p ∷ pre) [] = none
after_prefix (p ∷ pre) (c ∷ s) = if p == c then after_prefix pre s else none

abbrev pub starts_with : Text → Text → Bool
starts_with pre s = is_some (after_prefix pre s)

-- `s.partition(c)`: before the first c, and after it if there is one
unfoldable pub partition : ℕ → Text → Text × Option Text
partition c [] = ([], none)
partition c (d ∷ s) =
    let (before, after) = partition c s in if d == c then ([], some s) else (d ∷ before, after)

abbrev pub has_char : ℕ → Text → Bool
has_char c s = any (λ d. d == c) s
