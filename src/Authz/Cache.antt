-- ===== src/Authz/Cache.antt =====
-- libs/holon_common/authz.py: the decision cache, an OrderedDict with the oldest entry first, and
-- the values that stand in it.
pub mod Laws
use holon.Prelude.{
  ℕ, ◌+◌, ◌≡◌, ◌↔◌, refl, Bool, true, false, ◌&&◌, Option, none, some, String, List, [], ◌∷◌, ◌++◌,
  length, arith, str_eq, eq_iff, ltb, if◌then◌else◌,
}
use holon.Prelude.Text.{Text, text_eq, text_eq_iff}

-- The texts of `Decision.reason`, with what is written into them.
pub data Reason : Type 0 where
  rebac_denied : Text → String → Text → Reason
  mandant_denied : Text → Text → String → Text → Reason
  abac_denied : String → Text → Reason
  granted : Text → String → Text → Reason

pub record Decision : Type 0 where
  pub allowed : Bool
  pub reason : Reason

-- What `_cache_key` returns: everything that the decision depends on. The attributes are their
-- JSON text with sorted keys.
pub record Key : Type 0 where
  pub urn : Text
  pub on_behalf_of : Option Text
  pub country : Option String
  pub resource_type : String
  pub resource_urn : Text
  pub permission : String
  pub attributes : String

abbrev option_eq {ℓ} : {A : Type ℓ} → (A → A → Bool) → Option A → Option A → Bool
option_eq same none none = true
option_eq same none (some b) = false
option_eq same (some a) none = false
option_eq same (some a) (some b) = same a b

option_text_iff : (a b : Option Text) → (option_eq text_eq a b ≡ true) ↔ (a ≡ b)
option_text_iff none none = ground arith
option_text_iff none (some b) = ground arith
option_text_iff (some a) none = ground arith
option_text_iff (some a) (some b) = ground (arith, text_eq_iff a b)

option_string_iff : (a b : Option String) → (option_eq str_eq a b ≡ true) ↔ (a ≡ b)
option_string_iff none none = ground arith
option_string_iff none (some b) = ground arith
option_string_iff (some a) none = ground arith
option_string_iff (some a) (some b) = ground (arith, eq_iff a b)

unfoldable pub key_eq : Key → Key → Bool
key_eq j k =
    text_eq j.urn k.urn
    && (option_eq text_eq j.on_behalf_of k.on_behalf_of
        && (option_eq str_eq j.country k.country
            && (str_eq j.resource_type k.resource_type
                && (text_eq j.resource_urn k.resource_urn
                    && (str_eq j.permission k.permission && str_eq j.attributes k.attributes)))))

pub key_eq_iff : (j k : Key) → (key_eq j k ≡ true) ↔ (j ≡ k)
unfolding key_eq
key_eq_iff j k = ground (
  arith,
  text_eq_iff j.urn k.urn,
  option_text_iff j.on_behalf_of k.on_behalf_of,
  option_string_iff j.country k.country,
  eq_iff j.resource_type k.resource_type,
  text_eq_iff j.resource_urn k.resource_urn,
  eq_iff j.permission k.permission,
  eq_iff j.attributes k.attributes,
)

-- A cached decision with its expiry time.
abbrev pub Entry : Type 0
Entry = Key × Decision × ℕ

abbrev pub DecisionCache : Type 0
DecisionCache = List Entry

-- `cache.get(key)`
unfoldable pub get : Key → DecisionCache → Option (Decision × ℕ)
get k [] = none
get k ((j, d, at) ∷ c) = if key_eq j k then some (d, at) else get k c

-- `cache.pop(key, None)`, as the cache that is left
unfoldable pub pop : Key → DecisionCache → DecisionCache
pop k [] = []
pop k ((j, d, at) ∷ c) = if key_eq j k then c else (j, d, at) ∷ pop k c

-- `cache[key] = value`: a key that is there keeps its place
unfoldable pub put : Key → Decision → ℕ → DecisionCache → DecisionCache
put k d at [] = (k, d, at) ∷ []
put k d at ((j, e, old) ∷ c) = if key_eq j k then (j, d, at) ∷ c else (j, e, old) ∷ put k d at c

-- `cache.move_to_end(key)`
unfoldable pub move_to_end : Key → DecisionCache → DecisionCache
unfolding get pop
move_to_end k c = elim (get k c) [ none ↦ c | some (d, at) ↦ pop k c ++ (k, d, at) ∷ [] ]

-- `while len(cache) > max: cache.popitem(last=False)`
unfoldable pub evict : ℕ → DecisionCache → DecisionCache
evict max [] = []
evict max (e ∷ c) = if ltb max (length (e ∷ c)) then evict max c else e ∷ c
