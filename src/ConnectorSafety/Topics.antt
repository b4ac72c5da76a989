-- ===== src/ConnectorSafety/Topics.antt =====
-- libs/holon_common/connector_safety.py: `assert_kafka_topic`. The configured topic of the platform is an
-- argument.
use holon.Prelude.{◌≡◌, refl, Bool, true, false, not, ◌&&◌, ◌||◌, [], ◌∷◌, ◌++◌}
use holon.Prelude.Text.{strip, Text, codes, text_eq}
use holon.ConnectorSafety.{
  no_tenant, no_name, not_tenant_scoped, reserved_topic, Verdict, accepted, guard_then, starts_with,
  has_char,
}
use holon.ConnectorSafety.Prefixes.{guard_then-accepted, prefix_unique}
use holon.ConnectorSafety.EnvRefs.{is_empty}

-- `_PLATFORM_KAFKA_TOPICS` and `holon.`
abbrev pub is_platform_topic : Text → Bool
is_platform_topic name =
    text_eq name (codes "holon.events")
    || text_eq name (codes "__consumer_offsets")
    || starts_with (codes "holon.") name

abbrev pub is_configured : Text → Text → Bool
is_configured configured name = not (is_empty configured) && text_eq name configured

-- `<tenant>.`
abbrev pub topic_prefix : Text → Text
topic_prefix tenant = tenant ++ (46 ∷ [])

abbrev pub topic_for : Text → Text → Text → Verdict
topic_for configured tenant name = guard_then (not (is_platform_topic name)) reserved_topic (
    guard_then (not (is_configured configured name)) reserved_topic (
      guard_then
        (starts_with (topic_prefix tenant) name && not (text_eq name (topic_prefix tenant)))
        not_tenant_scoped accepted))

-- `assert_kafka_topic`
unfoldable pub assert_kafka_topic : Text → Text → Text → Verdict
assert_kafka_topic configured tenant_id topic = guard_then (not (is_empty (strip topic))) no_name (
    guard_then (not (is_empty (strip tenant_id))) no_tenant
      (topic_for (strip configured) (strip tenant_id) (strip topic)))

not-true : (b : Bool) → not b ≡ true → b ≡ false
not-true true h = absurd (cc)
not-true false h = refl

both : (a b : Bool) → (a && b) ≡ true → a ≡ true
both true b h = refl
both false b h = h

checked_topic :
    (configured tenant_id topic : Text)
    → assert_kafka_topic configured tenant_id topic ≡ accepted
    → topic_for (strip configured) (strip tenant_id) (strip topic) ≡ accepted
unfolding assert_kafka_topic
checked_topic configured tenant_id topic h =
    let inner = topic_for (strip configured) (strip tenant_id) (strip topic) in
    (guard_then-accepted (not (is_empty (strip tenant_id))) no_tenant inner
      (guard_then-accepted (not (is_empty (strip topic))) no_name
        (guard_then (not (is_empty (strip tenant_id))) no_tenant inner) h).1).1

topic_parts :
    (configured tenant name : Text)
    → topic_for configured tenant name ≡ accepted
    → (is_platform_topic name ≡ false)
      × (is_configured configured name ≡ false)
      × (starts_with (topic_prefix tenant) name ≡ true)
topic_parts configured tenant name h =
    let in_scope =
      starts_with (topic_prefix tenant) name && not (text_eq name (topic_prefix tenant)) in
    let last = guard_then in_scope not_tenant_scoped accepted in
    let a =
      guard_then-accepted (not (is_platform_topic name)) reserved_topic
        (guard_then (not (is_configured configured name)) reserved_topic last) h in
    let b = guard_then-accepted (not (is_configured configured name)) reserved_topic last a.1 in
    let c = guard_then-accepted in_scope not_tenant_scoped accepted b.1 in
    (
      not-true (is_platform_topic name) a.0,
      not-true (is_configured configured name) b.0,
      both (starts_with (topic_prefix tenant) name) _ c.0,
    )

-- A topic that is accepted for two tenants, whose ids have no dot, is of one tenant; and it is neither a
-- topic of the platform nor the one that is configured for it.
pub assert_kafka_topic-isolates :
    (configured t u topic : Text)
    → has_char 46 (strip t) ≡ false
    → has_char 46 (strip u) ≡ false
    → assert_kafka_topic configured t topic ≡ accepted
    → assert_kafka_topic configured u topic ≡ accepted
    → (strip t ≡ strip u)
      × (is_platform_topic (strip topic) ≡ false)
      × (is_configured (strip configured) (strip topic) ≡ false)
assert_kafka_topic-isolates configured t u topic kt ku ht hu =
    let a =
      topic_parts (strip configured) (strip t) (strip topic)
        (checked_topic configured t topic ht) in
    let b =
      topic_parts (strip configured) (strip u) (strip topic)
        (checked_topic configured u topic hu) in
    (prefix_unique 46 (strip t) (strip u) (strip topic) kt ku a.2 b.2, a.0, a.1)
