-- ===== src/Denylist.antt =====
-- libs/holon_common/auth.py: the process-local denylists of disabled principals and revoked
-- tokens; libs/holon_common/principal_status.py: the Identity events and the snapshot that feed
-- them. `None` for a missing field of a payload is the empty text, as the code makes it.
pub mod Sets
pub mod Hydrate
mod Examples
use holon.Prelude.{
  ℕ, Bool, true, false, not, ◌&&◌, Option, none, some, String, List, [], ◌∷◌, ◌++◌, str_eq,
  if◌then◌else◌,
}
use holon.Prelude.Text.{Text, text_eq}
use holon.Authz.Client.{PermissionClient, invalidate_principal}
use Sets.{contains, add, discard, update}

pub data Kind : Type 0 where
  jti disabled enabled : Kind

-- The module's variables. The captures have the innermost, `_revocation_captures[-1]`, first.
pub record Denylist : Type 0 where
  pub disabled_principal_urns : List Text
  pub revoked_jtis : List Text
  pub revocation_captures : List (List (Kind × Text))

abbrev pub is_empty : Text → Bool
is_empty [] = true
is_empty (c ∷ s) = false

note_in : Kind × Text → List (List (Kind × Text)) → List (List (Kind × Text))
note_in e [] = []
note_in e (events ∷ outer) = (events ++ e ∷ []) ∷ outer

note_revocation : Kind → Text → Denylist → Denylist
unfolding note_in
note_revocation kind value d =
    if is_empty value
    then d
    else record d { revocation_captures = note_in (kind, value) d.revocation_captures }

unfoldable pub mark_principal_disabled : Text → Denylist → Denylist
unfolding note_revocation
mark_principal_disabled urn d =
    if is_empty urn
    then d
    else note_revocation disabled urn
        (record d { disabled_principal_urns = add urn d.disabled_principal_urns })

unfoldable pub mark_principal_enabled : Text → Denylist → Denylist
unfolding note_revocation
mark_principal_enabled urn d =
    note_revocation enabled urn
      (record d { disabled_principal_urns = discard urn d.disabled_principal_urns })

pub is_principal_disabled : Text → Denylist → Bool
is_principal_disabled urn d = contains urn d.disabled_principal_urns

unfoldable pub mark_jti_revoked : Text → Denylist → Denylist
unfolding note_revocation
mark_jti_revoked j d =
    if is_empty j
    then d
    else note_revocation jti j (record d { revoked_jtis = add j d.revoked_jtis })

pub is_jti_revoked : Text → Denylist → Bool
is_jti_revoked j d = not (is_empty j) && contains j d.revoked_jtis

pub replace_disabled_principal_urns : List Text → Denylist → Denylist
replace_disabled_principal_urns urns d = record d { disabled_principal_urns = update urns [] }

pub replace_revoked_jtis : List Text → Denylist → Denylist
replace_revoked_jtis jtis d = record d { revoked_jtis = update jtis [] }

-- One captured event, applied again.
replay_one : Kind × Text → Denylist → Denylist
unfolding mark_jti_revoked mark_principal_disabled mark_principal_enabled
replay_one (jti, value) d = mark_jti_revoked value d
replay_one (disabled, value) d = mark_principal_disabled value d
replay_one (enabled, value) d = mark_principal_enabled value d

replay_each : List (Kind × Text) → Denylist → Denylist
replay_each [] d = d
replay_each (e ∷ events) d = replay_each events (replay_one e d)

-- The captures are set aside while the events are applied, and put back behind what is there.
pub replay_revocation_events : List (Kind × Text) → Denylist → Denylist
unfolding replay_each
replay_revocation_events events d =
    let done = replay_each events (record d { revocation_captures = [] }) in
    record done { revocation_captures = d.revocation_captures ++ done.revocation_captures }

-- `capture_revocation_events.__enter__` and `__exit__`; the list that `__enter__` returned is what
-- stands there at the exit.
pub enter_capture : Denylist → Denylist
enter_capture d = record d { revocation_captures = [] ∷ d.revocation_captures }

abbrev captured : List (List (Kind × Text)) → List (Kind × Text)
captured [] = []
captured (events ∷ outer) = events

abbrev outer_captures : List (List (Kind × Text)) → List (List (Kind × Text))
outer_captures [] = []
outer_captures (events ∷ outer) = outer

pub exit_capture : Denylist → List (Kind × Text) × Denylist
exit_capture d = (
  captured d.revocation_captures,
  record d { revocation_captures = outer_captures d.revocation_captures },
)

unfoldable pub apply_principal_status_payload : Text → String → Denylist → Denylist
unfolding mark_principal_enabled mark_principal_disabled
apply_principal_status_payload principal_urn status d =
    if is_empty principal_urn
    then d
    else if str_eq status "active"
    then mark_principal_enabled principal_urn d
    else mark_principal_disabled principal_urn d

pub apply_token_revoked_payload : Text → Denylist → Denylist
unfolding mark_jti_revoked
apply_token_revoked_payload j d = mark_jti_revoked j d

-- The Identity events, with what the handler reads of their payloads.
pub data Event : Type 0 where
  status_changed : Text → String → Event
  token_revoked : Text → Event
  permission_granted permission_revoked : Text → Event
  other : Event

abbrev invalidate : Text → Option PermissionClient → Option PermissionClient
invalidate urn none = none
invalidate urn (some authz) = some (invalidate_principal urn authz).1

-- `_apply_identity_auth_event`, on the denylist and the client that may be there.
pub apply_identity_auth_event :
    Event → Denylist × Option PermissionClient → Denylist × Option PermissionClient
unfolding apply_principal_status_payload apply_token_revoked_payload
apply_identity_auth_event (status_changed urn status) (d, authz) = (
  apply_principal_status_payload urn status d,
  if is_empty urn then authz else invalidate urn authz,
)
apply_identity_auth_event (token_revoked j) (d, authz) = (apply_token_revoked_payload j d, authz)
apply_identity_auth_event (permission_granted urn) (d, authz) = (d, invalidate urn authz)
apply_identity_auth_event (permission_revoked urn) (d, authz) = (d, invalidate urn authz)
apply_identity_auth_event other (d, authz) = (d, authz)

-- `consume_identity_auth_events`, over the events that arrive
pub consume : List Event → Denylist × Option PermissionClient → Denylist × Option PermissionClient
unfolding apply_identity_auth_event
consume [] s = s
consume (e ∷ events) s = consume events (apply_identity_auth_event e s)

-- What Identity's snapshot says.
pub record Snapshot : Type 0 where
  pub disabled_urns : List Text
  pub jtis : List Text

-- `hydrate_revocation_snapshot`, from the point where the request is sent: `during` are the events
-- that arrive while it is awaited, and the answer is none if the request or the response raises.
-- `false` says that the exception went on.
pub hydrate_revocation_snapshot :
    List Event
    → Option Snapshot
    → Denylist × Option PermissionClient
    → Bool × Denylist × Option PermissionClient
unfolding consume enter_capture exit_capture replace_disabled_principal_urns replace_revoked_jtis
    replay_revocation_events
hydrate_revocation_snapshot during none (d, authz) =
    let (d1, authz1) = consume during (enter_capture d, authz) in
    (false, (exit_capture d1).1, authz1)
hydrate_revocation_snapshot during (some data_) (d, authz) =
    let (d1, authz1) = consume during (enter_capture d, authz) in
    let d2 =
      replace_revoked_jtis data_.jtis (replace_disabled_principal_urns data_.disabled_urns d1) in
    let (noted, d3) = exit_capture d2 in (true, replay_revocation_events noted d3, authz1)
