-- ===== src/Denylist/Hydrate.antt =====
-- libs/holon_common/principal_status.py: a snapshot replace loses no event that arrives while the
-- snapshot is fetched.
use holon.Prelude.{
  ◌≡◌, refl, ap, ◌∙◌, Bool, true, false, not, ◌&&◌, ◌||◌, Option, some, List, [], ◌∷◌, ◌++◌,
  append_assoc, append-nil, arith, str_eq, if◌then◌else◌,
}
use holon.Prelude.Text.{Text, text_eq, text_eq_iff}
use holon.Authz.Client.{PermissionClient}
use holon.Denylist.Sets.{contains, update, contains-add, contains-discard, contains-update}
use holon.Denylist.{
  Kind, jti, disabled, enabled, Denylist, is_empty, mark_principal_disabled, mark_principal_enabled,
  is_principal_disabled, mark_jti_revoked, is_jti_revoked, replay_one, replay_each, Event,
  status_changed, token_revoked, permission_granted, permission_revoked, other,
  apply_identity_auth_event, consume, Snapshot, hydrate_revocation_snapshot,
}

-- Whether an event leaves `urn` disabled, if it is `before` it.
abbrev pub status_after : Text → Event → Bool → Bool
status_after urn (status_changed u status) before =
    if not (is_empty u) && text_eq u urn then not (str_eq status "active") else before
status_after urn (token_revoked j) before = before
status_after urn (permission_granted u) before = before
status_after urn (permission_revoked u) before = before
status_after urn other before = before

-- The last event about `urn` decides.
abbrev pub last_status : Text → List Event → Bool → Bool
last_status urn [] before = before
last_status urn (e ∷ es) before = last_status urn es (status_after urn e before)

abbrev pub revokes : Text → Event → Bool
revokes j (token_revoked i) = text_eq i j
revokes j (status_changed u status) = false
revokes j (permission_granted u) = false
revokes j (permission_revoked u) = false
revokes j other = false

-- Whether one of the events revokes the token.
abbrev pub any_revokes : Text → List Event → Bool
any_revokes j [] = false
any_revokes j (e ∷ es) = revokes j e || any_revokes j es

-- What the capture records of an event.
abbrev note : Event → List (Kind × Text)
note (status_changed u status) =
    if is_empty u then [] else (if str_eq status "active" then enabled else disabled, u) ∷ []
note (token_revoked j) = if is_empty j then [] else (jti, j) ∷ []
note (permission_granted u) = []
note (permission_revoked u) = []
note other = []

notes : List Event → List (Kind × Text)
notes [] = []
notes (e ∷ es) = note e ++ notes es

captures-apply :
    (e : Event) (d : Denylist) (authz : Option PermissionClient) (before : List (Kind × Text))
    (outer : List (List (Kind × Text)))
    → d.revocation_captures ≡ before ∷ outer
    → (apply_identity_auth_event e (d, authz)).0.revocation_captures ≡ (before ++ note e) ∷ outer
unfolding apply_identity_auth_event
captures-apply (status_changed u status) d authz before outer h = ground (arith, append-nil before)
captures-apply (token_revoked j) d authz before outer h = ground (arith, append-nil before)
captures-apply _ d authz before outer h = rw append-nil h

captures-consume :
    (es : List Event) (d : Denylist) (authz : Option PermissionClient) (before : List (Kind × Text))
    (outer : List (List (Kind × Text)))
    → d.revocation_captures ≡ before ∷ outer
    → (consume es (d, authz)).0.revocation_captures ≡ (before ++ notes es) ∷ outer
unfolding consume notes
captures-consume [] d authz before outer h = rw append-nil h
captures-consume (e ∷ es) d authz before outer h =
    let (d', authz') = apply_identity_auth_event e (d, authz) in
    captures-consume es d' authz' (before ++ note e) outer (captures-apply e d authz before outer h)
    ∙ ap (λ l. l ∷ outer) (append_assoc before (note e) (notes es))

replay_each-append :
    (xs ys : List (Kind × Text)) (d : Denylist)
    → replay_each (xs ++ ys) d ≡ replay_each ys (replay_each xs d)
unfolding replay_each
replay_each-append [] ys d = refl
replay_each-append (x ∷ xs) ys d = replay_each-append xs ys (replay_one x d)

module _ (urn : Text) where
  replay-note :
      (e : Event) (d : Denylist)
      → (contains urn (replay_each (note e) d).disabled_principal_urns
          ≡ status_after urn e (contains urn d.disabled_principal_urns))
        × ((not (is_empty urn) && contains urn (replay_each (note e) d).revoked_jtis)
            ≡ (not (is_empty urn) && (revokes urn e || contains urn d.revoked_jtis)))
  unfolding replay_each replay_one
  replay-note (status_changed u status) d = ground (
    arith,
    contains-add urn u d.disabled_principal_urns,
    contains-discard urn u d.disabled_principal_urns,
  )
  replay-note (token_revoked j) d =
      ground (arith, contains-add urn j d.revoked_jtis, text_eq_iff j urn)
  replay-note _ d = (refl, refl)

  replay-notes :
      (es : List Event) (d : Denylist)
      → (contains urn (replay_each (notes es) d).disabled_principal_urns
          ≡ last_status urn es (contains urn d.disabled_principal_urns))
        × ((not (is_empty urn) && contains urn (replay_each (notes es) d).revoked_jtis)
            ≡ (not (is_empty urn) && (any_revokes urn es || contains urn d.revoked_jtis)))
  unfolding notes
  replay-notes [] d = unfold replay_each in (refl, refl)
  replay-notes (e ∷ es) d =
      let d' : Denylist = replay_each (note e) d in
      let (first, second) = replay-note e d in
      let (fst, snd) = replay-notes es d' in
      rw replay_each-append (fst ∙ ap (last_status urn es) first, ground arith)

contains-snapshot :
    (x : Text) (xs : List Text) → contains x (update xs []) ≡ (not (is_empty x) && contains x xs)
unfolding contains
contains-snapshot [] xs = ground (arith, contains-update [] xs [])
contains-snapshot (c ∷ x) xs = ground (arith, contains-update (c ∷ x) xs [])

captures-replay_each :
    (ns : List (Kind × Text)) (d : Denylist)
    → d.revocation_captures ≡ []
    → (replay_each ns d).revocation_captures ≡ []
unfolding replay_each replay_one
captures-replay_each [] d h = h
captures-replay_each ((jti, value) ∷ ns) d h =
    captures-replay_each ns (mark_jti_revoked value d) (ground arith)
captures-replay_each ((disabled, value) ∷ ns) d h =
    captures-replay_each ns (mark_principal_disabled value d) (ground arith)
captures-replay_each ((enabled, value) ∷ ns) d h =
    captures-replay_each ns (mark_principal_enabled value d) (ground arith)

-- A hydration that succeeds holds what the snapshot says with every event that arrived while it was
-- fetched applied on top: a principal is disabled as the last of those events about it says, or as
-- the snapshot says if there is none, and a token is revoked if the snapshot or one of the events
-- revokes it. The captures around it are as before.
pub hydrate_revocation_snapshot_lem :
    (during : List Event) (snap : Snapshot) (d : Denylist) (authz : Option PermissionClient)
    (urn : Text)
    → let (done, d', _) = hydrate_revocation_snapshot during (some snap) (d, authz) in
      (done ≡ true)
      × (is_principal_disabled urn d'
          ≡ last_status urn during (not (is_empty urn) && contains urn snap.disabled_urns))
      × (is_jti_revoked urn d'
          ≡ (not (is_empty urn) && (any_revokes urn during || contains urn snap.jtis)))
      × (d'.revocation_captures ≡ d.revocation_captures)
unfolding hydrate_revocation_snapshot is_principal_disabled is_jti_revoked contains
hydrate_revocation_snapshot_lem during snap d authz urn =
    let start : Denylist = record d { revocation_captures = [] ∷ d.revocation_captures } in
    let fresh : Denylist = record {
      disabled_principal_urns = update snap.disabled_urns [];
      revoked_jtis = update snap.jtis [];
      revocation_captures = [];
    } in
    let (known, revoked) = replay-notes urn during fresh in
    rw (captures-consume during start authz [] d.revocation_captures refl) (
      refl,
      known ∙ ap (last_status urn during) (contains-snapshot urn snap.disabled_urns),
      revoked ∙ ground (arith, contains-snapshot urn snap.jtis),
      rw (captures-replay_each (notes during) fresh refl) (append-nil d.revocation_captures),
    )
