-- ===== src/Denylist/Examples.antt =====
-- A hydration during which a token is revoked, and the theorem on it.
use holon.Prelude.{◌≡◌, true, none, some, List, [], ◌∷◌}
use holon.Prelude.Text.{codes}
use holon.Denylist.Sets.{contains}
use holon.Denylist.{
  Denylist, is_principal_disabled, is_jti_revoked, Event, status_changed, token_revoked, Snapshot,
  hydrate_revocation_snapshot,
}
use holon.Denylist.Hydrate.{last_status, hydrate_revocation_snapshot_lem}

abbrev boot : Denylist
boot = record { disabled_principal_urns = []; revoked_jtis = []; revocation_captures = [] }

abbrev snapshot : Snapshot
snapshot = record { disabled_urns = codes "jane" ∷ []; jtis = codes "t1" ∷ [] }

abbrev during : List Event
during = token_revoked (codes "t2") ∷ status_changed (codes "jane") "active" ∷ []

hydrate_revocation_snapshot_lem_example :
    let (done, d, _) = hydrate_revocation_snapshot during (some snapshot) (boot, none) in
    (done ≡ true)
    × (is_principal_disabled (codes "t2") d
        ≡ last_status (codes "t2") during (contains (codes "t2") snapshot.disabled_urns))
    × (is_jti_revoked (codes "t2") d ≡ true)
    × (d.revocation_captures ≡ [])
hydrate_revocation_snapshot_lem_example =
    hydrate_revocation_snapshot_lem during snapshot boot none (codes "t2")
