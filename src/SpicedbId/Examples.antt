-- ===== src/SpicedbId/Examples.antt =====
-- Encoded URNs, and the theorems on them at concrete inputs.
use holon.Prelude.{◌≡◌, refl, List, [], ◌∷◌}
use holon.Prelude.Text.{Text, codes}
use holon.SpicedbId.{spicedb_object_id}
use holon.SpicedbId.Injective.{spicedb_object_id-injective}

encoded : spicedb_object_id (codes "hl:a:b:user:jane_x.doe") ≡ codes "hl_ca_cb_cuser_cjane__x_ddoe"
unfolding spicedb_object_id
encoded = refl

spicedb_object_id-injective_example : codes "jane.doe" ≡ codes "jane.doe"
spicedb_object_id-injective_example =
    spicedb_object_id-injective (codes "jane.doe") (codes "jane.doe") refl

abbrev rows : List (Text × Text)
rows = (codes "jane_doe", codes "1") ∷ (codes "jane.doe", codes "2") ∷ []

abbrev urn_of : Text × Text → Text
urn_of row = row.0
