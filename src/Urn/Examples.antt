-- ===== src/Urn/Examples.antt =====
-- A URN with a version, as `build` writes it.
use holon.Prelude.{◌≡◌, refl, some, arith}
use holon.Prelude.Text.{codes}
use holon.Urn.{Urn, build, parse}
use holon.Urn.RoundTrip.{IsValid, parse-build}

abbrev order : Urn
order = record {
  tenant = codes "ac";
  workspace = codes "w1";
  kind = codes "dS";
  id = codes "o:7";
  version = some 12;
}

order-IsValid : IsValid order
order-IsValid = record {
  tenant = (refl, (refl, (refl, tt)));
  workspace = (refl, (refl, (refl, tt)));
  kind = (refl, (refl, (refl, tt)));
  id = ((omega arith, omega arith), ((omega arith, omega arith), ((omega arith, omega arith), tt)));
}

parse-build_example :
    parse (build (codes "ac") (codes "w1") (codes "dS") (codes "o:7") (some 12)) ≡ some order
parse-build_example = parse-build order order-IsValid
