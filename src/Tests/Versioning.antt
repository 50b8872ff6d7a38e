-- ===== src/Tests/Versioning.antt =====
-- Versions of the API.
use nanocl.Prelude.{codes, some, ◌≡◌, refl, split, without, parse_usize}
use nanocl.Versioning.{call, forward, not_found, format_version}

runs :
    (call (codes "0.17.0") (some (codes "v0.16")) ≡ forward)
    × (call (codes "0.17.0") (some (codes "v0.18")) ≡ not_found (codes "v0.18 is not supported"))
    × (call (codes "0.17.0") (some (codes "v1")) ≡ not_found (codes "v1 is invalid"))
    × (call (codes "0.17.0") (some (codes "v1.x")) ≡ not_found (codes "v1.x is not a number"))
    × (format_version (codes "0.17.0") ≡ codes "0.17")
unfolding call format_version split without parse_usize
runs = (refl, refl, refl, refl, refl)
