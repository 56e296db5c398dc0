-- ===== src/Storage/Region/Examples.antt =====
-- Tests of the region identities, and the theorems about them at concrete inputs.
use weather.Common.{◌≡◌, refl, false, none, some, if◌then◌else◌, arith}
use weather.Common.Text.{codes}
use weather.Common.Decimal.{padded, parse_int}
use weather.Storage.Region.{logical_region_encoding, parse_region_id, is_mean_region_id}
use weather.Storage.Region.Roundtrip.{region_roundtrip}

encoding_test : logical_region_encoding 6 (some 17) false ≡ codes "mem017_L0006"
unfolding logical_region_encoding padded
encoding_test = refl

-- A member of four digits would not be read back.
long_member_test : parse_region_id (codes "mem1000_L0006") ≡ some (some 100, 6)
unfolding parse_region_id parse_int
long_member_test = refl

region_roundtrip_example :
    (parse_region_id (logical_region_encoding 240 (some 30) false)
      ≡ some (if false then none else some 30, 240))
    × (is_mean_region_id (logical_region_encoding 240 (some 30) false) ≡ false)
region_roundtrip_example = region_roundtrip 240 (some 30) false (omega arith)
