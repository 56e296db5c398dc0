-- ===== src/Domain/Reclamation/Examples.antt =====
-- Tests of reclamation.py's functions, and the theorems about them at concrete inputs.
use weather.Common.{◌≡◌, refl, List, [], ◌∷◌}
use weather.Common.Int.{pos, negsuc}
use weather.Common.Result.{ok}
use weather.Common.Text.{Text, codes, normalize}
use weather.Common.Decimal.{padded}
use weather.Domain.Reclamation.{make_shard_relative_key, mean}

shard_key_test :
    make_shard_relative_key (codes "cicep") (codes " MEM") 6 (pos 3)
    ≡ ok (codes "cicep/shard.mem003_L0006.shard")
unfolding make_shard_relative_key normalize padded
shard_key_test = refl

mean_key_test :
    make_shard_relative_key (codes "cicep") mean 240 (negsuc 0)
    ≡ ok (codes "cicep/shard.mean_L0240.shard")
unfolding make_shard_relative_key normalize padded
mean_key_test = refl

abbrev expected : List Text
expected = codes "crain" ∷ codes "csnow" ∷ []

abbrev gone : List Text
gone = codes "csnow" ∷ codes "crain" ∷ []
