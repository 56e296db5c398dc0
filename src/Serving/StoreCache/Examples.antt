-- ===== src/Serving/StoreCache/Examples.antt =====
-- store_cache.py: two readers of one generation of a store, on a cache of one entry.
use weather.Common.{◌≡◌, ◌≤◌, refl, false, [], ◌∷◌, length}
use weather.Common.Text.{codes}
use weather.Serving.StoreCache.{
  StoreKey, Dataset, opened, leads, waits, get_or_open, open_returns, make_cache, World, moved,
  Step, enter, lead_returns, Reach, start, next,
}
use weather.Serving.StoreCache.Values.{reads_own_generation}
use weather.Serving.StoreCache.Waiting.{waiter_has_leader}

abbrev gfs : StoreKey
gfs = (codes "gfs", codes "7")

abbrev dataset : Dataset
dataset = record { opened_for = gfs; call = 3 }

-- A first reader leads a flight, and a second waits for it.
abbrev alone : World
alone = moved [] [] (get_or_open gfs (make_cache 1))

abbrev both : World
both = moved [] alone.threads (get_or_open gfs alone.cache)

both-Reach : Reach 1 both
both-Reach = next (next start (enter gfs)) (enter gfs)

-- The opener of the first returns.
abbrev served : World
served = moved (waits gfs 0 ∷ []) [] (open_returns gfs 0 dataset both.cache)

served-Reach : Reach 1 served
unfolding get_or_open open_returns
served-Reach = next both-Reach (lead_returns (waits gfs 0 ∷ []) [] gfs 0 3)

reads_own_generation_example : (dataset.opened_for ≡ gfs) × (length served.cache.entries ≤ 1)
unfolding get_or_open open_returns
reads_own_generation_example =
    reads_own_generation 1 served (waits gfs 0 ∷ []) [] gfs dataset false served-Reach refl

waiter_has_leader_example :
    (v : World) × Step both v × ((v.cache.flights 0).outcome ≡ opened dataset)
unfolding get_or_open
waiter_has_leader_example =
    waiter_has_leader 1 both [] (leads gfs 0 ∷ []) gfs 0 3 both-Reach refl refl
