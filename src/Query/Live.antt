-- ===== src/Query/Live.antt =====
-- src/swimzh/domain/query.py: live occupancy and live water temperature, errors as values.
use swimming_in_zurich.Base.{ℕ, Bool, Option, none, some, List, [], ◌∷◌, String}
use swimming_in_zurich.Errors.{ProviderError}
use swimming_in_zurich.Errors.Report.{describe}
use swimming_in_zurich.Models.{PoolIdentity}
use swimming_in_zurich.Query.Types.{
  Result, ok, err, Occupancy, OccupancyResult, live_occupancy, occupancy_unavailable,
  OccupancyProvider, TempReading, TempResult, live_temp, temp_unavailable, no_key, provider_error,
  TemperatureProvider, Platform, exceeds, Timedelta,
}

-- `LiveOccupancy.is_stale` (ten minutes) and `LiveTemp.is_stale` (six hours), at their default limits.
unfoldable pub occupancy_stale : Timedelta → Bool
occupancy_stale age = exceeds age 600000000

unfoldable pub temp_stale : Timedelta → Bool
temp_stale age = exceeds age 21600000000

attach_temp : Platform → ℕ → Result TempReading ProviderError → TempResult
attach_temp w now (ok reading) = live_temp reading (w.minus now reading.measured_at)
attach_temp w now (err e) = temp_unavailable (describe w.formats e) provider_error

temp_by_key : Platform → TemperatureProvider → ℕ → Option String → TempResult
unfolding attach_temp
temp_by_key w provider now none = temp_unavailable "no baditicker key" no_key
temp_by_key w provider now (some poiid) = attach_temp w now (provider poiid)

unfoldable pub read_temperature : Platform → TemperatureProvider → PoolIdentity → ℕ → TempResult
unfolding temp_by_key
read_temperature w provider identity now = temp_by_key w provider now identity.baditicker_poiid

attach_occupancy : Platform → ℕ → Result Occupancy ProviderError → OccupancyResult
attach_occupancy w now (ok reading) = live_occupancy reading (w.minus now reading.measured_at)
attach_occupancy w now (err e) = occupancy_unavailable (describe w.formats e)

occupancy_by_keys : Platform → OccupancyProvider → ℕ → List String → OccupancyResult
unfolding attach_occupancy
occupancy_by_keys w provider now [] = occupancy_unavailable "no crowdmonitor key"
occupancy_by_keys w provider now (k ∷ ks) = attach_occupancy w now (provider (k ∷ ks))

-- `_read_occupancy`
unfoldable pub read_occupancy : Platform → OccupancyProvider → PoolIdentity → ℕ → OccupancyResult
unfolding occupancy_by_keys
read_occupancy w provider identity now = occupancy_by_keys w provider now identity.crowdmonitor_keys
