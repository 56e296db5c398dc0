-- ===== src/Domain/Lifecycle.antt =====
-- packages/domain/src/domain/lifecycle.py: when a forecast cycle has expired, and when its
-- metadata may be purged.
use mathlib.Core.Option
use weather.Common.{ℕ, ◌+◌, ◌*◌, Bool, true, false, Option, none, some, ltb, leb}
use weather.Common.Result.{Result, ok, raises, ◌>>=◌}
use weather.Common.Text.{Text, codes, text_eq, normalize}
use weather.Domain.Time.{DateTime, aware, ensure_utc, add_time, sub_time, hour, day}
pub mod Expiry
mod Examples

abbrev pub default_metadata_retention_days : ℕ
default_metadata_retention_days = 1

pub is_cycle_horizon_expired : DateTime → ℕ → DateTime → Result Bool
is_cycle_horizon_expired cycle_time max_lead_hours serving_start = do
  end ← add_time (ensure_utc cycle_time) (max_lead_hours * hour)
  ok (ltb end (ensure_utc serving_start))

pub is_metadata_purge_eligible : Option DateTime → DateTime → ℕ → Result Bool
is_metadata_purge_eligible none now_utc retention_days = ok false
is_metadata_purge_eligible (some deleted_at) now_utc retention_days = do
  limit ← sub_time (ensure_utc now_utc) (retention_days * day)
  ok (leb (ensure_utc deleted_at) limit)

pub record ModelLifecycleSnapshot : Type 0 where
  pub model_id : Text
  pub cycle_time : DateTime
  pub status : Option Text
  pub deletion_started_at : Option DateTime
  pub deleted_at : Option DateTime

-- `_ensure_utc` as a value.
abbrev to_utc : DateTime → DateTime
to_utc t = aware (ensure_utc t)

-- The constructor with its `__post_init__`.
pub make_snapshot :
    Text → DateTime → Option Text → Option DateTime → Option DateTime → ModelLifecycleSnapshot
make_snapshot model cycle_time status started deleted = record {
  model_id = normalize model;
  cycle_time = to_utc cycle_time;
  status = status;
  deletion_started_at = Option.map to_utc started;
  deleted_at = Option.map to_utc deleted;
}

abbrev is_some {ℓ} : {A : Type ℓ} → Option A → Bool
is_some none = false
is_some (some a) = true

pub is_ready : ModelLifecycleSnapshot → Bool
is_ready s = elim s.status [ none ↦ false | some t ↦ text_eq t (codes "ready") ]

pub is_deletion_started : ModelLifecycleSnapshot → Bool
is_deletion_started s = is_some s.deletion_started_at

pub is_deleted : ModelLifecycleSnapshot → Bool
is_deleted s = is_some s.deleted_at
