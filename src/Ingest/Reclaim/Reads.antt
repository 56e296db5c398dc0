-- ===== src/Ingest/Reclaim/Reads.antt =====
-- Which stored shards a read of a variable from its source touches, said apart from the planner.
use weather.Common.{
  ℕ, ◌≡◌, Bool, true, false, ◌&&◌, ◌||◌, Option, none, some, List, [], ◌∷◌, ◌==◌, if◌then◌else◌,
  any, arith,
}
use weather.Common.Int.{ℤ, pos, negsuc}
use weather.Common.Text.{Text, codes, text_eq}
use weather.Domain.Reclamation.{PhysicalShardTarget, has, det, mean, mem}
use weather.Domain.Canonical.{CanonicalCandidate}
use weather.Domain.Canonical.Fence.{eq_ℤ}
use weather.Ingest.Reclaim.Holds.{candidate_holds, variable_holds, member_holds, member_list}
use weather.Ingest.Reclaim.Pass.{has_unit, target_tuple}

-- The stored variables of a variable: wind has its two components in store, and no shard itself.
abbrev pub stored_parts : Text → List Text
stored_parts w =
    if text_eq w (codes "wind_10m") then codes "wind_u_10m" ∷ codes "wind_v_10m" ∷ [] else w ∷ []

-- The products that serve a candidate: of an ensemble its mean and its members, else the
-- deterministic one.
abbrev pub is_product : Bool → Option (List ℤ) → Text → ℤ → Bool
is_product false members kind m = text_eq kind det && eq_ℤ m (pos 0)
is_product true none kind m = text_eq kind mean && eq_ℤ m (negsuc 0)
is_product true (some ms) kind m =
    (text_eq kind mean && eq_ℤ m (negsuc 0)) || (text_eq kind mem && any (eq_ℤ m) ms)

-- Whether a target is a shard that a read of `w` from the candidate touches.
abbrev pub reads : Bool → CanonicalCandidate → Text → PhysicalShardTarget → Bool
reads ensemble c w t =
    text_eq t.run_id c.run_id
    && ((t.lead_time_hours == c.lead_time_hours)
        && (has (stored_parts w) t.variable_code
            && is_product ensemble c.member_indices t.target_kind t.member_index))

member_holds-has :
    (run : Text) (lead : ℕ) (v : Text) (ms : List ℤ) (a : Text) (b : ℕ) (x k : Text) (m : ℤ)
    → has_unit (member_holds run lead v ms) (a, b, x, k, m)
      ≡ (text_eq a run && ((b == lead) && (text_eq x v && (text_eq k mem && any (eq_ℤ m) ms))))
member_holds-has run lead v [] a b x k m = ground arith
member_holds-has run lead v (n ∷ ms) a b x k m =
    ground (arith, member_holds-has run lead v ms a b x k m)

variable_holds-has :
    (ensemble : Bool) (run : Text) (lead : ℕ) (v : Text) (members : Option (List ℤ)) (a : Text)
    (b : ℕ) (x k : Text) (m : ℤ)
    → has_unit (variable_holds ensemble run lead v (member_list members)) (a, b, x, k, m)
      ≡ (text_eq a run && ((b == lead) && (text_eq x v && is_product ensemble members k m)))
variable_holds-has false run lead v members a b x k m = ground arith
variable_holds-has true run lead v none a b x k m = ground arith
variable_holds-has true run lead v (some ms) a b x k m =
    ground (arith, member_holds-has run lead v ms a b x k m)

pub candidate_holds-has :
    (ensemble : Bool) (c : CanonicalCandidate) (v : Text) (t : PhysicalShardTarget)
    → has_unit (candidate_holds ensemble c v) (target_tuple t) ≡ (
        text_eq t.run_id c.run_id
        && ((t.lead_time_hours == c.lead_time_hours)
            && (text_eq t.variable_code v
                && is_product ensemble c.member_indices t.target_kind t.member_index)))
candidate_holds-has ensemble c v t =
    variable_holds-has ensemble c.run_id c.lead_time_hours v c.member_indices t.run_id
      t.lead_time_hours t.variable_code t.target_kind t.member_index
