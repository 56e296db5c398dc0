-- ===== src/Serving/Leases/Examples.antt =====
-- Two threads that read one store.
use weather.Common.{◌≡◌, refl, true, false, [], ◌∷◌}
use weather.Common.Text.{Text, codes}
use weather.Serving.Leases.{
  outside, creating, joining, reading, Gate, active, no_lease, acquire_or_join, on_lease, activate,
  joined, leave, forget, release, enters, succeeds, proceeds, exits, forgets, releases, Reach,
  begins, later,
}
use weather.Serving.Leases.Safety.{reads_under_gate, no_gate_left}

abbrev store : Text
store = codes "gfs"

abbrev start : Gate
start = record { leases = λ i. no_lease; next = 0; table = [] }

abbrev both_in : Gate
both_in = (acquire_or_join store 1 (acquire_or_join store 0 start).0).0

both_in-Reach : Reach 2 (creating 0 ∷ joining 0 ∷ []) both_in
both_in-Reach =
    later (creating 0 ∷ []) [] (later [] (outside ∷ []) begins (enters store 0 start))
      (enters store 1 (acquire_or_join store 0 start).0)

abbrev both_reading : Gate
both_reading = on_lease 0 joined (on_lease 0 activate both_in)

both_reading-Reach : Reach 2 (reading 0 ∷ reading 0 ∷ []) both_reading
both_reading-Reach =
    later (reading 0 ∷ []) [] (later [] (joining 0 ∷ []) both_in-Reach (succeeds 0 both_in))
      (proceeds 0 (on_lease 0 activate both_in))

abbrev both_out : Gate
both_out = on_lease 0 release (forget 0 (on_lease 0 leave (on_lease 0 leave both_reading)))

both_out-Reach : Reach 2 (outside ∷ outside ∷ []) both_out
both_out-Reach =
    later (outside ∷ []) []
      (later (outside ∷ []) []
        (later (outside ∷ []) []
          (later [] (reading 0 ∷ []) both_reading-Reach (exits 0 both_reading))
          (exits 0 (on_lease 0 leave both_reading)))
        (forgets 0 (on_lease 0 leave (on_lease 0 leave both_reading))))
      (releases 0 (forget 0 (on_lease 0 leave (on_lease 0 leave both_reading))))

reads_under_gate_example :
    ((both_reading.leases 0).state ≡ active) × ((both_reading.leases 0).gate_held ≡ true)
reads_under_gate_example = reads_under_gate 2 (reading 0 ∷ []) [] 0 both_reading both_reading-Reach

no_gate_left_example : ((both_out.leases 0).ref_count ≡ 0) × ((both_out.leases 0).gate_held ≡ false)
no_gate_left_example =
    no_gate_left 2 (outside ∷ outside ∷ []) both_out both_out-Reach (refl, (refl, tt)) 0
