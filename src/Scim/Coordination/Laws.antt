-- ===== src/Scim/Coordination/Laws.antt =====
-- One operation at a time, and no waiting task is forgotten.
use ssf_transmitter.Prelude.{◌≡◌, ◌⊎◌, inl, inr, refl, true, false, arith}
use ssf_transmitter.Scim.Coordination.{
  enter, resume, release, System, start, Step, enters, is_refused, starts_waiting, resumes,
  waits_again, leaves, Reaches, here, then,
}

-- The connection is free with its event set and nobody waits for it, or one task is inside.
abbrev pub IsExclusive : System → Type 0
IsExclusive s =
    ((s.inside ≡ 0) × (s.coordinator.busy ≡ false) × (s.coordinator.idle ≡ true) × (s.waiting ≡ 0))
    ⊎ ((s.inside ≡ 1) × (s.coordinator.busy ≡ true) × (s.coordinator.idle ≡ false))

Step-IsExclusive : {s t : System} → Step s t → IsExclusive s → IsExclusive t
unfolding enter resume release
Step-IsExclusive (enters wait h) (inl free) = inr (ground arith, ground arith, ground arith)
Step-IsExclusive (enters wait h) (inr taken) = absurd (ground arith)
Step-IsExclusive (is_refused h) v = v
Step-IsExclusive (starts_waiting h clear) (inl free) = absurd (ground arith)
Step-IsExclusive (starts_waiting h clear) (inr taken) = inr taken
Step-IsExclusive (resumes r some_released h) (inl free) =
    inr (ground arith, ground arith, ground arith)
Step-IsExclusive (resumes r some_released h) (inr taken) = absurd (ground arith)
Step-IsExclusive (waits_again r some_released h clear) (inl free) = absurd (ground arith)
Step-IsExclusive (waits_again r some_released h clear) (inr taken) = inr taken
Step-IsExclusive (leaves n h) (inl free) = absurd (ground arith)
Step-IsExclusive (leaves n h) (inr taken) = inl (ground arith, refl, refl, refl)

-- However tasks enter, wait, are released and leave, in any order, either none is inside an operation,
-- the flag is clear, the event is set and none waits for it, or exactly one is inside, the flag is set
-- and the event is clear.
pub Reaches-IsExclusive : {s : System} → Reaches start s → IsExclusive s
Reaches-IsExclusive here = inl (refl, refl, refl, refl)
Reaches-IsExclusive (then before step) = Step-IsExclusive step (Reaches-IsExclusive before)
