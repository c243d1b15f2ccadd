-- ===== src/Scim/Coordination/Progress.antt =====
-- No task waits in vain: those inside and those that wait can always come to their end.
use ssf_transmitter.Prelude.{
  ℕ, zero, suc, ◌+◌, ◌*◌, ◌≡◌, inl, inr, refl, sym, ap, subst, Bool, true, false, ◌&&◌, arith,
}
use ssf_transmitter.Scim.Coordination.{
  new_coordinator, enter, resume, release, System, start, Step, enters, is_refused, starts_waiting,
  resumes, waits_again, leaves, Reaches, here, then,
}
use ssf_transmitter.Scim.Coordination.Laws.{IsExclusive, Reaches-IsExclusive}

-- The step of a task that is inside already, or waits already.
abbrev pub is_served : {s t : System} → Step s t → Bool
is_served (enters wait h) = false
is_served (is_refused h) = false
is_served (starts_waiting h clear) = false
is_served (resumes r some_released h) = true
is_served (waits_again r some_released h clear) = true
is_served (leaves n h) = true

abbrev pub all_served : {s t : System} → Reaches s t → Bool
all_served here = true
all_served (then before step) = all_served before && is_served step

abbrev pub steps : {s t : System} → Reaches s t → ℕ
steps here = 0
steps (then before step) = suc (steps before)

-- A path to the start, of so many steps, by tasks that are there already.
abbrev pub Drains : ℕ → System → Type 0
Drains n s = (path : Reaches s start) × (all_served path ≡ true) × (steps path ≡ n)

behind : {r s t : System} → Step r s → Reaches s t → Reaches r t
behind step here = then here step
behind step (then before last) = then (behind step before) last

behind_served :
    {r s t : System} (step : Step r s) (path : Reaches s t)
    → is_served step ≡ true
    → all_served path ≡ true
    → (all_served (behind step path) ≡ true) × (steps (behind step path) ≡ suc (steps path))
unfolding behind
behind_served step here h served = (h, refl)
behind_served step (then before last) h served =
    let rest = behind_served step before h in (ground (arith, rest), ground (arith, rest))

Drains-suc :
    {r s : System} (n : ℕ) (step : Step r s) → is_served step ≡ true → Drains n s → Drains (suc n) r
Drains-suc n step served (path, all, count) =
    let longer = behind_served step path served all in
    (behind step path, longer.0, ground (arith, longer.1))

-- Nobody is inside and so many are released.
abbrev idle_with : ℕ → System
idle_with r = record { coordinator = new_coordinator; inside = 0; waiting = 0; released = r }

Drains-idle : (r : ℕ) → Drains (2 * r) (idle_with r)
unfolding enter resume release
Drains-idle zero = (here, refl, refl)
Drains-idle (suc r) =
    let same : idle_with (r + 0) ≡ idle_with r = ap idle_with (omega arith) in
    let rest = subst (λ s. Drains (2 * r) s) (sym same) (Drains-idle r) in
    let left = Drains-suc (2 * r) (leaves 0 refl) refl rest in
    let resumed = Drains-suc (suc (2 * r)) (resumes r refl refl) refl left in
    subst (λ n. Drains n (idle_with (suc r))) (omega arith) resumed

Drains-IsExclusive :
    (s : System) → IsExclusive s → Drains (s.inside + 2 * (s.waiting + s.released)) s
unfolding release
Drains-IsExclusive s (inl (none_inside, free, set, none_waits)) =
    let same : idle_with s.released ≡ s = ground arith in
    let drained = subst (λ t. Drains (2 * s.released) t) same (Drains-idle s.released) in
    subst (λ n. Drains n s) (omega (arith, none_inside, none_waits)) drained
Drains-IsExclusive s (inr (one, busy, unset)) =
    subst (λ n. Drains n s) (ground arith)
      (Drains-suc (2 * (s.released + s.waiting)) (leaves 0 one) refl
        (Drains-idle (s.released + s.waiting)))

-- From whatever the tasks have come to, those inside and those that wait or are released can finish, with
-- no other task taking part and in two steps for each that waits or is released and one for the one
-- inside, and leave the connection free.
pub Reaches-Drains :
    {s : System} → Reaches start s → Drains (s.inside + 2 * (s.waiting + s.released)) s
Reaches-Drains {s} path = Drains-IsExclusive s (Reaches-IsExclusive path)
