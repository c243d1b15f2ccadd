-- ===== src/Scim/Coordination.antt =====
-- app/scim/coordination.py: the claim on the connection with Apple, and the tasks that compete for it.
-- Between two awaits a task runs alone, so that a claim, a release and a look at the flag are steps.
pub mod Laws
pub mod Progress
use ssf_transmitter.Prelude.{ℕ, suc, ◌+◌, Bool, true, false, ◌≡◌}

-- The flag and the event of the coordinator.
pub record Coordinator : Type 0 where
  pub busy : Bool
  pub idle : Bool

abbrev pub new_coordinator : Coordinator
new_coordinator = record { busy = false; idle = true }

-- What `operation` does when it looks at the flag: it claims the connection, raises AppleScimBusy, or
-- waits for the event.
pub data Entry : Type 0 where
  claimed : Coordinator → Entry
  refused waits : Entry

unfoldable pub enter : Bool → Coordinator → Entry
enter wait c = elim c.busy [
  | false ↦ claimed (record { busy = true; idle = false })
  | true ↦ elim wait [ false ↦ refused | true ↦ waits ]
]

-- The `finally` of an operation.
unfoldable pub release : Coordinator → Coordinator
release c = record { busy = false; idle = true }

-- A task that waited and is resumed goes on with the loop: it looks at the flag again.
unfoldable pub resume : Coordinator → Entry
unfolding enter
resume c = enter true c

-- The coordinator with the number of tasks inside an operation, of those that wait for the event, and
-- of those that the event has released and that are not resumed yet.
pub record System : Type 0 where
  pub coordinator : Coordinator
  pub inside : ℕ
  pub waiting : ℕ
  pub released : ℕ

abbrev pub start : System
start = record { coordinator = new_coordinator; inside = 0; waiting = 0; released = 0 }

-- The steps of the tasks. `wait` blocks while the event is clear. Setting the event releases every task
-- that waits for it; when one is resumed, another task may have claimed the connection and cleared the
-- event again.
pub data Step : System → System → Type 0 where
  enters :
      {s : System} {c : Coordinator} (wait : Bool)
      → enter wait s.coordinator ≡ claimed c
      → Step s (record s { coordinator = c; inside = suc s.inside })
  is_refused : {s : System} → enter false s.coordinator ≡ refused → Step s s
  starts_waiting :
      {s : System}
      → enter true s.coordinator ≡ waits
      → s.coordinator.idle ≡ false
      → Step s (record s { waiting = suc s.waiting })
  resumes :
      {s : System} {c : Coordinator} (r : ℕ)
      → s.released ≡ suc r
      → resume s.coordinator ≡ claimed c
      → Step s (record s { coordinator = c; inside = suc s.inside; released = r })
  waits_again :
      {s : System} (r : ℕ)
      → s.released ≡ suc r
      → resume s.coordinator ≡ waits
      → s.coordinator.idle ≡ false
      → Step s (record s { waiting = suc s.waiting; released = r })
  leaves :
      {s : System} (n : ℕ)
      → s.inside ≡ suc n
      → Step s (record {
        coordinator = release s.coordinator;
        inside = n;
        waiting = 0;
        released = s.released + s.waiting;
      })

-- What any number of steps leads to.
pub data Reaches : System → System → Type 0 where
  here : {s : System} → Reaches s s
  then : {r s t : System} → Reaches r s → Step s t → Reaches r t
