-- ===== src/Database/Fifo.antt =====
-- The order in which deliveries leave the queue.
use mathlib.Core.List.{Perm, perm_middle}
use mathlib.Core.List.Perm
use ssf_transmitter.Prelude.{
  ℕ, ◌≤◌, ◌<◌, ◌≡◌, ◌⊎◌, ◌++◌, Bool, true, false, List, [], ◌∷◌, arith, All, Bool-cases, inl, inr,
  length, length-map, length-take-le, take, map, where_, delete_where, refl,
}
use ssf_transmitter.Database.{OutboxRow, Db, pending}
use ssf_transmitter.Database.Outbox.{
  to_item, is_due, is_before, insert_fifo, sort_fifo, get_due_outbox,
}

-- The first row was created in an earlier second, or in the same one with no greater id.
abbrev pub IsOlder : OutboxRow → OutboxRow → Type 0
IsOlder a b = (a.created_at < b.created_at) ⊎ ((a.created_at ≡ b.created_at) × (a.id ≤ b.id))

-- Each row is older than all that follow it.
abbrev pub IsFifo : List OutboxRow → Type 0
IsFifo [] = Unit
IsFifo (r ∷ rs) = All (IsOlder r) rs × IsFifo rs

-- The row waits for a delivery whose time has come.
abbrev pub IsWaiting : ℕ → OutboxRow → Type 0
IsWaiting now r = (r.status ≡ pending) × (r.next_attempt_at ≤ now)

IsOlder-trans : (a b c : OutboxRow) → IsOlder a b → IsOlder b c → IsOlder a c
IsOlder-trans a b c h k = ground arith

is_before-IsOlder : (a b : OutboxRow) → is_before a b ≡ true → IsOlder a b
is_before-IsOlder a b h = ground arith

not_before-IsOlder : (a b : OutboxRow) → is_before a b ≡ false → IsOlder b a
not_before-IsOlder a b h = ground arith

All-IsOlder :
    (a b : OutboxRow) (rs : List OutboxRow) → IsOlder a b → All (IsOlder b) rs → All (IsOlder a) rs
All-IsOlder a b [] h k = tt
All-IsOlder a b (r ∷ rs) h k = (IsOlder-trans a b r h k.0, All-IsOlder a b rs h k.1)

insert_fifo-All :
    (P : OutboxRow → Type 0) (r : OutboxRow) (rows : List OutboxRow)
    → P r
    → All P rows
    → All P (insert_fifo r rows)
unfolding insert_fifo
insert_fifo-All P r [] h k = (h, tt)
insert_fifo-All P r (x ∷ rows) h k = elim (Bool-cases (is_before r x)) [
  | inl first ↦ rw (first, insert_fifo) (h, k)
  | inr later ↦ rw (later, insert_fifo) (k.0, insert_fifo-All P r rows h k.1)
]

insert_fifo-IsFifo : (r : OutboxRow) (rs : List OutboxRow) → IsFifo rs → IsFifo (insert_fifo r rs)
unfolding insert_fifo
insert_fifo-IsFifo r [] h = (tt, tt)
insert_fifo-IsFifo r (x ∷ rs) h = elim (Bool-cases (is_before r x)) [
  | inl first ↦
      rw (first, insert_fifo)
        ((is_before-IsOlder r x first, All-IsOlder r x rs (is_before-IsOlder r x first) h.0), h)
  | inr later ↦
      rw (later, insert_fifo)
        (
          insert_fifo-All (IsOlder x) r rs (not_before-IsOlder r x later) h.0,
          insert_fifo-IsFifo r rs h.1,
        )
]

insert_fifo-perm : (r : OutboxRow) (rs : List OutboxRow) → Perm (insert_fifo r rs) (r ∷ rs)
unfolding insert_fifo
insert_fifo-perm r [] = Perm.refl _
insert_fifo-perm r (x ∷ rs) = elim (Bool-cases (is_before r x)) [
  | inl first ↦ rw (first, insert_fifo) (Perm.refl _)
  | inr later ↦
      rw (later, insert_fifo) (Perm.trans (Perm.cons x (insert_fifo-perm r rs)) (Perm.swap r x rs))
]

sort_fifo-IsFifo : (rs : List OutboxRow) → IsFifo (sort_fifo rs)
unfolding sort_fifo
sort_fifo-IsFifo [] = tt
sort_fifo-IsFifo (r ∷ rs) = insert_fifo-IsFifo r (sort_fifo rs) (sort_fifo-IsFifo rs)

sort_fifo-perm : (rs : List OutboxRow) → Perm (sort_fifo rs) rs
unfolding sort_fifo
sort_fifo-perm [] = Perm.refl []
sort_fifo-perm (r ∷ rs) =
    Perm.trans (insert_fifo-perm r (sort_fifo rs)) (Perm.cons r (sort_fifo-perm rs))

pub length-get_due_outbox : (limit now : ℕ) (db : Db) → length (get_due_outbox limit now db) ≤ limit
unfolding get_due_outbox
length-get_due_outbox limit now db =
    rw (length-map to_item (take limit (sort_fifo (where_ (is_due now) db.outbox))))
      (length-take-le limit (sort_fifo (where_ (is_due now) db.outbox)))

where_-perm :
    (p : OutboxRow → Bool) (rows : List OutboxRow)
    → Perm (where_ p rows ++ delete_where p rows) rows
where_-perm p [] = Perm.refl []
where_-perm p (r ∷ rows) = elim (Bool-cases (p r)) [
  | inl due ↦ rw (due, where_, delete_where) (Perm.cons r (where_-perm p rows))
  | inr other ↦
      rw (other, where_, delete_where)
        (Perm.trans (perm_middle (where_ p rows) (delete_where p rows))
          (Perm.cons r (where_-perm p rows)))
]

where_-IsWaiting :
    (now : ℕ) (rows : List OutboxRow) → All (IsWaiting now) (where_ (is_due now) rows)
where_-IsWaiting now [] = tt
where_-IsWaiting now (r ∷ rows) = elim (Bool-cases (is_due now r)) [
  | inl due ↦ rw (due, where_) (ground arith, where_-IsWaiting now rows)
  | inr other ↦ rw (other, where_) (where_-IsWaiting now rows)
]

delete_where-not :
    (now : ℕ) (rows : List OutboxRow)
    → All (λ r. ¬ IsWaiting now r) (delete_where (is_due now) rows)
delete_where-not now [] = tt
delete_where-not now (r ∷ rows) = elim (Bool-cases (is_due now r)) [
  | inl due ↦ rw (due, delete_where) (delete_where-not now rows)
  | inr other ↦
      rw (other, delete_where) ((λ waits. absurd (ground arith)), delete_where-not now rows)
]

sort_fifo-All :
    (P : OutboxRow → Type 0) (rows : List OutboxRow) → All P rows → All P (sort_fifo rows)
unfolding sort_fifo
sort_fifo-All P [] h = tt
sort_fifo-All P (r ∷ rows) h = insert_fifo-All P r (sort_fifo rows) h.0 (sort_fifo-All P rows h.1)

-- The outbox, in another order, is the rows that wait for a delivery whose time has come, the older
-- before the younger, and the others, of which none waits for one. What is due is the head of the
-- former, up to the limit: none is passed over for a younger one, and none is invented.
pub get_due_outbox-IsFifo :
    (limit now : ℕ) (db : Db)
    → (rows : List OutboxRow) × (others : List OutboxRow) × (get_due_outbox limit now db
        ≡ map to_item (take limit rows))
      × IsFifo rows
      × All (IsWaiting now) rows
      × All (λ r. ¬ IsWaiting now r) others
      × Perm (rows ++ others) db.outbox
unfolding get_due_outbox
get_due_outbox-IsFifo limit now db =
    let waiting = where_ (is_due now) db.outbox in
    let others = delete_where (is_due now) db.outbox in
    (
      sort_fifo waiting,
      others,
      refl,
      sort_fifo-IsFifo waiting,
      sort_fifo-All (IsWaiting now) waiting (where_-IsWaiting now db.outbox),
      delete_where-not now db.outbox,
      Perm.trans (Perm.append_right others (sort_fifo-perm waiting))
          (where_-perm (is_due now) db.outbox),
    )
