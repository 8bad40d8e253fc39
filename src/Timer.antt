-- ===== src/Timer.antt =====
-- include/voris/io/timer.hpp and src/timer.cpp: a binary heap of deadlines, with an index from a
-- timer's identifier to its place. A vector is its size and a function from its indices: what the
-- function says past the size is never read. A time is a count of nanoseconds.
pub mod Key
pub mod Index
pub mod Order
pub mod Up
pub mod Down
pub mod Erase
pub mod Calls
pub mod Pop
pub mod Handed
pub mod Batch
pub mod Plan
pub mod Reached
pub mod Ready
pub mod Paid
pub mod Run
pub mod Due
mod Tests
use vio.Prelude.{
  ℕ, zero, suc, ◌+◌, ◌-◌, ◌*◌, ◌/◌, Bool, true, false, not, ◌&&◌, ◌||◌, Option, none, some, List,
  [], ◌∷◌, ◌++◌, inc, leb, ltb, ◌==◌, if◌then◌else◌,
}
use vio.Prelude.Int.{ℤ, pos, ltb_ℤ, leb_ℤ, eq_ℤ}

pub record Entry : Type 0 where
  pub deadline : ℤ
  pub id : ℕ

pub record TimerHandle : Type 0 where
  pub owner_id : ℕ
  pub id : ℕ

-- `entries_` is `size` and `entries`, and `indices_` is `indices`.
pub record TimerHeap : Type 0 where
  pub owner_id : ℕ
  pub next_id : ℕ
  pub size : ℕ
  pub entries : ℕ → Entry
  pub indices : ℕ → Option ℕ

abbrev pub new : ℕ → TimerHeap
new owner_id = record {
  owner_id = owner_id;
  next_id = 1;
  size = 0;
  entries = λ _. record { deadline = pos 0; id = 0 };
  indices = λ _. none;
}

-- The counter of owner numbers, which it takes one from: the new counter, and the number.
abbrev pub allocate_owner_id : ℕ → ℕ × ℕ
allocate_owner_id next_owner_id = (inc next_owner_id, next_owner_id)

-- What moving from a heap makes: the heap that is moved to, and the one left, under a number of its own.
abbrev pub move_heap : TimerHeap → ℕ → TimerHeap × TimerHeap
move_heap other owner_id = (other, new owner_id)

unfoldable pub entry_less : Entry → Entry → Bool
entry_less lhs rhs =
    if ltb_ℤ lhs.deadline rhs.deadline
    then true
    else if ltb_ℤ rhs.deadline lhs.deadline
    then false
    else ltb lhs.id rhs.id

-- Each entry's index follows it.
unfoldable pub swap_entries : TimerHeap → ℕ → ℕ → TimerHeap
swap_entries t lhs rhs =
    let x = t.entries lhs in
    let y = t.entries rhs in
    if lhs == rhs then t else record t {
      entries = λ c. if rhs == c then x else if lhs == c then y else t.entries c;
      indices = λ j. if x.id == j then some rhs else if y.id == j then some lhs else t.indices j;
    }

abbrev pub parent : ℕ → ℕ
parent index = (index - 1) / 2

-- The loop of `sift_up`: it halves the index, which is fuel enough.
sift_up_loop : ℕ → TimerHeap → ℕ → TimerHeap
sift_up_loop zero t index = t
sift_up_loop (suc fuel) t index =
    let risen = sift_up_loop fuel (swap_entries t index (parent index)) (parent index) in
    if index == 0 || not (entry_less (t.entries index) (t.entries (parent index))) then t else risen

unfoldable pub sift_up : TimerHeap → ℕ → TimerHeap
unfolding sift_up_loop
sift_up t index = sift_up_loop index t index

unfoldable pub smallest_child : TimerHeap → ℕ → ℕ
smallest_child t index =
    let left = index * 2 + 1 in
    let right = left + 1 in
    if ltb right t.size && entry_less (t.entries right) (t.entries left) then right else left

-- The loop of `sift_down`: the index grows towards the size, which is fuel enough.
sift_down_loop : ℕ → TimerHeap → ℕ → TimerHeap
sift_down_loop zero t index = t
sift_down_loop (suc fuel) t index =
    let smallest = smallest_child t index in
    let sunk = sift_down_loop fuel (swap_entries t index smallest) smallest in
    if leb t.size (index * 2 + 1) || not (entry_less (t.entries smallest) (t.entries index))
    then t
    else sunk

unfoldable pub sift_down : TimerHeap → ℕ → TimerHeap
unfolding sift_down_loop
sift_down t index = sift_down_loop t.size t index

unfoldable pub repair_at : TimerHeap → ℕ → TimerHeap
repair_at t index =
    if leb t.size index
    then t
    else if ltb 0 index && entry_less (t.entries index) (t.entries (parent index))
    then sift_up t index
    else sift_down t index

-- `erase_at` up to the repair.
unfoldable pub take_out : TimerHeap → ℕ → TimerHeap
take_out t index =
    let removed_id = (t.entries index).id in
    let last = t.size - 1 in
    let swapped = if index == last then t else swap_entries t index last in
    record swapped {
      size = last;
      indices = λ j. if removed_id == j then none else swapped.indices j;
    }

unfoldable pub erase_at : TimerHeap → ℕ → TimerHeap
erase_at t index = repair_at (take_out t index) index

-- `add` up to the repair. A failure to allocate is not modelled.
unfoldable pub put_last : TimerHeap → ℤ → TimerHeap
put_last t deadline =
    let index = t.size in
    let id = t.next_id in
    record t {
      next_id = inc id;
      size = suc index;
      entries = λ c. if index == c then record { deadline = deadline; id = id } else t.entries c;
      indices = λ j. if id == j then some index else t.indices j;
    }

unfoldable pub add : TimerHeap → ℤ → TimerHeap × TimerHandle
add t deadline =
    (sift_up (put_last t deadline) t.size, record { owner_id = t.owner_id; id = t.next_id })

unfoldable pub valid : TimerHandle → Bool
valid h = not (h.owner_id == 0) && not (h.id == 0)

-- `cancel` with what the index says.
abbrev pub cancel_at : TimerHeap → Option ℕ → TimerHeap × Bool
cancel_at t none = (t, false)
cancel_at t (some i) = (erase_at t i, true)

unfoldable pub cancel : TimerHeap → TimerHandle → TimerHeap × Bool
cancel t handle =
    if not (valid handle) || not (handle.owner_id == t.owner_id)
    then (t, false)
    else cancel_at t (t.indices handle.id)

abbrev pub next_deadline : TimerHeap → Option ℤ
next_deadline t = if t.size == 0 then none else some (t.entries 0).deadline
