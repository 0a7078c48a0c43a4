-- ===== src/Chan.antt =====
-- src/chan.rs: the bounded channel. The mutex makes what a call does between taking and leaving
-- the lock one step, so a call is a function of the shared state. The notification comes after the
-- lock is left, so it is a step of its own, and until then it is owed.
pub mod Steps
pub mod Order
pub mod Wakes
pub mod Tests
use rust_streamer_pgdb.Prelude.{
  ◌++◌, length, ltb, ◌∷◌, max, some, ◌==◌, none, [], if◌then◌else◌, ℕ, ◌-◌, ◌+◌, Option, List,
}

pub record State {ℓ} (T : Type ℓ) : Type ℓ where
  pub items : List T
  pub senders : ℕ
  pub receivers : ℕ

-- `Condvar`, by its threads: those that wait, those that were notified and have yet to take the
-- lock again, and the calls of `notify_one` and `notify_all` that are still to be made.
pub record Condvar : Type 0 where
  pub waiting : ℕ
  pub woken : ℕ
  pub owed_one : ℕ
  pub owed_all : ℕ

pub record Shared {ℓ} (T : Type ℓ) : Type ℓ where
  pub state : State T
  pub not_empty : Condvar
  pub not_full : Condvar
  pub capacity : ℕ

abbrev pub unused : Condvar
unused = record { waiting = 0; woken = 0; owed_one = 0; owed_all = 0 }

-- `wait`
abbrev pub wait : Condvar → Condvar
wait c = record c { waiting = c.waiting + 1 }

-- The call that `drop(state)` leaves to be made.
abbrev pub owe_one : Condvar → Condvar
owe_one c = record c { owed_one = c.owed_one + 1 }

abbrev pub owe_all : Condvar → Condvar
owe_all c = record c { owed_all = c.owed_all + 1 }

-- `notify_one`
unfoldable pub notify_one : Condvar → Condvar
notify_one c =
    if c.waiting == 0
    then record c { owed_one = c.owed_one - 1 }
    else record c { owed_one = c.owed_one - 1; waiting = c.waiting - 1; woken = c.woken + 1 }

-- `notify_all`
unfoldable pub notify_all : Condvar → Condvar
notify_all c = record c { owed_all = c.owed_all - 1; waiting = 0; woken = c.woken + c.waiting }

-- A thread that wakes without being notified.
abbrev pub spurious : Condvar → Condvar
spurious c = record c { waiting = c.waiting - 1; woken = c.woken + 1 }

-- A thread that was notified takes the lock again.
abbrev pub relock : Condvar → Condvar
relock c = record c { woken = c.woken - 1 }

-- How a round of `send` or `recv` leaves the lock: with the call's result, or by waiting.
pub data Left {ℓ} (A : Type ℓ) : Type ℓ where
  returns : A → Left A
  waits : Left A

-- `Result<(), T>` of `send`.
pub data Sent {ℓ} (T : Type ℓ) : Type ℓ where
  delivered : Sent T
  refused : T → Sent T

module _ {ℓ} {T : Type ℓ} where
  -- `bounded`
  unfoldable pub bounded : ℕ → Shared T
  bounded capacity = record {
    state = record { items = []; senders = 1; receivers = 1 };
    not_empty = unused;
    not_full = unused;
    capacity = max capacity 1;
  }

  -- A round of the loop of `Sender::send`.
  unfoldable pub send : Shared T → T → Shared T × Left (Sent T)
  send s value =
      if s.state.receivers == 0
      then (s, returns (refused value))
      else if ltb (length s.state.items) s.capacity
      then (
        record s {
          state = record (s.state) { items = s.state.items ++ (value ∷ []) };
          not_empty = owe_one s.not_empty;
        },
        returns delivered,
      )
      else (record s { not_full = wait s.not_full }, waits)

  -- `pop_front`
  abbrev pub pop_front : List T → Option (T × List T)
  pop_front [] = none
  pop_front (x ∷ xs) = some (x, xs)

  -- On the item taken from the front.
  abbrev pub on_front : Shared T → Option (T × List T) → Shared T × Left (Option T)
  on_front s (some (value, rest)) = (
    record s { state = record (s.state) { items = rest }; not_full = owe_one s.not_full },
    returns (some value),
  )
  on_front s none =
      if s.state.senders == 0
      then (s, returns none)
      else (record s { not_empty = wait s.not_empty }, waits)

  -- A round of the loop of `Receiver::recv`.
  unfoldable pub recv : Shared T → Shared T × Left (Option T)
  recv s = on_front s (pop_front s.state.items)

  -- `Clone for Sender`
  unfoldable pub clone_sender : Shared T → Shared T
  clone_sender s = record s { state = record (s.state) { senders = s.state.senders + 1 } }

  -- `Drop for Sender`
  unfoldable pub drop_sender : Shared T → Shared T
  drop_sender s =
      let left = record s { state = record (s.state) { senders = s.state.senders - 1 } } in
      if s.state.senders - 1 == 0 then record left { not_empty = owe_all s.not_empty } else left

  -- `Clone for Receiver`
  unfoldable pub clone_receiver : Shared T → Shared T
  clone_receiver s = record s { state = record (s.state) { receivers = s.state.receivers + 1 } }

  -- `Drop for Receiver`
  unfoldable pub drop_receiver : Shared T → Shared T
  drop_receiver s =
      let left = record s { state = record (s.state) { receivers = s.state.receivers - 1 } } in
      if s.state.receivers - 1 == 0 then record left { not_full = owe_all s.not_full } else left
