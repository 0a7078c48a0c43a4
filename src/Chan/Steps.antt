-- ===== src/Chan/Steps.antt =====
-- src/chan.rs: the steps that threads take on a channel, in any order. A thread that waits may
-- also wake of itself, as the documentation of `Condvar` allows.
use rust_streamer_pgdb.Chan.{
  Shared, Left, returns, Sent, delivered, notify_one, notify_all, spurious, relock, bounded, send,
  recv, clone_sender, drop_sender, clone_receiver, drop_receiver,
}
use rust_streamer_pgdb.Prelude.{ℕ, ◌<◌, ◌≡◌, List, [], ◌∷◌, ◌++◌, Option, some}

pub data Event {ℓ} (T : Type ℓ) : Type ℓ where
  sends : T → Left (Sent T) → Event T
  receives : Left (Option T) → Event T
  quiet : Event T

module _ {ℓ} {T : Type ℓ} where
  -- The state of a channel, what happens, and the state behind it. A call holds its own end of the
  -- channel, so the count of that side is not zero.
  pub data Step : Shared T → Event T → Shared T → Type ℓ where
    send_step :
        (s s' : Shared T) (v : T) (l : Left (Sent T))
        → 0 < s.state.senders
        → send s v ≡ (s', l)
        → Step s (sends v l) s'
    resend_step :
        (s s' : Shared T) (v : T) (l : Left (Sent T))
        → 0 < s.state.senders
        → 0 < s.not_full.woken
        → send (record s { not_full = relock s.not_full }) v ≡ (s', l)
        → Step s (sends v l) s'
    recv_step :
        (s s' : Shared T) (l : Left (Option T))
        → 0 < s.state.receivers
        → recv s ≡ (s', l)
        → Step s (receives l) s'
    rerecv_step :
        (s s' : Shared T) (l : Left (Option T))
        → 0 < s.state.receivers
        → 0 < s.not_empty.woken
        → recv (record s { not_empty = relock s.not_empty }) ≡ (s', l)
        → Step s (receives l) s'
    clone_sender_step : (s : Shared T) → 0 < s.state.senders → Step s quiet (clone_sender s)
    drop_sender_step : (s : Shared T) → 0 < s.state.senders → Step s quiet (drop_sender s)
    clone_receiver_step : (s : Shared T) → 0 < s.state.receivers → Step s quiet (clone_receiver s)
    drop_receiver_step : (s : Shared T) → 0 < s.state.receivers → Step s quiet (drop_receiver s)
    notify_not_empty :
        (s : Shared T)
        → 0 < s.not_empty.owed_one
        → Step s quiet (record s { not_empty = notify_one s.not_empty })
    notify_not_full :
        (s : Shared T)
        → 0 < s.not_full.owed_one
        → Step s quiet (record s { not_full = notify_one s.not_full })
    notify_all_not_empty :
        (s : Shared T)
        → 0 < s.not_empty.owed_all
        → Step s quiet (record s { not_empty = notify_all s.not_empty })
    notify_all_not_full :
        (s : Shared T)
        → 0 < s.not_full.owed_all
        → Step s quiet (record s { not_full = notify_all s.not_full })
    wake_not_empty :
        (s : Shared T)
        → 0 < s.not_empty.waiting
        → Step s quiet (record s { not_empty = spurious s.not_empty })
    wake_not_full :
        (s : Shared T)
        → 0 < s.not_full.waiting
        → Step s quiet (record s { not_full = spurious s.not_full })

  -- The steps since `bounded`, the last event first.
  pub data Run (capacity : ℕ) : List (Event T) → Shared T → Type ℓ where
    fresh : Run capacity [] (bounded capacity)
    then_step :
        (s s' : Shared T) (e : Event T) (es : List (Event T))
        → Run capacity es s
        → Step s e s'
        → Run capacity (e ∷ es) s'

  -- The values that `send` has accepted, in order.
  abbrev pub accepted : List (Event T) → List T
  accepted [] = []
  accepted (sends v (returns delivered) ∷ es) = accepted es ++ (v ∷ [])
  accepted (e ∷ es) = accepted es

  -- The values that `recv` has returned, in order.
  abbrev pub received : List (Event T) → List T
  received [] = []
  received (receives (returns (some v)) ∷ es) = received es ++ (v ∷ [])
  received (e ∷ es) = received es
