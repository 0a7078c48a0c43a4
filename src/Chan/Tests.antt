-- ===== src/Chan/Tests.antt =====
-- src/chan.rs: the theorems at concrete input.
use rust_streamer_pgdb.Chan.{
  owe_one, delivered, unused, returns, wait, waits, bounded, Shared, recv, send,
}
use rust_streamer_pgdb.Chan.Steps.{
  recv_step, sends, send_step, fresh, then_step, received, receives, Event, Run, accepted,
}
use rust_streamer_pgdb.Chan.Wakes.{Run-Wakes, EndsAnnounced, RoomAnnounced, ItemsAnnounced}
use rust_streamer_pgdb.Prelude.{arith, max, ◌≤◌, ◌++◌, some, refl, ◌∷◌, [], ◌≡◌, ℕ, List}
use rust_streamer_pgdb.Chan.Order.{Run-Ordered}

abbrev start : Shared ℕ
unfolding bounded
start = bounded 1

-- A value is sent, a second one waits for room, and the first is received.
abbrev after_send : Shared ℕ
after_send = record {
  state = record { items = 7 ∷ []; senders = 1; receivers = 1 };
  not_empty = owe_one unused;
  not_full = unused;
  capacity = 1;
}

abbrev after_wait : Shared ℕ
after_wait = record after_send { not_full = wait unused }

abbrev after_recv : Shared ℕ
after_recv = record after_wait {
  state = record { items = []; senders = 1; receivers = 1 };
  not_full = owe_one (wait unused);
}

send_once : send start 7 ≡ (after_send, returns delivered)
unfolding bounded send
send_once = refl

send_full : send after_send 8 ≡ (after_wait, waits)
unfolding send
send_full = refl

recv_once : recv after_wait ≡ (after_recv, returns (some 7))
unfolding recv
recv_once = refl

abbrev three_events : List (Event ℕ)
three_events = receives (returns (some 7)) ∷ sends 8 waits ∷ sends 7 (returns delivered) ∷ []

three_steps : Run 1 three_events after_recv
unfolding bounded
three_steps =
    then_step after_wait after_recv _ _
      (then_step after_send after_wait _ _
        (then_step start after_send _ _ fresh
          (send_step start after_send 7 _ (omega arith) send_once))
        (send_step after_send after_wait 8 _ (omega arith) send_full))
      (recv_step after_wait after_recv _ (omega arith) recv_once)

Run-Ordered_example :
    (accepted three_events ≡ received three_events ++ []) × (0 ≤ 1) × (1 ≡ max 1 1)
Run-Ordered_example = Run-Ordered 1 three_events after_recv three_steps

Run-Wakes_example : ItemsAnnounced after_recv × RoomAnnounced after_recv × EndsAnnounced after_recv
Run-Wakes_example = Run-Wakes 1 three_events after_recv three_steps
