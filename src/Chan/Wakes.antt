-- ===== src/Chan/Wakes.antt =====
-- src/chan.rs: no wakeup is lost, though a call notifies only behind `drop(state)`.
use rust_streamer_pgdb.Chan.{
  Shared, Left, Sent, notify_one, notify_all, relock, bounded, send, pop_front, on_front, recv,
  clone_sender, drop_sender, clone_receiver, drop_receiver,
}
use rust_streamer_pgdb.Prelude.{
  ◌⊎◌, zero, suc, ℕ, ◌<◌, ◌≤◌, ◌≡◌, ◌+◌, ◌-◌, List, [], ◌∷◌, Option, some, none, length, refl,
  subst, inl, inr, ◌==◌, ltb, Bool-cases, arith, length-append,
}
use rust_streamer_pgdb.Chan.Steps.{
  Event, Step, Run, fresh, then_step, send_step, resend_step, recv_step, rerecv_step,
  clone_sender_step, drop_sender_step, clone_receiver_step, drop_receiver_step, notify_not_empty,
  notify_not_full, notify_all_not_empty, notify_all_not_full, wake_not_empty, wake_not_full,
}

-- An implication between decidable statements on numbers, as a choice.
waiting_or : {P : Type 0} (n : ℕ) → (0 < n → P) → (n ≡ 0) ⊎ P
waiting_or zero f = inl refl
waiting_or (suc n) f = inr (f (omega arith))

gone_or : {P : Type 0} (n : ℕ) → (n ≡ 0 → P) → (0 < n) ⊎ P
gone_or zero f = inr (f refl)
gone_or (suc n) f = inl (omega arith)

module _ {ℓ} {T : Type ℓ} where
  -- While a receiver waits, every item in the queue has a receiver that is on its way to it, or a
  -- notification that is still to come.
  abbrev ItemsMatched : Shared T → Type 0
  ItemsMatched s =
      0 < s.not_empty.waiting → length s.state.items ≤ s.not_empty.woken + s.not_empty.owed_one

  -- While a sender waits, so has every free place, unless the receivers are gone.
  abbrev RoomMatched : Shared T → Type 0
  RoomMatched s =
      0 < s.state.receivers
      → 0 < s.not_full.waiting
      → s.capacity ≤ length s.state.items + s.not_full.woken + s.not_full.owed_one

  -- A thread waits on the end of a channel whose other end is gone only until the `notify_all` that
  -- is still to come.
  abbrev EndsMatched : Shared T → Type 0
  EndsMatched s =
      (s.state.senders ≡ 0 → 0 < s.not_empty.waiting → 0 < s.not_empty.owed_all)
      × (s.state.receivers ≡ 0 → 0 < s.not_full.waiting → 0 < s.not_full.owed_all)

  abbrev Wakes : Shared T → Type 0
  Wakes s = ItemsMatched s × RoomMatched s × EndsMatched s

  send-Wakes :
      (s s' : Shared T) (v : T) (l : Left (Sent T))
      → ItemsMatched s
      → (0 < s.state.receivers
          → 0 < s.not_full.waiting
          → s.capacity ≤ length s.state.items + s.not_full.woken + s.not_full.owed_one + 1)
      → EndsMatched s
      → send s v ≡ (s', l)
      → Wakes s'
  unfolding send
  send-Wakes s s' v l i r e q = elim (Bool-cases (s.state.receivers == 0)) [
    | inl closed ↦
        subst (λ (z : Shared T × Left (Sent T)). Wakes z.0) (rw closed at q)
          (i, (λ p w. ground arith), e)
    | inr open_end ↦ elim (Bool-cases (ltb (length s.state.items) s.capacity)) [
      | inl room ↦
          subst (λ (z : Shared T × Left (Sent T)). Wakes z.0) (rw (open_end, room) at q)
            (
              (λ w. omega (arith, i w, length-append s.state.items (v ∷ []))),
              (λ p w. omega (arith, r p w, length-append s.state.items (v ∷ []))),
              e,
            )
      | inr full ↦
          subst (λ (z : Shared T × Left (Sent T)). Wakes z.0) (rw (open_end, full) at q)
            (i, (λ p w. ground arith), (e.0, (λ z. ground arith)))
    ]
  ]

  on_front-Wakes :
      (s s' : Shared T) (o : Option (T × List T)) (l : Left (Option T))
      → pop_front s.state.items ≡ o
      → (0 < s.not_empty.waiting
          → length s.state.items ≤ s.not_empty.woken + s.not_empty.owed_one + 1)
      → RoomMatched s
      → EndsMatched s
      → on_front s o ≡ (s', l)
      → Wakes s'
  on_front-Wakes s s' (some (v, rest)) l f i r e q =
      let shorter = popped s.state.items f in
      subst (λ (z : Shared T × Left (Option T)). Wakes z.0) q
        ((λ w. omega (arith, i w, shorter)), (λ p w. omega (arith, r p w, shorter)), e)
    where
      popped : (xs : List T) → pop_front xs ≡ some (v, rest) → length xs ≡ length rest + 1
      popped [] e = cc
      popped (x ∷ xs) e = ground arith
  on_front-Wakes s s' none l f i r e q =
      let nothing = emptied s.state.items f in
      elim (Bool-cases (s.state.senders == 0)) [
        | inl closed ↦
            subst (λ (z : Shared T × Left (Option T)). Wakes z.0) (rw closed at q)
              ((λ w. omega (arith, nothing)), r, e)
        | inr open_end ↦
            subst (λ (z : Shared T × Left (Option T)). Wakes z.0) (rw open_end at q)
              ((λ w. omega (arith, nothing)), r, ((λ z. ground arith), e.1))
      ]
    where
      emptied : (xs : List T) → pop_front xs ≡ none → length xs ≡ 0
      emptied [] e = refl
      emptied (x ∷ xs) e = cc

  Step-Wakes : (s s' : Shared T) (e : Event T) → Step s e s' → Wakes s → Wakes s'
  unfolding recv clone_sender drop_sender clone_receiver drop_receiver notify_one notify_all
  Step-Wakes _ _ _ (send_step s s' v l h q) w =
      send-Wakes s s' v l w.0 (λ p z. omega (arith, w.1 p z)) w.2 q
  Step-Wakes _ _ _ (resend_step s s' v l h k q) w =
      send-Wakes (record s { not_full = relock s.not_full }) s' v l w.0
        (λ p z. omega (arith, w.1 p z)) w.2 q
  Step-Wakes _ _ _ (recv_step s s' l h q) w =
      on_front-Wakes s s' _ l refl (λ z. omega (arith, w.0 z)) w.1 w.2 q
  Step-Wakes _ _ _ (rerecv_step s s' l h k q) w =
      on_front-Wakes (record s { not_empty = relock s.not_empty }) s' _ l refl
        (λ z. omega (arith, w.0 z)) w.1 w.2 q
  Step-Wakes _ _ _ (clone_sender_step s h) w = (w.0, w.1, ((λ z. ground arith), w.2.1))
  Step-Wakes _ _ _ (drop_sender_step s h) w = elim (Bool-cases (s.state.senders - 1 == 0)) [
    | inl last ↦ rw last (w.0, w.1, ((λ y z. omega arith), w.2.1))
    | inr others ↦ rw others (w.0, w.1, ((λ y z. ground arith), w.2.1))
  ]
  Step-Wakes _ _ _ (clone_receiver_step s h) w =
      (w.0, (λ p z. w.1 h z), (w.2.0, (λ z. ground arith)))
  Step-Wakes _ _ _ (drop_receiver_step s h) w = elim (Bool-cases (s.state.receivers - 1 == 0)) [
    | inl last ↦ rw last (w.0, (λ p z. ground arith), (w.2.0, (λ y z. omega arith)))
    | inr others ↦ rw others (w.0, (λ p z. w.1 h z), (w.2.0, (λ y z. ground arith)))
  ]
  Step-Wakes _ _ _ (notify_not_empty s h) w = elim (Bool-cases (s.not_empty.waiting == 0)) [
    | inl nobody ↦ rw nobody ((λ z. ground arith), w.1, ((λ y z. ground arith), w.2.1))
    | inr someone ↦
        let waits_now : 0 < s.not_empty.waiting = ground arith in
        rw someone ((λ z. omega (arith, w.0 waits_now)), w.1, ((λ y z. w.2.0 y waits_now), w.2.1))
  ]
  Step-Wakes _ _ _ (notify_not_full s h) w = elim (Bool-cases (s.not_full.waiting == 0)) [
    | inl nobody ↦ rw nobody (w.0, (λ p z. ground arith), (w.2.0, (λ y z. ground arith)))
    | inr someone ↦
        let waits_now : 0 < s.not_full.waiting = ground arith in
        rw someone
          (w.0, (λ p z. omega (arith, w.1 p waits_now)), (w.2.0, (λ y z. w.2.1 y waits_now)))
  ]
  Step-Wakes _ _ _ (notify_all_not_empty s h) w =
      ((λ z. ground arith), w.1, ((λ y z. ground arith), w.2.1))
  Step-Wakes _ _ _ (notify_all_not_full s h) w =
      (w.0, (λ p z. ground arith), (w.2.0, (λ y z. ground arith)))
  Step-Wakes _ _ _ (wake_not_empty s h) w =
      ((λ z. omega (arith, w.0 h)), w.1, ((λ y z. w.2.0 y h), w.2.1))
  Step-Wakes _ _ _ (wake_not_full s h) w =
      (w.0, (λ p z. omega (arith, w.1 p h)), (w.2.0, (λ y z. w.2.1 y h)))

  -- While a receiver waits, every item in the queue has a receiver that is on its way to it, or a
  -- notification that is still to come.
  abbrev pub ItemsAnnounced : Shared T → Type 0
  ItemsAnnounced s =
      (s.not_empty.waiting ≡ 0) ⊎ (length s.state.items ≤ s.not_empty.woken + s.not_empty.owed_one)

  -- While a sender waits, so has every free place, unless the receivers are gone.
  abbrev pub RoomAnnounced : Shared T → Type 0
  RoomAnnounced s =
      (s.state.receivers ≡ 0)
      ⊎ ((s.not_full.waiting ≡ 0)
          ⊎ (s.capacity ≤ length s.state.items + s.not_full.woken + s.not_full.owed_one))

  -- A thread waits on an end of a channel whose other end is gone only until the `notify_all` that
  -- is still to come.
  abbrev pub EndsAnnounced : Shared T → Type 0
  EndsAnnounced s =
      ((0 < s.state.senders) ⊎ ((s.not_empty.waiting ≡ 0) ⊎ (0 < s.not_empty.owed_all)))
      × ((0 < s.state.receivers) ⊎ ((s.not_full.waiting ≡ 0) ⊎ (0 < s.not_full.owed_all)))

  Run-Matched : (capacity : ℕ) (es : List (Event T)) (s : Shared T) → Run capacity es s → Wakes s
  unfolding bounded
  Run-Matched n _ _ fresh =
      ((λ z. ground arith), (λ y z. ground arith), ((λ y z. ground arith), (λ y z. ground arith)))
  Run-Matched n _ _ (then_step s s' e es run step) = Step-Wakes s s' e step (Run-Matched n es s run)

  -- However the threads interleave, no wakeup is lost: while a receiver waits, every item is
  -- matched by a receiver that was woken or a notification still to be made; while a sender waits
  -- and a receiver is left, every free place is; and a thread that waits for an end that is gone is
  -- still to be notified.
  pub Run-Wakes :
      (capacity : ℕ) (es : List (Event T)) (s : Shared T)
      → Run capacity es s
      → ItemsAnnounced s × RoomAnnounced s × EndsAnnounced s
  Run-Wakes n es s run =
      let w = Run-Matched n es s run in
      (
        waiting_or s.not_empty.waiting w.0,
        waiting_or s.state.receivers (λ p. waiting_or s.not_full.waiting (w.1 p)),
        (
          gone_or s.state.senders (λ z. waiting_or s.not_empty.waiting (w.2.0 z)),
          gone_or s.state.receivers (λ z. waiting_or s.not_full.waiting (w.2.1 z)),
        ),
      )
