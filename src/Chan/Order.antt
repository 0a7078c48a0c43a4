-- ===== src/Chan/Order.antt =====
-- src/chan.rs: the order of the values, and the bound on those under way.
use rust_streamer_pgdb.Chan.{
  Shared, Left, returns, waits, Sent, delivered, refused, relock, bounded, send, pop_front,
  on_front, recv, clone_sender, drop_sender, clone_receiver, drop_receiver,
}
use rust_streamer_pgdb.Prelude.{
  ℕ, ◌<◌, ◌≤◌, ◌≡◌, max, List, [], ◌∷◌, ◌++◌, Option, some, none, length, refl, ap, sym, subst, ◌∙◌,
  inl, inr, ◌==◌, ltb, Bool-cases, arith, append_assoc, length-append,
}
use rust_streamer_pgdb.Chan.Steps.{
  Event, sends, receives, quiet, Step, Run, fresh, then_step, accepted, received, send_step,
  resend_step, recv_step, rerecv_step, clone_sender_step, drop_sender_step, clone_receiver_step,
  drop_receiver_step, notify_not_empty, notify_not_full, notify_all_not_empty, notify_all_not_full,
  wake_not_empty, wake_not_full,
}

module _ {ℓ} {T : Type ℓ} where
  -- What a step does to the queue: it accepts at the back, returns from the front, or leaves it.
  abbrev Moves : Shared T → Event T → Shared T → Type ℓ
  Moves s (sends v (returns delivered)) s' =
      (s'.state.items ≡ s.state.items ++ (v ∷ [])) × (length s.state.items < s.capacity)
  Moves s (receives (returns (some v))) s' = s.state.items ≡ v ∷ s'.state.items
  Moves s e s' = s'.state.items ≡ s.state.items

  send-Moves :
      (s s' : Shared T) (v : T) (l : Left (Sent T))
      → send s v ≡ (s', l)
      → Moves s (sends v l) s' × (s'.capacity ≡ s.capacity)
  unfolding send
  send-Moves s s' v l q = elim (Bool-cases (s.state.receivers == 0)) [
    | inl closed ↦
        let same = rw closed at q in
        subst
          (λ (z : Shared T × Left (Sent T)).
            Moves s (sends v z.1) z.0 × (z.0.capacity ≡ s.capacity))
          same (refl, refl)
    | inr open_end ↦ elim (Bool-cases (ltb (length s.state.items) s.capacity)) [
      | inl room ↦
          let same = rw (open_end, room) at q in
          subst
            (λ (z : Shared T × Left (Sent T)).
              Moves s (sends v z.1) z.0 × (z.0.capacity ≡ s.capacity))
            same ((refl, ground arith), refl)
      | inr full ↦
          let same = rw (open_end, full) at q in
          subst
            (λ (z : Shared T × Left (Sent T)).
              Moves s (sends v z.1) z.0 × (z.0.capacity ≡ s.capacity))
            same (refl, refl)
    ]
  ]

  on_front-Moves :
      (s s' : Shared T) (o : Option (T × List T)) (l : Left (Option T))
      → pop_front s.state.items ≡ o
      → on_front s o ≡ (s', l)
      → Moves s (receives l) s' × (s'.capacity ≡ s.capacity)
  on_front-Moves s s' (some (v, rest)) l e q =
      subst
        (λ (z : Shared T × Left (Option T)).
          Moves s (receives z.1) z.0 × (z.0.capacity ≡ s.capacity))
        q (front s.state.items e, refl)
    where
      front : (xs : List T) → pop_front xs ≡ some (v, rest) → xs ≡ v ∷ rest
      front [] e = cc
      front (x ∷ xs) e = cc
  on_front-Moves s s' none l e q = elim (Bool-cases (s.state.senders == 0)) [
    | inl closed ↦
        subst
          (λ (z : Shared T × Left (Option T)).
            Moves s (receives z.1) z.0 × (z.0.capacity ≡ s.capacity))
          (rw closed at q) (refl, refl)
    | inr open_end ↦
        subst
          (λ (z : Shared T × Left (Option T)).
            Moves s (receives z.1) z.0 × (z.0.capacity ≡ s.capacity))
          (rw open_end at q) (refl, refl)
  ]

  Step-Moves :
      (s s' : Shared T) (e : Event T) → Step s e s' → Moves s e s' × (s'.capacity ≡ s.capacity)
  unfolding recv clone_sender drop_sender clone_receiver drop_receiver
  Step-Moves _ _ _ (send_step s s' v l h q) = send-Moves s s' v l q
  Step-Moves _ _ _ (resend_step s s' v l h w q) =
      send-Moves (record s { not_full = relock s.not_full }) s' v l q
  Step-Moves _ _ _ (recv_step s s' l h q) = on_front-Moves s s' _ l refl q
  Step-Moves _ _ _ (rerecv_step s s' l h w q) =
      on_front-Moves (record s { not_empty = relock s.not_empty }) s' _ l refl q
  Step-Moves _ _ _ (clone_sender_step s h) = (refl, refl)
  Step-Moves _ _ _ (drop_sender_step s h) = ground arith
  Step-Moves _ _ _ (clone_receiver_step s h) = (refl, refl)
  Step-Moves _ _ _ (drop_receiver_step s h) = ground arith
  Step-Moves _ _ _ (notify_not_empty s h) = (refl, refl)
  Step-Moves _ _ _ (notify_not_full s h) = (refl, refl)
  Step-Moves _ _ _ (notify_all_not_empty s h) = (refl, refl)
  Step-Moves _ _ _ (notify_all_not_full s h) = (refl, refl)
  Step-Moves _ _ _ (wake_not_empty s h) = (refl, refl)
  Step-Moves _ _ _ (wake_not_full s h) = (refl, refl)

  abbrev Ordered : ℕ → List (Event T) → Shared T → Type ℓ
  Ordered capacity es s =
      (accepted es ≡ received es ++ s.state.items)
      × (length s.state.items ≤ s.capacity)
      × (s.capacity ≡ max capacity 1)

  extend :
      (capacity : ℕ) (es : List (Event T)) (e : Event T) (s s' : Shared T)
      → Ordered capacity es s
      → Moves s e s'
      → s'.capacity ≡ s.capacity
      → Ordered capacity (e ∷ es) s'
  extend n es (sends v (returns delivered)) s s' o m c = (
    ap (λ xs. xs ++ (v ∷ [])) o.0
        ∙ append_assoc (received es) s.state.items (v ∷ [])
        ∙ ap (λ xs. received es ++ xs) (sym m.0),
    omega (arith, o.1, m.1, c, ap length m.0, length-append s.state.items (v ∷ [])),
    c ∙ o.2,
  )
  extend n es (sends v (returns (refused w))) s s' o m c =
      (o.0 ∙ ap (λ xs. received es ++ xs) (sym m), rw (m, c) (o.1), c ∙ o.2)
  extend n es (sends v waits) s s' o m c =
      (o.0 ∙ ap (λ xs. received es ++ xs) (sym m), rw (m, c) (o.1), c ∙ o.2)
  extend n es (receives (returns (some v))) s s' o m c = (
    o.0 ∙ ap (λ xs. received es ++ xs) m ∙ sym (append_assoc (received es) (v ∷ []) s'.state.items),
    omega (arith, o.1, c, ap length m),
    c ∙ o.2,
  )
  extend n es (receives (returns none)) s s' o m c =
      (o.0 ∙ ap (λ xs. received es ++ xs) (sym m), rw (m, c) (o.1), c ∙ o.2)
  extend n es (receives waits) s s' o m c =
      (o.0 ∙ ap (λ xs. received es ++ xs) (sym m), rw (m, c) (o.1), c ∙ o.2)
  extend n es quiet s s' o m c =
      (o.0 ∙ ap (λ xs. received es ++ xs) (sym m), rw (m, c) (o.1), c ∙ o.2)

  -- However the threads interleave, what the receivers have been given and what is under way, one
  -- behind the other, is what the senders were told is delivered, in that order, and never more
  -- than the capacity (at least one) is under way.
  pub Run-Ordered :
      (capacity : ℕ) (es : List (Event T)) (s : Shared T)
      → Run capacity es s
      → (accepted es ≡ received es ++ s.state.items)
        × (length s.state.items ≤ s.capacity)
        × (s.capacity ≡ max capacity 1)
  unfolding bounded
  Run-Ordered n _ _ fresh = (refl, omega arith, refl)
  Run-Ordered n _ _ (then_step s s' e es run step) =
      let m = Step-Moves s s' e step in extend n es e s s' (Run-Ordered n es s run) m.0 m.1
