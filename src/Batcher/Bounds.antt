-- ===== src/Batcher/Bounds.antt =====
-- The goroutine keeps the channel's capacity, and the channel within it.
use aegis_edr.Prelude.{
  ◌≡◌, refl, ap, ◌≤◌, List, [], ◌∷◌, ◌++◌, arith, length, Bool-cases, inl, inr, leb,
}
use aegis_edr.Channel.{Fits}
use aegis_edr.Batcher.{
  Phase, running, draining, Loop, Signal, arrives, ticks, closes, empties, cancels, hand_over,
  flush, take_event, receive, finish, in_phase, step, Outcome,
}

module _ {ℓ} {E : Type ℓ} where
  abbrev Bounded : Loop E → Outcome E → Type 0
  Bounded l r =
      (length r.0.queue.buffer ≤ length l.queue.buffer) × (r.0.queue.capacity ≡ l.queue.capacity)

  hand_over-Bounded : (l : Loop E) (b : List E) → Bounded l (hand_over l b)
  unfolding hand_over
  hand_over-Bounded l [] = (omega arith, refl)
  hand_over-Bounded l (e ∷ es) = (omega arith, refl)

  take_event-Bounded : (l : Loop E) (q : List E) → l.queue.buffer ≡ q → Bounded l (take_event l q)
  unfolding take_event flush
  take_event-Bounded l [] h = (omega arith, refl)
  take_event-Bounded l (e ∷ rest) h =
      let l' : Loop E = record l {
        queue = record l.queue { buffer = rest };
        batch = l.batch ++ e ∷ [];
      } in
      let k = hand_over-Bounded l' l'.batch in
      let shorter : length rest ≤ length l.queue.buffer = omega (arith, ap length h) in
      elim (Bool-cases (leb 100 (length l'.batch))) [
        | inl full ↦ rw full (omega arith, k.1)
        | inr room ↦ rw room (omega arith, refl)
      ]

  finish-Bounded : (l : Loop E) (q : List E) → Bounded l (finish l q)
  unfolding finish flush
  finish-Bounded l [] = hand_over-Bounded l l.batch
  finish-Bounded l (e ∷ es) = (omega arith, refl)

  in_phase-Bounded : (p : Phase) (s : Signal) (l : Loop E) → Bounded l (in_phase p s l)
  unfolding in_phase receive flush
  in_phase-Bounded running arrives l = take_event-Bounded l l.queue.buffer refl
  in_phase-Bounded running ticks l = hand_over-Bounded l l.batch
  in_phase-Bounded running closes l = (omega arith, refl)
  in_phase-Bounded running cancels l = hand_over-Bounded l l.batch
  in_phase-Bounded draining arrives l = take_event-Bounded l l.queue.buffer refl
  in_phase-Bounded draining empties l = finish-Bounded l l.queue.buffer
  in_phase-Bounded _ _ l = (omega arith, refl)

  pub step-Fits :
      (s : Signal) (l : Loop E)
      → Fits l.queue
      → Fits (step s l).0.queue × ((step s l).0.queue.capacity ≡ l.queue.capacity)
  unfolding step
  step-Fits s l h = let b = in_phase-Bounded l.phase s l in (omega (arith, b.0, b.1), b.1)
