-- ===== src/Batcher/Liveness.antt =====
-- The goroutine of the event router and of the telemetry pipeline: what is in the channel is handed
-- over, if the goroutine gets its turns.
use mathlib.Core.List.{append-nil, append_assoc, head-eq_of_cons-eq, tail-eq_of_cons-eq}
use mathlib.Core.Path.{ap₂}
use aegis_edr.Prelude.{
  ◌≡◌, refl, sym, ap, ◌∙◌, ◌≤◌, ◌+◌, ◌-◌, ℕ, suc, if◌then◌else◌, List, [], ◌∷◌, ◌++◌, arith, length,
  length-append, Bool-cases, inl, inr, ltb,
}
use aegis_edr.Channel.{try_send}
use aegis_edr.Batcher.{
  running, arrives, ticks, Loop, hand_over, flush, take_event, receive, in_phase, step, contents,
  handed,
}
use aegis_edr.Batcher.Drain.{take_event_takes, hand_over_keeps_queue}
use aegis_edr.Batcher.Order.{step-contents}

-- A sender's turn, or one of the goroutine.
pub data Turn {ℓ} (E : Type ℓ) : Type ℓ where
  sends : E → Turn E
  takes tick : Turn E

module _ {ℓ} {E : Type ℓ} where
  -- The loop after a turn, the events that are handed over, and those that the channel accepted.
  turn : Turn E → Loop E → Loop E × List E × List E
  turn (sends e) l =
      let (queue', ok) = try_send l.queue e in
      (record l { queue = queue' }, [], if ok then e ∷ [] else [])
  turn takes l = let (l', b) = step arrives l in (l', handed b, [])
  turn tick l = let (l', b) = step ticks l in (l', handed b, [])

  pub turns : List (Turn E) → Loop E → Loop E × List E × List E
  unfolding turn
  turns [] l = (l, [], [])
  turns (t ∷ ts) l =
      let (l', out, in_) = turn t l in
      let (l'', outs, ins) = turns ts l' in (l'', out ++ outs, in_ ++ ins)

  unfoldable pub takes_in : List (Turn E) → ℕ
  takes_in [] = 0
  takes_in (takes ∷ ts) = suc (takes_in ts)
  takes_in (_ ∷ ts) = takes_in ts

  Moves : Loop E → Loop E × List E × List E → Type ℓ
  Moves l (l', out, in_) = out ++ contents l' ≡ contents l ++ in_

  -- What a turn makes of the queue.
  abbrev left_by : Turn E → ℕ → ℕ
  left_by takes n = n - 1
  left_by _ n = n

  turn-Moves : (t : Turn E) (l : Loop E) → Moves l (turn t l)
  unfolding turn Moves try_send
  turn-Moves (sends e) l = elim (Bool-cases (ltb (length l.queue.buffer) l.queue.capacity)) [
    | inl room ↦ rw room (sym (append_assoc l.batch l.queue.buffer (e ∷ [])))
    | inr full ↦ rw full (sym (append-nil (contents l)))
  ]
  turn-Moves takes l = step-contents arrives l ∙ sym (append-nil (contents l))
  turn-Moves tick l = step-contents ticks l ∙ sym (append-nil (contents l))

  running-arrives : (l : Loop E) → l.phase ≡ running → step arrives l ≡ take_event l l.queue.buffer
  unfolding step in_phase receive
  running-arrives l p = ap (λ ph. in_phase ph arrives l) p

  running-ticks : (l : Loop E) → l.phase ≡ running → step ticks l ≡ hand_over l l.batch
  unfolding step in_phase flush
  running-ticks l p = ap (λ ph. in_phase ph ticks l) p

  take_event_shortens :
      (l : Loop E) (q : List E)
      → l.queue.buffer ≡ q
      → ((take_event l q).0.phase ≡ l.phase)
        × (length (take_event l q).0.queue.buffer ≤ length q - 1)
  unfolding take_event
  take_event_shortens l [] same = (refl, rw same (omega arith))
  take_event_shortens l (e ∷ rest) same =
      let (left, phase) = take_event_takes l e rest in (phase, rw left (omega arith))

  turn_keeps :
      (t : Turn E) (l : Loop E)
      → l.phase ≡ running
      → ((turn t l).0.phase ≡ running)
        × (length (turn t l).0.queue.buffer
            ≤ left_by t (length l.queue.buffer) + length (turn t l).2)
  unfolding turn step in_phase receive flush try_send take_event
  turn_keeps (sends e) l p = elim (Bool-cases (ltb (length l.queue.buffer) l.queue.capacity)) [
    | inl room ↦ rw room (p, ground (arith, length-append l.queue.buffer (e ∷ [])))
    | inr full ↦ rw full (p, omega arith)
  ]
  turn_keeps takes l p =
      let (phase, short) = take_event_shortens l l.queue.buffer refl in
      rw (running-arrives l p) (phase ∙ p, omega arith)
  turn_keeps tick l p =
      let (same, phase) = hand_over_keeps_queue l l.batch in
      rw (running-ticks l p) (phase ∙ p, rw same (omega arith))

  turns-Moves : (ts : List (Turn E)) (l : Loop E) → Moves l (turns ts l)
  unfolding turns Moves
  turns-Moves [] l = sym (append-nil (contents l))
  turns-Moves (t ∷ ts) l =
      let first = turn-Moves t l in
      let rest = turns-Moves ts (turn t l).0 in
      append_assoc (turn t l).1 (turns ts (turn t l).0).1 (contents (turns ts (turn t l).0).0)
      ∙ ap (λ q. (turn t l).1 ++ q) rest
      ∙ sym (append_assoc (turn t l).1 (contents (turn t l).0) (turns ts (turn t l).0).2)
      ∙ ap (λ q. q ++ (turns ts (turn t l).0).2) first
      ∙ append_assoc (contents l) (turn t l).2 (turns ts (turn t l).0).2

  shortens :
      (t : Turn E) (ts : List (Turn E)) (n m k a b : ℕ)
      → m ≤ left_by t n + a
      → k ≤ (m - takes_in ts) + b
      → k ≤ (n - takes_in (t ∷ ts)) + (a + b)
  unfolding takes_in
  shortens (sends e) ts n m k a b first rest = omega arith
  shortens takes ts n m k a b first rest = omega arith
  shortens tick ts n m k a b first rest = omega arith

  turns_keep :
      (ts : List (Turn E)) (l : Loop E)
      → l.phase ≡ running
      → ((turns ts l).0.phase ≡ running)
        × (length (turns ts l).0.queue.buffer
            ≤ (length l.queue.buffer - takes_in ts) + length (turns ts l).2)
  unfolding turns takes_in
  turns_keep [] l p = (p, omega arith)
  turns_keep (t ∷ ts) l p =
      let (p', left) = turn_keeps t l p in
      let (p'', lefts) = turns_keep ts (turn t l).0 p' in
      (
        p'',
        rw (length-append (turn t l).2 (turns ts (turn t l).0).2)
            (shortens t ts (length l.queue.buffer) _ _ _ _ left lefts),
      )

  -- Where two lists are cut, the one whose rest is not longer has the other as its start.
  starts_with :
      (a b c d : List E)
      → a ++ b ≡ c ++ d
      → length b ≤ length d
      → (later : List E) × (a ≡ c ++ later)
  starts_with a b [] d same short = (a, refl)
  starts_with [] b (x ∷ c) d same short =
      absurd (omega (arith, ap length same, length-append c d, short))
  starts_with (y ∷ a) b (x ∷ c) d same short =
      let (later, rest) = starts_with a b c d (tail-eq_of_cons-eq same) short in
      (later, ap₂ (λ z zs. z ∷ zs) (head-eq_of_cons-eq same) rest)

  handed-hand_over : (l : Loop E) (b : List E) → handed (hand_over l b).1 ≡ b
  unfolding hand_over
  handed-hand_over l [] = refl
  handed-hand_over l (e ∷ es) = refl

  -- However the turns of the senders fall between its own: when a running goroutine has got as many
  -- turns to take an event as the channel holds at first, and then a tick, the whole batch and the
  -- whole channel of the beginning have been handed over, first and in order.
  pub turns_deliver :
      (ts : List (Turn E)) (l : Loop E)
      → l.phase ≡ running
      → length l.queue.buffer ≤ takes_in ts
      → (later : List E) × ((turns ts l).1 ++ handed (step ticks (turns ts l).0).1
          ≡ contents l ++ later)
  unfolding Moves
  turns_deliver ts l p enough =
      let l' = (turns ts l).0 in
      let (p', short) = turns_keep ts l p in
      rw (running-ticks l' p', handed-hand_over l' l'.batch)
        (starts_with ((turns ts l).1 ++ l'.batch) l'.queue.buffer (contents l) (turns ts l).2
          (append_assoc (turns ts l).1 l'.batch l'.queue.buffer ∙ turns-Moves ts l) (omega arith))
