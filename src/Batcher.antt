-- ===== src/Batcher.antt =====
-- The goroutine that both the event router and the telemetry pipeline start
-- (internal/eventrouter/eventrouter.go, internal/telemetry/pipeline.go): it moves events from the
-- channel to a batch, and hands the batch over when it is full, at each tick and at the end.
pub mod Order
pub mod Drain
pub mod Bounds
pub mod Liveness
mod Tests
use aegis_edr.Prelude.{
  ℕ, zero, suc, ◌≤◌, Option, none, some, List, [], ◌∷◌, ◌++◌, leb, if◌then◌else◌, length,
}
use aegis_edr.Channel.{Channel}

-- `running`: the outer loop; `draining`: the loop under `<-closeChan`; `stopped`: returned.
pub data Phase : Type 0 where
  running draining stopped : Phase

pub record Loop {ℓ} (E : Type ℓ) : Type ℓ where
  pub queue : Channel E
  pub batch : List E
  pub phase : Phase

-- The branches of the `select`: an event is there, the ticker fired, `closeChan` is closed, no
-- event is there (the inner `default`), the context is cancelled (the telemetry pipeline only).
pub data Signal : Type 0 where
  arrives ticks closes empties cancels : Signal

-- The loop after a step, and the batch that the step hands to `flushBatch`, if it does.
abbrev pub Outcome {ℓ} : Type ℓ → Type ℓ
Outcome E = Loop E × Option (List E)

module _ {ℓ} {E : Type ℓ} where
  pub hand_over : Loop E → List E → Outcome E
  hand_over l [] = (l, none)
  hand_over l (e ∷ es) = (record l { batch = [] }, some (e ∷ es))

  pub flush : Loop E → Outcome E
  unfolding hand_over
  flush l = hand_over l l.batch

  pub take_event : Loop E → List E → Outcome E
  take_event l [] = (l, none)
  take_event l (e ∷ rest) =
      let l' = record l { queue = record l.queue { buffer = rest }; batch = l.batch ++ e ∷ [] } in
      if leb 100 (length l'.batch) then flush l' else (l', none)

  pub receive : Loop E → Outcome E
  unfolding take_event
  receive l = take_event l l.queue.buffer

  finish : Loop E → List E → Outcome E
  finish l [] = let (l', b) = flush l in (record l' { phase = stopped }, b)
  finish l (e ∷ es) = (l, none)

  in_phase : Phase → Signal → Loop E → Outcome E
  unfolding finish
  in_phase running arrives l = receive l
  in_phase running ticks l = flush l
  in_phase running closes l = (record l { phase = draining }, none)
  in_phase running cancels l = let (l', b) = flush l in (record l' { phase = stopped }, b)
  in_phase draining arrives l = receive l
  in_phase draining empties l = finish l l.queue.buffer
  in_phase _ _ l = (l, none)

  -- A branch that is not ready changes nothing.
  pub step : Signal → Loop E → Outcome E
  unfolding in_phase
  step s l = in_phase l.phase s l

  -- What the goroutine has taken in or can still take in, the oldest first.
  abbrev pub contents : Loop E → List E
  contents l = l.batch ++ l.queue.buffer

  abbrev pub listed : Option (List E) → List (List E)
  listed none = []
  listed (some b) = b ∷ []

  abbrev pub handed : Option (List E) → List E
  handed none = []
  handed (some b) = b

  -- The loop under `<-closeChan`, whose branch for an event comes first: all batches that it hands
  -- over, in order. Nothing is left to do at fuel zero.
  pub drain : ℕ → Loop E → Loop E × List (List E)
  drain zero l = (l, [])
  drain (suc fuel) l = elim l.queue.buffer [
    | [] ↦ let (l', b) = step empties l in (l', listed b)
    | _ ∷ _ ↦ let (l', b) = step arrives l in let (l2, bs) = drain fuel l' in (l2, listed b ++ bs)
  ]

  -- The batch that is handed over holds 1 to 100 events.
  abbrev pub IsSmall : Option (List E) → Type 0
  IsSmall none = Unit {0}
  IsSmall (some b) = (1 ≤ length b) × (length b ≤ 100)
