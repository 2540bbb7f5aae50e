-- ===== src/Core.antt =====
-- internal/core: the life cycle of the program, its event bus and its services. The hooks and the
-- services act on a world of their own. The data of an event is of any type.
pub mod Bus
pub mod Boot
mod Tests
use aegis_edr.Prelude.{
  ℕ, String, Option, none, some, List, [], ◌∷◌, ◌++◌, Bool, true, false, string_eq, map,
}
use aegis_edr.Dict.{Dict, empty, get, put}
use aegis_edr.Channel.{Channel, make, try_send}

pub data AppState : Type 0 where
  initializing running stopping stopped : AppState

pub record LifecycleManager (World : Type 0) : Type 0 where
  pub state : AppState
  pub shutdown_hooks : List (World → World)

pub data ServiceStatus : Type 0 where
  is_stopped is_starting is_running is_stopping is_failed : ServiceStatus

-- AegisService; `none` is the nil error.
pub record Service (World Failure : Type 0) : Type 0 where
  pub start : World → World × Option Failure
  pub stop : World → World × Option Failure
  pub status : World → ServiceStatus

module _ {World : Type 0} where
  unfoldable pub new_lifecycle_manager : LifecycleManager World
  new_lifecycle_manager = record { state = initializing; shutdown_hooks = [] }

  unfoldable pub set_state : LifecycleManager World → AppState → LifecycleManager World
  set_state lm state = record lm { state = state }

  unfoldable pub register_shutdown_hook :
      LifecycleManager World → (World → World) → LifecycleManager World
  register_shutdown_hook lm hook = record lm { shutdown_hooks = lm.shutdown_hooks ++ hook ∷ [] }

  unfoldable pub run_hooks : List (World → World) → World → World
  run_hooks [] w = w
  run_hooks (hook ∷ hooks) w = run_hooks hooks (hook w)

  -- While the hooks run, the state is `stopping`.
  unfoldable pub trigger_shutdown : LifecycleManager World → World → LifecycleManager World × World
  trigger_shutdown lm w = (record lm { state = stopped }, run_hooks lm.shutdown_hooks w)

module _ {World Failure : Type 0} where
  unfoldable pub register_service :
      Dict String (Service World Failure)
      → String
      → Service World Failure
      → Dict String (Service World Failure)
  register_service services name service = put services name service

  -- The services in the order in which the map is walked, up to the first error.
  unfoldable pub start_all : List (String × Service World Failure) → World → World × Option Failure
  start_all [] w = (w, none)
  start_all ((name, s) ∷ rest) w =
      let (w', failed) = s.start w in
      elim failed [ none ↦ start_all rest w' | some e ↦ (w', some e) ]

  unfoldable pub stop_all : List (String × Service World Failure) → World → World
  stop_all [] w = w
  stop_all ((name, s) ∷ rest) w = stop_all rest (s.stop w).0

  unfoldable pub get_status :
      Dict String (Service World Failure) → String → World → ServiceStatus × Bool
  get_status services name w = elim (get services name) [
    | none ↦ (is_stopped, false)
    | some s ↦ (s.status w, true)
  ]

pub record BusEvent (Data : Type 0) : Type 0 where
  pub topic : String
  pub payload : Data

-- The channels of the subscribers of each topic.
abbrev pub EventBus : Type 0 → Type 0
EventBus Data = Dict String (List (Channel (BusEvent Data)))

unfoldable pub channels_of {ℓ} : {A : Type ℓ} → Option (List A) → List A
channels_of none = []
channels_of (some channels) = channels

module _ {Data : Type 0} where
  unfoldable pub new_event_bus : EventBus Data
  new_event_bus = empty

  unfoldable pub subscribe : EventBus Data → String → EventBus Data
  subscribe eb topic = put eb topic (channels_of (get eb topic) ++ make 100 ∷ [])

  -- A subscriber whose channel is full misses the event.
  unfoldable pub send_to : BusEvent Data → Channel (BusEvent Data) → Channel (BusEvent Data)
  send_to event sub = (try_send sub event).0

  unfoldable pub publish : EventBus Data → BusEvent Data → EventBus Data
  publish eb event = elim (get eb event.topic) [
    | none ↦ eb
    | some channels ↦ put eb event.topic (map (send_to event) channels)
  ]
