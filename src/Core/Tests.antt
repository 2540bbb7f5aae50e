-- ===== src/Core/Tests.antt =====
-- The life cycle and the event bus at concrete inputs.
use aegis_edr.Prelude.{ℕ, ◌≡◌, refl, String, some, List, [], ◌∷◌, ◌++◌, string_eq, arith, map}
use aegis_edr.Dict.{get, put}
use aegis_edr.Channel.{make}
use aegis_edr.Core.{
  LifecycleManager, new_lifecycle_manager, register_shutdown_hook, run_hooks, trigger_shutdown,
  BusEvent, new_event_bus, subscribe, channels_of,
}
use aegis_edr.Core.Bus.{publish_all, on_topic, filled, publish_all-filled}

abbrev with_hooks : LifecycleManager (List String)
with_hooks =
    register_shutdown_hook (register_shutdown_hook new_lifecycle_manager (λ w. w ++ "first" ∷ []))
      (λ w. w ++ "second" ∷ [])

hooks_run_in_order : (trigger_shutdown with_hooks []).1 ≡ "first" ∷ "second" ∷ []
unfolding trigger_shutdown run_hooks register_shutdown_hook new_lifecycle_manager
hooks_run_in_order = refl

abbrev news : List (BusEvent ℕ)
news = record { topic = "alerts"; payload = 1 } ∷ record { topic = "other"; payload = 2 } ∷ []

one_subscriber : get (subscribe (new_event_bus {Data = ℕ}) "alerts") "alerts" ≡ some (make 100 ∷ [])
unfolding subscribe new_event_bus get put channels_of
one_subscriber = refl

publish_all-filled_example :
    get (publish_all (subscribe new_event_bus "alerts") news) "alerts"
    ≡ some (map (λ c. filled c (on_topic "alerts" news)) (make 100 ∷ []))
publish_all-filled_example =
    publish_all-filled (subscribe new_event_bus "alerts") "alerts" (make 100 ∷ []) news
      one_subscriber (omega arith, tt)
