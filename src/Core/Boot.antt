-- ===== src/Core/Boot.antt =====
-- internal/core: the container of dependencies, the scheduler, the start-up diagnostics and the
-- bootstrap. A type is told by its name; the files are those of Response.Quarantine.
use aegis_edr.Prelude.{
  ◌≡◌, refl, String, Bool, true, false, if◌then◌else◌, Option, some, List, [], ◌∷◌, string_eq,
}
use aegis_edr.Core.{
  LifecycleManager, Service, running, stopping, stopped, set_state, trigger_shutdown,
}
use aegis_edr.Dict.{Dict, empty, get, put, get-put_self}
use aegis_edr.Response.Quarantine
use aegis_edr.Response.Quarantine.{Files, write_file, remove_file}

module _ {Instance : Type 0} where
  unfoldable pub new_di_container : Dict String Instance
  new_di_container = empty

  unfoldable pub register : Dict String Instance → String → Instance → Dict String Instance
  register instances type_ instance_ = put instances type_ instance_

  -- None is the error.
  unfoldable pub resolve : Dict String Instance → String → Option Instance
  resolve instances type_ = get instances type_

  resolve-register :
      (instances : Dict String Instance) (type_ : String) (instance_ : Instance)
      → resolve (register instances type_ instance_) type_ ≡ some instance_
  unfolding register resolve
  resolve-register instances type_ instance_ = get-put_self instances type_ instance_

-- The branches of the scheduler's select.
pub data Wake : Type 0 where
  fires done : Wake

module _ {World : Type 0} where
  -- A task that panics is stopped, and its panic is logged: only what it did before stays.
  unfoldable pub run_task : (World → World × Bool) → World → World
  run_task task w = (task w).0

  unfoldable pub schedule : (World → World × Bool) → List Wake → World → World
  unfolding run_task
  schedule task [] w = w
  schedule task (done ∷ _) w = w
  schedule task (fires ∷ wakes) w = schedule task wakes (run_task task w)

-- StartupDiagnostics.Run; false is an error.
unfoldable pub run_diagnostics : Quarantine.System → Files → Files × Bool
unfolding write_file remove_file
run_diagnostics disk files =
    let path : String = "/tmp/aegis_diagnostic_write_test" in
    let (written, ok) = write_file disk files path "ok" in
    if ok then ((remove_file disk written path).0, true) else (written, false)

-- What the bootstrap registers.
pub data Part (World Failure : Type 0) : Type 0 where
  lifecycle_manager : LifecycleManager World → Part World Failure
  service_manager : Dict String (Service World Failure) → Part World Failure

pub record Bootstrap (World Failure : Type 0) : Type 0 where
  pub container : Dict String (Part World Failure)
  pub lm : LifecycleManager World
  pub sm : Dict String (Service World Failure)

module _ {World Failure : Type 0} where
  unfoldable pub initialize :
      Quarantine.System → Bootstrap World Failure → Files → Bootstrap World Failure × Files × Bool
  unfolding run_diagnostics register
  initialize disk b files =
      let (files', ok) = run_diagnostics disk files in
      if ok
      then (
        record b {
          container =
              register (register b.container "*core.LifecycleManager" (lifecycle_manager b.lm))
                "*core.ServiceManager" (service_manager b.sm);
        },
        files',
        true,
      )
      else (b, files', false)

  -- Run, up to the signal and after it.
  unfoldable pub run_bootstrap : Bootstrap World Failure → World → Bootstrap World Failure × World
  unfolding set_state trigger_shutdown
  run_bootstrap b w =
      let (lm', w') = trigger_shutdown (set_state (set_state b.lm running) stopping) w in
      (record b { lm = lm' }, w')

  run_bootstrap_stops :
      (b : Bootstrap World Failure) (w : World) → (run_bootstrap b w).0.lm.state ≡ stopped
  unfolding run_bootstrap set_state trigger_shutdown
  run_bootstrap_stops b w = refl
