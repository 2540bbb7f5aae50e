-- ===== src/Monitors.antt =====
-- internal/monitor/platform: the nine monitors of each operating system. On all three systems a monitor
-- is a router and a bus that `Start` stores; each constructor makes one with nil pointers.
use aegis_edr.Prelude.{Option, none, some}

pub data Platform : Type 0 where
  linux darwin windows : Platform

pub data Kind : Type 0 where
  process file network registry service driver usb scheduled_task startup : Kind

-- LinuxProcessMonitor, LinuxFileMonitor and so on: the struct of one kind on one system.
pub record Monitor (platform : Platform) (kind : Kind) (Router Bus : Type 0) : Type 0 where
  pub router : Option Router
  pub eb : Option Bus

module _ {Router Bus : Type 0} where
  -- NewProcessMonitor, NewFileMonitor and so on, by the platform's own constructor.
  pub new_monitor : (platform : Platform) (kind : Kind) → Monitor platform kind Router Bus
  new_monitor platform kind = record { router = none; eb = none }

  -- The error is always nil.
  pub start_linux :
      {kind : Kind} → Monitor linux kind Router Bus → Router → Bus → Monitor linux kind Router Bus
  start_linux m router eb = record m { router = some router; eb = some eb }

  pub start_darwin :
      {kind : Kind} → Monitor darwin kind Router Bus → Router → Bus → Monitor darwin kind Router Bus
  start_darwin m router eb = record m { router = some router; eb = some eb }

  pub start_windows :
      {kind : Kind}
      → Monitor windows kind Router Bus
      → Router
      → Bus
      → Monitor windows kind Router Bus
  start_windows m router eb = record m { router = some router; eb = some eb }

  pub stop :
      {platform : Platform} {kind : Kind}
      → Monitor platform kind Router Bus
      → Monitor platform kind Router Bus
  stop m = m
