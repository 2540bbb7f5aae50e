-- ===== src/Response/Isolate.antt =====
-- internal/response/network: cutting the host off and letting it back, by commands of the system.
-- What runs a command is a parameter; the effect of iptables is a hypothesis, in its words.
use aegis_edr.Prelude.{String, Option, List, [], ◌∷◌, ◌++◌, ◌≡◌, refl}
use mathlib.Core.List.{append_assoc}

-- cmd.Run() of a program and its arguments; none is the nil error.
abbrev pub Runner : Type 0 → Type 0 → Type 0
Runner World Failure = List String → World → World × Option Failure

abbrev allow_server : List String
allow_server =
    "iptables" ∷ "-A" ∷ "OUTPUT" ∷ "-p" ∷ "tcp" ∷ "--dport" ∷ "8443" ∷ "-j" ∷ "ACCEPT" ∷ []

abbrev allow_loopback : List String
allow_loopback = "iptables" ∷ "-A" ∷ "OUTPUT" ∷ "-o" ∷ "lo" ∷ "-j" ∷ "ACCEPT" ∷ []

abbrev output_policy : String → List String
output_policy target = "iptables" ∷ "-P" ∷ "OUTPUT" ∷ target ∷ []

abbrev flush_output : List String
flush_output = "iptables" ∷ "-F" ∷ "OUTPUT" ∷ []

abbrev netsh_policy : String → List String
netsh_policy policy =
    "netsh" ∷ "advfirewall" ∷ "set" ∷ "allprofiles" ∷ "firewallpolicy" ∷ policy ∷ []

module _ {World Failure : Type 0} (run : Runner World Failure) where
  -- The errors of all commands but the last are dropped.
  unfoldable pub isolate_host_linux : World → World × Option Failure
  isolate_host_linux world =
      let (world₁, _) = run allow_server world in
      let (world₂, _) = run allow_loopback world₁ in run (output_policy "DROP") world₂

  unfoldable pub restore_host_linux : World → World × Option Failure
  restore_host_linux world =
      let (world₁, _) = run (output_policy "ACCEPT") world in run flush_output world₁

  abbrev pub isolate_host_darwin : World → World × Option Failure
  isolate_host_darwin world = run ("pfctl" ∷ "-e" ∷ []) world

  abbrev pub restore_host_darwin : World → World × Option Failure
  restore_host_darwin world = run ("pfctl" ∷ "-d" ∷ []) world

  abbrev pub isolate_host_windows : World → World × Option Failure
  isolate_host_windows world = run (netsh_policy "blockinbound,blockoutbound") world

  abbrev pub restore_host_windows : World → World × Option Failure
  restore_host_windows world = run (netsh_policy "blockinbound,allowoutbound") world

-- The OUTPUT chain: its policy and its rules, each as the arguments that appended it.
pub record Chain : Type 0 where
  pub policy : String
  pub rules : List (List String)

-- The manual of iptables, on a host where its commands succeed: -A appends a rule, -P sets the policy of a chain, -F deletes its rules.
pub record IsIptables {World Failure : Type 0} (run : Runner World Failure) (output : World → Chain)
    : Type 0 where
  pub appends :
      (rule : List String) (world : World)
      → output (run ("iptables" ∷ "-A" ∷ "OUTPUT" ∷ rule) world).0
        ≡ record (output world) { rules = (output world).rules ++ rule ∷ [] }
  pub sets_policy :
      (target : String) (world : World)
      → output (run (output_policy target) world).0 ≡ record (output world) { policy = target }
  pub flushes :
      (world : World) → output (run flush_output world).0 ≡ record (output world) { rules = [] }

module _ {World Failure : Type 0} (run : Runner World Failure) (output : World → Chain)
    (iptables : IsIptables run output) where
  -- On Linux, where the commands of iptables succeed, an isolated host drops what it sends but to port 8443 and to itself, after the rules
  -- that the chain had. Restoring the host then leaves the chain open and empty, whatever rules and
  -- policy it had before the isolation.
  pub restore-isolate :
      (world : World)
      → (output (isolate_host_linux run world).0 ≡ record {
        policy = "DROP";
        rules =
            (output world).rules
            ++ ("-p" ∷ "tcp" ∷ "--dport" ∷ "8443" ∷ "-j" ∷ "ACCEPT" ∷ [])
              ∷ ("-o" ∷ "lo" ∷ "-j" ∷ "ACCEPT" ∷ [])
              ∷ [];
      })
        × (output (restore_host_linux run (isolate_host_linux run world).0).0
            ≡ record { policy = "ACCEPT"; rules = [] })
  unfolding isolate_host_linux restore_host_linux
  restore-isolate world = (
    rw (iptables.sets_policy, iptables.appends, iptables.appends, append_assoc) refl,
    rw (iptables.flushes, iptables.sets_policy) refl,
  )
