-- ===== src/Response/Kill.antt =====
-- internal/response/process: killing a process and its descendants. The operating system, with what
-- `pgrep -P` prints, is a parameter.
pub mod Order
use aegis_edr.Prelude.{
  ℕ, zero, suc, ◌+◌, ◌*◌, ◌-◌, ◌^◌, ℤ, pos, negsuc, String, Bool, true, false, not, ◌&&◌, ◌||◌,
  if◌then◌else◌, Option, none, some, List, [], ◌∷◌, ◌==◌, string_eq, trim_space, leb, ltb, split_on,
  nat_eq,
}
use Prim.Native.Char.{Char, code}

-- A failed call, or the state after it.
pub record System (World Failure : Type 0) : Type 0 where
  -- The output of `pgrep -P`; none where it fails, as it does for a process without children.
  pub pgrep : World → ℤ → Option String
  -- os.FindProcess and the kill itself.
  pub find_process : World → ℤ → Option Failure
  pub kill : World → ℤ → World × Option Failure

digits : ℕ → String → Option ℕ
digits n String.[] = some n
digits n (String.◌∷◌ c s) =
    let rest = digits (n * 10 + (code c - b'0')) s in
    if leb b'0' (code c) && leb (code c) b'9' then rest else none

-- One digit at least.
natural : String → Option ℕ
unfolding digits
natural String.[] = none
natural (String.◌∷◌ c s) = digits 0 (String.◌∷◌ c s)

-- strconv.Atoi, with its range of 64 bits.
unfoldable pub atoi : String → Option ℤ
unfolding natural
atoi String.[] = none
atoi (String.◌∷◌ c s) =
    if code c == b'-'
    then negative (natural s)
    else if code c == b'+'
    then positive (natural s)
    else positive (natural (String.◌∷◌ c s))
  where
    positive : Option ℕ → Option ℤ
    positive none = none
    positive (some n) = if ltb n (2 ^ 63) then some (pos n) else none

    negative : Option ℕ → Option ℤ
    negative none = none
    negative (some zero) = some (pos 0)
    negative (some (suc n)) = if ltb n (2 ^ 63) then some (negsuc n) else none

-- The lines that are numbers.
unfoldable pub pids_of : List String → List ℤ
pids_of [] = []
pids_of (line ∷ lines) = take_pid (atoi (trim_space line)) (pids_of lines)
  where
    take_pid : Option ℤ → List ℤ → List ℤ
    take_pid none pids = pids
    take_pid (some child) pids = child ∷ pids

module _ {World Failure : Type 0} (system : System World Failure) where
  open system use {pgrep, find_process, kill}

  unfoldable pub find_child_pids : World → ℤ → Option (List ℤ)
  find_child_pids world ppid = elim (pgrep world ppid) [
    | none ↦ none
    | some out ↦ some (pids_of (split_on "\n" out))
  ]

  -- Where no children can be found, none are killed.
  unfoldable pub child_pids : World → ℤ → List ℤ
  child_pids world pid = elim (find_child_pids world pid) [ none ↦ [] | some pids ↦ pids ]

  unfoldable pub signal : World → ℤ → World × Option Failure
  signal world pid = elim (find_process world pid) [
    | none ↦ kill world pid
    | some failure ↦ (world, some failure)
  ]

  -- The loop over the children, whose errors are dropped.
  unfoldable pub kill_all :
      (World → ℤ → Option (World × Option Failure)) → World → List ℤ → Option World
  kill_all kill_one world [] = some world
  kill_all kill_one world (child ∷ children) = elim (kill_one world child) [
    | none ↦ none
    | some (world', _) ↦ kill_all kill_one world' children
  ]

  -- KillTree of Unix on fuel: none is a recursion that is deeper.
  unfoldable pub kill_tree : ℕ → World → ℤ → Option (World × Option Failure)
  unfolding child_pids signal kill_all
  kill_tree zero world pid = none
  kill_tree (suc fuel) world pid = elim (kill_all (kill_tree fuel) world (child_pids world pid)) [
    | none ↦ none
    | some world' ↦ some (signal world' pid)
  ]

  -- KillTree of Windows: the process alone.
  unfoldable pub kill_tree_windows : World → ℤ → World × Option Failure
  unfolding signal
  kill_tree_windows world pid = signal world pid
