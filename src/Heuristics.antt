-- ===== src/Heuristics.antt =====
-- internal/heuristics/heuristics.go: the memory regions of a process, and those that are both writable
-- and executable. A text here has no blank beyond ASCII.
pub mod Lines
mod Tests
use Prim.Native.Char.{Char, code}
use aegis_edr.Prelude.{
  ℕ, ◌+◌, ◌-◌, ◌*◌, ◌^◌, String, Bool, true, false, ◌&&◌, if◌then◌else◌, Option, none, some, List,
  [], ◌∷◌, ltb, leb, contains, fields, split_on, keep,
}

pub record MemoryRegion : Type 0 where
  pub start : ℕ
  pub end : ℕ
  pub permissions : String
  pub path : String

hex_value : Char → Option ℕ
hex_value c =
    if leb b'0' (code c) && leb (code c) b'9'
    then some (code c - b'0')
    else if leb b'a' (code c) && leb (code c) b'f'
    then some (code c - b'a' + 10)
    else if leb b'A' (code c) && leb (code c) b'F'
    then some (code c - b'A' + 10)
    else none

-- The number of the digits at the start of a text, after those that make `n`.
hex_from : ℕ → String → ℕ
hex_from n String.[] = n
hex_from n (String.◌∷◌ c s) = elim (hex_value c) [ none ↦ n | some d ↦ hex_from (n * 16 + d) s ]

-- fmt.Sscanf with %x into a uint64 that is zero: without a digit, or with too large a number, it stays
-- zero.
scan_hex : String → ℕ
unfolding hex_from hex_value
scan_hex s = let n = hex_from 0 s in if ltb n (2 ^ 64) then n else 0

-- One turn of the loop of ParseMaps: none where the line is skipped.
pub parse_line : String → Option MemoryRegion
unfolding scan_hex
parse_line line = of_fields (fields line)
  where
    of_range : List String → String → String → Option MemoryRegion
    of_range (from ∷ to ∷ []) perms path =
        some (record { start = scan_hex from; end = scan_hex to; permissions = perms; path = path })
    of_range _ perms path = none

    of_fields : List String → Option MemoryRegion
    of_fields (range ∷ perms ∷ offset ∷ device ∷ inode ∷ []) =
        of_range (split_on "-" range) perms ""
    of_fields (range ∷ perms ∷ offset ∷ device ∷ inode ∷ path ∷ more) =
        of_range (split_on "-" range) perms path
    of_fields _ = none

-- ParseMaps of the lines that the scanner gave; its error goes to the caller with the regions.
unfoldable pub parse_maps : List String → List MemoryRegion
parse_maps [] = []
parse_maps (line ∷ lines) = add_region (parse_line line) (parse_maps lines)
  where
    add_region : Option MemoryRegion → List MemoryRegion → List MemoryRegion
    add_region none regions = regions
    add_region (some r) regions = r ∷ regions

unfoldable pub is_suspicious : MemoryRegion → Bool
is_suspicious r = contains r.permissions "w" && contains r.permissions "x"

-- DetectSuspiciousRegions
unfoldable pub detect_suspicious_regions : List MemoryRegion → List MemoryRegion
detect_suspicious_regions regions = keep is_suspicious regions

-- ScanProcessMaps with the lines of the process's file, which is none where it cannot be opened.
unfoldable pub scan_process_maps : Option (List String) → Option (List MemoryRegion)
scan_process_maps none = none
scan_process_maps (some lines) = some (parse_maps lines)
