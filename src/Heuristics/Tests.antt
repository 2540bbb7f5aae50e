-- ===== src/Heuristics/Tests.antt =====
-- internal/heuristics/heuristics.go at concrete lines.
use aegis_edr.Prelude.{some, [], ◌∷◌, ◌≡◌, refl, arith, fields, is_space, split_on}
use aegis_edr.Heuristics.{
  MemoryRegion, parse_line, parse_maps, is_suspicious, detect_suspicious_regions,
}
use aegis_edr.Heuristics.Lines.{line_of, parse_line-line_of}

abbrev heap : MemoryRegion
heap = record { start = 4096; end = 8192; permissions = "rwxp"; path = "[heap]" }

-- A line without an inode is skipped; a path is not needed.
test_parse_maps :
    parse_maps ("1000-2000 r--p 0 fd:01 " ∷ "1000-2000 rw-p 0 fd:01 77" ∷ [])
    ≡ record { start = 4096; end = 8192; permissions = "rw-p"; path = "" } ∷ []
unfolding parse_maps parse_line fields split_on is_space
test_parse_maps = refl

test_detect :
    detect_suspicious_regions (heap ∷ record heap { permissions = "r-xp" } ∷ []) ≡ heap ∷ []
unfolding detect_suspicious_regions is_suspicious
test_detect = refl

parse_line-line_of_example : parse_line (line_of heap "00000000" "00:00" "0" []) ≡ some heap
unfolding is_space
parse_line-line_of_example =
    parse_line-line_of heap "00000000" "00:00" "0" [] (omega arith) (omega arith)
      (refl, (refl, (refl, (refl, (refl, tt)))))
