-- ===== src/Client/Lineage.antt =====
-- cmd/aegis/main.go: what trace prints, as a relation, and the lineages that it never leaves.
use aegis_edr.Prelude.{
  ◌≡◌, ◌↔◌, refl, subst, inl, inr, ℕ, zero, suc, ℤ, pos, negsuc, String, true, false, none, some,
  List, [], ◌∷◌, arith, ◌==◌, string_eq, ◌^^◌, show_int, Bool-cases, Option-cases,
}
use aegis_edr.Client.Queries.{Reader, find_process, is_root, trace, trace_line}
use aegis_edr.Storage.Tables.{Tables, ProcessRow}

-- The process has no parent to go on with: its parent is 0 or negative, or it is its own.
pub data IsTop (target : String) : ℤ → Type 0 where
  zero_parent : IsTop target (pos 0)
  negative : (n : ℕ) → IsTop target (negsuc n)
  own_parent : (n : ℕ) → target ≡ show_int (pos (suc n)) → IsTop target (pos (suc n))

is_root-IsTop : (target : String) (parent : ℤ) → is_root target parent ≡ true → IsTop target parent
unfolding is_root
is_root-IsTop target (pos zero) root = zero_parent
is_root-IsTop target (negsuc n) root = negative n
is_root-IsTop target (pos (suc n)) root =
    own_parent n ((string_eq.same_iff target (show_int (pos (suc n)))).0 root)

IsTop-is_root : (target : String) (parent : ℤ) → IsTop target parent → is_root target parent ≡ true
unfolding is_root
IsTop-is_root target parent zero_parent = refl
IsTop-is_root target parent (negative n) = refl
IsTop-is_root target parent (own_parent n same) =
    (string_eq.same_iff target (show_int (pos (suc n)))).1 same

module _ (reader : Reader) (t : Tables) where
  -- The lineage of a target, each process two blanks and an arrow further right than its child. It
  -- ends above a process without a parent, or at a number that no row has.
  pub data Lineage : String → String → List String → Type 0 where
    unknown :
        {indent target : String} → find_process reader t target ≡ none → Lineage indent target []
    top :
        {indent target : String} (p : ProcessRow)
        → find_process reader t target ≡ some p
        → IsTop target p.parent_id
        → Lineage indent target (trace_line indent target p ∷ [])
    below :
        {indent target : String} (p : ProcessRow) (lines : List String)
        → find_process reader t target ≡ some p
        → ¬ IsTop target p.parent_id
        → Lineage (indent ^^ "  ↳ ") (show_int p.parent_id) lines
        → Lineage indent target (trace_line indent target p ∷ lines)

  trace-Lineage :
      (fuel : ℕ) (indent target : String) (lines : List String)
      → trace reader fuel t indent target ≡ some lines
      → Lineage indent target lines
  unfolding trace
  trace-Lineage zero indent target lines h = absurd (ground (arith, h))
  trace-Lineage (suc fuel) indent target lines h =
      elim (Option-cases (find_process reader t target)) [
        | inl missing ↦
            let same : [] ≡ lines = ground (arith, missing, h) in
            subst (Lineage indent target) same (unknown missing)
        | inr (p, found) ↦ elim (Bool-cases (is_root target p.parent_id)) [
          | inl root ↦
              let same : trace_line indent target p ∷ [] ≡ lines = ground (arith, found, root, h) in
              subst (Lineage indent target) same
                (top p found (is_root-IsTop target p.parent_id root))
          | inr on ↦
              elim (Option-cases (trace reader fuel t (indent ^^ "  ↳ ") (show_int p.parent_id))) [
                | inl lost ↦ absurd (ground (arith, found, on, lost, h))
                | inr (rest, traced) ↦
                    let same : trace_line indent target p ∷ rest ≡ lines =
                      ground (arith, found, on, traced, h) in
                    subst (Lineage indent target) same (
                      below p rest found
                        (λ is_top.
                          absurd (ground (arith, on, IsTop-is_root target p.parent_id is_top)))
                        (trace-Lineage fuel (indent ^^ "  ↳ ") (show_int p.parent_id) rest traced))
              ]
        ]
      ]

  Lineage-trace :
      {indent target : String} {lines : List String}
      → Lineage indent target lines
      → (fuel : ℕ) × (trace reader fuel t indent target ≡ some lines)
  unfolding trace
  Lineage-trace (unknown missing) = (1, ground (arith, missing))
  Lineage-trace {target = target} (top p found is_top) =
      (1, ground (arith, found, IsTop-is_root target p.parent_id is_top))
  Lineage-trace {target = target} (below p lines found on rest) =
      let (fuel, traced) = Lineage-trace rest in
      (
        suc fuel,
        elim (Bool-cases (is_root target p.parent_id)) [
          | inl root ↦ absurd (on (is_root-IsTop target p.parent_id root))
          | inr further ↦ ground (arith, found, further, traced)
        ],
      )

  -- With some fuel, the loop of trace prints exactly the lineage of the target, where there is one:
  -- its process and, above it, the process of its parent's number, up to one without a parent, or
  -- that is its own parent, or to a number that no row has.
  pub trace_iff :
      (indent target : String) (lines : List String)
      → ((fuel : ℕ) × (trace reader fuel t indent target ≡ some lines))
        ↔ Lineage indent target lines
  trace_iff indent target lines = (
    (λ (r : (fuel : ℕ) × (trace reader fuel t indent target ≡ some lines)).
        trace-Lineage r.0 indent target lines r.1),
    Lineage-trace,
  )

  -- Two processes that are each other's parents, which keys that stand for numbers of processes can
  -- become: from either of them the loop does not end, in whatever number of rounds.
  pub trace_endless :
      (a b : ℕ) (p q : ProcessRow)
      → find_process reader t (show_int (pos (suc a))) ≡ some p
      → p.parent_id ≡ pos (suc b)
      → find_process reader t (show_int (pos (suc b))) ≡ some q
      → q.parent_id ≡ pos (suc a)
      → (show_int (pos (suc a)) == show_int (pos (suc b))) ≡ false
      → (show_int (pos (suc b)) == show_int (pos (suc a))) ≡ false
      → (fuel : ℕ) (indent : String)
      → (trace reader fuel t indent (show_int (pos (suc a))) ≡ none)
        × (trace reader fuel t indent (show_int (pos (suc b))) ≡ none)
  unfolding trace is_root
  trace_endless a b p q found_a up_a found_b up_b apart apart' zero indent = (refl, refl)
  trace_endless a b p q found_a up_a found_b up_b apart apart' (suc fuel) indent =
      let (from_a, from_b) =
        trace_endless a b p q found_a up_a found_b up_b apart apart' fuel (indent ^^ "  ↳ ") in
      (ground (arith, found_a, up_a, apart, from_b), ground (arith, found_b, up_b, apart', from_a))
