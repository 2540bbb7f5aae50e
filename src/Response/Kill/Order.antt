-- ===== src/Response/Kill/Order.antt =====
-- internal/response/process/kill_unix.go: who is killed, and in which order.
use aegis_edr.Prelude.{
  ℕ, zero, suc, ◌<◌, ℤ, some, List, [], ◌∷◌, ◌++◌, ◌≡◌, refl, sym, ap, ◌∙◌, arith, All, All-map,
}
use mathlib.Core.List.{append_assoc, append-nil}
use aegis_edr.Response.Kill.{System, child_pids, signal, kill_tree, kill_all}

module _ (kids : ℤ → List ℤ) where
  mutual
    -- The descendants of a process, each before its parent, and the process last.
    pub data IsPostorder : ℤ → List ℤ → Type 0 where
      tree :
          {pid : ℤ} {below : List ℤ}
          → ArePostorder (kids pid) below
          → IsPostorder pid (below ++ pid ∷ [])

    pub data ArePostorder : List ℤ → List ℤ → Type 0 where
      no_trees : ArePostorder [] []
      trees :
          {pid : ℤ} {pids first rest : List ℤ}
          → IsPostorder pid first
          → ArePostorder pids rest
          → ArePostorder (pid ∷ pids) (first ++ rest)

module _ {World Failure : Type 0} (system : System World Failure) (kids : ℤ → List ℤ)
    (steady : (world : World) (pid : ℤ) → child_pids system world pid ≡ kids pid) (rank : ℤ → ℕ)
    (descends : (pid : ℤ) → All (λ child. rank child < rank pid) (kids pid))
    (signalled : World → List ℤ)
    (logs : (world : World) (pid : ℤ)
      → signalled (signal system world pid).0 ≡ signalled world ++ pid ∷ []) where
  pub Killed : ℕ → World → ℤ → Type 0
  Killed fuel world pid =
      (before : World) × (order : List ℤ) × (kill_tree system fuel world pid
        ≡ some (signal system before pid))
      × IsPostorder kids pid order
      × (signalled (signal system before pid).0 ≡ signalled world ++ order)

  KilledAll : ℕ → World → List ℤ → Type 0
  KilledAll fuel world pids =
      (after : World) × (order : List ℤ) × (kill_all system (kill_tree system fuel) world pids
        ≡ some after)
      × ArePostorder kids pids order
      × (signalled after ≡ signalled world ++ order)

  kill_all-ArePostorder :
      (fuel : ℕ)
      → ((world : World) (pid : ℤ) → rank pid < fuel → Killed fuel world pid)
      → (world : World) (pids : List ℤ) → All (λ pid. rank pid < fuel) pids
      → KilledAll fuel world pids
  unfolding KilledAll Killed kill_all
  kill_all-ArePostorder fuel one world [] h =
      (world, [], refl, no_trees, sym (append-nil (signalled world)))
  kill_all-ArePostorder fuel one world (pid ∷ pids) (enough, h) =
      let (before, first, done, post, log) = one world pid enough in
      let (after, rest, all_done, posts, log_all) =
        kill_all-ArePostorder fuel one (signal system before pid).0 pids h in
      (
        after,
        first ++ rest,
        rw (kill_all, done) all_done,
        trees post posts,
        log_all ∙ ap (λ l. l ++ rest) log ∙ append_assoc (signalled world) first rest,
      )

  -- Where the processes are a tree of some height, which stays as it is during the call, KillTree of
  -- Unix ends, and it has signalled the process and all its descendants, each process once for every
  -- way down to it, children before parents and the process itself last; its error is that of the
  -- last signal. As much fuel as the height of the tree suffices.
  pub kill_tree-IsPostorder :
      (fuel : ℕ) (world : World) (pid : ℤ) → rank pid < fuel → Killed fuel world pid
  unfolding KilledAll Killed kill_tree
  kill_tree-IsPostorder zero world pid enough = absurd (omega (arith, enough))
  kill_tree-IsPostorder (suc fuel) world pid enough =
      let (before, below, done, posts, log) =
        kill_all-ArePostorder fuel (kill_tree-IsPostorder fuel) world (kids pid) (
          All-map (λ child. rank child < rank pid) (λ child. rank child < fuel) (kids pid)
            (λ child less. omega (arith, less, enough)) (descends pid)) in
      (
        before,
        below ++ pid ∷ [],
        rw (kill_tree, steady world pid, done) refl,
        tree posts,
        logs before pid
            ∙ ap (λ l. l ++ pid ∷ []) log
            ∙ append_assoc (signalled world) below (pid ∷ []),
      )
