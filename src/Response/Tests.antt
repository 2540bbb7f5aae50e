-- ===== src/Response/Tests.antt =====
-- internal/response at concrete inputs: a shell with two children, files of one name, and a chain that
-- had a rule.
use aegis_edr.Prelude.{
  ◌≡◌, ◌≢◌, refl, ℕ, zero, suc, ◌<◌, ℤ, pos, negsuc, String, false, Option, none, some, List, [],
  ◌∷◌, ◌++◌, ◌^^◌, All, arith, string_eq, ◌==◌, if◌then◌else◌, split_on, trim_space,
}
use aegis_edr.Dict.{get, put, remove, empty}
use aegis_edr.Response.Kill
use aegis_edr.Response.Kill.{child_pids, find_child_pids, pids_of, atoi, signal, kill_tree}
use aegis_edr.Response.Kill.Order.{Killed, kill_tree-IsPostorder}
use aegis_edr.Response.Quarantine
use aegis_edr.Response.Quarantine.{Files, complete, base, dest_path, quarantine_file}
use aegis_edr.Response.Quarantine.Safety.{Outcome, quarantine_file_outcome}
use aegis_edr.Response.Isolate.{Runner, Chain, IsIptables}

output : ℤ → Option String
output (pos (suc zero)) = some "2\n3\n"
output (pos (suc (suc zero))) = some "4\n"
output _ = none

-- The processes that were signalled.
abbrev shells : Kill.System (List ℤ) String
shells = record {
  pgrep = λ _ pid. output pid;
  find_process = λ _ _. none;
  kill = λ log pid. (log ++ pid ∷ [], none);
}

abbrev kids : ℤ → List ℤ
kids pid = child_pids shells [] pid

test_kids : kids (pos 1) ≡ pos 2 ∷ pos 3 ∷ []
unfolding child_pids find_child_pids output pids_of atoi split_on trim_space
test_kids = refl

test_kill : kill_tree shells 3 [] (pos 1) ≡ some (pos 4 ∷ pos 2 ∷ pos 3 ∷ pos 1 ∷ [], none)
unfolding kill_tree find_child_pids output pids_of atoi split_on trim_space
test_kill = refl

height : ℤ → ℕ
height (pos (suc zero)) = 2
height (pos (suc (suc zero))) = 1
height _ = 0

descends : (pid : ℤ) → All (λ child. height child < height pid) (kids pid)
unfolding child_pids find_child_pids output pids_of atoi split_on trim_space height
descends (pos zero) = tt
descends (pos (suc zero)) = (omega arith, (omega arith, tt))
descends (pos (suc (suc zero))) = (omega arith, tt)
descends (pos (suc (suc (suc n)))) = tt
descends (negsuc n) = tt

steady : (log : List ℤ) (pid : ℤ) → child_pids shells log pid ≡ kids pid
unfolding child_pids find_child_pids
steady log pid = refl

logs : (log : List ℤ) (pid : ℤ) → (signal shells log pid).0 ≡ log ++ pid ∷ []
unfolding signal
logs log pid = refl

kill_tree-IsPostorder_example :
    Killed shells kids steady height descends (λ log. log) logs 3 [] (pos 1)
unfolding height
kill_tree-IsPostorder_example =
    kill_tree-IsPostorder shells kids steady height descends (λ log. log) logs 3 [] (pos 1)
      (omega arith)

-- A cipher that only marks what it sealed.
abbrev disk : Quarantine.System
disk = record {
  read_fails = λ _ _. false;
  mkdir_fails = λ _ _. false;
  remove_fails = λ _ _. false;
  write = λ _ _ _. complete;
  takes_key = λ key. key == "k";
  nonce = some "n";
  seal = λ key once content. key ^^ once ^^ content;
}

abbrev two_files : Files
two_files = put (put empty "/a/x" "one") "/b/x" "two"

between : Files
unfolding quarantine_file dest_path base put remove get
between = (quarantine_file disk "k" two_files "/a/x" "/q").0

after : Files
unfolding between quarantine_file dest_path base put remove get
after = (quarantine_file disk "k" between "/b/x" "/q").0

apart : "/b/x" ≢ dest_path "/b/x" "/q"
unfolding dest_path base
apart same = absurd (ground (arith, (string_eq.same_iff "/b/x" (dest_path "/b/x" "/q")).1 same))

quarantine_file_outcome_example :
    Outcome disk "k" two_files "/b/x"
      (dest_path "/b/x" "/q")
      (quarantine_file disk "k" two_files "/b/x" "/q")
quarantine_file_outcome_example = quarantine_file_outcome disk "k" two_files "/b/x" "/q" apart

effect : String → List String → Chain → Chain
effect flag (target ∷ []) chain =
    if flag == "-P"
    then record chain { policy = target }
    else record chain { rules = chain.rules ++ (target ∷ []) ∷ [] }
effect flag [] chain =
    if flag == "-F"
    then record chain { rules = [] }
    else record chain { rules = chain.rules ++ [] ∷ [] }
effect flag rule chain = record chain { rules = chain.rules ++ rule ∷ [] }

abbrev run_iptables : Runner Chain String
run_iptables (_ ∷ flag ∷ _ ∷ rest) chain = (effect flag rest chain, none)
run_iptables _ chain = (chain, none)

appends :
    (rule : List String) (chain : Chain)
    → effect "-A" rule chain ≡ record chain { rules = chain.rules ++ rule ∷ [] }
unfolding effect
appends [] chain = refl
appends (target ∷ []) chain = refl
appends (first ∷ second ∷ more) chain = refl

abbrev guarded : Chain
guarded = record { policy = "ACCEPT"; rules = ("-d" ∷ "10.0.0.1" ∷ "-j" ∷ "DROP" ∷ []) ∷ [] }

works : IsIptables run_iptables (λ chain. chain)
unfolding effect
works = record { appends = appends; sets_policy = λ _ _. refl; flushes = λ _. refl }
