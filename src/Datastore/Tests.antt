-- ===== src/Datastore/Tests.antt =====
-- A handle over small trees: a tree is a number, which stands for its content. The operations run on
-- it, and the theorems apply to it.
use go_lab_netconf.Base.{
  length, ℕ, ◌+◌, String, str_eq, eq_iff, true, List, [], ◌∷◌, Option, none, some, ◌≡◌, ◌≢◌, ◌⊎◌,
  refl, arith, ◌==◌, if◌then◌else◌,
}
use go_lab_netconf.Base.Dict
use go_lab_netconf.DomainErr.{AnyError, lock_denied, candidate_dirty, validation_failed}
use go_lab_netconf.Datastore.Yang.{Tree, ok, err}
use go_lab_netconf.Datastore.Names
use go_lab_netconf.Datastore.{
  Context, EditOp, Handle, new, store, deny_if_locked, dirty, edit,
  write_running_if_candidate_clean, commit, discard, lock, unlock, locked, lock_count,
}
use go_lab_netconf.Datastore.Calls.{
  Call, edits, writes_running, commits, discards, locks, unlocks, step, after, run, error_of,
}
use go_lab_netconf.Datastore.Locks.{error_unchanged, IsKnown}
use go_lab_netconf.Datastore.Holders.{HasRealHolders, run-new-HasRealHolders}
use go_lab_netconf.Datastore.Protection.{Kept, lock_protects}
use go_lab_netconf.Datastore.Transactions.{
  applied, Transaction, starts, own, others, committed as after_commit, transaction-commit,
}
use go_lab_netconf.Datastore.Content.{RunningChange, running_writers}

pub same : (n : ℕ) → n == n ≡ true
same n = ground arith

-- 0 is the empty tree and 99 an invalid one.
abbrev pub toy : Tree
toy = record {
  Node = ℕ;
  Value = ℕ;
  is_zero = λ n. n == 0;
  clone = λ n. n;
  equal = λ n m. n == m;
  subtree = λ path n. if length path == 0 then ok n else ok 0;
  apply = λ op path v n.
      if str_eq op "merge"
      then ok (n + v)
      else if str_eq op "replace"
      then ok v
      else err (validation_failed "unsupported operation" []);
  empty_map = 0;
  validate = λ n. if n == 99 then some (validation_failed "invalid" []) else none;
  diff = λ n m. if n == m then [] else record { path = []; operation = "replace" } ∷ [];
  IsRegular = λ n. Unit;
  equal-clone = λ n _. same n;
  equal-clone_left = λ n _. same n;
}

abbrev by : String → Context
by s = record { error = none; session = s }

abbrev set_to : ℕ → EditOp toy
set_to n = record { op = "replace"; path = []; value = n }

abbrev fresh : Handle toy
fresh = record {
  profile = "router";
  running = 1;
  candidate = 1;
  startup = 1;
  has_sink = true;
  gen = 0;
  locks = [];
}

fresh-new : new toy "router" 1 0 0 true ≡ fresh
unfolding new
fresh-new = refl

-- Session 7 has locked and edited the candidate.
abbrev pub edited : Handle toy
edited = record fresh { candidate = 5; locks = (Names.candidate, "7") ∷ [] }

edited-run :
    run toy fresh
      ((by "7", locks Names.candidate "7") ∷ (by "7", edits Names.candidate (set_to 5)) ∷ [])
    ≡ edited
unfolding run step lock edit store deny_if_locked Dict.lookup Dict.put
edited-run = refl

others_refused :
    (error_of toy edited (by "8") discards ≡ some (lock_denied "datastore is locked by session 7"))
    × (error_of toy edited (by "8") (writes_running (set_to 3))
        ≡ some (candidate_dirty "candidate is dirty"))
    × (error_of toy edited (by "8") (locks Names.candidate "8")
        ≡ some (lock_denied "datastore is locked by session 7"))
    × (lock_count toy edited ≡ 1)
unfolding step discard write_running_if_candidate_clean lock dirty store deny_if_locked Dict.lookup
    lock_count locked
others_refused = (refl, refl, refl, refl)

committed : commit toy edited (by "7") ≡ (
  (none, record edited { running = 5; gen = 1 }),
  some (record { profile = "router"; changes = record { path = []; operation = "replace" } ∷ [] }),
)
unfolding commit deny_if_locked Dict.lookup
committed = refl

lock_protects_example :
    Kept toy edited Names.candidate
      (run toy edited ((by "8", discards) ∷ (by "8", unlocks Names.candidate "8") ∷ []))
lock_protects_example =
    lock_protects toy edited Names.candidate "7"
      ((by "8", discards) ∷ (by "8", unlocks Names.candidate "8") ∷ []) (unfold Dict.lookup in refl)
      (
        ("8", refl, ground (arith, eq_iff "8" "7")),
        (("8", refl, ground (arith, eq_iff "8" "7")), tt),
      )

error_unchanged_example : after toy edited (by "8") discards ≡ edited
error_unchanged_example =
    error_unchanged toy edited (by "8") discards
      {e = lock_denied "datastore is locked by session 7"} others_refused.0

run-new-HasRealHolders_example :
    HasRealHolders toy
      (run toy (new toy "router" 1 0 0 true) ((by "7", locks Names.candidate "7") ∷ []))
run-new-HasRealHolders_example =
    run-new-HasRealHolders toy "router" 1 0 0 true ((by "7", locks Names.candidate "7") ∷ [])

abbrev IsLockable : Type 0
IsLockable =
    (◌≡◌ {A = Option AnyError} none none)
    × (◌≢◌ {A = String} "7" "")
    × IsKnown toy fresh Names.startup
    × ((locked toy fresh Names.startup ≡ none) ⊎ (locked toy fresh Names.startup ≡ some "7"))

lock_done : (lock toy fresh (by "7") Names.startup "7").0 ≡ none
unfolding lock store Dict.lookup
lock_done = refl

unlock_done : (unlock toy edited (by "7") Names.candidate "7").0 ≡ none
unfolding unlock store Dict.lookup
unlock_done = refl

commit_done : (commit toy edited (by "7")).0.0 ≡ none
unfolding commit deny_if_locked Dict.lookup
commit_done = refl

discard_done : (discard toy edited (by "7")).0 ≡ none
unfolding discard deny_if_locked Dict.lookup
discard_done = refl

copy_free : deny_if_locked toy edited Names.startup "9" ≡ none
unfolding deny_if_locked Dict.lookup
copy_free = refl

running_writers_example :
    ((after toy edited (by "7") commits).running ≡ 1)
    ⊎ RunningChange toy edited (by "7") commits (after toy edited (by "7") commits)
running_writers_example = running_writers toy edited (by "7") commits

-- Session 7 holds both locks, adds to the candidate around a call of session 8, and commits.
abbrev locked_by_7 : Handle toy
locked_by_7 = record fresh { locks = (Names.candidate, "7") ∷ (Names.running, "7") ∷ [] }

abbrev add : ℕ → EditOp toy
add n = record { op = "merge"; path = []; value = n }

abbrev calls_of_both : List (Context × Call toy)
calls_of_both =
    (by "7", edits Names.candidate (add 3))
    ∷ (by "8", discards)
    ∷ (by "7", edits Names.candidate (add 4))
    ∷ []

both_made : Transaction toy "7" calls_of_both (add 3 ∷ add 4 ∷ [])
both_made = own (by "7") (add 3) refl refl (
    others (by "8") discards "8" refl (λ p. ground (arith, eq_iff "8" "7"))
      (own (by "7") (add 4) refl refl starts))

transaction-commit_example :
    ((run toy locked_by_7 calls_of_both).running ≡ 1)
    × (commit toy (run toy locked_by_7 calls_of_both) (by "7")
        ≡ after_commit toy
            (run toy locked_by_7 calls_of_both)
            1
            (applied toy (add 3 ∷ add 4 ∷ []) 1)
            (toy.validate (applied toy (add 3 ∷ add 4 ∷ []) 1)))
transaction-commit_example =
    transaction-commit toy locked_by_7 "7" calls_of_both (add 3 ∷ add 4 ∷ []) (by "7")
      (unfold Dict.lookup in (refl, refl)) (λ p. ground (arith, eq_iff "7" "")) both_made refl refl
