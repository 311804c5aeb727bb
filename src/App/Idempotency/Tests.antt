-- ===== src/App/Idempotency/Tests.antt =====
-- A cache of two places, and what it holds after some calls.
use go_lab_netconf.Base.{
  ℕ, ◌≤◌, true, false, List, [], ◌∷◌, none, some, ◌≡◌, refl, arith, length, bytes,
}
use go_lab_netconf.Base.Dict.{lookup, put, remove}
use go_lab_netconf.Base.Int.{pos}
use go_lab_netconf.App.Idempotency.{
  ApplyResult, absent, hit, refused, key_reused, new_idemp_cache, lookup_apply, store_apply,
  clone_apply, unlink, remove_entry,
}
use go_lab_netconf.App.Idempotency.History.{
  CacheCall, looks, stores, run, lru_run, run-Refines, run_bounded,
}
use go_lab_netconf.App.Idempotency.Refinement.{Refines}
use go_lab_netconf.App.Idempotency.Replay.{replay_lem}

abbrev result : ℕ → ApplyResult ℕ
result generation = record {
  plan = record {
    previous_revision = "r1";
    candidate_revision = "r2";
    drifted = false;
    diff =
        some (
          record { path = bytes "spec.users"; op = "replace"; before = some []; after = none }
          ∷ []);
    operations = some (7 ∷ []);
  };
  applied = true;
  generation = generation;
  runtime_revision = "r2";
}

-- The copy has no entry's `before`, since that was empty.
abbrev copied : ℕ → ApplyResult ℕ
copied generation = record {
  plan = record {
    previous_revision = "r1";
    candidate_revision = "r2";
    drifted = false;
    diff =
        some
          (record { path = bytes "spec.users"; op = "replace"; before = none; after = none } ∷ []);
    operations = some (7 ∷ []);
  };
  applied = true;
  generation = generation;
  runtime_revision = "r2";
}

abbrev calls : List (CacheCall ℕ)
calls =
    stores "a" "f1" (some (result 1))
    ∷ stores "b" "f2" (some (result 2))
    ∷ looks "a" "f1"
    ∷ stores "c" "f3" (some (result 3))
    ∷ looks "b" "f2"
    ∷ looks "a" "f1"
    ∷ looks "a" "f2"
    ∷ []

-- The use of a spares it, and b is the one that is forgotten.
answers :
    (run calls (new_idemp_cache ℕ (pos 2))).0
    ≡ none
      ∷ none
      ∷ some (hit (copied 1))
      ∷ none
      ∷ some absent
      ∷ some (hit (copied 1))
      ∷ some (refused key_reused)
      ∷ []
unfolding run new_idemp_cache lookup_apply store_apply lookup put remove clone_apply unlink
    remove_entry
answers = refl

run-Refines_example :
    ((run calls (new_idemp_cache ℕ (pos 2))).0
      ≡ (lru_run (new_idemp_cache ℕ (pos 2)).max calls []).0)
    × Refines
        (run calls (new_idemp_cache ℕ (pos 2))).1
        (lru_run (new_idemp_cache ℕ (pos 2)).max calls []).1
        (new_idemp_cache ℕ (pos 2)).max
run-Refines_example = run-Refines ℕ (pos 2) calls

run_bounded_example :
    length (run calls (new_idemp_cache ℕ (pos 2))).1.entries ≤ (new_idemp_cache ℕ (pos 2)).max
run_bounded_example = run_bounded ℕ (pos 2) calls

two_places : (new_idemp_cache ℕ (pos 2)).max ≡ 2
unfolding new_idemp_cache
two_places = refl

replay_lem_example :
    (lookup_apply "a" "f1"
      (run (stores "c" "f3" (some (result 3)) ∷ []) (
        store_apply "a" "f1"
          (some (result 1))
          (run (stores "b" "f2" (some (result 2)) ∷ []) (new_idemp_cache ℕ (pos 2))).1)).1).0
    ≡ hit (clone_apply (result 1))
replay_lem_example =
    replay_lem ℕ (pos 2) (stores "b" "f2" (some (result 2)) ∷ [])
      (stores "c" "f3" (some (result 3)) ∷ []) "a" "f1" "f1" (result 1) refl (refl, tt)
      (omega (arith, two_places))
