-- ===== src/Tests/Ssh.antt =====
-- A command that writes in pieces, and the theorems on internal/ssh/command.go at it.
use remnanode_setup_bot.Base.{
  ℕ, ◌≤◌, List, [], ◌∷◌, none, some, false, ◌≡◌, refl, ltb, length, take,
}
use remnanode_setup_bot.Ssh.{Session, begun, finished, write_all, new_limited_buffer, run}
use remnanode_setup_bot.Ssh.Output.{joined, write_all-refines, run-bounded, run_complete}

abbrev pieces : List (List ℕ)
pieces = (1 ∷ 2 ∷ []) ∷ (3 ∷ 4 ∷ []) ∷ []

abbrev session : Session
session = record {
  stdout = pieces;
  stderr = [];
  cancellation = none;
  timed_out = false;
  waited = finished;
}

write_all_example :
    ((write_all (new_limited_buffer 3) pieces).content ≡ take 3 (joined pieces))
    × ((write_all (new_limited_buffer 3) pieces).exceeded ≡ ltb 3 (length (joined pieces)))
write_all_example = write_all-refines 3 pieces

run-bounded_example :
    (length (run 3 3 (begun session)).result.stdout ≤ 3)
    × (length (run 3 3 (begun session)).result.stderr ≤ 3)
run-bounded_example = run-bounded 3 3 (begun session)

run_complete_example :
    (run 4 4 (begun session)).result
    ≡ record { stdout = joined pieces; stderr = []; status = some 0; timed_out = false }
unfolding run write_all new_limited_buffer
run_complete_example = run_complete 4 4 session refl
