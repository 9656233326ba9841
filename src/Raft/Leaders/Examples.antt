-- ===== src/Raft/Leaders/Examples.antt =====
-- Three servers: first nobody leads, then server 2 in term 4 with an old leader beside it.
use dist_kv_raft.Common.{
  ℕ, zero, suc, Bool, true, false, none, some, List, [], ◌∷◌, lookup, insert, ◌≡◌, refl,
}
use dist_kv_raft.Raft.Leaders.{View, collect, scan_terms, look_once, check_one_leader, check_terms}
use dist_kv_raft.Raft.Leaders.Rounds.{Tells, one_leader_found}

abbrev view : ℕ → Bool → View
view term leader = record { connected = true; term = term; leader = leader }

abbrev quiet : List View
quiet = view 3 false ∷ view 3 false ∷ view 3 false ∷ []

abbrev elected : List View
elected = view 4 false ∷ view 3 true ∷ view 4 true ∷ []

abbrev answers : ℕ → List View
answers zero = quiet
answers (suc iters) = elected

finds_leader : check_one_leader answers ≡ some 2
unfolding check_one_leader look_once collect scan_terms lookup insert
finds_leader = refl

one_leader_found_example : Tells answers (check_one_leader answers)
one_leader_found_example = one_leader_found answers

disagreement_ends_test : check_terms elected ≡ none
unfolding check_terms
disagreement_ends_test = refl
