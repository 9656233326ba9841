-- ===== src/Raft/Harness/Examples.antt =====
-- Two servers that apply two commands, and a third command that differs.
use dist_kv_raft.Common.{ℕ, ◌≡◌, refl, true, none, some, List, [], ◌∷◌, nat_eq, lookup, insert}
use dist_kv_raft.Raft.Harness.{
  Config, Message, make_config, appliers, applier_step, check_logs, conflicts, differs, prev_ok,
}
use dist_kv_raft.Raft.Harness.Agreement.{IsAgreed, appliers_ensure_agreement}

abbrev message : ℕ → ℕ → ℕ → Message ℕ
message server index command = record {
  server = server;
  command_valid = true;
  command = command;
  command_index = index;
}

abbrev messages : List (Message ℕ)
messages = message 0 1 70 ∷ message 1 1 70 ∷ message 0 2 80 ∷ []

abbrev two_logs : Config ℕ
two_logs = record { logs = ((1, 70) ∷ (2, 80) ∷ []) ∷ ((1, 70) ∷ []) ∷ []; max_index = 2 }

no_error : appliers messages (make_config 2) ≡ some two_logs
unfolding appliers applier_step check_logs conflicts differs prev_ok lookup insert make_config
no_error = refl

gap_ends_test : applier_step (message 1 3 90) two_logs ≡ none
unfolding applier_step check_logs conflicts differs prev_ok lookup
gap_ends_test = refl

appliers_ensure_agreement_example : IsAgreed two_logs.logs
appliers_ensure_agreement_example = appliers_ensure_agreement 2 messages two_logs no_error
