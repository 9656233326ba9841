-- ===== src/Raft/Harness/Agreement.antt =====
-- raft/config.go: what `applier` and `checkLogs` ensure while they report no error.
use dist_kv_raft.Common.{
  ℕ, zero, suc, ltb, ◌==◌, Eq, nat_eq, Bool, true, false, not, ◌&&◌, ◌||◌, Option, none, some, List,
  [], ◌∷◌, Dict, lookup, insert, lookup-insert, get_elem?, set, replicate, ◌≡◌, ◌≢◌, refl, sym, ap,
  ◌∙◌, subst, arith, ◌⊎◌, inl, inr, Bool-cases, Option-cases, some_inj, none≢some,
}
use dist_kv_raft.Raft.Harness.{
  Config, Message, make_config, log_of, differs, conflicts, prev_ok, check_logs, applier_step,
  appliers,
}

-- The command that a server has at an index.
abbrev pub holds : {V : Type 0} → ℕ → ℕ → List (Dict ℕ V) → Option V
holds i index logs = elim (get_elem? logs i) [ none ↦ none | some log ↦ lookup index log ]

or_false : (a b : Bool) → (a || b) ≡ false → (a ≡ false) × (b ≡ false)
or_false a b h = (ground (arith, h), ground (arith, h))

module _ {V : Type 0} ⦃go : Eq V⦄ where
  -- No two servers have different commands at an index, and none has a gap above index 1.
  pub record IsAgreed (logs : List (Dict ℕ V)) : Type 0 where
    pub same :
        (i j index : ℕ) (a b : V)
        → holds i index logs ≡ some a
        → holds j index logs ≡ some b
        → a ≡ b
    pub no_gap :
        (i k : ℕ) (a : V) → holds i (suc (suc k)) logs ≡ some a → ¬ (holds i (suc k) logs ≡ none)

  same_command : (old v : V) → differs (some old) v ≡ false → old ≡ v
  unfolding differs
  same_command old v h = ground (arith, h, go.equal_iff old v)

  no_conflict :
      (index : ℕ) (v : V) (logs : List (Dict ℕ V)) (j : ℕ) (b : V)
      → conflicts index v logs ≡ false
      → holds j index logs ≡ some b
      → b ≡ v
  unfolding conflicts
  no_conflict index v [] j b h e = absurd (none≢some e)
  no_conflict index v (log ∷ logs) zero b h e =
      same_command b v (subst (λ o. differs o v ≡ false) e (ground (arith, h)))
  no_conflict index v (log ∷ logs) (suc j) b h e =
      no_conflict index v logs j b (ground (arith, h)) e

  -- After a write at server `i`, an entry is the new one or was there before.
  written_inv :
      (i index : ℕ) (v : V) (logs : List (Dict ℕ V)) (j x : ℕ) (a : V)
      → holds j x (set logs i (insert index v (log_of i logs))) ≡ some a
      → ((j ≡ i) × (x ≡ index) × (a ≡ v)) ⊎ (holds j x logs ≡ some a)
  written_inv i index v [] j x a h = inr h
  written_inv zero index v (log ∷ logs) zero x a h = elim (Bool-cases (index == x)) [
    | inl e ↦ inl (refl, ground (arith, e), ground (arith, h, lookup-insert index x v log, e))
    | inr e ↦ inr (ground (arith, h, lookup-insert index x v log, e))
  ]
  written_inv zero index v (log ∷ logs) (suc j) x a h = inr h
  written_inv (suc i) index v (log ∷ logs) zero x a h = inr h
  written_inv (suc i) index v (log ∷ logs) (suc j) x a h =
      elim (written_inv i index v logs j x a h) [
        | inl (e, at, new) ↦ inl (ap suc e, at, new)
        | inr old ↦ inr old
      ]

  -- What a server has at an index it keeps, or it is overwritten.
  written_keeps :
      (i index : ℕ) (v : V) (logs : List (Dict ℕ V)) (j x : ℕ)
      → holds j x (set logs i (insert index v (log_of i logs))) ≡ none
      → holds j x logs ≡ none
  written_keeps i index v [] j x h = h
  written_keeps zero index v (log ∷ logs) zero x h = ground (arith, h, lookup-insert index x v log)
  written_keeps zero index v (log ∷ logs) (suc j) x h = h
  written_keeps (suc i) index v (log ∷ logs) zero x h = h
  written_keeps (suc i) index v (log ∷ logs) (suc j) x h = written_keeps i index v logs j x h

  prev_held :
      (i k : ℕ) (logs : List (Dict ℕ V))
      → prev_ok (suc (suc k)) (log_of i logs) ≡ true
      → ¬ (holds i (suc k) logs ≡ none)
  unfolding prev_ok lookup
  prev_held i k [] h e = ground (arith, h)
  prev_held zero k (log ∷ logs) h e = ground (arith, h, e)
  prev_held (suc i) k (log ∷ logs) h e = prev_held i k logs h e

  write-IsAgreed :
      (i index : ℕ) (v : V) (logs : List (Dict ℕ V))
      → IsAgreed logs
      → conflicts index v logs ≡ false
      → ((k : ℕ) → index ≡ suc (suc k) → prev_ok index (log_of i logs) ≡ true)
      → IsAgreed (set logs i (insert index v (log_of i logs)))
  write-IsAgreed i index v logs w c p = record {
    same = λ m n x a b ha hb. elim (written_inv i index v logs m x a ha) [
      | inl (mi, xi, av) ↦ elim (written_inv i index v logs n x b hb) [
        | inl (ni, xj, bv) ↦ av ∙ sym bv
        | inr old ↦
            av ∙ sym (no_conflict index v logs n b c (subst (λ y. holds n y logs ≡ some b) xi old))
      ]
      | inr older ↦ elim (written_inv i index v logs n x b hb) [
        | inl (ni, xj, bv) ↦
            no_conflict index v logs m a c (subst (λ y. holds m y logs ≡ some a) xj older) ∙ sym bv
        | inr old ↦ w.same m n x a b older old
      ]
    ];
    no_gap = λ m k a ha z. elim (written_inv i index v logs m (suc (suc k)) a ha) [
      | inr old ↦ w.no_gap m k a old (written_keeps i index v logs m (suc k) z)
      | inl (mi, xi, av) ↦
          prev_held i k logs (subst (λ y. prev_ok y (log_of i logs) ≡ true) (sym xi) (p k (sym xi)))
            (subst (λ j. holds j (suc k) logs ≡ none) mi (written_keeps i index v logs m (suc k) z))
    ];
  }

  -- The logs after a message that passes.
  abbrev written : Message V → List (Dict ℕ V) → List (Dict ℕ V)
  written m logs = set logs m.server (insert m.command_index m.command (log_of m.server logs))

  abbrev is_error : Message V → Config V → Bool
  is_error m cfg =
      (ltb 1 m.command_index && not (prev_ok m.command_index (log_of m.server cfg.logs)))
      || conflicts m.command_index m.command cfg.logs

  error_ends :
      (m : Message V) (cfg : Config V)
      → m.command_valid ≡ true
      → is_error m cfg ≡ true
      → applier_step m cfg ≡ none
  unfolding applier_step check_logs
  error_ends m cfg valid e = simp (applier_step, valid, e)

  passes :
      (m : Message V) (cfg : Config V)
      → m.command_valid ≡ true
      → is_error m cfg ≡ false
      → applier_step m cfg ≡ some (check_logs m cfg).1
  unfolding applier_step check_logs
  passes m cfg valid e = simp (applier_step, valid, e)

  applied_inv :
      (m : Message V) (cfg cfg' : Config V)
      → m.command_valid ≡ true
      → applier_step m cfg ≡ some cfg'
      → (conflicts m.command_index m.command cfg.logs ≡ false)
        × ((ltb 1 m.command_index && not (prev_ok m.command_index (log_of m.server cfg.logs)))
            ≡ false)
        × (cfg'.logs ≡ written m cfg.logs)
  unfolding check_logs
  applied_inv m cfg cfg' valid h = elim (Bool-cases (is_error m cfg)) [
    | inl e ↦ absurd (none≢some (sym (error_ends m cfg valid e) ∙ h))
    | inr e ↦
        let passed =
          or_false
            (ltb 1 m.command_index && not (prev_ok m.command_index (log_of m.server cfg.logs)))
            (conflicts m.command_index m.command cfg.logs) e in
        let after = some_inj (sym h ∙ passes m cfg valid e) in
        (passed.1, passed.0, ap (λ c. c.logs) after)
  ]

  ignored :
      (m : Message V) (cfg : Config V) → m.command_valid ≡ false → applier_step m cfg ≡ some cfg
  unfolding applier_step
  ignored m cfg e = simp (applier_step, e)

  step-IsAgreed :
      (m : Message V) (cfg cfg' : Config V)
      → applier_step m cfg ≡ some cfg'
      → IsAgreed cfg.logs
      → IsAgreed cfg'.logs
  step-IsAgreed m cfg cfg' h w = elim (Bool-cases m.command_valid) [
    | inr other ↦ subst (λ c. IsAgreed c.logs) (some_inj (sym (ignored m cfg other) ∙ h)) w
    | inl valid ↦
        let (free, in_order, after) = applied_inv m cfg cfg' valid h in
        subst IsAgreed (sym after) (
          write-IsAgreed m.server m.command_index m.command cfg.logs w free
            (λ k e. ground (arith, in_order, e)))
  ]

  appliers-IsAgreed :
      (ms : List (Message V)) (cfg cfg' : Config V)
      → appliers ms cfg ≡ some cfg'
      → IsAgreed cfg.logs
      → IsAgreed cfg'.logs
  unfolding appliers
  appliers-IsAgreed [] cfg cfg' h w = subst (λ c. IsAgreed c.logs) (some_inj h) w
  appliers-IsAgreed (m ∷ ms) cfg cfg' h w = elim (Option-cases (applier_step m cfg)) [
    | inl e ↦ absurd (none≢some (sym (rw (appliers, e)) ∙ h))
    | inr (next, e) ↦
        appliers-IsAgreed ms next cfg' (sym (rw (appliers, e)) ∙ h) (step-IsAgreed m cfg next e w)
  ]

  empty_holds : (n i x : ℕ) → holds {V = V} i x (replicate n []) ≡ none
  unfolding lookup
  empty_holds zero i x = refl
  empty_holds (suc n) zero x = refl
  empty_holds (suc n) (suc i) x = empty_holds n i x

  make_config-IsAgreed : (n : ℕ) → IsAgreed (make_config {V = V} n).logs
  unfolding make_config
  make_config-IsAgreed n = record {
    same = λ i j x a b ha hb. absurd (none≢some (sym (empty_holds n i x) ∙ ha));
    no_gap = λ i k a ha. absurd (none≢some (sym (empty_holds n i (suc (suc k))) ∙ ha));
  }

  -- When the appliers of n servers that start with empty logs report no error, whatever the peers
  -- deliver, no two servers have different commands at an index, and no server has a command above
  -- index 1 without one just below it.
  pub appliers_ensure_agreement :
      (n : ℕ) (ms : List (Message V)) (cfg : Config V)
      → appliers ms (make_config n) ≡ some cfg
      → IsAgreed cfg.logs
  appliers_ensure_agreement n ms cfg h =
      appliers-IsAgreed ms (make_config n) cfg h (make_config-IsAgreed n)

  -- A command that differs from the one that some server has at its index ends the test.
  pub conflict_ends_test :
      (m : Message V) (cfg : Config V) (j : ℕ) (b : V)
      → m.command_valid ≡ true
      → holds j m.command_index cfg.logs ≡ some b
      → b ≢ m.command
      → applier_step m cfg ≡ none
  conflict_ends_test m cfg j b valid has other = elim (Bool-cases (is_error m cfg)) [
    | inl e ↦ error_ends m cfg valid e
    | inr e ↦
        let passed =
          or_false
            (ltb 1 m.command_index && not (prev_ok m.command_index (log_of m.server cfg.logs)))
            (conflicts m.command_index m.command cfg.logs) e in
        absurd (other (no_conflict m.command_index m.command cfg.logs j b passed.1 has))
  ]
