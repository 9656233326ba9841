-- ===== src/Raft/Leaders/Unique.antt =====
-- raft/config.go: what one iteration of checkOneLeader finds.
use dist_kv_raft.Common.{
  ℕ, ◌+◌, ◌≤◌, ◌<◌, nat_eq, Option, none, some, List, [], ◌∷◌, Dict, lookup, Has, All-Has, length,
  ◌≡◌, ◌≢◌, refl, sym, ap, ◌∙◌, subst, arith, ◌⊎◌, inl, inr, Option-cases, none≢some, some_inj,
}
use dist_kv_raft.Raft.Leaders.{
  View, listed, collect, scan_terms, Seen, fatal, panics, no_leader, leader_is, first_of, leader_at,
  answer_of, look_once,
}
use dist_kv_raft.Raft.Leaders.Collect.{
  lookup_of_Has, Has-of_lookup, leaders_in, listed-collect, collect-IsFull, collect-IsKeyed,
}
use dist_kv_raft.Raft.Leaders.Scan.{
  AtMost, Scanned, scan_terms-some, scan_terms-none, Leads, leaders_in_of, of_leaders_in,
  two_differ,
}

abbrev pub IsLeaderless : List View → Type 0
IsLeaderless views = (i term : ℕ) → ¬ Leads views i term

-- Two connected servers lead in one term.
abbrev pub HasRivals : List View → Type 0
HasRivals views = (term : ℕ) × (i : ℕ) × (j : ℕ) × (i ≢ j) × Leads views i term × Leads views j term

-- Of the connected servers only `i` leads in the latest term that has a leader, and no other term
-- has two.
pub record IsLeader (views : List View) (i : ℕ) : Type 0 where
  pub latest : ℕ
  pub leads : Leads views i latest
  pub bounded : (j term : ℕ) → Leads views j term → term ≤ latest
  pub alone : (j k term : ℕ) → Leads views j term → Leads views k term → j ≡ k

abbrev pub Matches : List View → Seen → Type 0
Matches views fatal = HasRivals views
Matches views panics = ⊥
Matches views no_leader = IsLeaderless views
Matches views (leader_is i) = IsLeader views i

module _ (views : List View) where
  abbrev leaders : Dict ℕ (List ℕ)
  leaders = collect 0 views []

  in_map : (term : ℕ) → listed (lookup term leaders) ≡ leaders_in term 0 views
  unfolding lookup
  in_map term = listed-collect term 0 views []

  of_entry :
      (term : ℕ) (servers : List ℕ)
      → Has (term, servers) leaders
      → servers ≡ leaders_in term 0 views
  of_entry term servers has =
      sym (ap listed (lookup_of_Has term servers leaders (collect-IsKeyed 0 views [] tt) has))
      ∙ in_map term

  -- A leader's term is in the map, with a list that has the leader.
  entry_of :
      (i term : ℕ)
      → Leads views i term
      → (servers : List ℕ) × Has (term, servers) leaders × Has i servers
  entry_of i term leads =
      let has = leaders_in_of views 0 i term leads in
      elim (Option-cases (lookup term leaders)) [
        | inl missing ↦ absurd (subst (Has (0 + i)) (sym (in_map term) ∙ ap listed missing) has)
        | inr (servers, found) ↦ (
          servers,
          Has-of_lookup term servers leaders found,
          subst (λ n. Has n servers) (omega arith)
              (subst (Has (0 + i)) (sym (in_map term) ∙ ap listed found) has),
        )
      ]

  Leads-of :
      (i term : ℕ) (servers : List ℕ)
      → Has (term, servers) leaders
      → Has i servers
      → Leads views i term
  Leads-of i term servers entry has =
      let (k, e, leads) =
        of_leaders_in views 0 i term (subst (Has i) (of_entry term servers entry) has) in
      subst (λ n. Leads views n term) (omega arith) leads

  rivals :
      (term : ℕ) (servers : List ℕ)
      → Has (term, servers) leaders
      → 1 < length servers
      → HasRivals views
  rivals term [] has more = absurd (omega arith)
  rivals term (a ∷ []) has more = absurd (omega arith)
  rivals term (a ∷ b ∷ others) has more =
      let apart = two_differ views 0 a b term others (sym (of_entry term (a ∷ b ∷ others) has)) in
      (
        term,
        a,
        b,
        λ e. omega arith,
        Leads-of a term (a ∷ b ∷ others) has (inl refl),
        Leads-of b term (a ∷ b ∷ others) has (inr (inl refl)),
      )

  first-Matches :
      (term : ℕ) (found : Option (List ℕ))
      → lookup term leaders ≡ found
      → (servers : List ℕ) × Has (term, servers) leaders
      → ((j t : ℕ) → Leads views j t → t ≤ term)
      → ((j k t : ℕ) → Leads views j t → Leads views k t → j ≡ k)
      → Matches views (first_of found)
  first-Matches term none e (servers, has) bounded alone =
      none≢some (sym e ∙ lookup_of_Has term servers leaders (collect-IsKeyed 0 views [] tt) has)
  first-Matches term (some []) e entry bounded alone =
      let full = collect-IsFull 0 views [] tt in
      let pos : 0 < length {A = ℕ} [] =
        All-Has (λ entry. 0 < length entry.1) leaders (term, []) full
          (Has-of_lookup term [] leaders e) in
      absurd (omega arith)
  first-Matches term (some (i ∷ others)) e entry bounded alone = record {
    latest = term;
    leads = Leads-of i term (i ∷ others) (Has-of_lookup term (i ∷ others) leaders e) (inl refl);
    bounded = bounded;
    alone = alone;
  }

  single_same :
      (servers : List ℕ) (j k : ℕ) → length servers ≤ 1 → Has j servers → Has k servers → j ≡ k
  single_same [] j k one hj hk = absurd hj
  single_same (a ∷ []) j k one (inl e) (inl f) = e ∙ sym f
  single_same (a ∷ []) j k one (inl e) (inr f) = absurd f
  single_same (a ∷ []) j k one (inr e) hk = absurd e
  single_same (a ∷ b ∷ others) j k one hj hk = absurd (omega arith)

  bounded_by :
      (last : Option ℕ) (j term : ℕ)
      → Scanned leaders none last
      → Leads views j term
      → AtMost term last
  bounded_by last j term scanned leads =
      let (servers, has, of) = entry_of j term leads in
      All-Has (λ entry. AtMost entry.0 last) leaders (term, servers) scanned.bounded has

  alone_in :
      (last : Option ℕ) (j k term : ℕ)
      → Scanned leaders none last
      → Leads views j term
      → Leads views k term
      → j ≡ k
  alone_in last j k term scanned lj lk =
      let (servers, has, of_j) = entry_of j term lj in
      let (others, has', of_k) = entry_of k term lk in
      let same = of_entry term others has' ∙ sym (of_entry term servers has) in
      single_same servers j k
        (All-Has (λ entry. length entry.1 ≤ 1) leaders (term, servers) scanned.single has) of_j
        (subst (Has k) same of_k)

  leader-Matches :
      (last : Option ℕ) (entry : ℕ × List ℕ)
      → Scanned leaders none last
      → Has entry leaders
      → Matches views (leader_at last leaders)
  leader-Matches none entry scanned has =
      All-Has (λ entry. AtMost entry.0 none) leaders entry scanned.bounded has
  leader-Matches (some term) entry scanned has =
      first-Matches term (lookup term leaders) refl (entry_of_origin scanned.origin)
        (λ j t. bounded_by (some term) j t scanned) (λ j k t. alone_in (some term) j k t scanned)
    where
      entry_of_origin :
          (some term ≡ none)
            ⊎ ((t : ℕ) × (servers : List ℕ) × (some term ≡ some t) × Has (t, servers) leaders)
          → (servers : List ℕ) × Has (term, servers) leaders
      entry_of_origin (inl e) = absurd (none≢some (sym e))
      entry_of_origin (inr (t, servers, e, has)) =
          (servers, subst (λ x. Has (x, servers) leaders) (sym (some_inj e)) has)

  answer-Matches :
      (dict : Dict ℕ (List ℕ)) (result : Option (Option ℕ))
      → leaders ≡ dict
      → scan_terms leaders none ≡ result
      → Matches views (answer_of result dict)
  answer-Matches dict none same e =
      let (term, servers, has, more) = scan_terms-none leaders none e in
      rivals term servers has more
  answer-Matches [] (some last) same e = λ i term leads.
      let (servers, has, of) = entry_of i term leads in subst (Has (term, servers)) same has
  answer-Matches (entry ∷ rest) (some last) same e =
      subst (λ d. Matches views (leader_at last d)) same
        (leader-Matches last entry (scan_terms-some leaders none last e)
          (subst (Has entry) (sym same) (inl refl)))

  pub look_once_lem : Matches views (look_once views)
  unfolding look_once
  look_once_lem = answer-Matches leaders (scan_terms leaders none) refl refl
