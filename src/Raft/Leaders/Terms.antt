-- ===== src/Raft/Leaders/Terms.antt =====
-- raft/config.go: the answers of checkTerms and checkNoLeader.
use dist_kv_raft.Common.{
  ℕ, nat_beq, nat_eq, nat_beq_iff, true, false, Option, none, some, List, [], ◌∷◌, Has, ◌≡◌, ◌≢◌,
  ◌↔◌, refl, sym, ap, ◌∙◌, subst, arith, ◌⊎◌, inl, inr, Bool-cases, none≢some,
}
use dist_kv_raft.Raft.Leaders.{View, terms_loop, check_terms, check_no_leader}

-- A connected server has this term.
abbrev pub HasTerm : List View → ℕ → Type 0
HasTerm views term = (v : View) × Has v views × (v.connected ≡ true) × (v.term ≡ term)

abbrev Starts : Option ℕ → ℕ → Type 0
Starts none t = ⊥
Starts (some u) t = u ≡ t

-- What the loop gives from a term on that earlier servers had.
abbrev Result : List View → Option ℕ → Option (Option ℕ) → Type 0
Result views term none =
    (t : ℕ) × (u : ℕ) × (t ≢ u) × (Starts term t ⊎ HasTerm views t) × HasTerm views u
Result views term (some none) = (term ≡ none) × ((t : ℕ) → ¬ HasTerm views t)
Result views term (some (some t)) =
    (Starts term t ⊎ HasTerm views t)
    × ((u : ℕ) → Starts term u → u ≡ t)
    × ((u : ℕ) → HasTerm views u → u ≡ t)

one_on : (v : View) (vs : List View) (t : ℕ) → HasTerm vs t → HasTerm (v ∷ vs) t
one_on v vs t (w, has, c, e) = (w, inr has, c, e)

split_first :
    {C : Type 0} (v : View) (vs : List View) (t : ℕ)
    → ((v.connected ≡ true) → (v.term ≡ t) → C)
    → (HasTerm vs t → C)
    → HasTerm (v ∷ vs) t
    → C
split_first v vs t first rest (w, inl same, c, e) =
    first (ap (λ (x : View). x.connected) (sym same) ∙ c) (ap (λ (x : View). x.term) (sym same) ∙ e)
split_first v vs t first rest (w, inr has, c, e) = rest (w, has, c, e)

module _ (v : View) (vs : List View) where
  idle-Result :
      (term : Option ℕ) (result : Option (Option ℕ))
      → v.connected ≡ false
      → Result vs term result
      → Result (v ∷ vs) term result
  idle-Result term none idle (t, u, ne, inl s, has) = (t, u, ne, inl s, one_on v vs u has)
  idle-Result term none idle (t, u, ne, inr h, has) =
      (t, u, ne, inr (one_on v vs t h), one_on v vs u has)
  idle-Result term (some none) idle (e, nobody) =
      (e, λ t has. split_first v vs t (λ c h. ground (arith, c, idle)) (nobody t) has)
  idle-Result term (some (some t)) idle (from, old, all) = (
    elim from [ inl s ↦ inl s | inr h ↦ inr (one_on v vs t h) ],
    old,
    λ u has. split_first v vs u (λ c h. ground (arith, c, idle)) (all u) has,
  )

  -- The loop goes on with the term of `v`, which is also `term` if that is one.
  same-Result :
      (term : Option ℕ) (result : Option (Option ℕ))
      → v.connected ≡ true
      → (term ≡ none) ⊎ (term ≡ some v.term)
      → Result vs (some v.term) result
      → Result (v ∷ vs) term result
  same-Result term none c old (t, u, ne, inl s, has) =
      (t, u, ne, inr (v, inl refl, c, s), one_on v vs u has)
  same-Result term none c old (t, u, ne, inr h, has) =
      (t, u, ne, inr (one_on v vs t h), one_on v vs u has)
  same-Result term (some none) c old (e, nobody) = absurd (none≢some (sym e))
  same-Result term (some (some t)) c old (from, start, all) =
      let own = start v.term refl in
      (
        inr (v, inl refl, c, own),
        λ u s. starts_same u (subst (λ x. Starts x u) {x = term} {y = term} refl s) own,
        λ u has. split_first v vs u (λ c' h. sym h ∙ own) (all u) has,
      )
    where
      starts_same : (u : ℕ) → Starts term u → v.term ≡ t → u ≡ t
      starts_same u s e = elim old [
        | inl nothing ↦ absurd (subst (λ x. Starts x u) nothing s)
        | inr known ↦ sym (subst (λ x. Starts x u) known s) ∙ e
      ]

  other-Result : (t : ℕ) → v.connected ≡ true → t ≢ v.term → Result (v ∷ vs) (some t) none
  other-Result t c ne = (t, v.term, ne, inl refl, (v, inl refl, c, refl))

module _ (v : View) (vs : List View) where
  loop_idle :
      (term : Option ℕ) → v.connected ≡ false → terms_loop (v ∷ vs) term ≡ terms_loop vs term
  unfolding terms_loop
  loop_idle term idle = simp (terms_loop, idle)

  loop_first : v.connected ≡ true → terms_loop (v ∷ vs) none ≡ terms_loop vs (some v.term)
  unfolding terms_loop
  loop_first c = simp (terms_loop, c)

  loop_same :
      (t : ℕ)
      → v.connected ≡ true
      → nat_beq t v.term ≡ true
      → terms_loop (v ∷ vs) (some t) ≡ terms_loop vs (some t)
  unfolding terms_loop
  loop_same t c same = simp (terms_loop, c, same)

  loop_other :
      (t : ℕ) → v.connected ≡ true → nat_beq t v.term ≡ false → terms_loop (v ∷ vs) (some t) ≡ none
  unfolding terms_loop
  loop_other t c differs = simp (terms_loop, c, differs)

loop-Result : (vs : List View) (term : Option ℕ) → Result vs term (terms_loop vs term)
unfolding terms_loop
loop-Result [] none = (refl, λ t has. has.1)
loop-Result [] (some t) = (inl refl, λ u e. sym e, λ u has. absurd has.1)
loop-Result (v ∷ vs) none = elim (Bool-cases v.connected) [
  | inl c ↦ subst (Result (v ∷ vs) none) (sym (loop_first v vs c)) (
      same-Result v vs none (terms_loop vs (some v.term)) c (inl refl)
        (loop-Result vs (some v.term)))
  | inr idle ↦
      subst (Result (v ∷ vs) none) (sym (loop_idle v vs none idle))
        (idle-Result v vs none (terms_loop vs none) idle (loop-Result vs none))
]
loop-Result (v ∷ vs) (some t) = elim (Bool-cases v.connected) [
  | inl c ↦ elim (Bool-cases (nat_beq t v.term)) [
    | inl same ↦
        let e = (nat_beq_iff t v.term).0 same in
        subst (Result (v ∷ vs) (some t)) (sym (loop_same v vs t c same)) (
          same-Result v vs (some t) (terms_loop vs (some t)) c (inr (ap some e))
            (subst (λ x. Result vs (some x) (terms_loop vs (some t))) e (loop-Result vs (some t))))
    | inr differs ↦
        subst (Result (v ∷ vs) (some t)) (sym (loop_other v vs t c differs))
          (other-Result v vs t c (λ e. ground (arith, differs, e)))
  ]
  | inr idle ↦
      subst (Result (v ∷ vs) (some t)) (sym (loop_idle v vs (some t) idle))
        (idle-Result v vs (some t) (terms_loop vs (some t)) idle (loop-Result vs (some t)))
]

-- checkTerms returns the one term of all connected servers, or -1 if there is none, and ends the
-- test exactly when two of them have different terms.
pub terms_checked :
    (views : List View)
    → ((t : ℕ)
        → check_terms views ≡ some (some t)
        → HasTerm views t × ((u : ℕ) → HasTerm views u → u ≡ t))
      × (check_terms views ≡ some none → (t : ℕ) → ¬ HasTerm views t)
      × (check_terms views ≡ none → (t : ℕ) × (u : ℕ) × (t ≢ u) × HasTerm views t × HasTerm views u)
unfolding check_terms
terms_checked views =
    let r = loop-Result views none in
    (
      λ t e.
          let (from, start, all) = subst (Result views none) e r in
          (elim from [ inl s ↦ absurd s | inr h ↦ h ], all),
      λ e. (subst (Result views none) e r).1,
      λ e.
          let (t, u, ne, from, has) = subst (Result views none) e r in
          (t, u, ne, elim from [ inl s ↦ absurd s | inr h ↦ h ], has),
    )

-- checkNoLeader lets the test go on exactly when no connected server says that it leads.
pub no_leader_checked :
    (views : List View)
    → (check_no_leader views ≡ true)
      ↔ ((v : View) → Has v views → v.connected ≡ true → v.leader ≡ false)
unfolding check_no_leader
no_leader_checked [] = (λ e v has. absurd has, λ all. refl)
no_leader_checked (v ∷ vs) =
    let (on, back) = no_leader_checked vs in
    (
      λ e w has c. elim has [
        | inl same ↦
            ground
              (arith, e, ap (λ (x : View). x.connected) same, ap (λ (x : View). x.leader) same, c)
        | inr later ↦ on (ground (arith, e)) w later c
      ],
      λ all.
          let own = λ (c : v.connected ≡ true). all v (inl refl) c in
          ground (arith, own, back (λ w has. all w (inr has))),
    )
