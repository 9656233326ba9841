-- ===== src/Raft/Leaders/Scan.antt =====
-- raft/config.go: what checkOneLeader finds in its map, and the servers that a term's list names.
use dist_kv_raft.Common.{
  ℕ, zero, suc, ◌+◌, ◌≤◌, ◌<◌, ltb, nat_eq, nat_beq_iff, if◌then◌else◌, true, Option, none, some,
  List, [], ◌∷◌, Dict, Has, All, if_elim, get_elem?, length, ◌≡◌, refl, sym, ◌∙◌, subst, arith, ◌⊎◌,
  inl, inr, Bool-cases, none≢some, some_inj,
}
use dist_kv_raft.Raft.Leaders.{View, later, scan_terms}
use dist_kv_raft.Raft.Leaders.Collect.{is_lead, leaders_in}

abbrev pub AtMost : ℕ → Option ℕ → Type 0
AtMost term none = ⊥
AtMost term (some last) = term ≤ last

abbrev pub Grows : Option ℕ → Option ℕ → Type 0
Grows none last = Unit
Grows (some term) last = AtMost term last

abbrev pub IsSingle : Dict ℕ (List ℕ) → Type 0
IsSingle = All (λ entry. length entry.1 ≤ 1)

Grows-later :
    (term : ℕ) (last m : Option ℕ) → Grows (later term last) m → Grows last m × AtMost term m
Grows-later term none m g = (tt, g)
Grows-later term (some last) none g = elim (Bool-cases (ltb last term)) [
  | inl up ↦ absurd (ground (arith, up, g))
  | inr stays ↦ absurd (ground (arith, stays, g))
]
Grows-later term (some last) (some m) g = ground (arith, g)

later_inv : (term : ℕ) (last : Option ℕ) → (later term last ≡ some term) ⊎ (later term last ≡ last)
later_inv term none = inl refl
later_inv term (some last) = elim (Bool-cases (ltb last term)) [
  | inl up ↦ inl (ground (arith, up))
  | inr stays ↦ inr (ground (arith, stays))
]

-- The end of a scan that finds no term with two leaders.
pub record Scanned (leaders : Dict ℕ (List ℕ)) (last m : Option ℕ) : Type 0 where
  pub single : IsSingle leaders
  pub bounded : All (λ entry. AtMost entry.0 m) leaders
  pub grown : Grows last m
  pub origin :
      (m ≡ last) ⊎ ((term : ℕ) × (servers : List ℕ) × (m ≡ some term) × Has (term, servers) leaders)

Grows-self : (last : Option ℕ) → Grows last last
Grows-self none = tt
Grows-self (some term) = omega arith

pub scan_terms-some :
    (leaders : Dict ℕ (List ℕ)) (last m : Option ℕ)
    → scan_terms leaders last ≡ some m
    → Scanned leaders last m
unfolding scan_terms
scan_terms-some [] last m e =
    let same = some_inj e in
    record {
      single = tt;
      bounded = tt;
      grown = subst (Grows last) same (Grows-self last);
      origin = inl (sym same);
    }
scan_terms-some ((term, servers) ∷ rest) last m e = elim (Bool-cases (ltb 1 (length servers))) [
  | inl two ↦ ground (arith, two, e, none≢some {a = m})
  | inr one ↦
      let further : scan_terms rest (later term last) ≡ some m = ground (arith, one, e) in
      let ih = scan_terms-some rest (later term last) m further in
      let grown = Grows-later term last m ih.grown in
      record {
        single = (ground (arith, one), ih.single);
        bounded = (grown.1, ih.bounded);
        grown = grown.0;
        origin = elim ih.origin [
          | inl same ↦ elim (later_inv term last) [
            | inl new ↦ inr (term, servers, same ∙ new, inl refl)
            | inr old ↦ inl (same ∙ old)
          ]
          | inr (t, l, same, has) ↦ inr (t, l, same, inr has)
        ];
      }
]

pub scan_terms-none :
    (leaders : Dict ℕ (List ℕ)) (last : Option ℕ)
    → scan_terms leaders last ≡ none
    → (term : ℕ) × (servers : List ℕ) × Has (term, servers) leaders × (1 < length servers)
unfolding scan_terms
scan_terms-none [] last e = absurd (none≢some (sym e))
scan_terms-none ((term, servers) ∷ rest) last e = elim (Bool-cases (ltb 1 (length servers))) [
  | inl two ↦ (term, servers, inl refl, ground (arith, two))
  | inr one ↦
      let (t, l, has, more) = scan_terms-none rest (later term last) (ground (arith, one, e)) in
      (t, l, inr has, more)
]

-- Server `i` is connected and says that it leads in a term.
abbrev pub Leads : List View → ℕ → ℕ → Type 0
Leads views i term =
    (v : View) × (get_elem? views i ≡ some v)
    × (v.connected ≡ true)
    × (v.leader ≡ true)
    × (v.term ≡ term)

pub leaders_in_of :
    (views : List View) (i k term : ℕ) → Leads views k term → Has (i + k) (leaders_in term i views)
leaders_in_of [] i k term (v, e, c, l, t) = absurd (none≢some e)
leaders_in_of (w ∷ ws) i zero term (v, e, c, l, t) =
    let same = some_inj e in
    let leads : is_lead term w ≡ true =
      subst (λ x. is_lead term x ≡ true) (sym same)
        (ground (arith, c, l, nat_beq_iff v.term term, t)) in
    rw leads (inl (omega arith))
leaders_in_of (w ∷ ws) i (suc k) term leads =
    let next : suc i + k ≡ i + suc k = omega arith in
    let further =
      subst (λ n. Has n (leaders_in term (suc i) ws)) next
        (leaders_in_of ws (suc i) k term leads) in
    if_elim (Has (i + suc k)) (is_lead term w) (inr further) further

-- A place in the rest is one further on in the whole.
one_on :
    (w : View) (ws : List View) (i j term : ℕ)
    → (k : ℕ) × (j ≡ suc i + k) × Leads ws k term
    → (k : ℕ) × (j ≡ i + k) × Leads (w ∷ ws) k term
one_on w ws i j term (k, e, leads) = (suc k, omega arith, leads)

pub of_leaders_in :
    (views : List View) (i j term : ℕ)
    → Has j (leaders_in term i views)
    → (k : ℕ) × (j ≡ i + k) × Leads views k term
of_leaders_in [] i j term has = absurd has
of_leaders_in (w ∷ ws) i j term has = elim (Bool-cases (is_lead term w)) [
  | inl leads ↦
      elim (subst
        (λ b. Has j (if b then i ∷ leaders_in term (suc i) ws else leaders_in term (suc i) ws))
        leads has) [
          | inl here ↦ (
            0,
            omega arith,
            (
              w,
              refl,
              ground (arith, leads),
              ground (arith, leads),
              (nat_beq_iff w.term term).0 (ground (arith, leads)),
            ),
          )
          | inr there ↦ one_on w ws i j term (of_leaders_in ws (suc i) j term there)
        ]
  | inr idle ↦ one_on w ws i j term (
      of_leaders_in ws (suc i) j term (
        subst
          (λ b. Has j (if b then i ∷ leaders_in term (suc i) ws else leaders_in term (suc i) ws))
          idle has))
]

-- Two servers of a term's list are different ones.
pub two_differ :
    (views : List View) (i a b term : ℕ) (others : List ℕ)
    → leaders_in term i views ≡ a ∷ b ∷ others
    → a < b
two_differ [] i a b term others e = ground (arith, e)
two_differ (w ∷ ws) i a b term others e = elim (Bool-cases (is_lead term w)) [
  | inl leads ↦
      let rest : leaders_in term (suc i) ws ≡ b ∷ others = ground (arith, leads, e) in
      let same : i ≡ a = ground (arith, leads, e) in
      let (k, later, more) =
        of_leaders_in ws (suc i) b term (subst (Has b) (sym rest) (inl refl)) in
      omega arith
  | inr idle ↦ two_differ ws (suc i) a b term others (ground (arith, idle, e))
]
