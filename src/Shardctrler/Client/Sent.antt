-- ===== src/Shardctrler/Client/Sent.antt =====
-- shardctrler/client.go: the calls that the loop of a clerk makes.
use dist_kv_raft.Common.{
  ℕ, zero, suc, ◌+◌, Option, List, [], ◌∷◌, ◌++◌, String, inl, inr, ◌≡◌, sym, ◌∙◌, subst, length,
  arith, Option-cases,
}
use dist_kv_raft.Shardctrler.Client.Loop.{
  Tried, reply_of, try_servers, try_rounds, round_returned, round_goes_on, loop_returned,
  loop_goes_on,
}

-- `P` holds of each element at its number, the first being `n`.
abbrev pub AllFrom : {X : Type 0} → (ℕ → X → Type 0) → ℕ → List X → Type 0
AllFrom P n [] = Unit
AllFrom P n (x ∷ xs) = P n x × AllFrom P (suc n) xs

AllFrom-append :
    {X : Type 0} (P : ℕ → X → Type 0) (n m : ℕ) (xs ys : List X)
    → AllFrom P n xs
    → m ≡ n + length xs
    → AllFrom P m ys
    → AllFrom P n (xs ++ ys)
AllFrom-append P n m [] ys h e k = subst (λ i. AllFrom P i ys) (e ∙ omega arith) k
AllFrom-append P n m (x ∷ xs) ys (p, h) e k =
    (p, AllFrom-append P (suc n) m xs ys h (e ∙ omega arith) k)

length-append : {X : Type 0} (xs ys : List X) → length (xs ++ ys) ≡ length xs + length ys
length-append [] ys = omega arith
length-append (x ∷ xs) ys = ground (arith, length-append xs ys)

module _ {A B R : Type 0} (call : ℕ → String → A → Option R) (answer : R → Option B)
    (stamp : ℕ → A → A) (Q : A → Type 0) (P : ℕ → A → Type 0)
    (keeps : (n : ℕ) (a : A) → Q a → Q (stamp n a) × P n (stamp n a)) where
  -- The calls from number `n` on satisfy `P`, and the loop has counted them.
  abbrev pub IsStamped : ℕ → Tried A B → Type 0
  IsStamped n t = AllFrom (λ i x. P i x.1) n t.sent × Q t.args × (t.next ≡ n + length t.sent)

  round-IsStamped :
      (servers : List String) (n : ℕ) (args : A)
      → Q args
      → IsStamped n (try_servers call answer stamp servers n args)
  unfolding try_servers
  round-IsStamped [] n args q = (tt, q, omega arith)
  round-IsStamped (s ∷ ss) n args q =
      let k = keeps n args q in
      elim (Option-cases (reply_of call answer stamp n s (stamp n args))) [
        | inr (b, e) ↦
            subst (IsStamped n) (sym (round_returned call answer stamp s ss n args b e))
              ((k.1, tt), k.0, omega arith)
        | inl e ↦
            let rest = round-IsStamped ss (suc n) (stamp n args) k.0 in
            subst (IsStamped n) (sym (round_goes_on call answer stamp s ss n args e))
              ((k.1, rest.0), rest.1, rest.2 ∙ omega arith)
      ]

  pub loop-IsStamped :
      (rounds : ℕ) (servers : List String) (n : ℕ) (args : A)
      → Q args
      → IsStamped n (try_rounds call answer stamp rounds servers n args)
  unfolding try_rounds
  loop-IsStamped zero servers n args q = (tt, q, omega arith)
  loop-IsStamped (suc rounds) servers n args q =
      let round = try_servers call answer stamp servers n args in
      let first = round-IsStamped servers n args q in
      elim (Option-cases round.result) [
        | inr (b, e) ↦
            subst (IsStamped n) (sym (loop_returned call answer stamp rounds servers n args b e))
              first
        | inl e ↦
            let rest = loop-IsStamped rounds servers round.next round.args first.1 in
            let after = try_rounds call answer stamp rounds servers round.next round.args in
            subst (IsStamped n) (sym (loop_goes_on call answer stamp rounds servers n args e)) (
              AllFrom-append (λ i x. P i x.1) n round.next round.sent after.sent first.0 first.2
                  rest.0,
              rest.1,
              rest.2 ∙ ground (arith, first.2, length-append round.sent after.sent),
            )
      ]
