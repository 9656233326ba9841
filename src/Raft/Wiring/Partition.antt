-- ===== src/Raft/Wiring/Partition.antt =====
-- raft/config.go: the ends that are enabled after calls of `connect` and `disconnect`.
use dist_kv_raft.Common.{
  ℕ, zero, suc, ◌+◌, ◌<◌, ◌==◌, nat_eq, beq_refl, if◌then◌else◌, Bool, true, false, ◌&&◌, ◌||◌,
  List, [], ◌∷◌, String, set, replicate, length, length-set, length-replicate, ◌≡◌, refl, sym, ap,
  ◌∙◌, subst, arith, Bool-cases, ◌⊎◌, inl, inr,
}
use dist_kv_raft.Labrpc.Network.{Network}
use dist_kv_raft.Raft.Wiring.{
  Wiring, enable_connected, disable_all, connect_server, disconnect_server, Change, connects,
  disconnects, rewire,
}
use dist_kv_raft.Raft.Wiring.Loops.{
  is_on, is_up, AreDistinct, enable_connected_other, disable_all_other, enable_connected_named,
  disable_all_named,
}

-- The ends have names of their own, as `randstring` draws them.
abbrev pub AreNames : (ℕ → ℕ → String) → Type 0
AreNames name = (i j a b : ℕ) → name i j ≡ name a b → (i ≡ a) × (j ≡ b)

-- Server a can call server b exactly when both are connected.
abbrev pub IsExact : (ℕ → ℕ → String) → Wiring → Type 0
IsExact name w =
    (a b : ℕ)
    → a < length w.connected
    → b < length w.connected
    → is_on (name a b) w.net ≡ (is_up a w.connected && is_up b w.connected)

pub is_up-set :
    (k i : ℕ) (v : Bool) (cs : List Bool)
    → i < length cs
    → is_up k (set cs i v) ≡ (if k == i then v else is_up k cs)
is_up-set k i v [] lt = absurd (omega arith)
is_up-set zero zero v (c ∷ cs) lt = ground arith
is_up-set zero (suc i) v (c ∷ cs) lt = ground arith
is_up-set (suc k) zero v (c ∷ cs) lt = ground arith
is_up-set (suc k) (suc i) v (c ∷ cs) lt = is_up-set k i v cs (omega arith) ∙ ground arith

enabled_named :
    (name : ℕ → String) (k : ℕ) (cs : List Bool) (rn : Network)
    → AreDistinct name
    → is_on (name k) (enable_connected name 0 cs rn) ≡ (is_on (name k) rn || is_up k cs)
enabled_named name k cs rn d =
    let start : 0 + k ≡ k = omega arith in
    subst (λ m. is_on (name m) (enable_connected name 0 cs rn) ≡ (is_on (name m) rn || is_up k cs))
      start (enable_connected_named name 0 k cs rn d)

disabled_named :
    (name : ℕ → String) (k : ℕ) (cs : List Bool) (rn : Network)
    → AreDistinct name
    → k < length cs
    → is_on (name k) (disable_all name 0 cs rn) ≡ false
disabled_named name k cs rn d lt =
    let start : 0 + k ≡ k = omega arith in
    subst (λ m. is_on (name m) (disable_all name 0 cs rn) ≡ false) start
      (disable_all_named name 0 k cs rn d lt)

dec_eq : (a i : ℕ) → (a ≡ i) ⊎ ¬ (a ≡ i)
dec_eq a i = elim (Bool-cases (a == i)) [
  | inl t ↦ inl (ground (arith, t))
  | inr f ↦ inr (λ e. ground (arith, f, e))
]

if_same : {A : Type 0} (a i : ℕ) (x y z : A) → a ≡ i → x ≡ y → x ≡ (if a == i then y else z)
if_same a i x y z e h = h ∙ ap (λ t. if t then y else z) (sym (ap (λ k. k == i) e ∙ beq_refl i))

if_other : {A : Type 0} (a i : ℕ) (x y z : A) → ¬ (a ≡ i) → x ≡ z → x ≡ (if a == i then y else z)
if_other a i x y z e h = elim (Bool-cases (a == i)) [
  | inl t ↦ absurd (e (ground (arith, t)))
  | inr f ↦ h ∙ ap (λ t. if t then y else z) (sym f)
]

pub none_up : (n a : ℕ) → is_up a (replicate n false) ≡ false
none_up zero a = refl
none_up (suc n) zero = refl
none_up (suc n) (suc a) = none_up n a

abbrev pub AreServers : ℕ → List Change → Type 0
AreServers n [] = Unit
AreServers n (connects i ∷ cs) = (i < n) × AreServers n cs
AreServers n (disconnects i ∷ cs) = (i < n) × AreServers n cs

module _ (name : ℕ → ℕ → String) (own : AreNames name) where
  row_distinct : (i : ℕ) → AreDistinct (name i)
  row_distinct i j k e = (own i j i k e).1

  column_distinct : (i : ℕ) → AreDistinct (λ j. name j i)
  column_distinct i j k e = (own j i k i e).0

  row_enabled :
      (i a b : ℕ) (cs : List Bool) (rn : Network)
      → is_on (name a b) (enable_connected (name i) 0 cs rn)
        ≡ (if a == i then is_on (name a b) rn || is_up b cs else is_on (name a b) rn)
  row_enabled i a b cs rn = elim (dec_eq a i) [
    | inl e ↦ if_same a i _ _ _ e (
        subst
          (λ r.
            is_on (name r b) (enable_connected (name i) 0 cs rn)
            ≡ (is_on (name r b) rn || is_up b cs))
          (sym e) (enabled_named (name i) b cs rn (row_distinct i)))
    | inr e ↦ if_other a i _ _ _ e (
        enable_connected_other (name i) (name a b) 0 cs rn (λ k z. e (sym (own i (0 + k) a b z).0)))
  ]

  column_enabled :
      (i a b : ℕ) (cs : List Bool) (rn : Network)
      → is_on (name a b) (enable_connected (λ j. name j i) 0 cs rn)
        ≡ (if b == i then is_on (name a b) rn || is_up a cs else is_on (name a b) rn)
  column_enabled i a b cs rn = elim (dec_eq b i) [
    | inl e ↦ if_same b i _ _ _ e (
        subst
          (λ r.
            is_on (name a r) (enable_connected (λ j. name j i) 0 cs rn)
            ≡ (is_on (name a r) rn || is_up a cs))
          (sym e) (enabled_named (λ j. name j i) a cs rn (column_distinct i)))
    | inr e ↦ if_other b i _ _ _ e (
        enable_connected_other (λ j. name j i) (name a b) 0 cs rn
          (λ k z. e (sym (own (0 + k) i a b z).1)))
  ]

  row_disabled :
      (i a b : ℕ) (cs : List Bool) (rn : Network)
      → b < length cs
      → is_on (name a b) (disable_all (name i) 0 cs rn)
        ≡ (if a == i then false else is_on (name a b) rn)
  row_disabled i a b cs rn lt = elim (dec_eq a i) [
    | inl e ↦ if_same a i _ _ _ e (
        subst (λ r. is_on (name r b) (disable_all (name i) 0 cs rn) ≡ false) (sym e)
          (disabled_named (name i) b cs rn (row_distinct i) lt))
    | inr e ↦
        if_other a i _ _ _ e
          (disable_all_other (name i) (name a b) 0 cs rn (λ k z. e (sym (own i (0 + k) a b z).0)))
  ]

  column_disabled :
      (i a b : ℕ) (cs : List Bool) (rn : Network)
      → a < length cs
      → is_on (name a b) (disable_all (λ j. name j i) 0 cs rn)
        ≡ (if b == i then false else is_on (name a b) rn)
  column_disabled i a b cs rn lt = elim (dec_eq b i) [
    | inl e ↦ if_same b i _ _ _ e (
        subst (λ r. is_on (name a r) (disable_all (λ j. name j i) 0 cs rn) ≡ false) (sym e)
          (disabled_named (λ j. name j i) a cs rn (column_distinct i) lt))
    | inr e ↦ if_other b i _ _ _ e (
        disable_all_other (λ j. name j i) (name a b) 0 cs rn
          (λ k z. e (sym (own (0 + k) i a b z).1)))
  ]

  pub connect-IsExact :
      (i : ℕ) (w : Wiring)
      → i < length w.connected
      → IsExact name w
      → IsExact name (connect_server name i w)
  unfolding connect_server
  connect-IsExact i w lt x a b la lb =
      let connected = set w.connected i true in
      let on =
        x a b (subst (λ n. a < n) (length-set w.connected i true) la)
          (subst (λ n. b < n) (length-set w.connected i true) lb) in
      let out = row_enabled i a b connected w.net in
      let into = column_enabled i a b connected (enable_connected (name i) 0 connected w.net) in
      into
      ∙ ground
          (arith, out, on, is_up-set a i true w.connected lt, is_up-set b i true w.connected lt)

  disconnect-IsExact :
      (i : ℕ) (w : Wiring)
      → i < length w.connected
      → IsExact name w
      → IsExact name (disconnect_server name i w)
  unfolding disconnect_server
  disconnect-IsExact i w lt x a b la lb =
      let connected = set w.connected i false in
      let on =
        x a b (subst (λ n. a < n) (length-set w.connected i false) la)
          (subst (λ n. b < n) (length-set w.connected i false) lb) in
      let out = row_disabled i a b connected w.net lb in
      let into = column_disabled i a b connected (disable_all (name i) 0 connected w.net) la in
      into
      ∙ ground
          (arith, out, on, is_up-set a i false w.connected lt, is_up-set b i false w.connected lt)

  same_after_connect :
      (i : ℕ) (w : Wiring) → length (connect_server name i w).connected ≡ length w.connected
  unfolding connect_server
  same_after_connect i w = length-set w.connected i true

  same_after_disconnect :
      (i : ℕ) (w : Wiring) → length (disconnect_server name i w).connected ≡ length w.connected
  unfolding disconnect_server
  same_after_disconnect i w = length-set w.connected i false

  rewire-IsExact :
      (cs : List Change) (w : Wiring)
      → AreServers (length w.connected) cs
      → IsExact name w
      → IsExact name (rewire name cs w)
  unfolding rewire
  rewire-IsExact [] w ok x = x
  rewire-IsExact (connects i ∷ cs) w ok x =
      rewire-IsExact cs (connect_server name i w)
        (subst (λ n. AreServers n cs) (sym (same_after_connect i w)) ok.1)
        (connect-IsExact i w ok.0 x)
  rewire-IsExact (disconnects i ∷ cs) w ok x =
      rewire-IsExact cs (disconnect_server name i w)
        (subst (λ n. AreServers n cs) (sym (same_after_disconnect i w)) ok.1)
        (disconnect-IsExact i w ok.0 x)

  -- Let n servers start unconnected, with all ends disabled. After any calls of `connect` and
  -- `disconnect` the end from server a to server b is enabled exactly when both are connected.
  pub rewired_ends_match :
      (n : ℕ) (rn : Network) (cs : List Change)
      → ((a b : ℕ) → is_on (name a b) rn ≡ false)
      → AreServers n cs
      → IsExact name (rewire name cs (record { connected = replicate n false; net = rn }))
  rewired_ends_match n rn cs off servers =
      rewire-IsExact cs (record { connected = replicate n false; net = rn })
        (subst (λ m. AreServers m cs) (sym (length-replicate n false)) servers)
        (λ a b la lb. off a b ∙ sym (ap (λ u. u && is_up b (replicate n false)) (none_up n a)))
