-- ===== src/Shardctrler/Server/Numbering.antt =====
-- `configs` of shardctrler/server.go is indexed by configuration number.
use dist_kv_raft.Common.{
  ℕ, zero, suc, ◌+◌, ◌<◌, ◌==◌, string_eq, ◌≡◌, refl, ap, sym, ◌∙◌, Bool, some, List, [], ◌∷◌, ◌++◌,
  arith, length, length-append, get_elem?, get_elem?-append_last, get_elem?-append_left,
  get_elem?-lt_length, get_elem?_below, if_elim, inl, inr, ◌⊎◌,
}
use native.Mathlib.Decide.{dec_lt}
use dist_kv_raft.Shardctrler.Types.{Config, Op}
use dist_kv_raft.Shardctrler.Server.{Handlers, Event, dispatch, run, start_server, first_config}
use dist_kv_raft.Shardctrler.Server.Dedup.{accepted, replay}
use dist_kv_raft.Shardctrler.Server.Run.{ops_of, Increasing, Finishes, Finishes-map}
use dist_kv_raft.Shardctrler.Server.History.{configs-run}

-- The handler leaves the configurations alone, or appends one, whose number follows that of the
-- latest.
abbrev pub Extends : (Op → List Config → Op × List Config) → Type 0
Extends f =
    (op : Op) (configs : List Config) (last : ℕ) (latest : Config)
    → length configs ≡ suc last
    → get_elem? configs last ≡ some latest
    → ((f op configs).1 ≡ configs)
      ⊎ ((c : Config) × ((f op configs).1 ≡ configs ++ c ∷ []) × (c.num ≡ latest.num + 1))

-- What README.md says of the handlers: only join, leave and move add a configuration; where one of
-- them adds none, it leaves the configurations as they are.
pub record AreNumbering (h : Handlers) : Type 0 where
  pub join : Extends h.join
  pub leave : Extends h.leave
  pub move : Extends h.move
  pub query : (op : Op) (configs : List Config) → (h.query op configs).1 ≡ configs

pub record IsNumbered (configs : List Config) : Type 0 where
  pub nonempty : 0 < length configs
  pub at : (i : ℕ) (c : Config) → get_elem? configs i ≡ some c → c.num ≡ i

IsNumbered-append :
    (configs : List Config) (last : ℕ) (latest c : Config)
    → IsNumbered configs
    → length configs ≡ suc last
    → get_elem? configs last ≡ some latest
    → c.num ≡ latest.num + 1
    → IsNumbered (configs ++ c ∷ [])
IsNumbered-append configs last latest c v len found next = record {
  nonempty = omega (arith, length-append configs (c ∷ []));
  at = λ i c' e. elim (dec_lt i (length configs)) [
    | yes below ↦ v.at i c' (sym (get_elem?-append_left configs (c ∷ []) i below) ∙ e)
    | no above ↦
        let i_lt = get_elem?-lt_length (configs ++ c ∷ []) i c' e in
        let i_eq : i ≡ length configs = omega (arith, length-append configs (c ∷ [])) in
        let c_eq : some c ≡ some c' =
          sym (get_elem?-append_last configs c)
          ∙ ap (get_elem? (configs ++ c ∷ [])) (sym i_eq)
          ∙ e in
        ground (arith, v.at last latest found)
  ];
}

Extends-IsNumbered :
    (f : Op → List Config → Op × List Config) (op : Op) (configs : List Config)
    → Extends f
    → IsNumbered configs
    → IsNumbered (f op configs).1
Extends-IsNumbered f op [] grows v = absurd (omega (arith, v.nonempty))
Extends-IsNumbered f op (x ∷ xs) grows v =
    let configs = x ∷ xs in
    let (latest, found) = get_elem?_below configs (length xs) (omega arith) in
    elim (grows op configs (length xs) latest refl found) [
      | inl same ↦ rw same v
      | inr (c, e, n) ↦ rw e (IsNumbered-append configs (length xs) latest c v refl found n)
    ]

dispatch-IsNumbered :
    (h : Handlers) (op : Op) (configs : List Config)
    → AreNumbering h
    → IsNumbered configs
    → IsNumbered (dispatch h op configs).1
unfolding dispatch
dispatch-IsNumbered h op configs a v =
    let P : Op × List Config → Type 0 = λ r. IsNumbered r.1 in
    if_elim P (op.command == "Join") (Extends-IsNumbered h.join op configs a.join v) (
      if_elim P (op.command == "Leave") (Extends-IsNumbered h.leave op configs a.leave v) (
        if_elim P (op.command == "Move") (Extends-IsNumbered h.move op configs a.move v)
          (if_elim P (op.command == "Query") (rw (a.query op configs) v) v)))

replay-IsNumbered :
    (h : Handlers) (ops : List Op) (configs : List Config)
    → AreNumbering h
    → IsNumbered configs
    → IsNumbered (replay h ops configs)
replay-IsNumbered h [] configs a v = v
replay-IsNumbered h (op ∷ ops) configs a v =
    replay-IsNumbered h ops (dispatch h op configs).1 a (dispatch-IsNumbered h op configs a v)

first_config-IsNumbered : IsNumbered (first_config ∷ [])
first_config-IsNumbered = record { nonempty = omega arith; at = first }
  where
    first : (i : ℕ) (c : Config) → get_elem? (first_config ∷ []) i ≡ some c → c.num ≡ i
    first zero c e = ground arith
    first (suc i) c e = ground arith

-- If join, leave and move add at most one configuration each, numbered after the latest, and leave
-- the others alone, and query adds none, then whatever a fresh
-- controller has been through, with commands at rising indices, every configuration stands in
-- `configs` at the index that is its number, and there is at least one.
pub run-IsNumbered :
    (h : Handlers) (m : Op → Op → Bool) (me b : ℕ) (es : List Event)
    → AreNumbering h
    → Increasing b es
    → Finishes (run h m es (start_server me)) (λ s. IsNumbered s.configs)
run-IsNumbered h m me b es a i =
    Finishes-map (run h m es (start_server me))
      (λ s e. rw e (
        replay-IsNumbered h (accepted [] (ops_of es)) (first_config ∷ []) a
          first_config-IsNumbered))
      (configs-run h m me b es i)
