-- ===== src/Labgob/Coder/History.antt =====
-- labgob/labgob.go: what the package has checked after any calls that send or register values.
use dist_kv_raft.Common.{
  ℕ, ◌<◌, Bool, true, false, Option, none, some, List, [], ◌∷◌, ◌++◌, Has, length, ◌≡◌, refl, sym,
  subst, some_inj, ap, ◌∙◌, arith, ◌↔◌, inl, inr, nat_eq,
}
use dist_kv_raft.Labgob.Types.{Name, Table, kind, Item, Globals, start, is_checked}
use dist_kv_raft.Labgob.Capital.{check_type}
use dist_kv_raft.Labgob.Capital.Marks.{total, unchecked_bound, total_at_start}
use dist_kv_raft.Labgob.Capital.Reached.{
  lower_in, IsTable, Reach, here, onward, Covers, Covers-refl, Covers-append,
}
use dist_kv_raft.Labgob.Capital.Calls.{check_type_ends}
use dist_kv_raft.Labgob.Coder.{
  Gob, LabEncoder, Ran, returned, panicked, out_of_fuel, check_value, encode, encode_value,
  register, register_name,
}

-- A call that sends or registers a value.
pub data Use : Type 0 where
  encodes : Option Item → Use
  encodes_value : Item → Use
  registers : Option Item → Use
  registers_name : Name → Option Item → Use

abbrev pub item_of : Use → Option Item
item_of (encodes e) = e
item_of (encodes_value v) = some v
item_of (registers e) = e
item_of (registers_name name e) = e

-- None of the values is a nil interface, and their types are in the table.
abbrev pub AreGiven : Table → List Use → Type 0
AreGiven table [] = Unit
AreGiven table (u ∷ us) =
    ((e : Item) × (item_of u ≡ some e) × (e.item_type < length table)) × AreGiven table us

abbrev type_of : Option Item → List ℕ
type_of none = []
type_of (some e) = e.item_type ∷ []

abbrev pub types_of : List Use → List ℕ
types_of [] = []
types_of (u ∷ us) = type_of (item_of u) ++ types_of us

module _ (is_upper : ℕ → Bool) (table : Table) (fuel : ℕ) {W R : Type 0} (std : Gob W R) where
  abbrev pub Held : Type 0
  Held = LabEncoder std.Encoder × std.Registry

  abbrev keep_registry : std.Registry → Ran (LabEncoder std.Encoder × Bool) → Ran Held
  keep_registry registry (returned (enc, fine) h) = returned (enc, registry) h
  keep_registry registry panicked = panicked
  keep_registry registry out_of_fuel = out_of_fuel

  abbrev keep_encoder : LabEncoder std.Encoder → Ran std.Registry → Ran Held
  keep_encoder enc (returned registry h) = returned (enc, registry) h
  keep_encoder enc panicked = panicked
  keep_encoder enc out_of_fuel = out_of_fuel

  unfoldable pub use_step : Use → Held → Globals → Ran Held
  unfolding encode encode_value register register_name
  use_step (encodes e) held g = keep_registry held.1 (encode is_upper table fuel std e held.0 g)
  use_step (encodes_value v) held g =
      keep_registry held.1 (encode_value is_upper table fuel std v held.0 g)
  use_step (registers e) held g = keep_encoder held.0 (register is_upper table fuel std e held.1 g)
  use_step (registers_name name e) held g =
      keep_encoder held.0 (register_name is_upper table fuel std name e held.1 g)

  unfoldable pub run_uses : List Use → Held → Globals → Ran Held
  unfolding use_step
  run_uses [] held g = returned held g
  run_uses (u ∷ us) held g = elim (use_step u held g) [
    | returned held' h ↦ run_uses us held' h
    | panicked ↦ panicked
    | out_of_fuel ↦ out_of_fuel
  ]

  step_checks :
      (u : Use) (held : Held) (g h : Globals) (e : Item)
      → item_of u ≡ some e
      → check_type is_upper table fuel e.item_type g ≡ some h
      → (held' : Held) × (use_step u held g ≡ returned held' h)
  unfolding use_step encode encode_value register register_name check_value
  step_checks (encodes x) held g h e i c =
      (((record held.0 { gob = (std.encode x held.0.gob).0 }), held.1), rw (i, c) refl)
  step_checks (encodes_value v) held g h e i c = (
    ((record held.0 { gob = (std.encode_value v held.0.gob).0 }), held.1),
    (let c' =
          subst (λ x. check_type is_upper table fuel x.item_type g ≡ some h) (sym (some_inj i)) c in
        rw c' refl),
  )
  step_checks (registers x) held g h e i c = ((held.0, std.register x held.1), rw (i, c) refl)
  step_checks (registers_name name x) held g h e i c =
      ((held.0, std.register_name name x held.1), rw (i, c) refl)

  run_step :
      (u : Use) (us : List Use) (held held' : Held) (g h : Globals)
      → use_step u held g ≡ returned held' h
      → run_uses (u ∷ us) held g ≡ run_uses us held' h
  unfolding run_uses
  run_step u us held held' g h e = rw (run_uses, e)

  uses_end :
      IsTable table
      → length table < fuel
      → (us : List Use) (held : Held) (g : Globals) → AreGiven table us
      → (held' : Held) × (h : Globals) × (run_uses us held g ≡ returned held' h)
        × Covers is_upper table g h (types_of us) 0
  unfolding run_uses
  uses_end closed enough [] held g given = (held, g, refl, Covers-refl is_upper table g)
  uses_end closed enough (u ∷ us) held g given =
      let (e, i, lt) = given.0 in
      let room = unchecked_bound (length table) g in
      let (h, c, covers) =
        check_type_ends is_upper table closed fuel e.item_type g lt (omega arith) in
      let (held', s) = step_checks u held g h e i c in
      let (last, k, r, more) = uses_end closed enough us held' h given.1 in
      (
        last,
        k,
        run_step u us held held' g h s ∙ r,
        subst (λ ts. Covers is_upper table g k (ts ++ types_of us) 0) (sym (ap type_of i))
            (Covers-append is_upper table g h k (e.item_type ∷ []) (types_of us) 0 0 covers more),
      )

  fresh_start : (u : ℕ) → is_checked u start ≡ false
  unfolding is_checked
  fresh_start u = refl

  Reach-checked :
      (h : Globals) (ts : List ℕ) (r u : ℕ)
      → Covers is_upper table start h ts 0
      → Has r ts
      → Reach table r u
      → is_checked u h ≡ true
  Reach-checked h ts r u c has here = c.marks r has
  Reach-checked h ts r u c has (onward {u = v} way next) =
      c.closed v u (Reach-checked h ts r v c has way) (fresh_start v) next

  -- Let no type of the table name one that is not in it. After any calls of Encode, EncodeValue,
  -- Register and RegisterName from the start of the process, none with a nil interface, with fuel
  -- for more than the number of types: all have returned; a type is marked exactly when it occurs
  -- in the type of one of the values; and errorCount is the number of fields of marked types that
  -- are not capitalized, for each of which one line has been printed.
  pub types_checked_once :
      IsTable table
      → length table < fuel
      → (us : List Use) (held : Held) → AreGiven table us
      → (held' : Held) × (h : Globals) × (run_uses us held start ≡ returned held' h)
        × ((u : ℕ) → (is_checked u h ≡ true) ↔ ((t : ℕ) × Has t (types_of us) × Reach table t u))
        × (h.error_count ≡ total (λ u. lower_in is_upper (kind table u)) (length table) h)
        × (length h.printed ≡ h.error_count)
  types_checked_once closed enough us held given =
      let (held', h, e, c) = uses_end closed enough us held start given in
      (
        held',
        h,
        e,
        λ u. (
          λ marked. elim (c.reached u marked) [
            | inl before ↦ ground (arith, before, fresh_start u)
            | inr way ↦ way
          ],
          λ (t, has, way). Reach-checked h (types_of us) t u c has way,
        ),
        omega (
          arith,
          c.counted,
          total_at_start (λ u. lower_in is_upper (kind table u)) (length table),
        ),
        omega (arith, c.lines),
      )
