-- ===== src/Labgob/Coder.antt =====
-- labgob/labgob.go: LabEncoder, LabDecoder and Register. encoding/gob is a parameter, and so is
-- `unicode.IsUpper`.
pub mod History
pub mod Decoding
use dist_kv_raft.Common.{ℕ, Bool, Option, none, some}
use dist_kv_raft.Labgob.Types.{Name, Table, Item, Globals}
use dist_kv_raft.Labgob.Capital.{check_type}
use dist_kv_raft.Labgob.Default.{check_default}

-- What the package uses of encoding/gob. `W` and `R` are writers and readers; a call of `decode`
-- also gives the value that it has filled in, and each call whether there was no error.
pub record Gob (W R : Type 0) : Type 1 where
  pub Encoder : Type 0
  pub Decoder : Type 0
  pub Registry : Type 0
  pub new_encoder : W → Encoder
  pub new_decoder : R → Decoder
  pub encode : Option Item → Encoder → Encoder × Bool
  pub encode_value : Item → Encoder → Encoder × Bool
  pub decode : Option Item → Decoder → Decoder × Option Item × Bool
  pub register : Option Item → Registry → Registry
  pub register_name : Name → Option Item → Registry → Registry

pub record LabEncoder (E : Type 0) : Type 0 where
  pub gob : E

pub record LabDecoder (D : Type 0) : Type 0 where
  pub gob : D

-- How a call ends: it returns, or it panics, or the fuel for `checkType` was not enough.
pub data Ran (A : Type 0) : Type 0 where
  returned : A → Globals → Ran A
  panicked : Ran A
  out_of_fuel : Ran A

abbrev pub ran : Option Globals → Ran (Unit {0})
ran none = out_of_fuel
ran (some g) = returned tt g

abbrev pub ran_then : {A : Type 0} → Ran (Unit {0}) → (Globals → Ran A) → Ran A
ran_then (returned u g) k = k g
ran_then panicked k = panicked
ran_then out_of_fuel k = out_of_fuel

-- `none` is a panic of `checkDefault`.
abbrev pub after_check : {A : Type 0} → A → Option Globals → Ran A
after_check a none = panicked
after_check a (some k) = returned a k

module _ (is_upper : ℕ → Bool) (table : Table) (fuel : ℕ) where
  -- `reflect.TypeOf(nil)` is nil, and `checkType` calls its method Kind.
  unfoldable pub check_value : Option Item → Globals → Ran (Unit {0})
  unfolding check_type
  check_value none g = panicked
  check_value (some e) g = ran (check_type is_upper table fuel e.item_type g)

  module _ {W R : Type 0} (std : Gob W R) where
    open std use {
      Encoder, Decoder, Registry, new_encoder as make_encoder, new_decoder as make_decoder,
    }

    unfoldable pub new_encoder : W → LabEncoder Encoder
    new_encoder w = record { gob = make_encoder w }

    unfoldable pub new_decoder : R → LabDecoder Decoder
    new_decoder r = record { gob = make_decoder r }

    unfoldable pub encode :
        Option Item → LabEncoder Encoder → Globals → Ran (LabEncoder Encoder × Bool)
    unfolding check_value
    encode e enc g =
        ran_then (check_value e g)
          λ h. let (gob, fine) = std.encode e enc.gob in returned (record enc { gob = gob }, fine) h

    unfoldable pub encode_value :
        Item → LabEncoder Encoder → Globals → Ran (LabEncoder Encoder × Bool)
    unfolding check_value
    encode_value v enc g = ran_then (check_value (some v) g) λ h.
        let (gob, fine) = std.encode_value v enc.gob in returned (record enc { gob = gob }, fine) h

    unfoldable pub decode :
        Option Item → LabDecoder Decoder → Globals → Ran (LabDecoder Decoder × Option Item × Bool)
    unfolding check_value check_default
    decode e dec g = ran_then (check_value e g) λ h.
        let (gob, filled, fine) = std.decode e dec.gob in
        after_check (record dec { gob = gob }, filled, fine) (check_default is_upper e h)

    unfoldable pub register : Option Item → Registry → Globals → Ran Registry
    unfolding check_value
    register value registry g =
        ran_then (check_value value g) λ h. returned (std.register value registry) h

    unfoldable pub register_name : Name → Option Item → Registry → Globals → Ran Registry
    unfolding check_value
    register_name name value registry g =
        ran_then (check_value value g) λ h. returned (std.register_name name value registry) h
