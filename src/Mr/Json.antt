-- ===== src/Mr/Json.antt =====
-- The JSON encoder and decoder of package encoding/json, as far as mr/worker.go depends on them: a
-- string that is written and read again has U+FFFD for each byte that is not part of valid UTF-8.
mod Examples
use dist_kv_raft.Common.{
  ℕ, zero, suc, ltb, leb, ◌==◌, nat_eq, if◌then◌else◌, Bool, true, false, ◌&&◌, List, [], ◌∷◌,
  Bytes, ◌≡◌,
}
use dist_kv_raft.Mr.Types.{KeyValue}

-- A byte from `low` to `high`, and then so many more continuation bytes.
unfoldable pub continues : ℕ → ℕ → ℕ → Bytes → Bool
continues low high more [] = false
continues low high zero (b ∷ bs) = leb low b && leb b high
continues low high (suc more) (b ∷ bs) = (leb low b && leb b high) && continues 0x80 0xBF more bs

-- The size of the rune that starts with `b`, or 0 if there is none, as `utf8.DecodeRune` has it.
unfoldable pub rune_size : ℕ → Bytes → ℕ
unfolding continues
rune_size b bs =
    if ltb b 0x80
    then 1
    else if ltb b 0xC2
    then 0
    else if ltb b 0xE0
    then (if continues 0x80 0xBF 0 bs then 2 else 0)
    else if ltb b 0xF0
    then (if continues (if b == 0xE0 then 0xA0 else 0x80) (if b == 0xED then 0x9F else 0xBF) 1 bs
        then 3
        else 0)
    else if ltb b 0xF5
    then (if continues (if b == 0xF0 then 0x90 else 0x80) (if b == 0xF4 then 0x8F else 0xBF) 2 bs
        then 4
        else 0)
    else 0

-- `left` is how many bytes of the last rune are still to come.
unfoldable pub coerce_from : ℕ → Bytes → Bytes
unfolding rune_size
coerce_from left [] = []
coerce_from (suc left) (b ∷ bs) = b ∷ coerce_from left bs
coerce_from zero (b ∷ bs) = elim (rune_size b bs) [
  | zero ↦ 0xEF ∷ 0xBF ∷ 0xBD ∷ coerce_from 0 bs
  | suc rest ↦ b ∷ coerce_from rest bs
]

abbrev pub coerce : Bytes → Bytes
coerce text = coerce_from 0 text

-- What is read for a pair that was written.
unfoldable pub decode_pair : KeyValue → KeyValue
unfolding coerce_from
decode_pair kv = record { key = coerce kv.key; value = coerce kv.value }

unfoldable pub decode_pairs : List KeyValue → List KeyValue
unfolding decode_pair
decode_pairs [] = []
decode_pairs (kv ∷ kvs) = decode_pair kv ∷ decode_pairs kvs

-- Key and value are valid UTF-8.
abbrev pub IsText : KeyValue → Type 0
IsText kv = (coerce kv.key ≡ kv.key) × (coerce kv.value ≡ kv.value)
