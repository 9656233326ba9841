-- ===== src/Mr/Json/Examples.antt =====
-- Some texts, written and read again.
use dist_kv_raft.Common.{◌≡◌, refl, [], ◌∷◌}
use dist_kv_raft.Mr.Json.{coerce, coerce_from}

-- "aé€" and a rune of four bytes.
keeps_runes :
    coerce (b'a' ∷ 0xC3 ∷ 0xA9 ∷ 0xE2 ∷ 0x82 ∷ 0xAC ∷ 0xF0 ∷ 0x9F ∷ 0x98 ∷ 0x80 ∷ [])
    ≡ b'a' ∷ 0xC3 ∷ 0xA9 ∷ 0xE2 ∷ 0x82 ∷ 0xAC ∷ 0xF0 ∷ 0x9F ∷ 0x98 ∷ 0x80 ∷ []
unfolding coerce_from
keeps_runes = refl

replaces_byte : coerce (b'a' ∷ 0xFF ∷ b'b' ∷ []) ≡ b'a' ∷ 0xEF ∷ 0xBF ∷ 0xBD ∷ b'b' ∷ []
unfolding coerce_from
replaces_byte = refl

-- A surrogate is three invalid bytes.
replaces_surrogate :
    coerce (0xED ∷ 0xA0 ∷ 0x80 ∷ [])
    ≡ 0xEF ∷ 0xBF ∷ 0xBD ∷ 0xEF ∷ 0xBF ∷ 0xBD ∷ 0xEF ∷ 0xBF ∷ 0xBD ∷ []
unfolding coerce_from
replaces_surrogate = refl
