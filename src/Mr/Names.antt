-- ===== src/Mr/Names.antt =====
-- The file names of mr/: "mr-X-Y" and "mr-out-Y", with `strconv.Itoa` written out.
use dist_kv_raft.Common.{
  ℕ, zero, suc, ◌+◌, ◌-◌, ◌*◌, ◌/◌, ◌%◌, ◌≤◌, ◌<◌, ltb, if◌then◌else◌, ◌≡◌, ◌≢◌, sym, ap, ◌∙◌, [],
  ◌∷◌, ◌++◌, Bytes, arith, All, Bool-cases, inl, inr, ltb→lt, drop,
}

-- The decimal digits of `n` before those in `acc`.
digits : ℕ → ℕ → Bytes → Bytes
digits zero n acc = acc
digits (suc f) n acc =
    let d = (b'0' + n % 10) ∷ acc in let rest = digits f (n / 10) d in if ltb n 10 then d else rest

unfoldable pub itoa : ℕ → Bytes
unfolding digits
itoa n = digits (suc n) n []

-- The file from map task `i` to reduce task `j`.
unfoldable pub intermediate_name : ℕ → ℕ → Bytes
unfolding itoa
intermediate_name i j = b'm' ∷ b'r' ∷ b'-' ∷ (itoa i ++ b'-' ∷ itoa j)

unfoldable pub out_name : ℕ → Bytes
unfolding itoa
out_name j = b'm' ∷ b'r' ∷ b'-' ∷ b'o' ∷ b'u' ∷ b't' ∷ b'-' ∷ itoa j

abbrev value : ℕ → Bytes → ℕ
value n [] = n
value n (d ∷ ds) = value (n * 10 + (d - 48)) ds

value-digits : (f n : ℕ) (acc : Bytes) → n < f → value 0 (digits f n acc) ≡ value n acc
unfolding digits
value-digits zero n acc h = absurd (omega arith)
value-digits (suc f) n acc h = elim (Bool-cases (ltb n 10)) [
  | inl small ↦
      let lt : n < 10 = ltb→lt n 10 small in rw small (ap (λ k. value k acc) (omega arith))
  | inr large ↦
      let ge : 10 ≤ n = ground arith in
      rw large (
        value-digits f (n / 10) ((b'0' + n % 10) ∷ acc) (omega arith)
        ∙ ap (λ k. value k acc) (omega arith))
]

abbrev AreDigits : Bytes → Type 0
AreDigits = All (λ c. (48 ≤ c) × (c ≤ 57))

AreDigits-digits : (f n : ℕ) (acc : Bytes) → AreDigits acc → AreDigits (digits f n acc)
unfolding digits
AreDigits-digits zero n acc h = h
AreDigits-digits (suc f) n acc h =
    ground (arith, AreDigits-digits f (n / 10) ((b'0' + n % 10) ∷ acc))

itoa-AreDigits : (n : ℕ) → AreDigits (itoa n)
unfolding itoa
itoa-AreDigits n = AreDigits-digits (suc n) n [] tt

itoa-injective : (m n : ℕ) → itoa m ≡ itoa n → m ≡ n
unfolding itoa
itoa-injective m n e =
    sym (value-digits (suc m) m [] (omega arith))
    ∙ ap (value 0) e
    ∙ value-digits (suc n) n [] (omega arith)

split_digits :
    (xs ys a b : Bytes)
    → AreDigits xs
    → AreDigits ys
    → xs ++ b'-' ∷ a ≡ ys ++ b'-' ∷ b
    → (xs ≡ ys) × (a ≡ b)
split_digits [] [] a b hx hy e = ground arith
split_digits [] (y ∷ ys) a b hx hy e = ground arith
split_digits (x ∷ xs) [] a b hx hy e = ground arith
split_digits (x ∷ xs) (y ∷ ys) a b hx hy e = ground (arith, split_digits xs ys a b)

first_digit : (xs a ys : Bytes) → AreDigits xs → xs ++ b'-' ∷ a ≡ b'o' ∷ ys → ⊥
first_digit [] a ys h e = ground arith
first_digit (x ∷ xs) a ys h e = ground (arith, h.0)

-- Two pairs of tasks never share a file.
pub intermediate_name-injective :
    (i j k l : ℕ) → intermediate_name i j ≡ intermediate_name k l → (i ≡ k) × (j ≡ l)
unfolding intermediate_name
intermediate_name-injective i j k l e =
    let tails : itoa i ++ b'-' ∷ itoa j ≡ itoa k ++ b'-' ∷ itoa l = ap (drop 3) e in
    let (e₁, e₂) =
      split_digits (itoa i) (itoa k) (itoa j) (itoa l) (itoa-AreDigits i) (itoa-AreDigits k)
        tails in
    (itoa-injective i k e₁, itoa-injective j l e₂)

-- Nor is an intermediate file ever an output file.
pub intermediate_name-ne-out_name : (i j k : ℕ) → intermediate_name i j ≢ out_name k
unfolding intermediate_name out_name
intermediate_name-ne-out_name i j k e =
    first_digit (itoa i) (itoa j) (b'u' ∷ b't' ∷ b'-' ∷ itoa k) (itoa-AreDigits i) (ap (drop 3) e)
