-- ===== src/Identity/Decimal.antt =====
-- `str(n)` of a natural number, which the length prefixes of canonical_join are.
use cogindex.Base.{
  ℕ, zero, suc, ◌+◌, ◌-◌, ◌*◌, ◌/◌, ◌%◌, ◌<◌, ◌≡◌, refl, ap, false, [], ◌∷◌, ◌++◌, arith, ltb,
  Bool-cases, inl, inr, contains, nat_eq, ◌==◌, Text, if◌then◌else◌,
}

digits : ℕ → ℕ → Text
digits zero n = []
digits (suc fuel) n =
    let more = digits fuel (n / 10) ++ (48 + n % 10) ∷ [] in
    if ltb n 10 then (48 + n) ∷ [] else more

-- A number has at most as many digits as its successor counts.
unfoldable pub decimal : ℕ → Text
unfolding digits
decimal n = digits (suc n) n

value_from : ℕ → Text → ℕ
value_from acc [] = acc
value_from acc (c ∷ s) = value_from (acc * 10 + (c - 48)) s

value_from-append :
    (s : Text) (acc c : ℕ) → value_from acc (s ++ c ∷ []) ≡ value_from acc s * 10 + (c - 48)
unfolding value_from
value_from-append [] acc c = refl
value_from-append (d ∷ s) acc c = value_from-append s (acc * 10 + (d - 48)) c

value_from-digits : (fuel n : ℕ) → n < fuel → value_from 0 (digits fuel n) ≡ n
unfolding digits value_from
value_from-digits zero n h = elim h [ ]
value_from-digits (suc fuel) n h = elim (Bool-cases (ltb n 10)) [
  | inl small ↦ ground arith
  | inr large ↦ ground (
    arith,
    value_from-append (digits fuel (n / 10)) 0 (48 + n % 10),
    value_from-digits fuel (n / 10),
  )
]

-- Different numbers have different decimals.
pub decimal-injective : (m n : ℕ) → decimal m ≡ decimal n → m ≡ n
unfolding decimal
decimal-injective m n e = omega (
  arith,
  value_from-digits (suc m) m (omega arith),
  value_from-digits (suc n) n (omega arith),
  ap (value_from 0) e,
)

contains-append_one :
    (c d : ℕ) (s : Text)
    → contains c s ≡ false
    → (c == d) ≡ false
    → contains c (s ++ d ∷ []) ≡ false
contains-append_one c d [] h k = ground arith
contains-append_one c d (x ∷ s) h k = ground (arith, contains-append_one c d s)

contains-digits : (fuel n : ℕ) → contains 58 (digits fuel n) ≡ false
unfolding digits
contains-digits zero n = refl
contains-digits (suc fuel) n = ground (
  arith,
  contains-append_one 58 (48 + n % 10) (digits fuel (n / 10)) (contains-digits fuel (n / 10)),
)

-- A decimal holds no colon.
pub contains-decimal : (n : ℕ) → contains 58 (decimal n) ≡ false
unfolding decimal
contains-decimal n = contains-digits (suc n) n
