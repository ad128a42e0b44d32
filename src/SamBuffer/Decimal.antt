-- ===== src/SamBuffer/Decimal.antt =====
-- Decimal digits: `count_digits` of libexio/SamBuffer.cc, and what printf's %lu writes.
use exio.Prelude.{
  ℕ, zero, suc, ◌+◌, ◌*◌, ◌/◌, ◌%◌, ◌≤◌, ◌<◌, ◌≡◌, ◌∙◌, Bytes, [], ◌∷◌, ◌++◌, length, length-append,
  ◌==◌, if◌then◌else◌, arith,
}

-- do { count++; i = i / 10; } while (i);
unfoldable pub count_digits_loop : ℕ → ℕ → ℕ → ℕ
count_digits_loop zero count i = count
count_digits_loop (suc f) count i =
    let rest = count_digits_loop f (count + 1) (i / 10) in if i / 10 == 0 then count + 1 else rest

-- A number has fewer digits than its value plus one, so the fuel is enough.
unfoldable pub count_digits : ℕ → ℕ
unfolding count_digits_loop
count_digits i = count_digits_loop (suc i) 0 i

unfoldable pub decimal_fuel : ℕ → ℕ → Bytes
decimal_fuel zero n = []
decimal_fuel (suc f) n =
    let more = decimal_fuel f (n / 10) ++ (b'0' + n % 10) ∷ [] in
    if n / 10 == 0 then (b'0' + n % 10) ∷ [] else more

-- snprintf(…, "%lu", n)
unfoldable pub decimal : ℕ → Bytes
unfolding decimal_fuel
decimal n = decimal_fuel (suc n) n

-- `count_digits` is the length of what is printed.
count_digits_loop-decimal_fuel :
    (f g c n : ℕ) → n < f → n < g → count_digits_loop f c n ≡ c + length (decimal_fuel g n)
unfolding count_digits_loop decimal_fuel
count_digits_loop-decimal_fuel zero g c n h k = absurd (omega arith)
count_digits_loop-decimal_fuel (suc f) zero c n h k = absurd (omega arith)
count_digits_loop-decimal_fuel (suc f) (suc g) c n h k = ground (
  arith,
  count_digits_loop-decimal_fuel f g (c + 1) (n / 10),
  length-append (decimal_fuel g (n / 10)) ((b'0' + n % 10) ∷ []),
)

-- The digits that count_digits counts are as many as are printed.
pub count_digits-decimal : (n : ℕ) → count_digits n ≡ length (decimal n)
unfolding count_digits decimal
count_digits-decimal n =
    count_digits_loop-decimal_fuel (suc n) (suc n) 0 n (omega arith) (omega arith) ∙ omega arith

decimal_fuel_mono :
    (f g n m : ℕ) → n < f → m < g → n ≤ m → length (decimal_fuel f n) ≤ length (decimal_fuel g m)
unfolding decimal_fuel
decimal_fuel_mono zero g n m h k p = absurd (omega arith)
decimal_fuel_mono (suc f) zero n m h k p = absurd (omega arith)
decimal_fuel_mono (suc f) (suc g) n m h k p = ground (
  arith,
  decimal_fuel_mono f g (n / 10) (m / 10),
  length-append (decimal_fuel g (m / 10)) ((b'0' + m % 10) ∷ []),
  length-append (decimal_fuel f (n / 10)) ((b'0' + n % 10) ∷ []),
)

decimal_fuel_pos : (f n : ℕ) → n < f → 0 < length (decimal_fuel f n)
unfolding decimal_fuel
decimal_fuel_pos zero n h = absurd (omega arith)
decimal_fuel_pos (suc f) n h =
    ground (arith, length-append (decimal_fuel f (n / 10)) ((b'0' + n % 10) ∷ []))

decimal_fuel-step :
    (f g n m : ℕ)
    → n < f
    → m < g
    → m < 10 * (n + 1)
    → length (decimal_fuel g m) ≤ length (decimal_fuel f n) + 1
unfolding decimal_fuel
decimal_fuel-step f zero n m h k p = absurd (omega arith)
decimal_fuel-step f (suc g) n m h k p = ground (
  arith,
  decimal_fuel_mono g f (m / 10) n,
  length-append (decimal_fuel g (m / 10)) ((b'0' + m % 10) ∷ []),
  decimal_fuel_pos f n,
)

decimal_fuel-le : (f n : ℕ) → n < f → length (decimal_fuel f n) ≤ n + 1
unfolding decimal_fuel
decimal_fuel-le zero n h = absurd (omega arith)
decimal_fuel-le (suc f) n h = ground (
  arith,
  decimal_fuel-le f (n / 10),
  length-append (decimal_fuel f (n / 10)) ((b'0' + n % 10) ∷ []),
)

module _ (n m : ℕ) where
  -- More is printed for a larger number, but one digit more at most below ten times its successor.
  pub length-decimal_mono : n ≤ m → length (decimal n) ≤ length (decimal m)
  unfolding decimal
  length-decimal_mono p = decimal_fuel_mono (suc n) (suc m) n m (omega arith) (omega arith) p

  pub length-decimal_step : m < 10 * (n + 1) → length (decimal m) ≤ length (decimal n) + 1
  unfolding decimal
  length-decimal_step p = decimal_fuel-step (suc n) (suc m) n m (omega arith) (omega arith) p

pub length-decimal_le : (n : ℕ) → length (decimal n) ≤ n + 1
unfolding decimal
length-decimal_le n = decimal_fuel-le (suc n) n (omega arith)

pub length-decimal_pos : (n : ℕ) → 0 < length (decimal n)
unfolding decimal
length-decimal_pos n = decimal_fuel_pos (suc n) n (omega arith)
