-- ===== src/Canonical/Layout/Mulberry.antt =====
-- layout.ts, `mulberry32`: the seeded source, over 32-bit words.
use Prim.Native.Nat.{bit_or, bit_xor}
use native.Mathlib.Nat.{mod-lt, div-lt_iff_lt-mul, mul_comm, mul-lt-mul_of_pos_right}
use tmx_assessment.Prelude.{ℕ, ◌+◌, ◌*◌, ◌/◌, ◌%◌, ◌^◌, ◌<◌, arith}
use tmx_assessment.Canonical.Layout.{Random}

abbrev word : ℕ
word = 2 ^ 32

-- `Math.imul`, as a bit pattern
imul : ℕ → ℕ → ℕ
imul a b = (a * b) % word

-- A word, and the state after it. An int32 is kept as its bit pattern, which is all that the shifts
-- `>>>`, the products and the bit operations read.
unfoldable pub mulberry32_next : ℕ → ℕ × ℕ
unfolding imul
mulberry32_next seed =
    let state = (seed + 0x6d2b79f5) % word in
    let t = imul (bit_xor state (state / 2 ^ 15)) (bit_or state 1) in
    let u = bit_xor t ((t + imul (bit_xor t (t / 2 ^ 7)) (bit_or t 61)) % word) in
    (bit_xor u (u / 2 ^ 14) % word, state)

-- `Math.floor(random() * n)`: the quotient by 2^32 and the product are exact for n up to 2^21.
unfoldable pub mulberry32_draw : ℕ → ℕ → ℕ × ℕ
unfolding mulberry32_next
mulberry32_draw n seed = let (w, state) = mulberry32_next seed in (w * n / word, state)

word_quotient-lt : (w n : ℕ) → w < word → 0 < n → w * n / word < n
word_quotient-lt w n h k =
    (div-lt_iff_lt-mul (omega arith)).1 (rw (mul_comm n word) (mul-lt-mul_of_pos_right h k))

pub mulberry32-lt : (n s : ℕ) → 0 < n → (mulberry32_draw n s).0 < n
unfolding mulberry32_draw
mulberry32-lt n s h = word_quotient-lt _ n (mod-lt _ (omega arith)) h

abbrev pub mulberry32 : Random
mulberry32 = record { State = ℕ; draw = mulberry32_draw; draw-lt = mulberry32-lt }
