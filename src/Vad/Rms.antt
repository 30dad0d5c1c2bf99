-- ===== src/Vad/Rms.antt =====
-- `_pcm_s16le_rms` of energy_vad.py: the root mean square of little-endian 16-bit samples.
use native.Mathlib.Nat.{le-div_iff_mul-le, div-lt_iff_lt-mul}
use vrc_agent.Prelude.Lists.{AllBytes}
use vrc_agent.Prelude.Int.{ℤ, pos, negsuc, ◌≤ℤ◌}
use vrc_agent.Prelude.{
  ◌^◌, ℕ, zero, suc, ◌+◌, ◌-◌, ◌*◌, ◌/◌, ◌%◌, All, ◌≤◌, ◌<◌, ◌≡◌, refl, List, [], ◌∷◌, arith, ltb,
  leb, length, if◌then◌else◌,
}

-- The magnitude of the signed sample in two bytes; its square is the sample's.
pub magnitude : ℕ → ℕ → ℕ
magnitude lo hi = let v = lo + 256 * hi in if ltb v 32768 then v else 65536 - v

pub sum_squares : List ℕ → ℕ
unfolding magnitude
sum_squares [] = 0
sum_squares (lo ∷ []) = 0
sum_squares (lo ∷ hi ∷ rest) = magnitude lo hi * magnitude lo hi + sum_squares rest

-- `math.isqrt`, by pairs of bits from the highest.
isqrt_bits : ℕ → ℕ → ℕ
isqrt_bits zero n = 0
isqrt_bits (suc f) n =
    let r = 2 * isqrt_bits f (n / 4) in if leb ((r + 1) * (r + 1)) n then r + 1 else r

-- The mean of squares of 16-bit samples is at most 2 ^ 30, so 16 pairs of bits hold it.
pub isqrt : ℕ → ℕ
unfolding isqrt_bits
isqrt n = isqrt_bits 16 n

unfoldable pub pcm_rms : List ℕ → ℕ
unfolding sum_squares isqrt
pcm_rms frame = isqrt (sum_squares frame / (length frame / 2))

-- The numbers whose root `isqrt_bits` finds: 4 ^ f.
bound : ℕ → ℕ
bound zero = 1
bound (suc f) = 4 * bound f

-- r is the integer square root of n.
abbrev pub IsRoot : ℕ → ℕ → Type 0
IsRoot r n = (r * r ≤ n) × (n < (r + 1) * (r + 1))

root-step : (q n r : ℕ) → q ≡ n / 4 → IsRoot r q → (4 * (r * r) ≤ n) × (n < 4 * ((r + 1) * (r + 1)))
root-step q n r e h = omega arith

-- A root of the quotient by 4, doubled, is the root or one less than it.
doubled-low : (q m : ℕ) → 4 * (q * q) ≤ m → (2 * q) * (2 * q) ≤ m
doubled-low q m h = grind arith

doubled-high : (q m : ℕ) → m < 4 * ((q + 1) * (q + 1)) → m < (2 * q + 1 + 1) * (2 * q + 1 + 1)
doubled-high q m h = grind arith

round : ℕ → ℕ → ℕ
round r n = if leb ((r + 1) * (r + 1)) n then r + 1 else r

round-IsRoot : (r n : ℕ) → r * r ≤ n → n < (r + 1 + 1) * (r + 1 + 1) → IsRoot (round r n) n
unfolding round
round-IsRoot r n low high = ground (arith, low, high)

isqrt_bits-IsRoot : (f n : ℕ) → n < bound f → IsRoot (isqrt_bits f n) n
unfolding isqrt_bits bound round
isqrt_bits-IsRoot zero n h = ground arith
isqrt_bits-IsRoot (suc f) n h =
    let q = isqrt_bits f (n / 4) in
    let (low, high) = root-step (n / 4) n q refl (isqrt_bits-IsRoot f (n / 4) (omega arith)) in
    round-IsRoot (2 * q) n (doubled-low q n low) (doubled-high q n high)

isqrt-IsRoot : (n : ℕ) → n ≤ 2 ^ 30 → IsRoot (isqrt n) n
unfolding isqrt bound
isqrt-IsRoot n h = isqrt_bits-IsRoot 16 n (omega arith)

square-le : (m : ℕ) → m ≤ 32768 → m * m ≤ 2 ^ 30
square-le m h = grind arith

magnitude-le : (lo hi : ℕ) → lo < 256 → hi < 256 → magnitude lo hi ≤ 32768
unfolding magnitude
magnitude-le lo hi p q = ground arith

sum_squares-le : (frame : List ℕ) → AllBytes frame → sum_squares frame ≤ 2 ^ 30 * (length frame / 2)
unfolding sum_squares
sum_squares-le [] h = omega arith
sum_squares-le (lo ∷ []) h = omega arith
sum_squares-le (lo ∷ hi ∷ rest) h =
    omega
      (arith, square-le (magnitude lo hi) (magnitude-le lo hi h.0 h.1.0), sum_squares-le rest h.1.1)

mean-le : (total count limit : ℕ) → 0 < count → total ≤ limit * count → total / count ≤ limit
mean-le total count limit p h = grind arith

-- The samples as signed numbers, and the bytes that they have in a frame: two's complement of 16
-- bits, the low byte first.
abbrev pub IsInt16 : ℤ → Type 0
IsInt16 x = (negsuc 32767 ≤ℤ x) × (x ≤ℤ pos 32767)

abbrev pub word : ℤ → ℕ
word (pos n) = n % 2 ^ 16
word (negsuc n) = 2 ^ 16 - 1 - n % 2 ^ 16

abbrev pub pcm : List ℤ → List ℕ
pcm [] = []
pcm (x ∷ xs) = (word x % 256) ∷ (word x / 256) ∷ pcm xs

abbrev pub square : ℤ → ℕ
square (pos n) = n * n
square (negsuc n) = (n + 1) * (n + 1)

abbrev pub energy : List ℤ → ℕ
energy [] = 0
energy (x ∷ xs) = square x + energy xs

-- r is the largest number whose square is at most the mean square of the samples.
abbrev pub IsRms : ℕ → List ℤ → Type 0
IsRms r xs = (r * r * length xs ≤ energy xs) × (energy xs < (r + 1) * (r + 1) * length xs)

pcm-AllBytes : (xs : List ℤ) → AllBytes (pcm xs)
pcm-AllBytes [] = tt
pcm-AllBytes (pos n ∷ xs) = (omega arith, (omega arith, pcm-AllBytes xs))
pcm-AllBytes (negsuc n ∷ xs) = (omega arith, (omega arith, pcm-AllBytes xs))

length-pcm : (xs : List ℤ) → length (pcm xs) ≡ 2 * length xs
length-pcm [] = refl
length-pcm (x ∷ xs) = omega (arith, length-pcm xs)

magnitude-positive : (n : ℕ) → n < 32768 → magnitude (n % 256) (n / 256) ≡ n
unfolding magnitude
magnitude-positive n h = ground (arith, h)

magnitude-negative : (n : ℕ) → n < 32768 → magnitude ((65535 - n) % 256) ((65535 - n) / 256) ≡ n + 1
unfolding magnitude
magnitude-negative n h = ground (arith, h)

magnitude-word :
    (x : ℤ) → IsInt16 x → (let m = magnitude (word x % 256) (word x / 256) in m * m) ≡ square x
magnitude-word (pos n) h =
    let e : n % 2 ^ 16 ≡ n = omega (arith, h.1) in
    rw (e, magnitude-positive n (omega (arith, h.1))) refl
magnitude-word (negsuc n) h =
    let e : n % 2 ^ 16 ≡ n = omega (arith, h.0) in
    rw (e, magnitude-negative n (omega (arith, h.0))) refl

sum_squares-pcm : (xs : List ℤ) → All IsInt16 xs → sum_squares (pcm xs) ≡ energy xs
unfolding sum_squares
sum_squares-pcm [] h = refl
sum_squares-pcm (x ∷ xs) h = omega (arith, magnitude-word x h.0, sum_squares-pcm xs h.1)

-- Of a frame of bytes with at least one sample, the root of the mean square, the mean rounded down.
pcm_rms-IsRoot :
    (frame : List ℕ)
    → AllBytes frame
    → 2 ≤ length frame
    → IsRoot (pcm_rms frame) (sum_squares frame / (length frame / 2))
unfolding pcm_rms
pcm_rms-IsRoot frame h p =
    isqrt-IsRoot (sum_squares frame / (length frame / 2)) (
      mean-le (sum_squares frame) (length frame / 2) (2 ^ 30) (omega arith)
        (sum_squares-le frame h))

-- Of a frame that holds signed samples of 16 bits, at least one, each in two's complement with the low
-- byte first, the result is the largest number whose square is at most the mean of the samples' squares.
pub pcm_rms-IsRms :
    (samples : List ℤ)
    → All IsInt16 samples
    → 0 < length samples
    → IsRms (pcm_rms (pcm samples)) samples
pcm_rms-IsRms samples h p =
    let count : length (pcm samples) / 2 ≡ length samples = omega (arith, length-pcm samples) in
    let root =
      pcm_rms-IsRoot (pcm samples) (pcm-AllBytes samples) (omega (arith, length-pcm samples)) in
    let (low, high) = rw (count, sum_squares-pcm samples h) at root in
    ((le-div_iff_mul-le p).0 low, (div-lt_iff_lt-mul p).0 high)
