-- ===== src/Api/Words.antt =====
-- Go's `int32` as a bit pattern below 2 ^ 32: the signed order, and `+` and `-` with wrap-around.
use k8s_glb_operator.Base.{ℕ, ◌+◌, ◌-◌, ◌%◌, ◌^◌, ◌<◌, ◌≡◌, Bool, ltb, arith}
use k8s_glb_operator.Api.Kube.{Int32}

abbrev pub sign_bit : ℕ
sign_bit = 2 ^ 31

abbrev pub modulus : ℕ
modulus = 2 ^ 32

-- `a < b`
unfoldable pub lt32 : Int32 → Int32 → Bool
lt32 a b = ltb ((a + sign_bit) % modulus) ((b + sign_bit) % modulus)

unfoldable pub add32 : Int32 → Int32 → Int32
add32 a b = (a + b) % modulus

unfoldable pub sub32 : Int32 → Int32 → Int32
sub32 a b = (a + modulus - b) % modulus

-- On patterns of numbers that are not negative the signed order is that of the patterns.
pub lt32-ltb : (a b : ℕ) → a < sign_bit → b < sign_bit → lt32 a b ≡ ltb a b
unfolding lt32
lt32-ltb a b ha hb = ground arith
