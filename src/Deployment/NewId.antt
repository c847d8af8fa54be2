-- ===== src/Deployment/NewId.antt =====
-- The ids of jobs: `NewID` of internal/deployment/deployment.go, on bytes.
pub mod Valid
use Prim.Native.Nat.{ℕ, bit_and, bit_or, ◌/◌, ◌%◌}
use remnanode_setup_bot.Base.{◌+◌, ◌-◌, List, [], ◌∷◌, ◌++◌, if◌then◌else◌, ltb}

-- The sixteen random bytes that `rand.Read` gives.
pub record RandomBytes : Type 0 where
  pub b0 : ℕ
  pub b1 : ℕ
  pub b2 : ℕ
  pub b3 : ℕ
  pub b4 : ℕ
  pub b5 : ℕ
  pub b6 : ℕ
  pub b7 : ℕ
  pub b8 : ℕ
  pub b9 : ℕ
  pub b10 : ℕ
  pub b11 : ℕ
  pub b12 : ℕ
  pub b13 : ℕ
  pub b14 : ℕ
  pub b15 : ℕ

-- `value[6] = (value[6] & 0x0f) | 0x40` and `value[8] = (value[8] & 0x3f) | 0x80`.
unfoldable pub with_version : ℕ → ℕ
with_version b = bit_or (bit_and b 0x0f) 0x40

unfoldable pub with_variant : ℕ → ℕ
with_variant b = bit_or (bit_and b 0x3f) 0x80

-- A digit of `hex.Encode`.
unfoldable pub hex_digit : ℕ → ℕ
hex_digit n = if ltb n 10 then b'0' + n else b'a' + (n - 10)

-- `hex.Encode`, for bytes.
unfoldable pub hex_encode : List ℕ → List ℕ
unfolding hex_digit
hex_encode [] = []
hex_encode (b ∷ bytes) = hex_digit (b / 16) ∷ hex_digit (b % 16) ∷ hex_encode bytes

-- The groups of an id from the fifth, fourth, third and second one on.
abbrev pub from_node : RandomBytes → List ℕ
from_node r = hex_encode (r.b10 ∷ r.b11 ∷ r.b12 ∷ r.b13 ∷ r.b14 ∷ r.b15 ∷ [])

abbrev pub from_variant : RandomBytes → List ℕ
from_variant r = hex_encode (with_variant r.b8 ∷ r.b9 ∷ []) ++ b'-' ∷ from_node r

abbrev pub from_version : RandomBytes → List ℕ
from_version r = hex_encode (with_version r.b6 ∷ r.b7 ∷ []) ++ b'-' ∷ from_variant r

abbrev pub from_middle : RandomBytes → List ℕ
from_middle r = hex_encode (r.b4 ∷ r.b5 ∷ []) ++ b'-' ∷ from_version r

-- `NewID`, once the bytes are read.
unfoldable pub new_id : RandomBytes → List ℕ
new_id r = hex_encode (r.b0 ∷ r.b1 ∷ r.b2 ∷ r.b3 ∷ []) ++ b'-' ∷ from_middle r
