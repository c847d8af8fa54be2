-- ===== src/Deployment/NewId/Valid.antt =====
-- Every id that `NewID` makes is a version 4 UUID, and the tables accept it.
use Prim.Native.Nat.{ℕ, ◌/◌, ◌%◌, suc, ◌<◌, zero}
use mathlib.Core.Path.{ap, ◌∙◌}
use remnanode_setup_bot.Base.{
  ◌≤◌, ◌*◌, ◌+◌, ◌++◌, All, length, Bool, true, false, ◌||◌, ◌&&◌, List, [], ◌∷◌, some, ◌≡◌, refl,
  arith, ◌==◌, nat_comparable, ltb, leb,
}
use remnanode_setup_bot.Repository.{is_hex, is_even, dash_at, hex_digits, valid_uuid_bytes}
use remnanode_setup_bot.Deployment.NewId.{
  RandomBytes, with_version, with_variant, hex_digit, hex_encode, new_id, from_node, from_variant,
  from_version, from_middle,
}

-- A test passes from 0 up to a last number.
passes_to : (ℕ → Bool) → ℕ → Bool
passes_to test zero = test zero
passes_to test (suc last) = passes_to test last && test (suc last)

passes_to-at :
    (test : ℕ → Bool) (b last : ℕ) → passes_to test last ≡ true → b ≤ last → test b ≡ true
unfolding passes_to
passes_to-at test b zero h le = ground (arith, h)
passes_to-at test b (suc last) h le = ground (arith, h, passes_to-at test b last)

-- All the bytes of a record are bytes.
pub record AreBytes (r : RandomBytes) : Type 0 where
  pub b0 : r.b0 < 256
  pub b1 : r.b1 < 256
  pub b2 : r.b2 < 256
  pub b3 : r.b3 < 256
  pub b4 : r.b4 < 256
  pub b5 : r.b5 < 256
  pub b6 : r.b6 < 256
  pub b7 : r.b7 < 256
  pub b8 : r.b8 < 256
  pub b9 : r.b9 < 256
  pub b10 : r.b10 < 256
  pub b11 : r.b11 < 256
  pub b12 : r.b12 < 256
  pub b13 : r.b13 < 256
  pub b14 : r.b14 < 256
  pub b15 : r.b15 < 256

hex_digit-hex : (n : ℕ) → n < 16 → (is_hex (hex_digit n) ≡ true) × ((hex_digit n == b'-') ≡ false)
unfolding is_hex hex_digit
hex_digit-hex n h = (ground arith, ground arith)

-- The two digits of a byte are counted.
byte_counts :
    (b n : ℕ) (rest : List ℕ)
    → b < 256
    → hex_digits rest ≡ some n
    → hex_digits (hex_digit (b / 16) ∷ hex_digit (b % 16) ∷ rest) ≡ some (suc (suc n))
unfolding hex_digits
byte_counts b n rest h e =
    ground (arith, hex_digit-hex (b / 16) (omega arith), hex_digit-hex (b % 16) (omega arith), e)

dash_counts : (n : ℕ) (rest : List ℕ) → hex_digits rest ≡ some n → hex_digits (b'-' ∷ rest) ≡ some n
unfolding hex_digits
dash_counts n rest e = ground (arith, e)

abbrev is_version : ℕ → Bool
is_version b = ltb (with_version b) 256 && with_version b / 16 == 4

abbrev is_variant : ℕ → Bool
is_variant b =
    ltb (with_variant b) 256 && leb 8 (with_variant b / 16) && leb (with_variant b / 16) 11

versions : passes_to is_version 255 ≡ true
unfolding passes_to with_version
versions = refl

variants : passes_to is_variant 255 ≡ true
unfolding passes_to with_variant
variants = refl

version_byte : (b : ℕ) → b < 256 → (with_version b < 256) × (with_version b / 16 ≡ 4)
version_byte b h =
    let e = passes_to-at is_version b 255 versions (omega arith) in
    (ground (arith, e), ground (arith, e))

variant_byte :
    (b : ℕ)
    → b < 256
    → (with_variant b < 256) × ((8 ≤ with_variant b / 16) × (with_variant b / 16 ≤ 11))
variant_byte b h =
    let e = passes_to-at is_variant b 255 variants (omega arith) in
    (ground (arith, e), (ground (arith, e), ground (arith, e)))

abbrev pub byte_at : ℕ → List ℕ → ℕ
byte_at i [] = 0
byte_at zero (c ∷ cs) = c
byte_at (suc i) (c ∷ cs) = byte_at i cs

-- The digits that mark the variant of a UUID.
abbrev pub marks_variant : ℕ → Bool
marks_variant c = c == b'8' || c == b'9' || c == b'a' || c == b'b'

nothing_counts : hex_digits [] ≡ some 0
unfolding hex_digits
nothing_counts = refl

-- The digits of bytes are counted.
encode_counts :
    (bytes : List ℕ) (n : ℕ) (rest : List ℕ)
    → All (λ b. b < 256) bytes
    → hex_digits rest ≡ some n
    → hex_digits (hex_encode bytes ++ rest) ≡ some (2 * length bytes + n)
unfolding hex_encode
encode_counts [] n rest h e = e ∙ ap some (omega arith)
encode_counts (b ∷ bytes) n rest (h, hs) e =
    byte_counts b (2 * length bytes + n) (hex_encode bytes ++ rest) h
      (encode_counts bytes n rest hs e)
    ∙ ap some (omega arith)

module _ (r : RandomBytes) (h : AreBytes r) where
  node_counted : hex_digits (from_node r) ≡ some 12
  unfolding hex_encode
  node_counted =
      encode_counts (r.b10 ∷ r.b11 ∷ r.b12 ∷ r.b13 ∷ r.b14 ∷ r.b15 ∷ []) 0 []
        (h.b10, (h.b11, (h.b12, (h.b13, (h.b14, (h.b15, tt)))))) nothing_counts

  variant_counted : hex_digits (from_variant r) ≡ some 16
  variant_counted =
      encode_counts (with_variant r.b8 ∷ r.b9 ∷ []) 12 (b'-' ∷ from_node r)
        ((variant_byte r.b8 h.b8).0, (h.b9, tt)) (dash_counts 12 (from_node r) node_counted)

  version_counted : hex_digits (from_version r) ≡ some 20
  version_counted =
      encode_counts (with_version r.b6 ∷ r.b7 ∷ []) 16 (b'-' ∷ from_variant r)
        ((version_byte r.b6 h.b6).0, (h.b7, tt)) (dash_counts 16 (from_variant r) variant_counted)

  middle_counted : hex_digits (from_middle r) ≡ some 24
  middle_counted =
      encode_counts (r.b4 ∷ r.b5 ∷ []) 20 (b'-' ∷ from_version r) (h.b4, (h.b5, tt))
        (dash_counts 20 (from_version r) version_counted)

  counted : hex_digits (new_id r) ≡ some 32
  unfolding new_id
  counted =
      encode_counts (r.b0 ∷ r.b1 ∷ r.b2 ∷ r.b3 ∷ []) 24 (b'-' ∷ from_middle r)
        (h.b0, (h.b1, (h.b2, (h.b3, tt)))) (dash_counts 24 (from_middle r) middle_counted)

-- What the test of the tables asks of a text.
accepted :
    (cs : List ℕ)
    → length cs ≡ 36
    → dash_at 8 cs ≡ true
    → dash_at 13 cs ≡ true
    → dash_at 18 cs ≡ true
    → dash_at 23 cs ≡ true
    → hex_digits cs ≡ some 32
    → valid_uuid_bytes cs ≡ true
unfolding valid_uuid_bytes is_even
accepted cs l a b c d n = rw (n, l, a, b, c, d) refl

version_digit : (n : ℕ) → n ≡ 4 → hex_digit n ≡ b'4'
unfolding hex_digit
version_digit n e = ground (arith, e)

variant_digit : (n : ℕ) → 8 ≤ n → n ≤ 11 → marks_variant (hex_digit n) ≡ true
unfolding hex_digit
variant_digit n l u = ground arith

-- Whatever sixteen bytes are drawn, the id that is made of them is one that the tables accept, and it
-- is a UUID of version 4 and of the variant of RFC 4122.
pub new_id-valid :
    (r : RandomBytes)
    → AreBytes r
    → (valid_uuid_bytes (new_id r) ≡ true)
      × ((byte_at 14 (new_id r) ≡ b'4') × (marks_variant (byte_at 19 (new_id r)) ≡ true))
unfolding new_id hex_encode dash_at
new_id-valid r h = (
  accepted (new_id r) refl refl refl refl refl (counted r h),
  (
    version_digit (with_version r.b6 / 16) (version_byte r.b6 h.b6).1,
    variant_digit (with_variant r.b8 / 16) (variant_byte r.b8 h.b8).1.0
        (variant_byte r.b8 h.b8).1.1,
  ),
)
