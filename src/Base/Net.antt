-- ===== src/Base/Net.antt =====
-- What the program uses of the package net/netip, and the functions of the standard library that
-- are not written out.
use Prim.Native.Nat.{ℕ}
use Prim.Native.String.{String}
use mathlib.Core.Path.{◌≡◌, refl}
use mathlib.Core.Logic.{◌↔◌}
use mathlib.Core.Bool.{Bool, true, false, ◌&&◌}
use mathlib.Core.Option.{Option, some}
use native.Mathlib.Omega.{arith}
use text.Mathlib.TextEquality.{eq_iff}
use remnanode_setup_bot.Base.Tests.{Comparable, ◌==◌, nat_comparable, string_comparable}

-- `netip.Addr`: the zero value, an IPv4 address, one mapped into IPv6, and an IPv6 address with
-- its zone.
pub data Addr : Type 0 where
  invalid : Addr
  v4 : ℕ → Addr
  v4_in_6 : ℕ → String → Addr
  v6 : ℕ → String → Addr

abbrev pub is_valid : Addr → Bool
is_valid invalid = false
is_valid _ = true

unfoldable pub unmap : Addr → Addr
unmap (v4_in_6 n _) = v4 n
unmap a = a

unfoldable pub addr_beq : Addr → Addr → Bool
addr_beq invalid invalid = true
addr_beq (v4 m) (v4 n) = m == n
addr_beq (v4_in_6 m z) (v4_in_6 n y) = m == n && z == y
addr_beq (v6 m z) (v6 n y) = m == n && z == y
addr_beq _ _ = false

pub addr_beq_iff : (a b : Addr) → (addr_beq a b ≡ true) ↔ (a ≡ b)
unfolding addr_beq
addr_beq_iff invalid invalid = ground arith
addr_beq_iff (v4 m) (v4 n) = ground arith
addr_beq_iff (v4_in_6 m z) (v4_in_6 n y) = ground (arith, eq_iff z y)
addr_beq_iff (v6 m z) (v6 n y) = ground (arith, eq_iff z y)
addr_beq_iff _ _ = ground arith

instance abbrev pub addr_comparable : Comparable Addr
addr_comparable = record { same = addr_beq; same_iff = addr_beq_iff }

-- The text functions that depend on large tables or grammars: `strings.ToLower`,
-- `strings.EqualFold`, `netip.ParseAddr` (an error is `none`) and `Addr.String`.
pub record Std : Type 0 where
  pub to_lower : String → String
  pub equal_fold : String → String → Bool
  pub parse_addr : String → Option Addr
  pub addr_string : Addr → String

-- Documented behaviour of net/netip: the text of an address that was read parses to it again. What is
-- read here was trimmed before, so neither its text nor its zone ends in white space.
pub record IsLawful (std : Std) (trim : String → String) : Type 0 where
  pub parse-print :
      (text : String) (a : Addr)
      → std.parse_addr (trim text) ≡ some a
      → std.parse_addr (trim (std.addr_string (unmap a))) ≡ some (unmap a)

pub unmap_idem : (a : Addr) → unmap (unmap a) ≡ unmap a
unfolding unmap
unmap_idem invalid = refl
unmap_idem _ = refl

pub unmap_valid : (a : Addr) → is_valid a ≡ true → is_valid (unmap a) ≡ true
unfolding unmap
unmap_valid invalid h = h
unmap_valid _ h = refl
