-- ===== src/Dns/Zones/Scan.antt =====
-- The scans of the entries, against `holds`.
use remnanode_setup_bot.Base.{String, ◌≡◌, refl, ◌≢◌, inl, inr}
use remnanode_setup_bot.Base.{Bool, false, ◌||◌, List, [], ◌∷◌, ◌++◌, arith}
use remnanode_setup_bot.Base.{Result-cases, ok}
use remnanode_setup_bot.Base.Net.{Addr, addr_beq_iff, Std}
use remnanode_setup_bot.Dns.Zones.{holds, scan, scan_both, Found}

module _ (std : Std) where
  pub holds-nil : (ip : Addr) → holds std ip [] ≡ false
  unfolding holds
  holds-nil ip = refl

  pub holds-append :
      (ip : Addr) (xs ys : List String)
      → holds std ip (xs ++ ys) ≡ (holds std ip xs || holds std ip ys)
  unfolding holds
  holds-append ip [] ys = refl
  holds-append ip (x ∷ xs) ys = ground (arith, holds-append ip xs ys)

  pub scan-holds :
      (ip : Addr) (texts : List String) {b : Bool}
      → scan std ip texts ≡ ok b
      → holds std ip texts ≡ b
  unfolding scan holds
  scan-holds ip [] h = ground arith
  scan-holds ip (text ∷ rest) {b} h = ground (arith, scan-holds ip rest {b = b})

  pub scan_both-holds :
      (old new : Addr) (texts : List String) {seen : Found}
      → old ≢ new
      → scan_both std old new texts ≡ ok seen
      → (holds std old texts ≡ seen.old) × (holds std new texts ≡ seen.new)
  unfolding scan_both holds
  scan_both-holds old new [] d h = ground arith
  scan_both-holds old new (text ∷ rest) d h = elim (Result-cases (scan_both std old new rest)) [
    | inl (seen, e) ↦
        let (a, b) = scan_both-holds old new rest d e in grind (arith, a, b, addr_beq_iff)
    | inr (e, f) ↦ ground arith
  ]
