-- ===== src/Certificates/Served/Prepare.antt =====
-- What Prepare returns: internal/certmanager/manager.go.
use mathlib.Core.Path.{subst}
use remnanode_setup_bot.Base.{
  ℕ, ◌+◌, ◌≡◌, refl, sym, ◌∙◌, Bool, true, false, Option, none, some, string_comparable, Result, ok,
  err, Keeps-attempt, Triple, After, Triple-bind, Triple-return, Triple-throw, Triple-if,
  Triple-caught, Bool-cases, Option-cases, inl, inr, ltb, suc, run_effects,
}
use remnanode_setup_bot.Certificates.{Error, Material, Active, Config, Outside, World}
use remnanode_setup_bot.Certificates.Statements.{get_active, ask_now}
use remnanode_setup_bot.Certificates.Distribution.{is_missing, has_fingerprint, load_active, lock}
use remnanode_setup_bot.Certificates.Issuance.{after_renewal, prepared, prepare}
use remnanode_setup_bot.Certificates.Steady.{
  active_marker-Keeps, ask_now-Keeps, ask_load-Keeps, lock-Keeps, repair-Keeps,
}
use remnanode_setup_bot.Certificates.Served.{
  Unchanged, Failed, calm, steady, kept, Checked-IsOf, validate-Checked, issue-Served, IsOf,
  IsServed,
}

module _ (o : Outside) (config : Config) (old : Option Active) where
  -- The record in use and its material.
  abbrev Loaded : Active × Material → World → Type 0
  Loaded (a, material) w =
      (old ≡ some a) × IsOf o a.fingerprint material × (Unchanged o config old) w

  get-old :
      Triple
        (Unchanged o config old)
        (get_active o)
        (λ a w. (old ≡ some a) × (Unchanged o config old) w)
        (Failed o config old)
  unfolding get_active
  get-old = record {
    run = λ w h. elim (Bool-cases (o.db_fails w.tick)) [
      | inl f ↦ rw (f, get_active) h
      | inr f ↦ elim (Option-cases w.active) [
        | inl e ↦ rw (f, e, get_active) (sym e ∙ h)
        | inr (a, e) ↦ rw (f, e, get_active) (sym h ∙ e, sym e ∙ h)
      ]
    ];
  }

  load-Loaded :
      Triple (Unchanged o config old) (load_active o config true) Loaded (Failed o config old)
  unfolding load_active
  load-Loaded = Triple-bind get-old (λ a. record {
    run = λ w (e, h).
        (Triple-bind
            ((kept o config old) (
              Keeps-attempt (Unchanged o config old)
                (active_marker-Keeps o config (calm o config old))))
            (λ marker.
              Triple-bind
                ((kept o config old) (repair-Keeps o config (steady o config old) true a marker))
                (λ _.
                  Triple-bind
                    ((kept o config old) (ask_load-Keeps o config (calm o config old) a.version))
                    (λ material. Triple-bind ((validate-Checked o config old) material) (λ info.
                      record {
                        run = λ w (c, h).
                            (Triple-if (has_fingerprint a.fingerprint info)
                                (λ t.
                                  Triple-return (a, material)
                                    (λ w h. (
                                      e,
                                      (Checked-IsOf o config old) a.fingerprint material info c t,
                                      h,
                                    )))
                                (λ _. Triple-throw _ (λ w h. h))).run
                              w h;
                      }))))).run
          w h;
  })

  in_use :
      (a : Active) (material : Material) (w : World)
      → Loaded (a, material) w
      → IsServed o material w
  in_use a material w (e, of, h) = record { record_ = a; is_active = h ∙ e; material_of = of }

  module _ (a : Active) (material : Material) (e : old ≡ some a)
      (of : IsOf o a.fingerprint material) where
    renewal-Served :
        (r : Result Error Material)
        → Triple
            (λ w. After (IsServed o) (Failed o config old) (r, w))
            (after_renewal o config a material r)
            (IsServed o)
            (Failed o config old)
    unfolding after_renewal
    renewal-Served (ok renewed) = Triple-return renewed (λ w h. h)
    renewal-Served (err x) =
        Triple-bind ((kept o config old) (ask_now-Keeps o config (calm o config old))) (λ time.
          Triple-if (ltb time a.expires_at)
            (λ _. Triple-return material (λ w h. in_use a material w (e, of, h)))
            (λ _. Triple-throw x (λ w h. h)))

    use-Served :
        Triple
          (Unchanged o config old)
          (prepared o config (ok (a, material)))
          (IsServed o)
          (Failed o config old)
    unfolding prepared
    use-Served =
        Triple-bind ((kept o config old) (ask_now-Keeps o config (calm o config old))) (λ time.
          Triple-if (ltb (time + config.renew_before) a.expires_at)
            (λ _. Triple-return material (λ w h. in_use a material w (e, of, h)))
            (λ _.
              Triple-bind (Triple-caught ((issue-Served o config old) (some a))) renewal-Served))

  prepared-Served :
      (r : Result Error (Active × Material))
      → Triple
          (λ w. After Loaded (Failed o config old) (r, w))
          (prepared o config r)
          (IsServed o)
          (Failed o config old)
  unfolding prepared
  prepared-Served (ok (a, material)) = record {
    run = λ w (e, of, h). (use-Served a material e of).run w h;
  }
  prepared-Served (err x) =
      Triple-if (is_missing x) (λ _. (issue-Served o config old) none)
        (λ _. Triple-throw x (λ w h. h))

  prepare-Served :
      Triple (Unchanged o config old) (prepare o config) (IsServed o) (Failed o config old)
  unfolding prepare
  prepare-Served =
      Triple-bind ((kept o config old) (lock-Keeps o config (calm o config old)))
        (λ _. Triple-bind (Triple-caught load-Loaded) prepared-Served)

-- Prepare returns only a material that passed Validate and has the fingerprint of the record that
-- is then active; when it fails, the active record is what it was.
pub prepare-IsServed :
    (o : Outside) (config : Config) (w : World)
    → After (IsServed o) (λ _ w'. w'.active ≡ w.active) (prepare o config w)
prepare-IsServed o config w = (prepare-Served o config w.active).run w refl

abbrev pub is_ok : {A : Type 0} → Result Error A → Bool
is_ok (ok _) = true
is_ok (err _) = false

-- The world in which Prepare holds the lock.
abbrev pub locked : World → World
locked w = record w { tick = suc w.tick }

module _ (o : Outside) (config : Config) (a : Active) (material : Material)
    (early : (tick : ℕ) → ltb (o.now tick) a.expires_at ≡ true) where
  renewal-ok :
      (r : Result Error Material) (w : World)
      → is_ok (after_renewal o config a material r w).0 ≡ true
  unfolding after_renewal run_effects ask_now
  renewal-ok (ok renewed) w = refl
  renewal-ok (err e) w = rw (early w.tick) refl

  prepared-ok : (w : World) → is_ok (prepared o config (ok (a, material)) w).0 ≡ true
  unfolding prepared run_effects ask_now
  prepared-ok w = elim (Bool-cases (ltb (o.now w.tick + config.renew_before) a.expires_at)) [
    | inl e ↦ rw e refl
    | inr e ↦ rw e (renewal-ok _ _)
  ]

  -- A certificate in use that loads and does not expire meanwhile: Prepare returns without error,
  -- whatever becomes of its renewal.
  pub prepare-is_ok :
      (w : World)
      → o.locks w.tick ≡ true
      → (load_active o config true (locked w)).0 ≡ ok (a, material)
      → is_ok (prepare o config w).0 ≡ true
  unfolding prepare lock run_effects
  prepare-is_ok w l h = rw l (
      subst (λ r. is_ok (prepared o config r (load_active o config true (locked w)).1).0 ≡ true)
        (sym h) (prepared-ok (load_active o config true (locked w)).1))
