-- ===== src/Certificates/Ordered.antt =====
-- A version is chosen only when every Node has it: internal/certmanager/manager.go.
pub mod Runs
use remnanode_setup_bot.Base.{
  String, ◌≡◌, Bool, true, false, not, ◌&&◌, List, [], ◌∷◌, ◌==◌, string_comparable, Keeps, Triple,
  Triple-bind, Triple-return, Triple-throw, Triple-if, Triple-weaken, Triple-Keeps, Bool-cases,
  Option-cases, Result-cases, inl, inr, eq_iff, arith, sym, ◌∙◌, refl, Result, ok, err, After,
  run_effects, suc, ◌||◌, ltb,
}
use remnanode_setup_bot.Base.Net.{Addr}
use remnanode_setup_bot.Certificates.{
  Error, Material, Version, Target, Resolution, Delivery, Event, delivered, unneeded, resolved,
  marked, activated, chosen, Config, Outside, World, Run, persistence_failed, distribution_failed,
}
use remnanode_setup_bot.Certificates.Statements.{
  save_version, set_version_status, set_status, activate_version, mark, ask_distribute,
  skip_distribution, with_resolved, ask_resolve, find_version, record_row,
}
use remnanode_setup_bot.Certificates.Distribution.{
  replaced, is_complete, or_throw, record_rows, distribute_targets, distribute_resolved, distribute,
}
use remnanode_setup_bot.Certificates.Steady.{IsCalm, IsSteady, or_throw-Keeps, record_rows-Keeps}

abbrev pub is_empty {ℓ} : {A : Type ℓ} → List A → Bool
is_empty [] = true
is_empty (_ ∷ _) = false

-- The results answer all targets of the last event, the resolver's answer, and none was left to an
-- operator.
abbrev pub answers_all : List Delivery → List Event → Bool
answers_all results (resolved r ∷ es) = is_complete r.managed results && is_empty r.unmanaged
answers_all results _ = false

-- The last event is the resolver's answer that there are no targets.
abbrev pub without_targets : List Event → Bool
without_targets (resolved r ∷ es) = is_empty r.managed && is_empty r.unmanaged
without_targets _ = false

-- The last event is a complete distribution of the version to the targets that the resolver just
-- answered, or none where it answered that there are no targets, or where there is no resolver.
abbrev pub is_served : String → List Event → Bool
is_served version (delivered other targets results ∷ es) =
    other == version && answers_all results es
is_served version (unneeded other resolves ∷ es) =
    other == version && (not resolves || without_targets es)
is_served version _ = false

-- The last event is the choice of the version by the marker.
abbrev pub is_chosen : String → List Event → Bool
is_chosen version (marked chosen other ∷ es) = other == version
is_chosen version _ = false

-- Newest first: the marker chooses a version right after its complete distribution, and the record
-- is activated right after the marker.
abbrev pub in_order : List Event → Bool
in_order [] = true
in_order (activated version ∷ es) = is_chosen version es && in_order es
in_order (marked chosen version ∷ es) = is_served version es && in_order es
in_order (_ ∷ es) = in_order es

abbrev pub InOrder : World → Type 0
InOrder w = in_order w.events ≡ true

abbrev pub Failed : Error → World → Type 0
Failed _ = InOrder

module _ (o : Outside) where
  resolved-InOrder :
      (answer : Result Error Resolution) (es : List Event)
      → in_order es ≡ true
      → in_order (with_resolved answer es) ≡ true
  resolved-InOrder (ok r) es h = h
  resolved-InOrder (err e) es h = h

  pub calm : IsCalm o InOrder
  unfolding ask_distribute skip_distribution ask_resolve
  calm = record {
    ticks = λ w h. h;
    delivers = λ version material targets. record { run = λ w h. h };
    resolves = record { run = λ w h. resolved-InOrder (o.resolve w.tick) w.events h };
    skips = λ config version. record { run = λ w h. h };
  }

  pub steady : IsSteady o InOrder
  unfolding set_version_status set_status mark
  steady = record {
    calm = calm;
    version_status = λ version status. record { run = λ w h. ground arith };
    status = λ status. record { run = λ w h. ground arith };
    repairs = λ version. record { run = λ w h. ground arith };
    undoes = λ version. record { run = λ w h. ground arith };
  }

  pub save-Keeps : (v : Version) → Keeps InOrder (save_version o v)
  unfolding save_version
  save-Keeps v = record { run = λ w h. ground arith }

  abbrev pub Served : String → World → Type 0
  Served version w = InOrder w × (is_served version w.events ≡ true)

  abbrev pub Chosen : String → World → Type 0
  Chosen version w = InOrder w × (is_chosen version w.events ≡ true)

  pub mark-Chosen :
      (version : String)
      → Triple (Served version) (mark o chosen version) (λ _. Chosen version) Failed
  unfolding mark
  mark-Chosen version = record {
    run = λ w (h, s). elim (Result-cases (o.mark w.tick version)) [
      | inl (a, e) ↦ rw (e, s, mark) (h, ground (arith, eq_iff version version))
      | inr (x, e) ↦ rw (e, mark) h
    ];
  }

  pub activate-InOrder :
      (version : String)
      → Triple (Chosen version) (activate_version o version) (λ _. InOrder) Failed
  unfolding activate_version
  activate-InOrder version = record {
    run = λ w (h, s). elim (Option-cases (find_version version w.versions)) [
      | inl e ↦ rw (e, activate_version) h
      | inr (v, e) ↦ elim (Bool-cases (o.db_fails w.tick)) [
        | inl f ↦ rw (e, f, activate_version) h
        | inr f ↦ rw (e, f, s, activate_version) h
      ]
    ];
  }

  pub kept : {A : Type 0} {m : Run A} → Keeps InOrder m → Triple InOrder m (λ _. InOrder) Failed
  kept k = Triple-Keeps k

module _ (o : Outside) (config : Config) where
  abbrev Sent : String → List Target → List Delivery → World → Type 0
  Sent version targets results w =
      InOrder w × (is_complete targets results ≡ is_served version w.events)

  -- The last event is the resolver's answer.
  abbrev AnswerLast : Resolution → World → Type 0
  AnswerLast r w = InOrder w × ((es : List Event) × (w.events ≡ resolved r ∷ es))

  resolution-AnswerLast :
      Triple InOrder (or_throw (ask_resolve o) distribution_failed) AnswerLast Failed
  unfolding or_throw replaced ask_resolve run_effects
  resolution-AnswerLast = record { run = λ w h. by_answer (o.resolve w.tick) w h }
    where
      by_answer :
          (answer : Result Error Resolution) (w : World)
          → InOrder w
          → After AnswerLast Failed (
              replaced distribution_failed answer
                (record w { tick = suc w.tick; events = with_resolved answer w.events }))
      by_answer (ok r) w h = (h, (w.events, refl))
      by_answer (err e) w h = h

  skip_resolved-Served :
      (version : String) (r : Resolution)
      → r.managed ≡ []
      → r.unmanaged ≡ []
      → Triple (AnswerLast r) (skip_distribution config version) (λ _. Served o version) Failed
  unfolding skip_distribution
  skip_resolved-Served version r m u = record {
    run = λ w (h, (es, e)). (h, rw (e, m, u) (ground (arith, eq_iff version version)));
  }

  skip-Served :
      (version : String)
      → not config.has_resolver ≡ true
      → Triple InOrder (skip_distribution config version) (λ _. Served o version) Failed
  unfolding skip_distribution
  skip-Served version n = record { run = λ w h. (h, ground (arith, eq_iff version version)) }

  ask-Sent :
      (version : String) (material : Material) (r : Resolution) (targets : List Target)
      → r.managed ≡ targets
      → r.unmanaged ≡ []
      → Triple
          (AnswerLast r)
          (ask_distribute o version material targets)
          (Sent version targets)
          Failed
  unfolding ask_distribute
  ask-Sent version material r targets m u = record {
    run = λ w (h, (es, e)). (h, rw (e, m, u) (ground (arith, eq_iff version version)));
  }

  record_row-Sent :
      (version : String) (targets : List Target) (results : List Delivery)
      → Keeps (Sent version targets results) (or_throw (record_row o) persistence_failed)
  unfolding record_row
  record_row-Sent version targets results = or_throw-Keeps _ (record { run = λ w h. h })

  rows-Sent :
      {A : Type 0} (l : List A) (version : String) (targets : List Target) (results : List Delivery)
      → Triple
          (Sent version targets results)
          (record_rows o config l)
          (λ _. Sent version targets results)
          Failed
  unfolding record_rows
  rows-Sent [] version targets results = Triple-return tt (λ w h. h)
  rows-Sent (x ∷ xs) version targets results =
      Triple-bind
        (Triple-weaken (Triple-Keeps (record_row-Sent version targets results)) (λ w h. h)
          (λ _ w h. h) (λ _ w (h, _). h))
        (λ _. rows-Sent xs version targets results)

  targets-Served :
      (version : String) (material : Material) (r : Resolution) (targets : List Target)
      → r.managed ≡ targets
      → r.unmanaged ≡ []
      → Triple
          (AnswerLast r)
          (distribute_targets o config version material targets)
          (λ _. Served o version)
          Failed
  unfolding distribute_targets
  targets-Served version material r [] m u = skip_resolved-Served version r m u
  targets-Served version material r (target ∷ targets) m u =
      Triple-if (not config.has_distributor) (λ _. Triple-throw _ (λ w (h, _). h))
        (λ _. Triple-bind (ask-Sent version material r (target ∷ targets) m u) (λ results.
          Triple-bind (rows-Sent results version (target ∷ targets) results) (λ _.
            Triple-if (is_complete (target ∷ targets) results)
              (λ c. Triple-return tt (λ w (h, s). (h, sym s ∙ c)))
              (λ _. Triple-throw _ (λ w (h, _). h)))))

  resolved-Served :
      (version : String) (material : Material) (r : Resolution) (ips : List Addr)
      → r.unmanaged ≡ ips
      → Triple
          (AnswerLast r)
          (distribute_resolved o config version material r ips)
          (λ _. Served o version)
          Failed
  unfolding distribute_resolved
  resolved-Served version material r [] u = targets-Served version material r r.managed refl u
  resolved-Served version material r (ip ∷ ips) u =
      Triple-bind
        (Triple-weaken (kept o (record_rows-Keeps o config (calm o) (ip ∷ ips))) (λ w (h, _). h)
          (λ _ w h. h) (λ _ w h. h))
        (λ _. Triple-throw _ (λ w h. h))

  pub distribute-Served :
      (version : String) (material : Material)
      → Triple InOrder (distribute o config version material) (λ _. Served o version) Failed
  unfolding distribute
  distribute-Served version material =
      Triple-if (not config.has_resolver) (skip-Served version) (λ _.
        Triple-bind resolution-AnswerLast
          (λ resolution. resolved-Served version material resolution resolution.unmanaged refl))
