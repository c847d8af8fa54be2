-- ===== src/Certificates/Served.antt =====
-- What Prepare returns, and what it leaves when it fails: internal/certmanager/manager.go.
pub mod Prepare
use remnanode_setup_bot.Base.{
  ℕ, String, ◌≡◌, refl, sym, true, ◌||◌, Option, none, some, any, ◌==◌, string_comparable, Result,
  ok, err, Keeps, Keeps-attempt, Triple, After, Triple-bind, Triple-return, Triple-throw,
  Triple-weaken, Triple-caught, Triple-Keeps, Triple-attempt, Bool-cases, Result-cases, inl, inr,
  eq_iff, arith,
}
use remnanode_setup_bot.Certificates.{
  Error, Material, Info, Version, Active, Config, Outside, World, Run, chosen, persistence_failed,
  pending,
}
use remnanode_setup_bot.Certificates.Statements.{
  save_version, set_version_status, set_status, activate_version, mark, ask_distribute,
  skip_distribution, ask_resolve, find_version, ask_validate,
}
use remnanode_setup_bot.Certificates.Distribution.{has_fingerprint, replaced, or_throw}
use remnanode_setup_bot.Certificates.Issuance.{
  fail_candidate, after_record, after_mark, after_distribution, issued_valid, issue_and_activate,
}
use remnanode_setup_bot.Certificates.Steady.{
  IsCalm, IsSteady, or_throw-Keeps, ask_issue-Keeps, ask_stage-Keeps, distribute-Keeps,
  undo_marker-Keeps, restore-Keeps,
}

-- A material that passed the validation with the fingerprint of a record.
pub record IsOf (o : Outside) (fingerprint : String) (material : Material) : Type 0 where
  pub time : ℕ
  pub info : Info
  pub valid : o.validate time material ≡ some info
  pub same : info.fingerprint ≡ fingerprint

-- The material of the active record.
pub record IsServed (o : Outside) (material : Material) (w : World) : Type 0 where
  pub record_ : Active
  pub is_active : w.active ≡ some record_
  pub material_of : IsOf o record_.fingerprint material

module _ (o : Outside) (config : Config) (old : Option Active) where
  abbrev pub Unchanged : World → Type 0
  Unchanged w = w.active ≡ old

  abbrev pub Failed : Error → World → Type 0
  Failed _ = Unchanged

  pub calm : IsCalm o Unchanged
  unfolding ask_distribute skip_distribution ask_resolve
  calm = record {
    ticks = λ w h. h;
    delivers = λ version material targets. record { run = λ w h. h };
    resolves = record { run = λ w h. h };
    skips = λ config version. record { run = λ w h. h };
  }

  pub steady : IsSteady o Unchanged
  unfolding set_version_status set_status mark
  steady = record {
    calm = calm;
    version_status = λ version status. record { run = λ w h. ground arith };
    status = λ status. record { run = λ w h. ground arith };
    repairs = λ version. record { run = λ w h. ground arith };
    undoes = λ version. record { run = λ w h. ground arith };
  }

  pub kept :
      {A : Type 0} {m : Run A} → Keeps Unchanged m → Triple Unchanged m (λ _. Unchanged) Failed
  kept k = Triple-Keeps k

  -- A candidate whose version is in the table.
  abbrev Saved : Version → World → Type 0
  Saved v w = Unchanged w × (find_version v.version w.versions ≡ some v)

  calm-Saved : (v : Version) → IsCalm o (Saved v)
  unfolding ask_distribute skip_distribution ask_resolve
  calm-Saved v = record {
    ticks = λ w h. h;
    delivers = λ version material targets. record { run = λ w h. h };
    resolves = record { run = λ w h. h };
    skips = λ config version. record { run = λ w h. h };
  }

  replaced-After :
      {A : Type 0} {Q : A → World → Type 0} (e : Error) (r : Result Error A)
      → Triple (λ w. After Q Failed (r, w)) (replaced e r) Q Failed
  unfolding replaced
  replaced-After e (ok a) = Triple-return a (λ w q. q)
  replaced-After e (err _) = Triple-throw e (λ w h. h)

  or_throw-After :
      {A : Type 0} {P : World → Type 0} {Q : A → World → Type 0} {m : Run A} (e : Error)
      → Triple P m Q Failed
      → Triple P (or_throw m e) Q Failed
  unfolding or_throw
  or_throw-After e h = Triple-bind (Triple-caught h) (replaced-After e)

  save-Saved : (v : Version) → Triple Unchanged (save_version o v) (λ _. Saved v) Failed
  unfolding save_version find_version
  save-Saved v = record {
    run = λ w h.
        elim (Bool-cases
          (o.db_fails w.tick || any (λ (u : Version). u.version == v.version) w.versions)) [
            | inl e ↦ rw e h
            | inr e ↦ rw e (h, ground (arith, eq_iff v.version v.version))
          ];
  }

  mark-Saved : (v : Version) → Keeps (Saved v) (mark o chosen v.version)
  unfolding mark
  mark-Saved v = record {
    run = λ w h. elim (Result-cases (o.mark w.tick v.version)) [
      | inl (a, e) ↦ rw (e, mark) h
      | inr (x, e) ↦ rw (e, mark) h
    ];
  }

  -- The record of the candidate is the active one.
  abbrev Installed : Version → World → Type 0
  Installed v w = (a : Active) × (w.active ≡ some a) × (a.fingerprint ≡ v.fingerprint)

  activate-Installed :
      (v : Version) → Triple (Saved v) (activate_version o v.version) (λ _. Installed v) Failed
  unfolding activate_version
  activate-Installed v = record {
    run = λ w (h, s). elim (Bool-cases (o.db_fails w.tick)) [
      | inl f ↦ rw (s, f, activate_version) h
      | inr f ↦ rw (s, f, activate_version) (_, refl, refl)
    ];
  }

  candidate-Failed :
      {Q : Material → World → Type 0} (previous : Option Active) (version : String) (e : Error)
      → Triple Unchanged (fail_candidate o config {A = Material} previous version e) Q Failed
  unfolding fail_candidate
  candidate-Failed previous version e =
      Triple-bind (kept (restore-Keeps o config calm previous)) (λ _.
        Triple-bind (kept (Keeps-attempt Unchanged (steady.version_status version _))) (λ _.
          Triple-bind (kept (Keeps-attempt Unchanged (steady.status _)))
            (λ _. Triple-throw e (λ w h. h))))

  -- What Validate said of a material, at some time.
  abbrev Checked : Material → Option Info → Type 0
  Checked material info = (time : ℕ) × (o.validate time material ≡ info)

  pub Checked-IsOf :
      (fingerprint : String) (material : Material) (info : Option Info)
      → Checked material info
      → has_fingerprint fingerprint info ≡ true
      → IsOf o fingerprint material
  Checked-IsOf fingerprint material none c h = absurd (ground arith)
  Checked-IsOf fingerprint material (some info) (time, valid) h = record {
    time = time;
    info = info;
    valid = valid;
    same = ground (arith, eq_iff info.fingerprint fingerprint);
  }

  pub validate-Checked :
      (material : Material)
      → Triple Unchanged
          (ask_validate o material)
          (λ info w. Checked material info × Unchanged w)
          Failed
  unfolding ask_validate
  validate-Checked material = record { run = λ w h. ((o.now w.tick, refl), h) }

  module _ (material : Material) (info : Info) (checked : Checked material (some info))
      (version : String) (previous : Option Active) where
    abbrev candidate : Version
    candidate = record {
      version = version;
      fingerprint = info.fingerprint;
      expires_at = info.expires_at;
      status = pending;
    }

    abbrev Served : Material → World → Type 0
    Served m w = IsServed o m w

    after_record-Served :
        (r : Result Error (Unit {0}))
        → Triple
            (λ w. After (λ _. Installed candidate) Failed (r, w))
            (after_record o config previous version material r)
            Served
            Failed
    unfolding after_record
    after_record-Served (ok _) = Triple-return material (λ w (a, active, same). record {
      record_ = a;
      is_active = active;
      material_of = record { time = checked.0; info = info; valid = checked.1; same = sym same };
    })
    after_record-Served (err _) =
        Triple-bind (kept (undo_marker-Keeps o config steady previous))
          (λ _. candidate-Failed previous version persistence_failed)

    after_mark-Served :
        (r : Result Error (Unit {0}))
        → Triple (Saved candidate) (after_mark o config previous version material r) Served Failed
    unfolding after_mark
    after_mark-Served (err e) =
        Triple-weaken (candidate-Failed previous version e) (λ w (h, _). h) (λ _ w h. h)
          (λ _ w h. h)
    after_mark-Served (ok _) =
        Triple-bind (Triple-caught (activate-Installed candidate)) after_record-Served

    after_distribution-Served :
        (r : Result Error (Unit {0}))
        → Triple
            (Saved candidate)
            (after_distribution o config previous version material r)
            Served
            Failed
    unfolding after_distribution
    after_distribution-Served (err e) =
        Triple-weaken (candidate-Failed previous version e) (λ w (h, _). h) (λ _ w h. h)
          (λ _ w h. h)
    after_distribution-Served (ok _) =
        Triple-bind (Triple-attempt (Triple-Keeps (mark-Saved candidate))) after_mark-Served

  issued-Served :
      (previous : Option Active) (material : Material) (info : Option Info)
      → Checked material info
      → Triple Unchanged (issued_valid o config previous material info) (IsServed o) Failed
  unfolding issued_valid
  issued-Served previous material none c =
      Triple-bind (kept (Keeps-attempt Unchanged (steady.status _)))
        (λ _. Triple-throw _ (λ w h. h))
  issued-Served previous material (some info) c =
      Triple-bind (kept (ask_stage-Keeps o config calm material)) (λ version.
        Triple-bind (or_throw-After _ (save-Saved _)) (λ _.
          Triple-bind
            (Triple-attempt
              (Triple-Keeps (distribute-Keeps o config (calm-Saved _) version material)))
            (after_distribution-Served material info c version previous)))

  pub issue-Served :
      (previous : Option Active)
      → Triple Unchanged (issue_and_activate o config previous) (IsServed o) Failed
  unfolding issue_and_activate
  issue-Served previous =
      Triple-bind (kept (or_throw-Keeps _ (ask_issue-Keeps o config calm))) (λ material.
        Triple-bind (validate-Checked material)
          (λ info. record { run = λ w (c, h). (issued-Served previous material info c).run w h }))
