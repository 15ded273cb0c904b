-- ===== src/Cli/Removal.antt =====
-- What an uninstall leaves, src/main.rs (`uninstall`).
use nobase_agent.Prelude.{
  String, ◌≡◌, refl, ◌∙◌, ap, true, false, ok, err, inl, inr, ◌⊎◌, arith, if◌then◌else◌, ◌==ₛ◌,
  ◌>>◌, Bool-cases, Option-cases, Result-cases,
}
use nobase_agent.Cli.{
  Installed, Outside, exists, service_path, config_dir, log_file, metrics_db, metrics_dir,
  old_uninstall, agent_binary, remove_path, remove_quietly, remove_service, remove_metrics,
  stop_service, reload, remove_leftovers, remove_rest, uninstall_agent,
}
use nobase_agent.Cli.Steps.{
  removed_gone, removed_shrinks, removed_other, Step, Shrinks, Keeps, Gone, Shrinks-then,
  Keeps-then, Gone-then, then-Gone,
}

module _ (outside : Outside) where
  remove_path-Shrinks : (path other : String) → Shrinks path (remove_path outside other)
  unfolding remove_path
  remove_path-Shrinks path other s h = elim (Bool-cases (exists other s.paths)) [
    | inr p ↦ rw (p, remove_path) h
    | inl p ↦ elim (Option-cases (outside.remove other)) [
      | inr (e, q) ↦ rw (p, remove_path, q) h
      | inl q ↦ rw (p, remove_path, q) (removed_shrinks path other s.paths h)
    ]
  ]

  remove_path-Keeps :
      (path other : String) → (other ==ₛ path) ≡ false → Keeps path (remove_path outside other)
  unfolding remove_path
  remove_path-Keeps path other d s = elim (Bool-cases (exists other s.paths)) [
    | inr p ↦ rw (p, remove_path) refl
    | inl p ↦ elim (Option-cases (outside.remove other)) [
      | inr (e, q) ↦ rw (p, remove_path, q) refl
      | inl q ↦ rw (p, remove_path, q) (removed_other path other s.paths d)
    ]
  ]

  remove_path-Gone : (path : String) → Gone path (remove_path outside path)
  unfolding remove_path
  remove_path-Gone path s h = elim (Bool-cases (exists path s.paths)) [
    | inr p ↦ rw (p, remove_path) p
    | inl p ↦ elim (Option-cases (outside.remove path)) [
      | inr (e, q) ↦ absurd (ground (arith, rw (p, remove_path, q) at h))
      | inl q ↦ rw (p, remove_path, q) (removed_gone path s.paths)
    ]
  ]

  guarded-Shrinks :
      (path guard : String) (m : Step)
      → Shrinks path m
      → Shrinks path (λ s. if exists guard s.paths then m s else (ok tt, s))
  guarded-Shrinks path guard m a s h = elim (Bool-cases (exists guard s.paths)) [
    | inl p ↦ rw p (a s h)
    | inr p ↦ rw p h
  ]

  guarded-Keeps :
      (path guard : String) (m : Step)
      → Keeps path m
      → Keeps path (λ s. if exists guard s.paths then m s else (ok tt, s))
  guarded-Keeps path guard m a s = elim (Bool-cases (exists guard s.paths)) [
    | inl p ↦ rw p (a s)
    | inr p ↦ rw p refl
  ]

  guarded-Gone :
      (path : String) (m : Step)
      → Gone path m
      → Gone path (λ s. if exists path s.paths then m s else (ok tt, s))
  guarded-Gone path m a s h = elim (Bool-cases (exists path s.paths)) [
    | inl p ↦ rw p (a s (rw p at h))
    | inr p ↦ rw p p
  ]

  remove_quietly-Shrinks : (path other : String) → Shrinks path (remove_quietly outside other)
  unfolding remove_quietly
  remove_quietly-Shrinks path other s h = remove_path-Shrinks path other s h

  remove_quietly-Keeps :
      (path other : String) → (other ==ₛ path) ≡ false → Keeps path (remove_quietly outside other)
  unfolding remove_quietly
  remove_quietly-Keeps path other d s = remove_path-Keeps path other d s

  remove_metrics-Shrinks : (path : String) → Shrinks path (remove_metrics outside)
  unfolding remove_metrics
  remove_metrics-Shrinks path =
      guarded-Shrinks path metrics_db
        (remove_quietly outside metrics_db >> remove_quietly outside metrics_dir)
        (Shrinks-then path (remove_quietly outside metrics_db) (remove_quietly outside metrics_dir)
          (remove_quietly-Shrinks path metrics_db) (remove_quietly-Shrinks path metrics_dir))

  leftovers-Shrinks : (path : String) → Shrinks path (remove_leftovers outside)
  leftovers-Shrinks path =
      Shrinks-then path (remove_quietly outside log_file)
        (remove_metrics outside >> remove_quietly outside old_uninstall)
        (remove_quietly-Shrinks path log_file)
        (Shrinks-then path (remove_metrics outside) (remove_quietly outside old_uninstall)
          (remove_metrics-Shrinks path) (remove_quietly-Shrinks path old_uninstall))

  remove_service-Gone : Gone service_path (remove_service outside)
  unfolding remove_service
  remove_service-Gone =
      guarded-Gone service_path (remove_path outside service_path >> reload outside) (
        Gone-then service_path (remove_path outside service_path) (reload outside)
          (remove_path-Gone service_path) (λ s h. h))

  leftovers-Keeps : Keeps agent_binary (remove_leftovers outside)
  unfolding remove_metrics
  leftovers-Keeps =
      Keeps-then agent_binary (remove_quietly outside log_file)
        (remove_metrics outside >> remove_quietly outside old_uninstall)
        (remove_quietly-Keeps agent_binary log_file refl)
        (Keeps-then agent_binary (remove_metrics outside) (remove_quietly outside old_uninstall)
          (guarded-Keeps agent_binary metrics_db
            (remove_quietly outside metrics_db >> remove_quietly outside metrics_dir)
            (Keeps-then agent_binary (remove_quietly outside metrics_db)
              (remove_quietly outside metrics_dir)
              (remove_quietly-Keeps agent_binary metrics_db refl)
              (remove_quietly-Keeps agent_binary metrics_dir refl)))
          (remove_quietly-Keeps agent_binary old_uninstall refl))

  remove_rest-Gone :
      (s : Installed)
      → (remove_rest outside s).0 ≡ ok tt
      → (exists service_path (remove_rest outside s).1.paths ≡ false)
        × (exists config_dir (remove_rest outside s).1.paths ≡ false)
  unfolding remove_rest
  remove_rest-Gone s h = (
    then-Gone service_path (stop_service outside)
        (remove_service outside >> (remove_path outside config_dir >> remove_leftovers outside))
        (Gone-then service_path (remove_service outside)
          (remove_path outside config_dir >> remove_leftovers outside) remove_service-Gone
          (Shrinks-then service_path (remove_path outside config_dir) (remove_leftovers outside)
            (remove_path-Shrinks service_path config_dir) (leftovers-Shrinks service_path)))
        s h,
    then-Gone config_dir (stop_service outside)
        (remove_service outside >> (remove_path outside config_dir >> remove_leftovers outside))
        (then-Gone config_dir (remove_service outside)
          (remove_path outside config_dir >> remove_leftovers outside)
          (Gone-then config_dir (remove_path outside config_dir) (remove_leftovers outside)
            (remove_path-Gone config_dir) (leftovers-Shrinks config_dir)))
        s h,
  )

  remove_rest-Keeps : Keeps agent_binary (remove_rest outside)
  unfolding remove_rest remove_service remove_metrics
  remove_rest-Keeps =
      Keeps-then agent_binary (stop_service outside)
        (remove_service outside >> (remove_path outside config_dir >> remove_leftovers outside))
        (λ s. refl)
        (Keeps-then agent_binary (remove_service outside)
          (remove_path outside config_dir >> remove_leftovers outside)
          (guarded-Keeps agent_binary service_path
            (remove_path outside service_path >> reload outside)
            (Keeps-then agent_binary (remove_path outside service_path) (reload outside)
              (remove_path-Keeps agent_binary service_path refl) (λ s. refl)))
          (Keeps-then agent_binary (remove_path outside config_dir) (remove_leftovers outside)
            (remove_path-Keeps agent_binary config_dir refl) leftovers-Keeps))

  remove_path-refused :
      (path : String) (s : Installed) (e : String)
      → (remove_path outside path s).0 ≡ err e
      → (remove_path outside path s).1 ≡ s
  unfolding remove_path
  remove_path-refused path s e h = elim (Bool-cases (exists path s.paths)) [
    | inr p ↦ rw (p, remove_path) refl
    | inl p ↦ elim (Option-cases (outside.remove path)) [
      | inr (f, q) ↦ rw (p, remove_path, q) refl
      | inl q ↦ absurd (ground (arith, rw (p, remove_path, q) at h))
    ]
  ]

  root_uninstall :
      outside.is_root ≡ true
      → (s : Installed)
      → uninstall_agent outside s ≡ (remove_rest outside >> remove_path outside agent_binary) s
  unfolding uninstall_agent
  root_uninstall root s = rw (root, uninstall_agent) refl

  -- An uninstall that is run by root either says that it is done, and has left no unit, no configuration
  -- and no binary, or fails, and has left the binary as it was, so that it can be run again.
  pub uninstall_agent_lem :
      (s : Installed)
      → outside.is_root ≡ true
      → (((uninstall_agent outside s).0 ≡ ok tt)
          × (exists service_path (uninstall_agent outside s).1.paths ≡ false)
          × (exists config_dir (uninstall_agent outside s).1.paths ≡ false)
          × (exists agent_binary (uninstall_agent outside s).1.paths ≡ false))
        ⊎ ((e : String) × ((uninstall_agent outside s).0 ≡ err e)
            × (exists agent_binary (uninstall_agent outside s).1.paths
                ≡ exists agent_binary s.paths))
  uninstall_agent_lem s root =
      let u = (remove_rest outside s).1 in
      rw (root_uninstall root s) (elim (Result-cases (remove_rest outside s).0) [
        | inr (e, p) ↦ rw p (inr (e, refl, remove_rest-Keeps s))
        | inl (tt, p) ↦
            let (a, b) = remove_rest-Gone s p in
            rw p (elim (Result-cases (remove_path outside agent_binary u).0) [
              | inl (tt, q) ↦ inl (
                q,
                remove_path-Shrinks service_path agent_binary u a,
                remove_path-Shrinks config_dir agent_binary u b,
                remove_path-Gone agent_binary u q,
              )
              | inr (e, q) ↦ inr (
                e,
                q,
                ap (λ x. exists agent_binary x.paths) (remove_path-refused agent_binary u e q)
                    ∙ remove_rest-Keeps s,
              )
            ])
      ])
