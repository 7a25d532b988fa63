-- ===== src/Config/Stability.antt =====
-- A device stays the one that its peers have paired with: `Load` of daemon/config/config.go.
use sharing.Base.{
  ◌≤◌, String, ◌≡◌, refl, Bool, true, false, none, some, str_eq, arith, inl, inr, ◌∙◌, Option-cases,
  ap, sym,
}
use sharing.Base.Time.{second}
use sharing.Config.{
  Config, complete, ConfigDisk, ConfigCall, find_dir, read_file, ConfigEnv, save, read_config,
  loaded, repair_id, override_name, repair_name, repair_created, repaired, keep_config, load,
}
use sharing.Config.Repair.{repaired-clean, loaded-clean, repaired-IsComplete, IsComplete}

save-file :
    (fails : ConfigCall → Bool) (cfg : Config) (d : ConfigDisk)
    → (save fails cfg d).1 ≡ none
    → (save fails cfg d).0.file ≡ some (complete cfg)
unfolding save
save-file fails cfg d h = ground arith

-- What is on disk once a configuration is kept.
keep_config-file :
    (env : ConfigEnv) (x : Config × Bool) (d : ConfigDisk) (cfg : Config)
    → (x.1 ≡ false → d.file ≡ some (complete x.0))
    → (keep_config env x d).1 ≡ some cfg
    → (x.0 ≡ cfg) × ((keep_config env x d).0.file ≡ some (complete cfg))
unfolding keep_config
keep_config-file env (c, false) d cfg clean h = (ground arith, clean refl ∙ ground arith)
keep_config-file env (c, true) d cfg clean h = elim (Option-cases (save env.fails c d).1) [
  | inl e ↦
      let same : c ≡ cfg = ground arith in
      (same, save-file env.fails c d e ∙ ap (λ q. some (complete q)) same)
  | inr (call, e) ↦ cc (rw (e, keep_config) at h)
]

module _ (env : ConfigEnv) (name : String) (d : ConfigDisk) (cfg : Config)
    (ok : (load env name d).1 ≡ some cfg) where
  kept : (load env name d) ≡ keep_config env (repaired env name d) d
  unfolding load
  kept = ground arith

  load-kept : ((repaired env name d).0 ≡ cfg) × ((load env name d).0.file ≡ some (complete cfg))
  load-kept =
      let clean : (repaired env name d).1 ≡ false
          → d.file ≡ some (complete (repaired env name d).0) =
        λ h.
          let e = repaired-clean env name d h in
          loaded-clean env name d (sym (ap (λ x. x.1) e) ∙ h)
          ∙ ap (λ x. some (complete x.0)) (sym e) in
      let result =
        keep_config-file env (repaired env name d) d cfg clean (sym (ap (λ r. r.1) kept) ∙ ok) in
      (result.0, ap (λ r. r.0.file) kept ∙ result.1)

loaded_complete :
    (env : ConfigEnv) (d : ConfigDisk) (cfg : Config)
    → d.file ≡ some (complete cfg)
    → env.fails read_file ≡ false
    → loaded env d ≡ (cfg, false)
unfolding loaded read_config
loaded_complete env d cfg e readable = ground arith

repaired_complete :
    (env : ConfigEnv) (d : ConfigDisk) (cfg : Config)
    → loaded env d ≡ (cfg, false)
    → IsComplete env.valid_uuid cfg
    → repaired env "" d ≡ (cfg, false)
unfolding repaired repair_id override_name repair_name repair_created
repaired_complete env d cfg e c =
    rw e (simp (c.identified, c.valid) (simp c.named (simp c.dated refl)))

-- A complete configuration is loaded as it is, and nothing is written.
load_complete :
    (env : ConfigEnv) (d : ConfigDisk) (cfg : Config)
    → d.file ≡ some (complete cfg)
    → IsComplete env.valid_uuid cfg
    → env.fails find_dir ≡ false
    → env.fails read_file ≡ false
    → load env "" d ≡ (d, some cfg)
unfolding load keep_config
load_complete env d cfg e c found readable =
    rw (found, repaired_complete env d cfg (loaded_complete env d cfg e readable) c)

-- Whatever is on disk, and whatever calls fail, a start that succeeds has an id that is a UUID, a
-- name and a time of creation; and every later start that can read the file, and asks for no other
-- name, has the same ones, and writes nothing. The UUID that is generated is supposed to be valid
-- and not empty, and the clock to stand at least a second past Go's zero time.
pub load-stable :
    (env later : ConfigEnv) (name : String) (d : ConfigDisk) (cfg : Config)
    → env.valid_uuid env.new_uuid ≡ true
    → str_eq env.new_uuid "" ≡ false
    → second ≤ env.now
    → (load env name d).1 ≡ some cfg
    → later.valid_uuid ≡ env.valid_uuid
    → later.fails find_dir ≡ false
    → later.fails read_file ≡ false
    → IsComplete env.valid_uuid cfg
      × (load later "" (load env name d).0 ≡ ((load env name d).0, some cfg))
load-stable env later name d cfg fresh not_empty late ok same found readable =
    let (e, file) = load-kept env name d cfg ok in
    let c : IsComplete env.valid_uuid cfg =
      rw (← e) (repaired-IsComplete env name d fresh not_empty late) in
    (c, load_complete later (load env name d).0 cfg file (rw same c) found readable)
