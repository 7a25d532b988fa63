-- ===== src/Config/Repair.antt =====
-- What `Load` of daemon/config/config.go repairs in the configuration that it reads.
use sharing.Base.{
  ◌≤◌, String, ◌≡◌, refl, Bool, true, false, not, ◌&&◌, ◌||◌, Option, none, some, ◌==◌, str_eq,
  arith, if◌then◌else◌, Bool-cases, inl, inr, ◌∙◌,
}
use sharing.Base.Time.{second}
use sharing.Config.{
  Config, complete, ConfigDisk, ConfigEnv, read_config, default_name, loaded, repair_id,
  override_name, repair_name, repair_created, repaired,
}

-- A configuration that needs no repair.
pub record IsComplete (valid_uuid : String → Bool) (cfg : Config) : Type 0 where
  pub identified : str_eq cfg.device_id "" ≡ false
  pub valid : valid_uuid cfg.device_id ≡ true
  pub named : str_eq cfg.name "" ≡ false
  pub dated : cfg.created_at == 0 ≡ false

-- A step of the repair that did not write anything down left the configuration as it was.
abbrev IsStep : Config × Bool → Config × Bool → Type 0
IsStep before after = after.1 ≡ false → after ≡ before

IsStep-if :
    (b : Bool) (cfg : Config) (before : Config × Bool)
    → IsStep before (if b then (cfg, true) else before)
IsStep-if true cfg before h = cc h
IsStep-if false cfg before h = refl

module _ (env : ConfigEnv) (name : String) where
  repair_id-IsStep : (x : Config × Bool) → IsStep x (repair_id env x)
  unfolding repair_id
  repair_id-IsStep (cfg, dirty) =
      IsStep-if (str_eq cfg.device_id "" || not (env.valid_uuid cfg.device_id)) _ (cfg, dirty)

  override_name-IsStep : (x : Config × Bool) → IsStep x (override_name name x)
  unfolding override_name
  override_name-IsStep (cfg, dirty) =
      IsStep-if (not (str_eq name "") && not (str_eq name cfg.name)) _ (cfg, dirty)

  repair_name-IsStep : (x : Config × Bool) → IsStep x (repair_name env x)
  unfolding repair_name
  repair_name-IsStep (cfg, dirty) = IsStep-if (str_eq cfg.name "") _ (cfg, dirty)

  repair_created-IsStep : (x : Config × Bool) → IsStep x (repair_created env x)
  unfolding repair_created
  repair_created-IsStep (cfg, dirty) = IsStep-if (cfg.created_at == 0) _ (cfg, dirty)

  -- Nothing is to be written only if nothing was repaired.
  pub repaired-clean :
      (d : ConfigDisk) → (repaired env name d).1 ≡ false → repaired env name d ≡ loaded env d
  unfolding repaired
  repaired-clean d h =
      let x = loaded env d in
      let x₁ = repair_id env x in
      let x₂ = override_name name x₁ in
      let x₃ = repair_name env x₂ in
      let e₃ = repair_created-IsStep x₃ h in
      let e₂ = repair_name-IsStep x₂ (cc (h, e₃)) in
      let e₁ = override_name-IsStep x₁ (cc (h, e₃, e₂)) in
      let e₀ = repair_id-IsStep x (cc (h, e₃, e₂, e₁)) in e₃ ∙ e₂ ∙ e₁ ∙ e₀

  pub loaded-clean :
      (d : ConfigDisk) → (loaded env d).1 ≡ false → d.file ≡ some (complete (loaded env d).0)
  unfolding loaded read_config
  loaded-clean d h = ground arith

default_name-named : (host : Option String) → str_eq (default_name host) "" ≡ false
unfolding default_name
default_name-named none = refl
default_name-named (some host) = elim (Bool-cases (str_eq host "")) [
  | inl e ↦ rw e
  | inr e ↦ rw e e
]

-- What holds of both branches of a step.
step-keeps :
    (Q : Config → Type 0) (b : Bool) (cfg : Config) (x : Config × Bool)
    → (b ≡ true → Q cfg)
    → (b ≡ false → Q x.0)
    → Q (if b then (cfg, true) else x).0
step-keeps Q true cfg x h k = h refl
step-keeps Q false cfg x h k = k refl

module _ (env : ConfigEnv) (name : String) where
  abbrev Identified : Config → Type 0
  Identified cfg = (str_eq cfg.device_id "" ≡ false) × (env.valid_uuid cfg.device_id ≡ true)

  abbrev Named : Config → Type 0
  Named cfg = Identified cfg × (str_eq cfg.name "" ≡ false)

  repair_id-Identified :
      Identified (record { device_id = env.new_uuid; name = ""; created_at = 0 })
      → (x : Config × Bool) → Identified (repair_id env x).0
  unfolding repair_id
  repair_id-Identified fresh (cfg, dirty) =
      step-keeps Identified (str_eq cfg.device_id "" || not (env.valid_uuid cfg.device_id)) _
        (cfg, dirty) (λ b. fresh) (λ b. (ground arith, ground arith))

  override_name-Identified :
      (x : Config × Bool) → Identified x.0 → Identified (override_name name x).0
  unfolding override_name
  override_name-Identified (cfg, dirty) h =
      step-keeps Identified (not (str_eq name "") && not (str_eq name cfg.name)) _ (cfg, dirty)
        (λ b. h) (λ b. h)

  repair_name-Named : (x : Config × Bool) → Identified x.0 → Named (repair_name env x).0
  unfolding repair_name
  repair_name-Named (cfg, dirty) h =
      step-keeps Named (str_eq cfg.name "") _ (cfg, dirty)
        (λ b. (h, default_name-named env.hostname)) (λ b. (h, b))

  repair_created-IsComplete :
      (x : Config × Bool)
      → Named x.0
      → second ≤ env.now
      → IsComplete env.valid_uuid (repair_created env x).0
  unfolding repair_created
  repair_created-IsComplete (cfg, dirty) h late =
      step-keeps (IsComplete env.valid_uuid) (cfg.created_at == 0) _ (cfg, dirty)
        (λ b. record { identified = h.0.0; valid = h.0.1; named = h.1; dated = ground arith })
        (λ b. record { identified = h.0.0; valid = h.0.1; named = h.1; dated = b })

  pub repaired-IsComplete :
      (d : ConfigDisk)
      → env.valid_uuid env.new_uuid ≡ true
      → str_eq env.new_uuid "" ≡ false
      → second ≤ env.now
      → IsComplete env.valid_uuid (repaired env name d).0
  unfolding repaired
  repaired-IsComplete d fresh not_empty late =
      let x₁ = repair_id env (loaded env d) in
      let x₂ = override_name name x₁ in
      repair_created-IsComplete (repair_name env x₂)
        (repair_name-Named x₂
          (override_name-Identified x₁ (repair_id-Identified (not_empty, fresh) (loaded env d))))
        late
