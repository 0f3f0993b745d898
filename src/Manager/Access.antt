-- ===== src/Manager/Access.antt =====
-- `Get`, `Set` and `List` behind the guard.
use go_flexconf.Manager
use go_flexconf.Manager.{Manager}
use go_flexconf.Driver.{VaultDriver}
use go_flexconf.Errors.{Error, err, wraps, locked, not_configured}
use go_flexconf.Text.{Text}
use go_flexconf.Base.{ap, arith, false, if◌then◌else◌, ◌≡◌}

abbrev pub not_ready : {D : Type 0} → Manager D → Error
not_ready m = if m.configured then wraps locked else wraps not_configured

module _ {C D : Type 0} (drv : VaultDriver C D) where
  guard-locked : (m : Manager D) → m.unlocked ≡ false → Manager.guard drv m ≡ err (not_ready m)
  unfolding Manager.guard
  guard-locked m l = ground arith

  -- A Manager that is not unlocked refuses every access, before it reads the address and without a
  -- call of the driver: with ErrNotConfigured before `Configure`, and with ErrLocked after.
  pub access_locked :
      (m : Manager D) (addr value ns : Text)
      → m.unlocked ≡ false
      → (Manager.get drv addr m ≡ (err (not_ready m), m))
        × (Manager.set drv addr value m ≡ (err (not_ready m), m))
        × (Manager.list drv ns m ≡ (err (not_ready m), m))
  unfolding Manager.get Manager.set Manager.list
  access_locked m addr value ns l =
      let g = guard-locked m l in
      (
        ap (λ r. Manager.get_guarded drv r addr m) g,
        ap (λ r. Manager.set_guarded drv r addr value m) g,
        ap (λ r. Manager.list_guarded drv r ns m) g,
      )
