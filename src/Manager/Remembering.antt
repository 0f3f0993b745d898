-- ===== src/Manager/Remembering.antt =====
-- flexvault/manager.go: `Get` of a Manager after its `Set`.
use go_flexconf.Manager
use go_flexconf.Manager.{Manager, set_at, set_guarded}
use go_flexconf.Driver.{VaultDriver, Remembers}
use go_flexconf.Address.{parse_address, join_address}
use go_flexconf.Errors.{Result, ok, err, err_ne_ok}
use go_flexconf.Text.{Text}
use go_flexconf.Base.{refl, ◌≡◌}

module _ {C D : Type 0} (drv : VaultDriver C D) (law : Remembers drv) where
  set_at-remembers :
      (addr value : Text) (m : Manager D) (p : Result (Text × Text))
      → Manager.guard drv m ≡ ok tt
      → parse_address addr ≡ p
      → (Manager.set_at drv p value m).0 ≡ ok tt
      → (Manager.get drv addr (Manager.set_at drv p value m).1).0 ≡ ok value
  unfolding Manager.get Manager.guard
  set_at-remembers addr value m (err e) opened same h = absurd (err_ne_ok h)
  set_at-remembers addr value m (ok (ns, key)) opened same h =
      rw (opened, same) (law.get_set (join_address ns key) value m.driver h)

  set_guarded-remembers :
      (addr value : Text) (m : Manager D) (g : Result (Unit {0}))
      → Manager.guard drv m ≡ g
      → (Manager.set_guarded drv g addr value m).0 ≡ ok tt
      → (Manager.get drv addr (Manager.set_guarded drv g addr value m).1).0 ≡ ok value
  set_guarded-remembers addr value m (err e) opened h = absurd (err_ne_ok h)
  set_guarded-remembers addr value m (ok u) opened h =
      set_at-remembers addr value m (parse_address addr) opened refl h

  pub set-remembers :
      (addr value : Text) (m : Manager D)
      → (Manager.set drv addr value m).0 ≡ ok tt
      → (Manager.get drv addr (Manager.set drv addr value m).1).0 ≡ ok value
  unfolding Manager.set
  set-remembers addr value m h = set_guarded-remembers addr value m (Manager.guard drv m) refl h
