-- ===== src/Driver.antt =====
-- flexvault/driver.go: the interface of a vault driver, as operations on the driver's own state
-- `D` and on what the callback of `Configure` decodes, `C`. `initializer` is the
-- type assertion to `Initializer`.
pub mod Registered
use go_flexconf.Action.{Action}
use go_flexconf.Prompt.{Answers, PromptRequest}
use go_flexconf.Base.{Bool, List, Option, some, ◌≡◌}
use go_flexconf.Text.{Text}
use go_flexconf.Errors.{ok}

pub record Capabilities : Type 0 where
  pub writable : Bool
  pub creatable : Bool

pub record Initializer (D : Type 0) : Type 0 where
  pub init_credentials : D → List PromptRequest
  pub init : Answers → Action D (Unit {0})

pub record VaultDriver (C D : Type 0) : Type 0 where
  pub configure : C → Action D (Unit {0})
  pub credentials : D → List PromptRequest
  pub unlock : Answers → Action D (Unit {0})
  pub capabilities : D → Capabilities
  pub get : Text → Action D Text
  pub set : Text → Text → Action D (Unit {0})
  pub list : Text → Action D (List Text)
  pub lock : Action D (Unit {0})
  pub initializer : Option (Initializer D)

-- What the interface asks of a driver, for the states in which it is open: a successful `Unlock`
-- opens it, and the accesses, `Configure` and `Init` do not close it.
pub record Honours {C D : Type 0} (drv : VaultDriver C D) (IsOpen : D → Type 0) : Type 0 where
  pub unlock_opens : (a : Answers) (d : D) → (drv.unlock a d).0 ≡ ok tt → IsOpen (drv.unlock a d).1
  pub configure_keeps : (c : C) (d : D) → IsOpen d → IsOpen (drv.configure c d).1
  pub get_keeps : (addr : Text) (d : D) → IsOpen d → IsOpen (drv.get addr d).1
  pub set_keeps : (addr value : Text) (d : D) → IsOpen d → IsOpen (drv.set addr value d).1
  pub list_keeps : (ns : Text) (d : D) → IsOpen d → IsOpen (drv.list ns d).1
  pub init_keeps :
      (i : Initializer D) (a : Answers) (d : D)
      → drv.initializer ≡ some i
      → IsOpen d
      → IsOpen (i.init a d).1

-- What a driver that stores secrets promises: an address holds what was set.
pub record Remembers {C D : Type 0} (drv : VaultDriver C D) : Type 0 where
  pub get_set :
      (addr value : Text) (d : D)
      → (drv.set addr value d).0 ≡ ok tt
      → (drv.get addr (drv.set addr value d).1).0 ≡ ok value
