-- ===== src/Vaults/WellKnown.antt =====
-- internal/vaultreg/registry.go: the path of the registry file that needs no setting. An empty path is
-- no file.
use go_flexconf.Vaults.{Paths}
use go_flexconf.Text.{Text, text}
use go_flexconf.Base.{Option, [], if◌then◌else◌, is_empty, none, some}

abbrev below : Paths → Text → Text
below os base = os.join (os.join base (text "flexconf")) (text "vaults.yaml")

abbrev below_home : Paths → Option Text → Text
below_home os none = []
below_home os (some home) = below os (os.join home (text ".config"))

-- WellKnownFile
unfoldable pub well_known_file : Paths → (Text → Text) → Text
well_known_file os getenv =
    let base = getenv (text "XDG_CONFIG_HOME") in
    if is_empty base then below_home os os.home else below os base
