-- ===== src/Command/Listing/Sound.antt =====
-- When the listing of a registry has nothing to remark.
use go_flexconf.Command.Listing.{
  Format, Note, Dump, dump_files, dump_default, dump_vaults, joined, vault_notes, file_notes,
  conf_of, driver_registered, absent_default, unregistered, dump_all, dump_registry, vaults_cmd,
  Shell, empty_registry, member, listed,
}
use go_flexconf.Vaults.{FileStatus, Registry, VaultConf}
use go_flexconf.Text.Sorting.{member}
use go_flexconf.Vaults.{names}
use go_flexconf.Driver.Registered.{driver_names}
use go_flexconf.Dict.{Dict, lookup, has_key, keys}
use go_flexconf.Base.{
  All, List, [], refl, some, suc, true, ℕ, ◌++◌, ◌↔◌, ◌∷◌, ◌≡◌, ◌≢◌, Bool-cases, Option-cases,
  arith, false, inl, inr, is_empty, sym, ◌∙◌, subst,
}
use go_flexconf.Text.{Text, text, text_eq}
use go_flexconf.Vaults.Names.{member-keys, names_lem}
use go_flexconf.Text.Sorting.{member-sort_strings}
use go_flexconf.Errors.{ok, err_ne_ok}
use go_flexconf.Text.Laws.{text_eq_iff, text_eq_refl}
use go_flexconf.Dict.Laws.{has_key-lookup, lookup-has_key}

-- A file that the environment names is there.
abbrev pub Present : FileStatus → Type 0
Present file = file.from_env ≡ true → file.exists ≡ true

-- The driver that a defined vault names is registered.
abbrev HasDriver : {D : Type 0} → Dict D → Dict VaultConf → Text → Type 0
HasDriver drivers vaults name = has_key (conf_of (lookup name vaults)).driver drivers ≡ true

-- What the command checks.
pub record Valid {D : Type 0} (drivers : Dict D) (reg : Registry) : Type 0 where
  pub files : All Present reg.files
  pub default_defined :
      reg.default_vault ≢ []
      → (conf : VaultConf) × (lookup reg.default_vault reg.vaults ≡ some conf)
  pub some_vault : reg.vaults ≢ []
  pub with_drivers :
      (name : Text) (conf : VaultConf)
      → lookup name reg.vaults ≡ some conf
      → has_key conf.driver drivers ≡ true

nil_parts : {A : Type 0} (xs ys : List A) → xs ++ ys ≡ [] → (xs ≡ []) × (ys ≡ [])
nil_parts [] ys h = (refl, h)
nil_parts (x ∷ xs) ys h = cc

abbrev notes_of : Dump → List Note
notes_of d = d.1

joined-notes : (d e : Dump) → (joined d e).1 ≡ d.1 ++ e.1
joined-notes (a, b) (c, d) = refl

file_notes-Present : (file : FileStatus) → (file_notes file ≡ []) ↔ Present file
file_notes-Present file = (λ h. ground arith, λ h. ground (arith, h))

dump_files-Present :
    (f : Format) (i : ℕ) (files : List FileStatus)
    → ((dump_files f i files).1 ≡ []) ↔ All Present files
unfolding dump_files
dump_files-Present f i [] = (λ h. tt, λ h. refl)
dump_files-Present f i (file ∷ files) =
    let (here, back) = file_notes-Present file in
    let (there, conversely) = dump_files-Present f (suc i) files in
    (
      λ h.
          let (a, b) = nil_parts (file_notes file) (dump_files f (suc i) files).1 h in
          (here a, there b),
      λ h. rw (back h.0, conversely h.1) refl,
    )

is_empty_nil : {A : Type 0} (s : List A) → is_empty s ≡ true → s ≡ []
is_empty_nil [] h = refl
is_empty_nil (c ∷ s) h = cc

ne_nil_of : {A : Type 0} (s : List A) → is_empty s ≡ false → s ≢ []
ne_nil_of [] h e = cc
ne_nil_of (c ∷ s) h e = cc

default-Defined :
    (reg : Registry)
    → ((dump_default reg).1 ≡ []) ↔ (
        reg.default_vault ≢ []
        → (conf : VaultConf) × (lookup reg.default_vault reg.vaults ≡ some conf))
unfolding dump_default
default-Defined reg = elim (Bool-cases (is_empty reg.default_vault)) [
  | inl none_set ↦
      (λ h n. absurd (n (is_empty_nil reg.default_vault none_set)), λ h. rw none_set refl)
  | inr named ↦ elim (Option-cases (lookup reg.default_vault reg.vaults)) [
    | inl absent ↦ (
      λ h. let e : absent_default reg.default_vault ∷ [] ≡ [] = rw (named, absent) at h in cc,
      λ h. let (conf, e) = h (ne_nil_of reg.default_vault named) in cc,
    )
    | inr (conf, e) ↦ (λ h n. (conf, e), λ h. rw (named, e) refl)
  ]
]

driver_registered_iff :
    {D : Type 0} (drivers : Dict D) (name : Text)
    → driver_registered drivers name ≡ has_key name drivers
unfolding driver_registered driver_names
driver_registered_iff drivers name =
    member-sort_strings name (keys drivers) ∙ member-keys name drivers

noteless :
    {D : Type 0} (drivers : Dict D) (name : Text) (conf : VaultConf)
    → vault_notes drivers name conf ≡ []
    → has_key conf.driver drivers ≡ true
noteless drivers name conf h = elim (Bool-cases (driver_registered drivers conf.driver)) [
  | inl there ↦ sym (driver_registered_iff drivers conf.driver) ∙ there
  | inr absent ↦ let e : unregistered name conf.driver ∷ [] ≡ [] = rw absent at h in cc
]

dump_vaults-HasDriver :
    {D : Type 0} (f : Format) (drivers : Dict D) (vaults : Dict VaultConf) (ns : List Text)
    → ((dump_vaults f drivers vaults ns).1 ≡ []) ↔ All (HasDriver drivers vaults) ns
unfolding dump_vaults
dump_vaults-HasDriver f drivers vaults [] = (λ h. tt, λ h. refl)
dump_vaults-HasDriver f drivers vaults (name ∷ ns) =
    let (there, conversely) = dump_vaults-HasDriver f drivers vaults ns in
    let conf = conf_of (lookup name vaults) in
    let same = driver_registered_iff drivers conf.driver in
    (
      λ h.
          let (a, b) =
            nil_parts (vault_notes drivers name conf) (dump_vaults f drivers vaults ns).1 h in
          (noteless drivers name conf a, there b),
      λ h. rw (same ∙ h.0, conversely h.1) refl,
    )

member-All : (P : Text → Type 0) (l : List Text) (n : Text) → All P l → member n l ≡ true → P n
unfolding member
member-All P [] n h m = cc
member-All P (s ∷ l) n h m = elim (Bool-cases (text_eq s n)) [
  | inl same ↦ subst P ((text_eq_iff s n).0 same) h.0
  | inr other ↦ member-All P l n h.1 (rw other at m)
]

All-member : (P : Text → Type 0) (l : List Text) → ((n : Text) → member n l ≡ true → P n) → All P l
unfolding member
All-member P [] h = tt
All-member P (s ∷ l) h = (
  h s (rw (text_eq_refl s) refl),
  All-member P l λ n m. h n (elim (Bool-cases (text_eq s n)) [
    | inl same ↦ rw same refl
    | inr other ↦ rw (other, m) refl
  ]),
)

-- Every definition names a registered driver.
abbrev AllDrivers : {D : Type 0} → Dict D → Registry → Type 0
AllDrivers drivers reg =
    (name : Text) (conf : VaultConf)
    → lookup name reg.vaults ≡ some conf
    → has_key conf.driver drivers ≡ true

names-AllDrivers :
    {D : Type 0} (drivers : Dict D) (reg : Registry)
    → All (HasDriver drivers reg.vaults) (names reg) ↔ AllDrivers drivers reg
names-AllDrivers drivers reg = (
  λ h name conf e.
      let listed = (names_lem reg name).1 ∙ lookup-has_key name reg.vaults e in
      let there = member-All (HasDriver drivers reg.vaults) (names reg) name h listed in
      (rw e at there),
  λ h. All-member (HasDriver drivers reg.vaults) (names reg) λ n m.
      let (conf, e) = has_key-lookup n reg.vaults (sym (names_lem reg n).1 ∙ m) in
      rw e (h n conf e),
)

dump_all-AllDrivers :
    {D : Type 0} (f : Format) (drivers : Dict D) (reg : Registry)
    → ((dump_all f drivers reg).1 ≡ []) ↔ ((reg.vaults ≢ []) × AllDrivers drivers reg)
dump_all-AllDrivers f drivers reg = elim (Bool-cases (is_empty reg.vaults)) [
  | inl empty ↦ (
    λ h. let e : empty_registry ∷ [] ≡ [] = rw empty at h in cc,
    λ h. absurd (h.0 (is_empty_nil reg.vaults empty)),
  )
  | inr filled ↦
      let (there, conversely) = dump_vaults-HasDriver f drivers reg.vaults (names reg) in
      let (all, each) = names-AllDrivers drivers reg in
      (
        λ h. (ne_nil_of reg.vaults filled, all (there (rw filled at h))),
        λ h. rw filled (conversely (each h.1)),
      )
]

-- The listing of a registry has no note exactly when the registry is valid.
dump_registry-Valid :
    {D : Type 0} (f : Format) (drivers : Dict D) (reg : Registry)
    → ((dump_registry f drivers reg).1 ≡ []) ↔ Valid drivers reg
unfolding dump_registry
dump_registry-Valid f drivers reg =
    let (files, files_back) = dump_files-Present f 1 reg.files in
    let (def, def_back) = default-Defined reg in
    let (all, all_back) = dump_all-AllDrivers f drivers reg in
    (
      λ h.
          let (a, bc) = nil_parts (dump_files f 1 reg.files).1 _ h in
          let (b, c) = nil_parts (dump_default reg).1 (dump_all f drivers reg).1 bc in
          record {
            files = files a;
            default_defined = def b;
            some_vault = (all c).0;
            with_drivers = (all c).1;
          },
      λ v.
          rw
            (
              files_back v.files,
              def_back v.default_defined,
              all_back (v.some_vault, v.with_drivers),
            )
            refl,
    )

validated : {D W : Type 0} (d : Dump) (sh : Shell D W) → (listed true sh d).0 ≡ ok tt → d.1 ≡ []
validated (out, []) sh h = refl
validated (out, n ∷ notes) sh h = absurd (err_ne_ok h)

-- In a format that is not `yaml`, `vaults --validate` succeeds on a registry that was loaded exactly
-- when every file that the environment names is there, the default vault, if one is set, is defined,
-- some vault is defined, and every definition names a registered driver; without `--validate` the
-- command succeeds on every such registry.
pub vaults_cmd-Valid :
    {D W : Type 0} (f : Format) (drivers : Dict D) (format : Text) (reg : Registry) (sh : Shell D W)
    → text_eq format (text "yaml") ≡ false
    → (((vaults_cmd f drivers format true (ok reg) sh).0 ≡ ok tt) ↔ Valid drivers reg)
      × ((vaults_cmd f drivers format false (ok reg) sh).0 ≡ ok tt)
unfolding vaults_cmd
vaults_cmd-Valid f drivers format reg sh human =
    let (valid, back) = dump_registry-Valid f drivers reg in
    (
      (
        λ h. valid (validated (dump_registry f drivers reg) sh (rw human at h)),
        λ v. rw (human, back v) refl,
      ),
      rw human refl,
    )
