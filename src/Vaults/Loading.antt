-- ===== src/Vaults/Loading.antt =====
-- What is true of every definition that a load leaves.
use go_flexconf.Vaults.{
  Yaml, VaultConf, Registry, RegistryFile, Paths, Contents, missing, unreadable, malformed, parsed,
  merge_file, merge_vaults, overriding, read_conf, read_keys, read_key, normalize_paths,
  normalized_at, load, load_files, load_file, with_driver, empty_conf, empty_registry, file_list,
  check_static, string_value, map_value, foreign_map, seq_value, other, driver_key,
}
use go_flexconf.Vaults.Static.{IsStatic, check_static-IsStatic, both-ok}
use go_flexconf.Dict.{Dict, lookup, insert, keys}
use go_flexconf.Dict.Laws.{insert-All, lookup-All}
use go_flexconf.Errors.{>>=-eq-ok, err_ne_ok, ok, ok_injective}
use go_flexconf.Base.{
  All, Bool, Bool-cases, List, Option, [], false, inl, inr, is_empty, none, refl, some, subst, true,
  ◌∷◌, ◌≡◌, ◌⊎◌,
}
use go_flexconf.Text.{Text, text, text_eq}

-- A driver is named, and every setting but the path, which is completed with directories, is
-- static.
abbrev pub Setting : Text × Yaml → Type 0
Setting (key, value) = (text_eq key (text "path") ≡ true) ⊎ IsStatic value

abbrev pub IsDefinition : VaultConf → Type 0
IsDefinition conf = (is_empty conf.driver ≡ false) × All Setting conf.config

abbrev Entry : Text × VaultConf → Type 0
Entry (name, conf) = IsDefinition conf

driver_key-Setting :
    (value : Yaml) (conf : VaultConf) {next : VaultConf}
    → driver_key value conf ≡ ok next
    → All Setting conf.config
    → All Setting next.config
driver_key-Setting (string_value s) conf h a =
    subst (λ (c : VaultConf). All Setting c.config) (ok_injective h) a
driver_key-Setting (map_value m) conf h a = absurd (err_ne_ok h)
driver_key-Setting (seq_value s) conf h a = absurd (err_ne_ok h)
driver_key-Setting (foreign_map m) conf h a = absurd (err_ne_ok h)
driver_key-Setting other conf h a = absurd (err_ne_ok h)

read_key-Setting :
    (key : Text) (value : Yaml) (conf : VaultConf) {next : VaultConf}
    → IsStatic value
    → read_key key value conf ≡ ok next
    → All Setting conf.config
    → All Setting next.config
read_key-Setting key value conf {next} static h a =
    elim (Bool-cases (text_eq key (text "driver"))) [
      | inl driver ↦ driver_key-Setting value conf (rw driver at h) a
      | inr setting ↦
          let added : ok (record conf { config = insert key value conf.config }) ≡ ok next =
            rw setting at h in
          subst (λ (c : VaultConf). All Setting c.config) (ok_injective added)
            (insert-All Setting key value conf.config (inr static) a)
    ]

read_keys-Setting :
    (raw : Dict Yaml) (conf : VaultConf) {next : VaultConf}
    → read_keys raw conf ≡ ok next
    → All Setting conf.config
    → All Setting next.config
unfolding read_keys
read_keys-Setting [] conf h a = subst (λ (c : VaultConf). All Setting c.config) (ok_injective h) a
read_keys-Setting ((key, value) ∷ raw) conf h a =
    let (static, rest) = both-ok (check_static value) h in
    let (next, read, after) = >>=-eq-ok (read_key key value conf) _ rest in
    read_keys-Setting raw next after
      (read_key-Setting key value conf (check_static-IsStatic value static) read a)

normalized_at-IsDefinition :
    (os : Paths) (path : Text) (conf : VaultConf) (raw : Option Yaml)
    → IsDefinition conf
    → IsDefinition (normalized_at os path conf raw)
unfolding text_eq
normalized_at-IsDefinition os path conf (some (string_value raw)) h =
    elim (Bool-cases (is_empty raw)) [
      | inl empty ↦ rw empty h
      | inr there ↦ rw there (h.0, insert-All Setting (text "path") _ conf.config (inl refl) h.1)
    ]
normalized_at-IsDefinition os path conf (some (map_value m)) h = h
normalized_at-IsDefinition os path conf (some (foreign_map m)) h = h
normalized_at-IsDefinition os path conf (some (seq_value s)) h = h
normalized_at-IsDefinition os path conf (some other) h = h
normalized_at-IsDefinition os path conf none h = h

with_driver-ok :
    (read : VaultConf) {conf : VaultConf}
    → with_driver read ≡ ok conf
    → (is_empty read.driver ≡ false) × (read ≡ conf)
with_driver-ok read {conf} h = elim (Bool-cases (is_empty read.driver)) [
  | inl empty ↦ absurd (err_ne_ok (simp empty at h))
  | inr there ↦ (there, ok_injective (simp there at h))
]

read_conf-IsDefinition :
    (os : Paths) (path : Text) (raw : Dict Yaml) {conf : VaultConf}
    → read_conf os path raw ≡ ok conf
    → IsDefinition conf
unfolding read_conf normalize_paths
read_conf-IsDefinition os path raw h =
    let (read, keys, rest) = >>=-eq-ok (read_keys raw (empty_conf path)) _ h in
    let (checked, driven, last) = >>=-eq-ok (with_driver read) _ rest in
    let (there, same) = with_driver-ok read driven in
    subst IsDefinition (ok_injective last) (
      normalized_at-IsDefinition os path checked _
        (subst IsDefinition same (there, read_keys-Setting raw (empty_conf path) keys tt)))

overriding-IsDefinition :
    (old : Option VaultConf) (conf : VaultConf)
    → IsDefinition conf
    → IsDefinition (overriding old conf)
overriding-IsDefinition none conf h = h
overriding-IsDefinition (some prev) conf h = h

merge_vaults-Entry :
    (os : Paths) (path : Text) (defs : Dict (Dict Yaml)) (vaults : Dict VaultConf)
    {out : Dict VaultConf}
    → merge_vaults os path defs vaults ≡ ok out
    → All Entry vaults
    → All Entry out
unfolding merge_vaults
merge_vaults-Entry os path [] vaults h a = subst (All Entry) (ok_injective h) a
merge_vaults-Entry os path ((name, raw) ∷ defs) vaults h a =
    let (conf, read, rest) = >>=-eq-ok (read_conf os path raw) _ h in
    merge_vaults-Entry os path defs _ rest (
      insert-All Entry name _ vaults
        (overriding-IsDefinition (lookup name vaults) conf
          (read_conf-IsDefinition os path raw read))
        a)

merge_file-Entry :
    (os : Paths) (path : Text) (rf : RegistryFile) (reg : Registry) {out : Registry}
    → merge_file os path rf reg ≡ ok out
    → All Entry reg.vaults
    → All Entry out.vaults
unfolding merge_file
merge_file-Entry os path rf reg h a =
    let (vaults, merged, last) = >>=-eq-ok (merge_vaults os path rf.vaults reg.vaults) _ h in
    subst (λ (r : Registry). All Entry r.vaults) (ok_injective last)
      (merge_vaults-Entry os path rf.vaults reg.vaults merged a)

load_file-Entry :
    (os : Paths) (path : Text) (from_env : Bool) (c : Contents) (reg : Registry) {out : Registry}
    → load_file os path from_env c reg ≡ ok out
    → All Entry reg.vaults
    → All Entry out.vaults
load_file-Entry os path from_env missing reg h a =
    subst (λ (r : Registry). All Entry r.vaults) (ok_injective h) a
load_file-Entry os path from_env unreadable reg h a = absurd (err_ne_ok h)
load_file-Entry os path from_env malformed reg h a = absurd (err_ne_ok h)
load_file-Entry os path from_env (parsed rf) reg h a = merge_file-Entry os path rf _ h a

load_files-Entry :
    (os : Paths) (contents : Text → Contents) (from_env : Bool) (paths : List Text) (reg : Registry)
    {out : Registry}
    → load_files os contents from_env paths reg ≡ ok out
    → All Entry reg.vaults
    → All Entry out.vaults
unfolding load_files
load_files-Entry os contents from_env [] reg h a =
    subst (λ (r : Registry). All Entry r.vaults) (ok_injective h) a
load_files-Entry os contents from_env (path ∷ paths) reg h a =
    let (next, read, rest) = >>=-eq-ok (load_file os path from_env (contents path) reg) _ h in
    load_files-Entry os contents from_env paths next rest
      (load_file-Entry os path from_env (contents path) reg read a)

-- Whatever the registry files hold and however often a name is defined again: a definition that a
-- load ends with names a driver, and no string in its settings, except in its path and in maps that
-- have a key that is no string, has the beginning of a token in it.
pub load-IsDefinition :
    (os : Paths) (contents : Text → Contents) (env : Option (List Text)) (well_known name : Text)
    {reg : Registry} {conf : VaultConf}
    → load os contents env well_known ≡ ok reg
    → lookup name reg.vaults ≡ some conf
    → (is_empty conf.driver ≡ false) × All Setting conf.config
unfolding load
load-IsDefinition os contents env well_known name {reg} h found =
    lookup-All Entry name reg.vaults
      (load_files-Entry os contents (file_list env well_known).1 (file_list env well_known).0
        empty_registry h tt)
      found
