-- ===== src/Vaults/Ordering.antt =====
-- internal/vaultreg/registry.go: the order in which Go iterates the vaults of a registry file.
pub mod Merging
use mathlib.Core.List.{Permᴰ}
use mathlib.Core.List.Permᴰ
use go_flexconf.Vaults.{
  Yaml, Contents, missing, unreadable, malformed, parsed, load, load_file, load_files, consulted,
  empty_registry, VaultConf, Registry, RegistryFile, Paths, merge_file, merge_vaults, overriding,
  read_conf, with_default,
}
use go_flexconf.Vaults.Ordering.Merging.{
  AllRead, AllRead-Perm, merge_vaults-AllRead, AllRead-merge_vaults, merge_vaults-Perm,
}
use go_flexconf.Dict.{Dict, lookup}
use go_flexconf.Dict.Reordering.{Distinct, lookup-Perm, Distinct-Perm}
use go_flexconf.Errors.{Error, Result, >>=-eq-ok, ok, err, ok_injective, ◌>>=◌, err_ne_ok}
use go_flexconf.Base.{
  Bool, List, false, true, ◌++◌, Option, [], ap, none, refl, some, sym, ◌∷◌, ◌≡◌, subst, ◌∙◌,
}
use go_flexconf.Text.{Text}

-- The registries differ at most in the order of their definitions.
pub record SameRegistry (r r' : Registry) : Type 0 where
  pub same_default : r.default_vault ≡ r'.default_vault
  pub same_source : r.default_source ≡ r'.default_source
  pub same_files : r.files ≡ r'.files
  pub same_vaults : (n : Text) → lookup n r.vaults ≡ lookup n r'.vaults

-- Both fail, or both give the same registry.
pub data SameOutcome : Result Registry → Result Registry → Type 0 where
  both_fail : {e e' : Error} → SameOutcome (err e) (err e')
  both_give : {reg reg' : Registry} → SameRegistry reg reg' → SameOutcome (ok reg) (ok reg')

-- What a file comes to, in two orders of its vaults.
pub data SameContents : Contents → Contents → Type 0 where
  both_missing : SameContents missing missing
  both_unreadable : SameContents unreadable unreadable
  both_malformed : SameContents malformed malformed
  both_parsed :
      {rf rf' : RegistryFile}
      → rf.default_vault ≡ rf'.default_vault
      → Distinct rf.vaults
      → Permᴰ rf.vaults rf'.vaults
      → SameContents (parsed rf) (parsed rf')

then_same :
    {r r' : Result Registry} (next next' : Registry → Result Registry)
    → SameOutcome r r'
    → ((reg reg' : Registry) → SameRegistry reg reg' → SameOutcome (next reg) (next' reg'))
    → SameOutcome (r >>= next) (r' >>= next')
then_same next next' (both_give {reg} {reg'} same) h = h reg reg' same
then_same next next' both_fail h = both_fail

module _ (os : Paths) (path : Text) where
  abbrev finished : RegistryFile → Registry → Result (Dict VaultConf) → Result Registry
  finished rf reg r = r >>= λ vaults. ok (record (with_default rf path reg) { vaults = vaults })

  -- `with_default` by the default vault of the file
  abbrev defaulted : Text → Registry → Dict VaultConf → Registry
  defaulted default_vault reg out =
      record (with_default (record { default_vault = default_vault; vaults = [] }) path reg) {
        vaults = out;
      }

  defaulted-SameRegistry :
      (default_vault : Text) (reg reg' : Registry) (out out' : Dict VaultConf)
      → SameRegistry reg reg'
      → ((n : Text) → lookup n out ≡ lookup n out')
      → SameRegistry (defaulted default_vault reg out) (defaulted default_vault reg' out')
  defaulted-SameRegistry [] reg reg' out out' regs outs = record {
    same_default = regs.same_default;
    same_source = regs.same_source;
    same_files = regs.same_files;
    same_vaults = outs;
  }
  defaulted-SameRegistry (c ∷ s) reg reg' out out' regs outs = record {
    same_default = refl;
    same_source = refl;
    same_files = regs.same_files;
    same_vaults = outs;
  }

  with_default-SameRegistry :
      (rf rf' : RegistryFile) (reg reg' : Registry) (out out' : Dict VaultConf)
      → rf.default_vault ≡ rf'.default_vault
      → SameRegistry reg reg'
      → ((n : Text) → lookup n out ≡ lookup n out')
      → SameRegistry
          (record (with_default rf path reg) { vaults = out })
          (record (with_default rf' path reg') { vaults = out' })
  with_default-SameRegistry rf rf' reg reg' out out' same regs outs =
      subst (λ d. SameRegistry (defaulted rf.default_vault reg out) (defaulted d reg' out')) same
        (defaulted-SameRegistry rf.default_vault reg reg' out out' regs outs)

  SameOutcome-finished :
      (rf rf' : RegistryFile) (reg reg' : Registry) (r r' : Result (Dict VaultConf))
      → SameContents (parsed rf) (parsed rf')
      → SameRegistry reg reg'
      → merge_vaults os path rf.vaults reg.vaults ≡ r
      → merge_vaults os path rf'.vaults reg'.vaults ≡ r'
      → SameOutcome (finished rf reg r) (finished rf' reg' r')
  SameOutcome-finished rf rf' reg reg' (ok out) (ok out') (both_parsed same d p) regs h h' =
      let same_at = λ (n : Text).
        merge_vaults-Perm os path reg.vaults reg'.vaults n d p (regs.same_vaults n) h h' in
      both_give (with_default-SameRegistry rf rf' reg reg' out out' same regs same_at)
  SameOutcome-finished rf rf' reg reg' (err e) (err e') files regs h h' = both_fail
  SameOutcome-finished rf rf' reg reg' (ok out) (err e) (both_parsed same d p) regs h h' =
      let read = AllRead-Perm os path p (merge_vaults-AllRead os path rf.vaults reg.vaults h) in
      let (out', merged) = AllRead-merge_vaults os path rf'.vaults reg'.vaults read in
      absurd (err_ne_ok (sym h' ∙ merged))
  SameOutcome-finished rf rf' reg reg' (err e) (ok out') (both_parsed same d p) regs h h' =
      let read =
        AllRead-Perm os path (Permᴰ.symm p)
          (merge_vaults-AllRead os path rf'.vaults reg'.vaults h') in
      let (out, merged) = AllRead-merge_vaults os path rf.vaults reg.vaults read in
      absurd (err_ne_ok (sym h ∙ merged))

  consulted-SameRegistry :
      (exists from_env : Bool) (reg reg' : Registry)
      → SameRegistry reg reg'
      → SameRegistry (consulted path exists from_env reg) (consulted path exists from_env reg')
  consulted-SameRegistry exists from_env reg reg' regs = record {
    same_default = regs.same_default;
    same_source = regs.same_source;
    same_files =
        ap
          (λ files.
            files
            ++ record { path = path; exists = exists; from_env = from_env; failed = false } ∷ [])
          regs.same_files;
    same_vaults = regs.same_vaults;
  }

  load_file-Same :
      (from_env : Bool) {c c' : Contents} (reg reg' : Registry)
      → SameContents c c'
      → SameRegistry reg reg'
      → SameOutcome (load_file os path from_env c reg) (load_file os path from_env c' reg')
  unfolding merge_file
  load_file-Same from_env reg reg' both_missing regs =
      both_give (consulted-SameRegistry false from_env reg reg' regs)
  load_file-Same from_env reg reg' both_unreadable regs = both_fail
  load_file-Same from_env reg reg' both_malformed regs = both_fail
  load_file-Same from_env reg reg' (both_parsed {rf} {rf'} same d p) regs =
      SameOutcome-finished rf rf' _ _ _ _ (both_parsed same d p)
        (consulted-SameRegistry true from_env reg reg' regs) refl refl

module _ (os : Paths) (contents contents' : Text → Contents)
    (same : (path : Text) → SameContents (contents path) (contents' path)) where
  load_files-Same :
      (from_env : Bool) (paths : List Text) (reg reg' : Registry)
      → SameRegistry reg reg'
      → SameOutcome
          (load_files os contents from_env paths reg)
          (load_files os contents' from_env paths reg')
  unfolding load_files
  load_files-Same from_env [] reg reg' regs = both_give regs
  load_files-Same from_env (path ∷ paths) reg reg' regs =
      then_same (λ r. load_files os contents from_env paths r)
        (λ r. load_files os contents' from_env paths r)
        (load_file-Same os path from_env reg reg' (same path) regs)
        (λ r r' h. load_files-Same from_env paths r r' h)

  -- In whichever of two orders Go iterates the vaults of each registry file, whose names are distinct,
  -- with the keys of a vault in one order: `Load` fails in both, or in both gives registries with the
  -- same default vault, set by the same file, the same files and the same definition of every name.
  pub load-Perm :
      (env : Option (List Text)) (well_known : Text)
      → SameOutcome (load os contents env well_known) (load os contents' env well_known)
  unfolding load
  load-Perm env well_known =
      load_files-Same _ _ empty_registry empty_registry record {
        same_default = refl;
        same_source = refl;
        same_files = refl;
        same_vaults = λ n. refl;
      }
