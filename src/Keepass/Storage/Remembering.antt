-- ===== src/Keepass/Storage/Remembering.antt =====
-- flexvault/driver/keepass/keepass.go: `Get` of an address after `Set`.
use go_flexconf.Keepass.Storage
use go_flexconf.Keepass.Storage.{keepass, set_in, set_at, save_groups}
use go_flexconf.Keepass
use go_flexconf.Keepass.{
  Driver, Library, Group, Database, root, get_secret, set_secret, KeepassConfig,
}
use go_flexconf.Keepass.Secrets.{Documented, get_secret-set_secret}
use go_flexconf.Driver.{Remembers}
use go_flexconf.Errors.{Result, ok, err, err_ne_ok}
use go_flexconf.Text.{Text}
use go_flexconf.Base.{Bool-cases, else_taken, List, inl, inr, refl, ◌≡◌}
use go_flexconf.Address.{parse_address}
use go_flexconf.Text.Laws.{text_eq_refl}

module _ {W : Type 0} (lib : Library W) (doc : Documented lib) where
  set_at-remembers :
      (addr value : Text) (d : Driver W) (groups : List Group) (p : Result (Text × Text))
      → parse_address addr ≡ p
      → (set_at lib d value groups p).0 ≡ ok tt
      → (Keepass.get lib addr (set_at lib d value groups p).1).0 ≡ ok value
  unfolding Keepass.get root
  set_at-remembers addr value d groups (err e) same h = absurd (err_ne_ok h)
  set_at-remembers addr value d groups (ok (ns, key)) same h =
      rw
        (
          same,
          get_secret-set_secret lib doc ns key value ns key groups,
          text_eq_refl ns,
          text_eq_refl key,
        )
        refl

  set_in-remembers :
      (addr value : Text) (d : Driver W) (r : Result (List Group))
      → (set_in lib addr value d r).0 ≡ ok tt
      → (Keepass.get lib addr (set_in lib addr value d r).1).0 ≡ ok value
  set_in-remembers addr value d (err e) h = absurd (err_ne_ok h)
  set_in-remembers addr value d (ok groups) h = elim (Bool-cases d.cfg.read_only) [
    | inl only ↦ absurd (err_ne_ok (rw only at h))
    | inr writable ↦
        let Chosen = λ (r : Result (Unit {0}) × Driver W).
          (r.0 ≡ ok tt) → (Keepass.get lib addr r.1).0 ≡ ok value in
        else_taken Chosen d.cfg.read_only _ _ writable
          (set_at-remembers addr value d groups (parse_address addr) refl) h
  ]

  pub keepass-Remembers : Remembers (keepass lib)
  unfolding Storage.set
  keepass-Remembers = record {
    get_set = λ addr value d h. set_in-remembers addr value d (root d) h;
  }
