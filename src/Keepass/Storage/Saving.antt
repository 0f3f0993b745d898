-- ===== src/Keepass/Storage/Saving.antt =====
-- `save` replaces the database file as a whole or not at all.
use go_flexconf.Keepass.{Library, Database}
use go_flexconf.Errors.{Error, Result, err, ok, plain, Result-cases, err_ne_ok}
use go_flexconf.Base.{Option, some, ◌≡◌, ◌≢◌, ap, inl, inr, refl, sym, ◌∙◌}
use go_flexconf.Text.{Text}
use go_flexconf.Action.{continue}
use go_flexconf.Keepass.Storage.{
  forget, step, encoded_into, fill_and_rename, save, then_remove, replace_file, then_unlock,
}

-- The file system, seen at the path of the database: only a rename that succeeds changes the file
-- there, and it puts the renamed one in its place; a temporary file is apart from it.
pub record Atomic {W : Type 0} (lib : Library W) (file_at : Text → W → Option Database)
    : Type 0 where
  pub lock_keeps :
      (db : Database) (p : Text) (w : W) → file_at p (lib.lock_entries db w).1 ≡ file_at p w
  pub unlock_keeps :
      (db : Database) (p : Text) (w : W) → file_at p (lib.unlock_entries db w).1 ≡ file_at p w
  pub temp_keeps : (f p : Text) (w : W) → file_at p (lib.temp_beside f w).1 ≡ file_at p w
  pub temp_apart : (f : Text) (w : W) {tmp : Text} → (lib.temp_beside f w).0 ≡ ok tmp → tmp ≢ f
  pub encode_keeps :
      (tmp p : Text) (db : Database) (w : W)
      → tmp ≢ p
      → file_at p (lib.encode tmp db w).1 ≡ file_at p w
  pub encode_writes :
      (tmp : Text) (db : Database) (w : W)
      → (lib.encode tmp db w).0 ≡ ok tt
      → file_at tmp (lib.encode tmp db w).1 ≡ some db
  pub close_keeps : (tmp p : Text) (w : W) → file_at p (lib.close tmp w).1 ≡ file_at p w
  pub rename_fails :
      (tmp p : Text) (w : W) {e : Error}
      → (lib.rename tmp p w).0 ≡ err e
      → file_at p (lib.rename tmp p w).1 ≡ file_at p w
  pub rename_moves :
      (tmp p : Text) (w : W)
      → (lib.rename tmp p w).0 ≡ ok tt
      → file_at p (lib.rename tmp p w).1 ≡ file_at tmp w
  pub remove_keeps : (tmp p : Text) (w : W) → tmp ≢ p → file_at p (lib.remove tmp w) ≡ file_at p w

module _ {W : Type 0} (lib : Library W) {file_at : Text → W → Option Database}
    (fs : Atomic lib file_at) where
  -- What a save that came to `r` leaves at the path.
  abbrev Replaced : Text → Database → W → Result (Unit {0}) × W → Type 0
  Replaced p db w r =
      (r.0 ≡ ok tt → file_at p r.1 ≡ some db)
      × ((e : Error) → r.0 ≡ err e → file_at p r.1 ≡ file_at p w)

  -- A failure at a step that did not touch the path.
  kept :
      (p : Text) (db : Database) (w w' : W) (e : Error)
      → file_at p w' ≡ file_at p w
      → Replaced p db w (err e, w')
  kept p db w w' e h = (λ x. cc, λ e' x. h)

  renamed :
      (tmp p : Text) (db : Database) (w w1 : W)
      → tmp ≢ p
      → file_at p w1 ≡ file_at p w
      → file_at tmp w1 ≡ some db
      → Replaced p db w (step lib (lib.rename tmp p) w1)
  renamed tmp p db w w1 apart same there = elim (Result-cases (lib.rename tmp p w1).0) [
    | inl (u, e) ↦
        (λ x. fs.rename_moves tmp p w1 e ∙ there, λ e' x. absurd (err_ne_ok (sym x ∙ ap forget e)))
    | inr (e', e) ↦
        (λ x. absurd (err_ne_ok (sym (ap forget e) ∙ x)), λ _ _. fs.rename_fails tmp p w1 e ∙ same)
  ]

  closed :
      (tmp p : Text) (db : Database) (w : W) (r : Result (Unit {0}) × W)
      → tmp ≢ p
      → file_at p r.1 ≡ file_at p w
      → file_at tmp r.1 ≡ some db
      → Replaced p db w (continue (forget r.0) (λ _. step lib (lib.rename tmp p)) r.1)
  closed tmp p db w (ok u, w1) apart same there = renamed tmp p db w w1 apart same there
  closed tmp p db w (err e, w1) apart same there = kept p db w w1 plain same

  encoded :
      (tmp p : Text) (db : Database) (w : W) (r : Result (Unit {0}) × W)
      → tmp ≢ p
      → file_at p r.1 ≡ file_at p w
      → (r.0 ≡ ok tt → file_at tmp r.1 ≡ some db)
      → Replaced p db w (encoded_into lib tmp p r.0 r.1)
  encoded tmp p db w (err e, w1) apart same there =
      kept p db w (lib.close tmp w1).1 plain (fs.close_keeps tmp p w1 ∙ same)
  encoded tmp p db w (ok u, w1) apart same there =
      closed tmp p db w (lib.close tmp w1) apart (fs.close_keeps tmp p w1 ∙ same)
        (fs.close_keeps tmp tmp w1 ∙ there refl)

  removed :
      (tmp p : Text) (db : Database) (w : W) (r : Result (Unit {0}) × W)
      → tmp ≢ p
      → Replaced p db w r
      → Replaced p db w (r.0, lib.remove tmp r.1)
  removed tmp p db w r apart (done, failed) = (
    λ x. fs.remove_keeps tmp p r.1 apart ∙ done x,
    λ e x. fs.remove_keeps tmp p r.1 apart ∙ failed e x,
  )

  named :
      (p : Text) (db : Database) (w : W) (r : Result Text × W)
      → file_at p r.1 ≡ file_at p w
      → ((tmp : Text) → r.0 ≡ ok tmp → tmp ≢ p)
      → Replaced p db w
          (continue (forget r.0) (λ tmp. then_remove lib tmp (fill_and_rename lib tmp p db)) r.1)
  named p db w (err e, w1) same apart = kept p db w w1 plain same
  named p db w (ok tmp, w1) same apart =
      let away = apart tmp refl in
      removed tmp p db w _ away (
        encoded tmp p db w (lib.encode tmp db w1) away (fs.encode_keeps tmp p db w1 away ∙ same)
          (fs.encode_writes tmp db w1))

  restored :
      (p : Text) (db : Database) (w : W) (r : Result (Unit {0}) × W)
      → Replaced p db w r
      → Replaced p db w (r.0, (lib.unlock_entries db r.1).1)
  restored p db w r (done, failed) =
      (λ x. fs.unlock_keeps db p r.1 ∙ done x, λ e x. fs.unlock_keeps db p r.1 ∙ failed e x)

  locked_first :
      (p : Text) (db : Database) (w : W) (r : Result (Unit {0}) × W)
      → file_at p r.1 ≡ file_at p w
      → Replaced p db w
          (continue (forget r.0) (λ _. then_unlock lib db (replace_file lib p db)) r.1)
  locked_first p db w (err e, w1) same = kept p db w w1 plain same
  locked_first p db w (ok u, w1) same = restored p db w _ (
      named p db w (lib.temp_beside p w1) (fs.temp_keeps p p w1 ∙ same) (λ tmp. fs.temp_apart p w1))

  -- Over a file system in which only a rename that succeeds changes the file at the path of the
  -- database: a save that succeeds has put the new database at its path, and one that fails, at
  -- whatever step, has left the file there as it was.
  pub save_atomic :
      (p : Text) (db : Database) (w : W)
      → ((save lib p db w).0 ≡ ok tt → file_at p (save lib p db w).1 ≡ some db)
        × ((e : Error) → (save lib p db w).0 ≡ err e → file_at p (save lib p db w).1 ≡ file_at p w)
  unfolding save
  save_atomic p db w = locked_first p db w (lib.lock_entries db w) (fs.lock_keeps db p w)
