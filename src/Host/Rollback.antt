-- ===== src/Host/Rollback.antt =====
-- What is left of an installation when the exchange of a host update fails.
use weft_end.Prelude.{
  take, All-split, All-prefix, length, ◌≤◌, ◌≡◌, refl, sym, ◌∙◌, ap, subst, not, true, false, none,
  some, List, [], ◌∷◌, ◌++◌, All, arith, Bool-cases, inl, inr, if◌then◌else◌,
}
use weft_end.Reasons.{is_none}
use weft_end.Host.Apply.{
  Files, add_file, HostDirs, FileCall, install_staging, drop_backup, Faults, ReleaseFiles, perform,
  is_called, run_calls, exchange_calls, rollback_calls, applied, rolled_back, apply_update,
  new_files,
}

-- No call of a list throws.
abbrev pub Works : Faults → List FileCall → Type 0
Works faults cs = All (λ c. faults c ≡ false) cs

module _ (r : ReleaseFiles) where
  perform_called : FileCall → HostDirs → HostDirs
  perform_called c d = if is_called c d then perform r c d else d

  -- The directories after calls that do not throw.
  perform_each : List FileCall → HostDirs → HostDirs
  perform_each [] d = d
  perform_each (c ∷ cs) d = perform_each cs (perform_called c d)

  run_calls_work :
      (faults : Faults) (cs : List FileCall) (d : HostDirs)
      → Works faults cs
      → run_calls faults r cs d ≡ (true, perform_each cs d)
  unfolding run_calls perform_each perform_called
  run_calls_work faults [] d h = refl
  run_calls_work faults (c ∷ cs) d h =
      ground (arith, run_calls_work faults cs (perform_called c d) h.1, h.0)

  run_calls_throw :
      (faults : Faults) (pre : List FileCall) (c : FileCall) (post : List FileCall) (d : HostDirs)
      → Works faults pre
      → faults c ≡ true
      → is_called c (perform_each pre d) ≡ true
      → run_calls faults r (pre ++ c ∷ post) d ≡ (false, perform_each pre d)
  unfolding run_calls perform_each perform_called
  run_calls_throw faults [] c post d h f k = rw (f, k, run_calls) refl
  run_calls_throw faults (p ∷ pre) c post d h f k =
      ground (arith, run_calls_throw faults pre c post (perform_called p d) h.1 f k, h.0)

  apply_update_worked :
      (faults : Faults) (d after : HostDirs)
      → run_calls faults r exchange_calls d ≡ (true, after)
      → ((apply_update faults r d).result ≡ applied) × ((apply_update faults r d).dirs ≡ after)
  unfolding apply_update
  apply_update_worked faults d after h = ground (arith, h)

  rollback_dirs :
      (d : HostDirs)
      → perform_each rollback_calls d ≡ record d { current = d.backup; backup = none }
  unfolding perform_each perform_called perform is_called
  rollback_dirs d = ground arith

  apply_update_failed :
      (faults : Faults) (d after : HostDirs)
      → Works faults rollback_calls
      → run_calls faults r exchange_calls d ≡ (false, after)
      → ((apply_update faults r d).result ≡ rolled_back)
        × ((apply_update faults r d).dirs ≡ record after { current = after.backup; backup = none })
  unfolding apply_update
  apply_update_failed faults d after w h =
      let back =
        run_calls_work faults rollback_calls after w ∙ ap (λ x. (true, x)) (rollback_dirs after) in
      ground (arith, h, back)

  -- A call that leaves the installed directory and an empty place for the backup alone.
  Early : FileCall → Type 0
  Early c =
      (d : HostDirs)
      → d.backup ≡ none
      → ((perform_called c d).current ≡ d.current) × ((perform_called c d).backup ≡ none)

  keeps_installed :
      (cs : List FileCall) (d : HostDirs)
      → All Early cs
      → d.backup ≡ none
      → ((perform_each cs d).current ≡ d.current) × ((perform_each cs d).backup ≡ none)
  unfolding perform_each Early
  keeps_installed [] d h b = (refl, b)
  keeps_installed (c ∷ cs) d h b =
      let (k, n) = h.0 d b in
      let (k', n') = keeps_installed cs (perform_called c d) h.1 n in (k' ∙ k, n')

  first_eight : All Early (take 8 exchange_calls)
  unfolding Early perform_called perform is_called
  first_eight = (
    (λ d b. (refl, b)),
    (
      (λ d b. (refl, b)),
      (
        (λ d b. (refl, b)),
        (
          (λ d b. (refl, b)),
          (
            (λ d b. (refl, b)),
            ((λ d b. (refl, b)), ((λ d b. (refl, b)), ((λ d b. (refl, refl)), tt))),
          ),
        ),
      ),
    ),
  )

  -- Every call of the exchange is made where the installed directory is there.
  made_when_installed :
      (d : HostDirs) (old : Files)
      → d.current ≡ some old
      → All (λ c. is_called c d ≡ true) exchange_calls
  unfolding is_called
  made_when_installed d old h =
      let kept : not (is_none d.current) ≡ true = ap (λ o. not (is_none o)) h in
      (refl, (refl, (refl, (refl, (refl, (refl, (refl, (refl, (kept, (refl, (refl, tt)))))))))))

  -- After a call that throws the rollback installs what is in the backup then, or nothing.
  restored_by_rollback :
      (faults : Faults) (pre : List FileCall) (c : FileCall) (post : List FileCall) (d : HostDirs)
      → pre ++ c ∷ post ≡ exchange_calls
      → Works faults pre
      → faults c ≡ true
      → Works faults rollback_calls
      → is_called c (perform_each pre d) ≡ true
      → ((apply_update faults r d).result ≡ rolled_back)
        × ((apply_update faults r d).dirs.current ≡ (perform_each pre d).backup)
  restored_by_rollback faults pre c post d e w f wr made =
      let thrown =
        ap (λ cs. run_calls faults r cs d) (sym e) ∙ run_calls_throw faults pre c post d w f made in
      let (result, dirs) = apply_update_failed faults d (perform_each pre d) wr thrown in
      (result, ap (λ x. x.current) dirs)

  -- An update with an installed directory and no backup, in which one of the first nine calls is
  -- the first to throw and the rollback does not throw: the handler removes the installed directory,
  -- which is untouched, and has no backup to restore. The update is reported as rolled back and
  -- nothing is installed.
  pub apply_update_loses :
      (faults : Faults) (pre : List FileCall) (c : FileCall) (post : List FileCall) (d : HostDirs)
      (old : Files)
      → pre ++ c ∷ post ≡ exchange_calls
      → length pre ≤ 8
      → Works faults pre
      → faults c ≡ true
      → Works faults rollback_calls
      → d.current ≡ some old
      → d.backup ≡ none
      → ((apply_update faults r d).result ≡ rolled_back)
        × ((apply_update faults r d).dirs.current ≡ none)
  apply_update_loses faults pre c post d old e n w f wr k b =
      let early =
        All-prefix Early 8 pre (c ∷ post) n
          (subst (λ cs. All Early (take 8 cs)) (sym e) first_eight) in
      let (kept, empty) = keeps_installed pre d early b in
      let calls =
        subst (λ cs. All (λ c. is_called c (perform_each pre d) ≡ true) cs) (sym e)
          (made_when_installed (perform_each pre d) old (kept ∙ k)) in
      let made =
        (All-split (λ c. is_called c (perform_each pre d) ≡ true) pre (c ∷ post) calls).1.0 in
      let (result, dirs) = restored_by_rollback faults pre c post d e w f wr made in
      (result, dirs ∙ empty)

  nine_keep :
      (d : HostDirs) (old : Files)
      → d.current ≡ some old
      → ((perform_each (take 9 exchange_calls) d).backup ≡ some old)
  unfolding perform_each perform_called perform is_called
  nine_keep d old k = rw k refl

  -- An update with an installed directory in which the rename of the staged directory is the first
  -- call to throw, and the rollback does not throw, is reported as rolled back, and the installation
  -- from before is back, with its files.
  pub apply_update_restores :
      (faults : Faults) (d : HostDirs) (old : Files)
      → Works faults (take 9 exchange_calls)
      → faults install_staging ≡ true
      → Works faults rollback_calls
      → d.current ≡ some old
      → ((apply_update faults r d).result ≡ rolled_back)
        × ((apply_update faults r d).dirs.current ≡ some old)
  unfolding is_called
  apply_update_restores faults d old w f wr k =
      let (result, dirs) =
        restored_by_rollback faults (take 9 exchange_calls) install_staging (drop_backup ∷ []) d
          refl w f wr refl in
      (result, dirs ∙ nine_keep d old k)

  installed :
      (d : HostDirs)
      → perform_each exchange_calls d
        ≡ record { staging = none; current = some (new_files r); backup = none }
  unfolding perform_each perform_called perform is_called add_file
  installed d = ground arith

  -- An update none of whose calls throws is reported as applied: the files of the release and the
  -- signed manifest of the host are installed, and neither a staged directory nor a backup is left.
  pub apply_update_installs :
      (faults : Faults) (d : HostDirs)
      → Works faults exchange_calls
      → ((apply_update faults r d).result ≡ applied)
        × ((apply_update faults r d).dirs
            ≡ record { staging = none; current = some (new_files r); backup = none })
  apply_update_installs faults d w =
      let (result, dirs) =
        apply_update_worked faults d (perform_each exchange_calls d)
          (run_calls_work faults exchange_calls d w) in
      (result, dirs ∙ installed d)

  run_calls_done :
      (faults : Faults) (cs : List FileCall) (d : HostDirs)
      → (run_calls faults r cs d).0 ≡ true
      → (run_calls faults r cs d).1 ≡ perform_each cs d
  unfolding run_calls perform_each perform_called
  run_calls_done faults [] d h = refl
  run_calls_done faults (c ∷ cs) d h =
      ground (arith, run_calls_done faults cs (perform_called c d), h)

  -- What an update that is reported as applied leaves.
  pub apply_update_applied :
      (faults : Faults) (d : HostDirs)
      → (apply_update faults r d).result ≡ applied
      → (apply_update faults r d).dirs
        ≡ record { staging = none; current = some (new_files r); backup = none }
  unfolding apply_update
  apply_update_applied faults d h = elim (Bool-cases (run_calls faults r exchange_calls d).0) [
    | inl e ↦ ground (arith, e, run_calls_done faults exchange_calls d e, installed d)
    | inr e ↦ absurd (ground (arith, e, h))
  ]
