-- ===== src/Host/Apply.antt =====
-- src/runtime/host/host_update.ts: the staged exchange of `installHostUpdateV0` and its rollback.
-- A directory of the host root holds files or does not exist. Each call of the file system either
-- does what it says or throws and changes nothing; `Faults` says which calls throw.
use weft_end.Prelude.{
  String, Bool, true, false, ◌&&◌, Option, none, some, List, [], ◌∷◌, ◌++◌, if◌then◌else◌, not,
}
use weft_end.Reasons.{is_none}

-- The files of a directory, by name.
abbrev pub Files : Type 0
Files = List (String × String)

pub record HostDirs : Type 0 where
  pub staging : Option Files
  pub current : Option Files
  pub backup : Option Files

-- The calls of the exchange and of its rollback, in their order.
pub data FileCall : Type 0 where
  clear_staging make_staging copy_manifest copy_bundle copy_evidence copy_public_key write_self :
      FileCall
  clear_backup keep_current install_staging drop_backup : FileCall
  remove_current restore_backup : FileCall

abbrev pub Faults : Type 0
Faults = FileCall → Bool

-- The texts of a release, as they lie in its directory, and the signed manifest of the host.
pub record ReleaseFiles : Type 0 where
  pub manifest : String
  pub bundle : String
  pub evidence : String
  pub public_key : String
  pub host_self : String

unfoldable pub add_file : String → String → Option Files → Option Files
add_file name text none = none
add_file name text (some files) = some (files ++ (name, text) ∷ [])

-- A call that does not throw. `renameSync` of a directory that does not exist is never called.
unfoldable pub perform : ReleaseFiles → FileCall → HostDirs → HostDirs
unfolding add_file
perform r clear_staging d = record d { staging = none }
perform r make_staging d = record d { staging = some [] }
perform r copy_manifest d = record d {
  staging = add_file "release_manifest.json" r.manifest d.staging;
}
perform r copy_bundle d = record d { staging = add_file "runtime_bundle.json" r.bundle d.staging }
perform r copy_evidence d = record d { staging = add_file "evidence.json" r.evidence d.staging }
perform r copy_public_key d = record d {
  staging = add_file "release_public_key.json" r.public_key d.staging;
}
perform r write_self d = record d {
  staging = add_file "host_self_manifest.json" r.host_self d.staging;
}
perform r clear_backup d = record d { backup = none }
perform r keep_current d = record d { current = none; backup = d.current }
perform r install_staging d = record d { staging = none; current = d.staging }
perform r drop_backup d = record d { backup = none }
perform r remove_current d = record d { current = none }
perform r restore_backup d = record d { current = d.backup; backup = none }

-- Whether a call is made at all: the two under `existsSync`, and those of the rollback.
unfoldable pub is_called : FileCall → HostDirs → Bool
is_called keep_current d = not (is_none d.current)
is_called remove_current d = not (is_none d.current)
is_called restore_backup d = not (is_none d.backup)
is_called _ d = true

-- Calls one after another until one throws: whether all were made, and the directories after them.
unfoldable pub run_calls : Faults → ReleaseFiles → List FileCall → HostDirs → Bool × HostDirs
run_calls faults r [] d = (true, d)
run_calls faults r (c ∷ cs) d =
    let next = run_calls faults r cs (if is_called c d then perform r c d else d) in
    if is_called c d && faults c then (false, d) else next

abbrev pub exchange_calls : List FileCall
exchange_calls =
    clear_staging ∷ make_staging ∷ copy_manifest ∷ copy_bundle ∷ copy_evidence ∷ copy_public_key
    ∷ write_self ∷ clear_backup ∷ keep_current ∷ install_staging ∷ drop_backup ∷ []

abbrev pub rollback_calls : List FileCall
rollback_calls = remove_current ∷ restore_backup ∷ []

pub data ApplyResult : Type 0 where
  skipped applied rolled_back : ApplyResult

pub record Applied : Type 0 where
  pub result : ApplyResult
  pub attempted : Bool
  pub reasons : List String
  pub dirs : HostDirs

-- The try block, and its handler with the rollback.
unfoldable pub apply_update : Faults → ReleaseFiles → HostDirs → Applied
apply_update faults r d =
    let (done, after) = run_calls faults r exchange_calls d in
    let (restored, back) = run_calls faults r rollback_calls after in
    if done
    then record { result = applied; attempted = true; reasons = []; dirs = after }
    else record {
      result = rolled_back;
      attempted = true;
      reasons =
          if restored
          then "HOST_APPLY_FAILED" ∷ []
          else "HOST_APPLY_FAILED" ∷ "HOST_ROLLBACK_FAILED" ∷ [];
      dirs = back;
    }

-- The files of the new installation.
abbrev pub new_files : ReleaseFiles → Files
new_files r =
    ("release_manifest.json", r.manifest)
    ∷ ("runtime_bundle.json", r.bundle)
    ∷ ("evidence.json", r.evidence)
    ∷ ("release_public_key.json", r.public_key)
    ∷ ("host_self_manifest.json", r.host_self)
    ∷ []
