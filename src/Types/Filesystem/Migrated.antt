-- ===== src/Types/Filesystem/Migrated.antt =====
-- pkg/types/override.go, `WithMigratedFilesystem`: the permissions of the first manifest version,
-- written out as the grants they stand for.
use cpak.Base.{
  Bool, false, not, ◌&&◌, ◌||◌, Option, none, some, List, [], ◌∷◌, ◌++◌, if◌then◌else◌, ◌==◌,
  nat_eq, is_empty, Text, ascii, text_eq, int_eq,
}
use cpak.Types.Override.{Override, FilesystemPermission, widest_per_path}
use cpak.Types.Filesystem.{valid_filesystem_path, is_abs}

module _ (clean : Text → Text) where
  unfoldable pub legacy_filesystem_grant : Text → Option FilesystemPermission
  legacy_filesystem_grant path =
      let cleaned = clean path in
      if not (is_abs cleaned) || (cleaned == ascii "/" || not (valid_filesystem_path clean cleaned))
      then none
      else some (record { path = cleaned; access = ascii "read-write" })

  abbrev keep_grant : Option FilesystemPermission → List FilesystemPermission
  keep_grant none = []
  keep_grant (some grant) = grant ∷ []

  -- The loop over `FsExtra`.
  legacy_grants : List Text → List FilesystemPermission
  unfolding legacy_filesystem_grant
  legacy_grants [] = []
  legacy_grants (path ∷ paths) = keep_grant (legacy_filesystem_grant path) ++ legacy_grants paths

  abbrev when : Bool → Text → Text → List FilesystemPermission
  when granted path access = if granted then record { path = path; access = access } ∷ [] else []

  unfoldable pub with_migrated_filesystem : Override → Override
  unfolding legacy_grants widest_per_path
  with_migrated_filesystem o =
      if (not o.fs_host && not o.fs_host_etc) && (not o.fs_host_home && is_empty o.fs_extra)
      then o
      else record o {
        filesystem = widest_per_path (
            o.filesystem
            ++ (when o.fs_host (ascii "host") (ascii "read-only")
                ++ (when o.fs_host_etc (ascii "/etc") (ascii "read-only")
                    ++ (when o.fs_host_home (ascii "home") (ascii "read-write")
                        ++ legacy_grants o.fs_extra))));
        fs_host = false;
        fs_host_etc = false;
        fs_host_home = false;
        fs_extra = [];
      }
