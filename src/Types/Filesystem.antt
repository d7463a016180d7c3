-- ===== src/Types/Filesystem.antt =====
-- pkg/types/filesystem.go: the paths a permission may name, and the directories of cpak's own state.
-- `filepath.Clean` is a parameter; an absolute path is one that starts with a slash, and
-- `filepath.Join` of a non-empty first element cleans what stands between slashes.
pub mod Migrated
use cpak.Base.{
  ℕ, zero, suc, ◌+◌, ◌-◌, ◌*◌, ◌/◌, ◌%◌, ◌^◌, ◌≤◌, ◌<◌, ◌≡◌, refl, sym, ap, ◌∙◌, ◌≢◌, ◌↔◌, ◌⊎◌, inl,
  inr, Bool, true, false, not, ◌&&◌, ◌||◌, Option, none, some, List, [], ◌∷◌, ◌++◌, map, Memᴰ,
  arith, ltb, leb, nat_beq, nat_beq_iff, if◌then◌else◌, Eq, ◌==◌, ◌!=◌, nat_eq, Bool-cases,
  Option-cases, any, all, length, is_empty, length-append, any-eq-true, any_of_mem, all_mem,
  all_of_mem, all-append, contains, contains_mem, contains_of_mem, Outcome, ok, err, ◌>>=◌, ◌>>◌,
  refuse_if, wrap, Text, ascii, text_beq, text_beq_iff, text_eq, all_mono, ℤ, pos, negsuc, int_eq,
  not_true,
}
use cpak.Go.Strings.{has_prefix, trim_prefix, trim_suffix}
use cpak.Types.Override.{FilesystemPermission}

abbrev pub xdg_directory_keys : List Text
xdg_directory_keys =
    ascii "xdg-desktop"
    ∷ ascii "xdg-documents"
    ∷ ascii "xdg-download"
    ∷ ascii "xdg-music"
    ∷ ascii "xdg-pictures"
    ∷ ascii "xdg-public-share"
    ∷ ascii "xdg-templates"
    ∷ ascii "xdg-videos"
    ∷ []

-- `filepath.IsAbs`
abbrev pub is_abs : Text → Bool
is_abs path = has_prefix path (ascii "/")

pub data FilesystemError : Type 0 where
  bad_path bad_access declared_twice : Text → FilesystemError
  host_writable : FilesystemError

module _ (clean : Text → Text) where
  subpath_refused : Text → Bool
  unfolding has_prefix
  subpath_refused relative =
      (is_empty relative || (is_abs relative || clean relative != relative))
      || (relative == ascii "." || (relative == ascii ".." || has_prefix relative (ascii "../")))

  unfoldable pub home_filesystem_subpath : Text → Option Text
  unfolding subpath_refused has_prefix trim_prefix
  home_filesystem_subpath path =
      let relative = trim_prefix path (ascii "home/") in
      if path == ascii "home"
      then some (ascii ".")
      else if not (has_prefix path (ascii "home/"))
      then none
      else if subpath_refused relative
      then none
      else some relative

  is_home : Option Text → Bool
  is_home none = false
  is_home (some _) = true

  unfoldable pub valid_filesystem_path : Text → Bool
  unfolding home_filesystem_subpath is_home has_prefix
  valid_filesystem_path path =
      if path == ascii "host"
      then true
      else if is_home (home_filesystem_subpath path)
      then true
      else if contains path xdg_directory_keys
      then true
      else (path != ascii "/") && (is_abs path && clean path == path)

  -- The loop of `ValidateFilesystemPermissions`; `paths` is the map, as the list of its keys.
  unfoldable pub validate_each :
      List Text → List FilesystemPermission → Outcome FilesystemError Unit
  unfolding valid_filesystem_path
  validate_each paths [] = ok tt
  validate_each paths (p ∷ ps) = do
    refuse_if (not (valid_filesystem_path p.path)) (bad_path p.path)
    refuse_if ((p.access != ascii "read-only") && (p.access != ascii "read-write"))
        (bad_access p.access)
    refuse_if (p.path == ascii "host" && (p.access != ascii "read-only")) host_writable
    refuse_if (contains p.path paths) (declared_twice p.path)
    validate_each (p.path ∷ paths) ps

  unfoldable pub validate_filesystem_permissions :
      List FilesystemPermission → Outcome FilesystemError Unit
  unfolding validate_each
  validate_filesystem_permissions ps = validate_each [] ps

  unfoldable pub usable_absolute_path : Text → Bool
  unfolding has_prefix
  usable_absolute_path path = (path != []) && (is_abs path && (clean path != ascii "/"))

  unfoldable pub append_state_directory : List Text → Text → List Text
  unfolding usable_absolute_path
  append_state_directory directories path =
      if not (usable_absolute_path path)
      then directories
      else if contains (clean path) directories
      then directories
      else directories ++ (clean path ∷ [])

  append_roots : List Text → List Text → List Text
  unfolding append_state_directory
  append_roots directories [] = directories
  append_roots directories (root ∷ roots) =
      append_roots (append_state_directory directories root) roots

  unfoldable pub cpak_state_directories : Text → List Text → List Text
  unfolding append_roots usable_absolute_path append_state_directory
  cpak_state_directories home roots =
      let directories = append_roots [] roots in
      if usable_absolute_path home
      then append_state_directory
          (append_state_directory directories (clean (home ++ ascii "/.config/cpak")))
          (clean (home ++ ascii "/.local/share/applications"))
      else directories

  -- One directory of the loop: the directory itself, or a path inside it.
  unfoldable pub lies_in : Text → Text → Bool
  unfolding has_prefix trim_suffix
  lies_in path directory =
      path == directory || has_prefix path (trim_suffix directory b'/' ++ ascii "/")

  unfoldable pub path_is_cpak_state : Text → List Text → Bool
  unfolding lies_in
  path_is_cpak_state path directories =
      if path == [] then false else any (lies_in (clean path)) directories
