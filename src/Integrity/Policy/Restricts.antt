-- ===== src/Integrity/Policy/Restricts.antt =====
-- pkg/integrity/policy.go, `Restricts`: whether a permission set grants no more than another. A Go
-- map that only remembers what was seen is the list of its keys.
pub mod Laws
pub mod Order
use cpak.Base.{
  ℕ, zero, suc, ◌+◌, ◌-◌, ◌*◌, ◌/◌, ◌%◌, ◌^◌, ◌≤◌, ◌<◌, ◌≡◌, refl, sym, ap, ◌∙◌, ◌≢◌, ◌↔◌, ◌⊎◌, inl,
  inr, Bool, true, false, not, ◌&&◌, ◌||◌, Option, none, some, List, [], ◌∷◌, ◌++◌, map, Memᴰ,
  arith, ltb, leb, nat_beq, nat_beq_iff, if◌then◌else◌, Eq, ◌==◌, ◌!=◌, nat_eq, Bool-cases,
  Option-cases, any, all, length, is_empty, length-append, any-eq-true, any_of_mem, all_mem,
  all_of_mem, all-append, contains, contains_mem, contains_of_mem, Outcome, ok, err, ◌>>=◌, ◌>>◌,
  refuse_if, wrap, Text, ascii, text_beq, text_beq_iff, text_eq, ℤ, pos, int_eq, int_beq_iff,
  all_mono, ℤ, pos, negsuc, int_eq, not_true,
}
use cpak.Base.{int_ltb}
use cpak.Go.Strings.{has_prefix, trim_suffix}
use cpak.Types.Dbus.{restricts}
use cpak.Types.HostActions.{HostActionGrant}
use cpak.Types.Override.{Override, FilesystemPermission, texts_beq}
use cpak.Types.Filesystem.Migrated.{with_migrated_filesystem}

-- What the pairs of the loop read, of either side.
unfoldable pub flags : Override → List Bool
flags o =
    o.socket_x11 ∷ o.display_x11 ∷ o.socket_wayland ∷ o.socket_pulse_audio ∷ o.socket_session_bus
    ∷ o.socket_system_bus ∷ o.socket_ssh_agent ∷ o.socket_cups ∷ o.socket_gpg_agent
    ∷ o.socket_at_spi_bus ∷ o.socket_bluetooth ∷ o.bluetooth ∷ o.device_dri ∷ o.device_kvm
    ∷ o.device_shm ∷ o.device_alsa ∷ o.device_video ∷ o.device_fuse ∷ o.device_tun ∷ o.device_usb
    ∷ o.device_serial ∷ o.device_input ∷ o.device_tty ∷ o.device_all ∷ o.notification ∷ o.open_uri
    ∷ o.host_applications ∷ o.network ∷ o.process ∷ o.user_namespaces ∷ o.as_root
    ∷ o.file_picker.open_file ∷ o.file_picker.open_folder ∷ o.file_picker.save_file
    ∷ o.file_picker.persistent ∷ o.file_picker.containing_folder ∷ []

-- The loop over the pairs; the two lists are of one length.
unfoldable pub flags_within : List Bool → List Bool → Bool
flags_within [] [] = true
flags_within (wanted ∷ ws) (held ∷ hs) = not (wanted && not held) && flags_within ws hs
flags_within _ _ = false

-- One limit, where zero is no limit.
unfoldable pub limit_within : ℤ → ℤ → Bool
limit_within wanted held =
    if held == pos 0 then true else not (wanted == pos 0 || int_ltb held wanted)

unfoldable pub subset : List Text → List Text → Bool
subset candidate current = all (λ value. contains value current) candidate

abbrev pub known : Option (List Text) → List Text
known none = []
known (some capabilities) = capabilities

-- The capabilities of all grants of a provider, which is what the map has for it; `none` if no
-- grant names it.
unfoldable pub held_capabilities : List HostActionGrant → Text → Option (List Text)
held_capabilities [] provider = none
held_capabilities (g ∷ gs) provider =
    let rest = held_capabilities gs provider in
    if g.provider == provider then some (g.capabilities ++ known rest) else rest

abbrev pub covered_by : Option (List Text) → List Text → Bool
covered_by none wanted = false
covered_by (some held) wanted = all (λ capability. contains capability held) wanted

unfoldable pub actions_covered : List HostActionGrant → List HostActionGrant → Bool
unfolding held_capabilities
actions_covered current candidate =
    all (λ g. covered_by (held_capabilities current g.provider) g.capabilities) candidate

unfoldable pub path_covers : Text → Text → Bool
unfolding has_prefix trim_suffix
path_covers held wanted =
    if held == wanted || held == ascii "host"
    then true
    else has_prefix wanted (trim_suffix held b'/' ++ ascii "/")

unfoldable pub access_covers : Text → Text → Bool
access_covers held wanted =
    if held == wanted then true else held == ascii "read-write" && wanted == ascii "read-only"

unfoldable pub permission_covers : FilesystemPermission → FilesystemPermission → Bool
unfolding path_covers access_covers
permission_covers wanted held =
    path_covers held.path wanted.path && access_covers held.access wanted.access

unfoldable pub permissions_covered : List FilesystemPermission → List FilesystemPermission → Bool
unfolding permission_covers
permissions_covered current candidate =
    all (λ wanted. any (permission_covers wanted) current) candidate

-- `equalStrings` is `texts_beq`. What is compared once both sides are migrated:
unfoldable pub grants_no_more : Override → Override → Bool
unfolding flags_within flags limit_within subset actions_covered permissions_covered restricts
grants_no_more current candidate =
    flags_within (flags candidate) (flags current)
    && ((limit_within candidate.memory_max_mb current.memory_max_mb
          && (limit_within candidate.cpu_quota current.cpu_quota
              && limit_within candidate.pids_max current.pids_max))
        && (subset candidate.allowed_host_commands current.allowed_host_commands
            && (actions_covered current.host_actions candidate.host_actions
                && (restricts current.session_bus candidate.session_bus
                    && (permissions_covered current.filesystem candidate.filesystem
                        && texts_beq current.env candidate.env)))))

unfoldable pub policy_restricts : (Text → Text) → Override → Override → Bool
unfolding grants_no_more with_migrated_filesystem
policy_restricts clean current candidate =
    grants_no_more (with_migrated_filesystem clean current)
      (with_migrated_filesystem clean candidate)
