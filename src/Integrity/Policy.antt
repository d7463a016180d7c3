-- ===== src/Integrity/Policy.antt =====
-- pkg/integrity/policy.go: the hash of a permission set.
pub mod Restricts
use cpak.Base.{
  ℕ, zero, suc, ◌+◌, ◌-◌, ◌*◌, ◌/◌, ◌%◌, ◌^◌, ◌≤◌, ◌<◌, ◌≡◌, refl, sym, ap, ◌∙◌, ◌≢◌, ◌↔◌, ◌⊎◌, inl,
  inr, Bool, true, false, not, ◌&&◌, ◌||◌, Option, none, some, List, [], ◌∷◌, ◌++◌, map, Memᴰ,
  arith, ltb, leb, nat_beq, nat_beq_iff, if◌then◌else◌, Eq, ◌==◌, ◌!=◌, nat_eq, Bool-cases,
  Option-cases, any, all, length, is_empty, length-append, any-eq-true, any_of_mem, all_mem,
  all_of_mem, all-append, contains, contains_mem, contains_of_mem, Outcome, ok, err, ◌>>=◌, ◌>>◌,
  refuse_if, wrap, Text, ascii, text_beq, text_beq_iff, text_eq, all_mono, ℤ, pos, negsuc, int_eq,
  not_true,
}
use cpak.Go.Sort.{sort, text_less}
use cpak.Go.Strings.{has_prefix, trim_suffix, remove_first, join}
use cpak.Types.Dbus.{restricts, canonical_dbus_policy, enabled}
use cpak.Types.HostActions.{HostActionGrant}
use cpak.Types.Override.{Override, FilesystemPermission, texts_beq}
use cpak.Types.Filesystem.Migrated.{with_migrated_filesystem}
use cpak.Integrity.{digest_json}

-- The order of `sortedPermissions`.
permission_less : FilesystemPermission → FilesystemPermission → Bool
permission_less p q =
    if p.path == q.path then text_less p.access q.access else text_less p.path q.path

unfoldable pub action_key : HostActionGrant → Text
action_key action = action.provider ++ (0 ∷ join b',' (sort text_less action.capabilities))

sort_capabilities : List HostActionGrant → List HostActionGrant
sort_capabilities [] = []
sort_capabilities (g ∷ gs) =
    record g { capabilities = sort text_less g.capabilities } ∷ sort_capabilities gs

unfoldable pub canonical_policy : Override → Override
unfolding permission_less sort_capabilities action_key
canonical_policy o = record o {
  filesystem = sort permission_less o.filesystem;
  host_actions =
      sort (λ g h. text_less (action_key g) (action_key h)) (sort_capabilities o.host_actions);
  session_bus = canonical_dbus_policy o.session_bus;
  fs_extra = sort text_less o.fs_extra;
  allowed_host_commands = sort text_less o.allowed_host_commands;
}

pub data SchemaError : Type 0 where
  serial_unknown session_bus_unknown desktop_unknown unencodable : SchemaError
  field_missing : Text → SchemaError
  unsupported : ℤ → SchemaError

-- One `bytes.Replace` of a field, which must be there.
remove_field : Text → Text → Outcome SchemaError Text
remove_field encoded field =
    let shorter = remove_first encoded field in
    if length shorter == length encoded then err (field_missing field) else ok shorter

abbrev encoded_or : Option Text → Outcome SchemaError Text
encoded_or none = err unencodable
encoded_or (some encoded) = ok encoded

remove_desktop_capability_fields : Text → Outcome SchemaError Text
unfolding remove_field
remove_desktop_capability_fields encoded = do
  without_display ← remove_field encoded (ascii ",\"displayX11\":false")
  remove_field without_display (ascii ",\"bluetooth\":false")

module _ (marshal : Override → Option Text) (sha256_hex : Text → Text) where
  hashed : Text → Outcome SchemaError Text
  unfolding digest_json
  hashed encoded = ok (digest_json sha256_hex (ascii "policy") encoded)

  -- The branches of the switch, from the newest schema to the oldest.
  current_schema : Override → Outcome SchemaError Text
  unfolding hashed
  current_schema canonical = do encoded ← encoded_or (marshal canonical); hashed encoded

  without_desktop : Override → Outcome SchemaError Text
  unfolding hashed remove_desktop_capability_fields
  without_desktop canonical = do
    refuse_if (canonical.display_x11 || canonical.bluetooth) desktop_unknown
    encoded ← encoded_or (marshal canonical)
    shorter ← remove_desktop_capability_fields encoded
    hashed shorter

  without_session_bus : Override → Outcome SchemaError Text
  unfolding hashed remove_field remove_desktop_capability_fields enabled
  without_session_bus canonical = do
    refuse_if (enabled canonical.session_bus) session_bus_unknown
    encoded ← encoded_or (marshal canonical)
    no_bus ← remove_field encoded (ascii ",\"sessionBus\":{}")
    shorter ← remove_desktop_capability_fields no_bus
    hashed shorter

  without_serial : Override → Outcome SchemaError Text
  unfolding hashed remove_field remove_desktop_capability_fields enabled
  without_serial canonical = do
    refuse_if canonical.device_serial serial_unknown
    refuse_if (enabled canonical.session_bus) session_bus_unknown
    encoded ← encoded_or (marshal canonical)
    no_serial ← remove_field encoded (ascii ",\"deviceSerial\":false")
    no_bus ← remove_field no_serial (ascii ",\"sessionBus\":{}")
    shorter ← remove_desktop_capability_fields no_bus
    hashed shorter

  unfoldable pub policy_root_for_schema : Override → ℤ → Outcome SchemaError Text
  unfolding canonical_policy current_schema without_desktop without_session_bus without_serial
  policy_root_for_schema o schema =
      let canonical = canonical_policy o in
      if schema == pos 1
      then without_serial canonical
      else if schema == pos 2
      then without_session_bus canonical
      else if schema == pos 3
      then without_desktop canonical
      else if schema == pos 4
      then current_schema canonical
      else err (unsupported schema)
