-- ===== src/Examples/Grants.antt =====
-- Tests of pkg/types and of the validation of a policy.
use cpak.Base.{
  ◌≡◌, refl, ◌↔◌, ◌⊎◌, inl, true, false, ◌&&◌, Option, none, some, List, [], ◌∷◌, Memᴰ,
  if◌then◌else◌, ◌==◌, nat_eq, any, all, is_empty, contains, ok, Text, ascii, text_beq, text_eq,
  pos, int_eq, pos, int_eq,
}
use cpak.Go.Regexp.{match_string}
use cpak.Go.Strings.{split}
use cpak.Go.Time.{zero_time}
use cpak.Reputation.{unknown, established, name_pattern, valid_publisher_id, valid_entry_status}
use cpak.Reputation
use cpak.TrustPolicy.Origin.{canonical_origin}
use cpak.TrustPolicy.Policy.{Policy, zero_policy, allow, no_policy}
use cpak.TrustPolicy.Decide.{settled}
use cpak.TrustPolicy.Reputation.{decides_reputation, validate_decision, non_interactive}
use cpak.TrustPolicy.Validate.{Url, validate_policy, valid_issuer, has_control}
use cpak.TrustPolicy.Validate.Laws.{
  validate_policy-settled, validate_policy-canonical, validate_policy-decides,
}
use cpak.Types.Dbus.{DbusPolicy, allows_call, restricts, intersect_dbus_policies}
use cpak.Types.Dbus.Laws.{intersect_allows_call, restricts_iff, intersect_restricts, IsWithin}
use cpak.Types.HostActions.{HostActionGrant, intersect_host_actions, host_action_capabilities}
use cpak.Types.HostActions.Laws.{intersect_lists, lists}
use cpak.Types.Override.{Override, new_override, additions, file_picker_has_additions}
use cpak.Types.Override.{FilesystemPermission, widest_per_path}
use cpak.Types.Override.Widest.{is_distinct, widest_per_path-any, names_path, writes_path}
use cpak.Types.Override.Laws.{additions-IsNoWider, IsNoWider}

-- A parser that reads one issuer.
abbrev read_url : Text → Option Url
read_url value =
    if value == ascii "https://ci.example"
    then some (record {
      scheme = ascii "https";
      host = ascii "ci.example";
      has_user = false;
      raw_query = [];
      fragment = [];
    })
    else none

abbrev no_space : Text → Text
no_space value = value

abbrev office : Policy
office = record zero_policy {
  abi = pos 1;
  require_publisher = true;
  approved_signers = record { issuer = ascii "https://ci.example"; repo = [] } ∷ [];
  approved_origins = ascii "ghcr.io/fab/editor" ∷ [];
  revoked =
      record { origin = ascii "ghcr.io/bad/miner"; generation = 0; reason = ascii "stolen key" }
      ∷ [];
}

office-valid : validate_policy read_url no_space office ≡ ok tt
unfolding validate_policy text_beq valid_issuer canonical_origin split match_string has_control
office-valid = refl

validate_policy-settled_example :
    ((settled office ≡ none) ⊎ (settled office ≡ some (allow no_policy)))
    × (office.require_publisher ≡ true
        → (is_empty office.approved_signers && is_empty office.approved_publisher_ids) ≡ false)
    × (office.require_approval ≡ true → is_empty office.approval_signers ≡ false)
validate_policy-settled_example = validate_policy-settled read_url no_space office office-valid

validate_policy-canonical_example :
    canonical_origin (ascii "ghcr.io/fab/editor") ≡ some (ascii "ghcr.io/fab/editor")
validate_policy-canonical_example =
    validate_policy-canonical read_url no_space office (ascii "ghcr.io/fab/editor") office-valid
      (inl (Memᴰ.head refl))

abbrev unlisted : Reputation.Result
unlisted = record {
  provider_id = ascii "provider";
  publisher_id = ascii "x";
  status = unknown;
  issued_at = zero_time;
  expires_at = zero_time;
  sequence = 1;
  reason_code = ascii "publisher-not-listed";
}

unlisted_named : match_string name_pattern unlisted.reason_code ≡ true
unfolding match_string
unlisted_named = refl

validate_policy-decides_example :
    validate_decision (
      decides_reputation office unlisted
        (ascii "x")
        (ascii "ghcr.io/fab/editor")
        zero_time
        non_interactive)
    ≡ ok tt
validate_policy-decides_example =
    validate_policy-decides read_url no_space office unlisted (ascii "x")
      (ascii "ghcr.io/fab/editor") zero_time non_interactive office-valid unlisted_named

abbrev portal : DbusPolicy
portal = record {
  talk =
      record {
        name = ascii "org.example.Portal";
        path = ascii "/org/example";
        interface = ascii "org.example.Files";
        members = ascii "Open" ∷ ascii "Save" ∷ [];
      }
      ∷ [];
  own = ascii "org.example.App" ∷ [];
}

abbrev reader : DbusPolicy
reader = record {
  talk =
      record {
        name = ascii "org.example.Portal";
        path = ascii "/org/example";
        interface = ascii "org.example.Files";
        members = ascii "Open" ∷ [];
      }
      ∷ [];
  own = [];
}

intersect_allows_call_example :
    allows_call
      (intersect_dbus_policies portal reader)
      (ascii "org.example.Portal")
      (ascii "/org/example")
      (ascii "org.example.Files")
      (ascii "Save")
    ≡ (allows_call portal
          (ascii "org.example.Portal")
          (ascii "/org/example")
          (ascii "org.example.Files")
          (ascii "Save")
        && allows_call reader
            (ascii "org.example.Portal")
            (ascii "/org/example")
            (ascii "org.example.Files")
            (ascii "Save"))
intersect_allows_call_example =
    intersect_allows_call portal reader (ascii "org.example.Portal") (ascii "/org/example")
      (ascii "org.example.Files") (ascii "Save")

restricts_iff_example : (restricts portal reader ≡ true) ↔ IsWithin reader portal
restricts_iff_example = restricts_iff portal reader

intersect_restricts_example :
    (restricts portal (intersect_dbus_policies portal reader) ≡ true)
    × (restricts reader (intersect_dbus_policies portal reader) ≡ true)
intersect_restricts_example = intersect_restricts portal reader

abbrev containers : List HostActionGrant
containers = record { provider = ascii "containers"; capabilities = ascii "read" ∷ [] } ∷ []

intersect_lists_example :
    any (lists (ascii "containers") (ascii "read")) (intersect_host_actions containers containers)
    ≡ (any (lists (ascii "containers") (ascii "read")) containers
        && contains (ascii "read") (host_action_capabilities containers (ascii "containers")))
intersect_lists_example = intersect_lists containers containers (ascii "containers") (ascii "read")

abbrev online : Override
online = record new_override { network = true; session_bus = portal }

abbrev offline : Override
offline = record new_override { session_bus = reader }

offline-quiet : additions online offline ≡ []
unfolding additions any file_picker_has_additions restricts all allows_call text_beq
offline-quiet = refl

additions-IsNoWider_example : IsNoWider online offline
additions-IsNoWider_example = additions-IsNoWider online offline offline-quiet

abbrev etc_twice : List FilesystemPermission
etc_twice =
    record { path = ascii "/etc"; access = ascii "read-only" }
    ∷ record { path = ascii "/etc"; access = ascii "read-write" }
    ∷ []

widest_per_path-any_example :
    (is_distinct (widest_per_path etc_twice) ≡ true)
    × (any (names_path (ascii "/etc")) (widest_per_path etc_twice)
        ≡ any (names_path (ascii "/etc")) etc_twice)
    × (any (writes_path (ascii "/etc")) (widest_per_path etc_twice)
        ≡ any (writes_path (ascii "/etc")) etc_twice)
widest_per_path-any_example = widest_per_path-any (ascii "/etc") etc_twice
