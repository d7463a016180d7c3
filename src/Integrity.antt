-- ===== src/Integrity.antt =====
-- pkg/integrity: what an installed application is recognised by. SHA-256, in hexadecimal digits, and
-- `encoding/json` are parameters.
pub mod Policy
use cpak.Base.{
  ℕ, zero, suc, ◌+◌, ◌-◌, ◌*◌, ◌/◌, ◌%◌, ◌^◌, ◌≤◌, ◌<◌, ◌≡◌, refl, sym, ap, ◌∙◌, ◌≢◌, ◌↔◌, ◌⊎◌, inl,
  inr, Bool, true, false, not, ◌&&◌, ◌||◌, Option, none, some, List, [], ◌∷◌, ◌++◌, map, Memᴰ,
  arith, ltb, leb, nat_beq, nat_beq_iff, if◌then◌else◌, Eq, ◌==◌, ◌!=◌, nat_eq, Bool-cases,
  Option-cases, any, all, length, is_empty, length-append, any-eq-true, any_of_mem, all_mem,
  all_of_mem, all-append, contains, contains_mem, contains_of_mem, Outcome, ok, err, ◌>>=◌, ◌>>◌,
  refuse_if, wrap, Text, ascii, text_beq, text_beq_iff, text_eq, all_mono, ℤ, pos, negsuc, int_eq,
  not_true,
}
use cpak.Go.Regexp.{Regexp, class, seq, lit, times, match_string}
use cpak.Go.Sort.{sort, text_less}

abbrev pub abi_version : ℤ
abi_version = pos 1

-- `[0-9a-f]`
abbrev hex_digit : Regexp
hex_digit = class ((b'0', b'9') ∷ (b'a', b'f') ∷ [])

-- `^[0-9a-f]{64}$`, also `anchorManifestPattern` and `sha256Pattern`
abbrev pub root_pattern : Regexp
root_pattern = times 64 hex_digit

-- `^sha256:[0-9a-f]{64}$`
abbrev pub image_pattern : Regexp
image_pattern = seq (lit (ascii "sha256:")) root_pattern

-- The map of session roots is left out: no operation of the ledger reads it.
pub record Anchor : Type 0 where
  pub abi : ℤ
  pub uid : ℕ
  pub origin : Text
  pub generation : ℕ
  pub image_digest : Text
  pub manifest_digest : Text
  pub package_root : Text
  pub policy_root : Text
  pub launch_root : Text

unfoldable pub digests_ok : Anchor → Bool
digests_ok a =
    (a.image_digest == [] || match_string image_pattern a.image_digest)
    && (a.manifest_digest == [] || match_string root_pattern a.manifest_digest)

pub record LayerBinding : Type 0 where
  pub oci_digest : Text
  pub state_id : Text
  pub state_root : Text

pub record Package : Type 0 where
  pub origin : Text
  pub selector : Text
  pub version : Text
  pub manifest_digest : Text
  pub image_digest : Text
  pub config_digest : Text
  pub layers : List LayerBinding
  pub dependencies : List Text
  pub addons : List Text
  pub binaries : List Text
  pub desktop_entries : List Text
  pub sessions : List Text

pub data RootError : Type 0 where
  incomplete unencodable : RootError
  unbound_layer : Text → RootError

check_layers : List LayerBinding → Outcome RootError Unit
check_layers [] = ok tt
check_layers (l ∷ ls) = do
  refuse_if (l.oci_digest == [] || (l.state_id == [] || l.state_root == []))
      (unbound_layer l.oci_digest)
  check_layers ls

unfoldable pub canonical_package : Package → Package
canonical_package p = record p {
  dependencies = sort text_less p.dependencies;
  addons = sort text_less p.addons;
  binaries = sort text_less p.binaries;
  desktop_entries = sort text_less p.desktop_entries;
  sessions = sort text_less p.sessions;
}

module _ (sha256_hex : Text → Text) where
  -- `digestJSON`
  unfoldable pub digest_json : Text → Text → Text
  digest_json kind encoded =
      sha256_hex (ascii "cpak." ++ (kind ++ (ascii ".v1" ++ (b'\n' ∷ encoded))))

  unfoldable pub launch_root : Text → Text → Text
  launch_root package_root policy_root = sha256_hex (
      ascii "cpak.launch.v1" ++ (b'\n' ∷ (package_root ++ (b'\n' ∷ (policy_root ++ (b'\n' ∷ []))))))

  digest_of : Text → Option Text → Outcome RootError Text
  unfolding digest_json
  digest_of kind none = err unencodable
  digest_of kind (some encoded) = ok (digest_json kind encoded)

  -- `Package.Root`, with `json.Marshal` of a package.
  unfoldable pub package_root : (Package → Option Text) → Package → Outcome RootError Text
  unfolding canonical_package check_layers digest_of
  package_root marshal p = do
    refuse_if (p.origin == [] || p.image_digest == []) incomplete
    check_layers p.layers
    digest_of (ascii "package") (marshal (canonical_package p))
