-- ===== src/Types/HostActions.antt =====
-- pkg/types/host_action.go: the host services an application may ask for. A Go map that only
-- remembers what was seen is the list of its keys.
pub mod Laws
use cpak.Base.{
  ◌-◌, Bool, not, List, [], ◌∷◌, map, if◌then◌else◌, ◌!=◌, nat_eq, is_empty, contains, Outcome, ok,
  ◌>>=◌, ◌>>◌, refuse_if, Text, ascii, text_eq, int_eq,
}
use cpak.Go.Sort.{sort, text_less}

pub record HostActionGrant : Type 0 where
  pub provider : Text
  pub capabilities : List Text

pub data HostActionError : Type 0 where
  unsupported_provider duplicate_provider no_capabilities : Text → HostActionError
  unsupported_capability duplicate_capability : Text → Text → HostActionError

-- `validContainerCapability`
unfoldable pub valid_capability : Text → Bool
valid_capability capability =
    contains capability (ascii "read" ∷ ascii "manage-owned" ∷ ascii "exec-owned" ∷ [])

unfoldable pub validate_capabilities : Text → List Text → List Text → Outcome HostActionError Unit
validate_capabilities provider seen [] = ok tt
validate_capabilities provider seen (c ∷ cs) = do
  refuse_if (not (valid_capability c)) (unsupported_capability provider c)
  refuse_if (contains c seen) (duplicate_capability provider c)
  validate_capabilities provider (c ∷ seen) cs

unfoldable pub validate_grants : List Text → List HostActionGrant → Outcome HostActionError Unit
unfolding validate_capabilities
validate_grants seen [] = ok tt
validate_grants seen (g ∷ gs) = do
  refuse_if (g.provider != ascii "containers") (unsupported_provider g.provider)
  refuse_if (contains g.provider seen) (duplicate_provider g.provider)
  refuse_if (is_empty g.capabilities) (no_capabilities g.provider)
  validate_capabilities g.provider [] g.capabilities
  validate_grants (g.provider ∷ seen) gs

unfoldable pub validate_host_actions : List HostActionGrant → Outcome HostActionError Unit
unfolding validate_grants
validate_host_actions gs = validate_grants [] gs

-- The capabilities of the first grant of the provider, as the list of the map's keys.
unfoldable pub host_action_capabilities : List HostActionGrant → Text → List Text
host_action_capabilities [] provider = []
host_action_capabilities (g ∷ gs) provider =
    if g.provider != provider then host_action_capabilities gs provider else g.capabilities

unfoldable pub permitted : List Text → List Text → List Text
permitted allowed [] = []
permitted allowed (c ∷ cs) =
    let rest = permitted allowed cs in if contains c allowed then c ∷ rest else rest

unfoldable pub intersect_host_actions :
    List HostActionGrant → List HostActionGrant → List HostActionGrant
unfolding permitted
intersect_host_actions parent [] = []
intersect_host_actions parent (g ∷ gs) =
    let capabilities = permitted (host_action_capabilities parent g.provider) g.capabilities in
    let rest = intersect_host_actions parent gs in
    if is_empty capabilities
    then rest
    else record { provider = g.provider; capabilities = sort text_less capabilities } ∷ rest
