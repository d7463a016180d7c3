-- ===== src/Types/Override.antt =====
-- pkg/types/override.go: the permissions of a manifest, and which of them an update adds. A slice
-- is compared element by element, as `reflect.DeepEqual` does; a nil slice, which it would tell
-- from an empty one inside a host action, is the empty list here.
pub mod Laws
pub mod Widest
use cpak.Base.{
  ◌+◌, ◌-◌, ◌≡◌, ◌↔◌, Bool, true, false, not, ◌&&◌, ◌||◌, List, [], ◌∷◌, ◌++◌, map, arith,
  if◌then◌else◌, Eq, ◌==◌, nat_eq, any, contains, Outcome, ◌>>=◌, ◌>>◌, refuse_if, Text, ascii,
  text_beq, text_beq_iff, text_eq, ℤ, pos, int_eq,
}
use cpak.Types.Dbus.{DbusPolicy, restricts}
use cpak.Types.HostActions.{HostActionGrant}

pub record FilePickerGrant : Type 0 where
  pub open_file : Bool
  pub open_folder : Bool
  pub save_file : Bool
  pub persistent : Bool
  pub containing_folder : Bool

unfoldable pub picker_enabled : FilePickerGrant → Bool
picker_enabled g = g.open_file || (g.open_folder || g.save_file)

pub data FilePickerError : Type 0 where
  options_without_mode folder_without_file : FilePickerError

unfoldable pub validate_file_picker_grant : FilePickerGrant → Outcome FilePickerError Unit
unfolding picker_enabled
validate_file_picker_grant g = do
  refuse_if (not (picker_enabled g) && (g.persistent || g.containing_folder)) options_without_mode
  refuse_if (g.containing_folder && not g.open_file) folder_without_file

pub record FilesystemPermission : Type 0 where
  pub path : Text
  pub access : Text

abbrev pub texts_beq : List Text → List Text → Bool
texts_beq [] [] = true
texts_beq (x ∷ xs) (y ∷ ys) = text_beq x y && texts_beq xs ys
texts_beq _ _ = false

pub texts_beq_iff : (xs ys : List Text) → (texts_beq xs ys ≡ true) ↔ (xs ≡ ys)
texts_beq_iff [] [] = ground arith
texts_beq_iff (x ∷ xs) (y ∷ ys) = ground (arith, text_beq_iff x y, texts_beq_iff xs ys)
texts_beq_iff [] (y ∷ ys) = ground arith
texts_beq_iff (x ∷ xs) [] = ground arith

abbrev pub permission_beq : FilesystemPermission → FilesystemPermission → Bool
permission_beq p q = text_beq p.path q.path && text_beq p.access q.access

pub permission_beq_iff : (p q : FilesystemPermission) → (permission_beq p q ≡ true) ↔ (p ≡ q)
permission_beq_iff p q = ground (arith, text_beq_iff p.path q.path, text_beq_iff p.access q.access)

instance abbrev pub permission_eq : Eq FilesystemPermission
permission_eq = record { same = permission_beq; same_iff = permission_beq_iff }

abbrev pub action_beq : HostActionGrant → HostActionGrant → Bool
action_beq g h = text_beq g.provider h.provider && texts_beq g.capabilities h.capabilities

pub action_beq_iff : (g h : HostActionGrant) → (action_beq g h ≡ true) ↔ (g ≡ h)
action_beq_iff g h =
    ground (arith, text_beq_iff g.provider h.provider, texts_beq_iff g.capabilities h.capabilities)

instance abbrev pub action_eq : Eq HostActionGrant
action_eq = record { same = action_beq; same_iff = action_beq_iff }

pub record Override : Type 0 where
  pub socket_x11 : Bool
  pub display_x11 : Bool
  pub socket_wayland : Bool
  pub socket_pulse_audio : Bool
  pub socket_session_bus : Bool
  pub socket_system_bus : Bool
  pub socket_ssh_agent : Bool
  pub socket_cups : Bool
  pub socket_gpg_agent : Bool
  pub socket_at_spi_bus : Bool
  pub socket_bluetooth : Bool
  pub bluetooth : Bool
  pub device_dri : Bool
  pub device_kvm : Bool
  pub device_shm : Bool
  pub device_alsa : Bool
  pub device_video : Bool
  pub device_fuse : Bool
  pub device_tun : Bool
  pub device_usb : Bool
  pub device_serial : Bool
  pub device_input : Bool
  pub device_tty : Bool
  pub device_all : Bool
  pub notification : Bool
  pub open_uri : Bool
  pub host_applications : Bool
  pub host_actions : List HostActionGrant
  pub file_picker : FilePickerGrant
  pub session_bus : DbusPolicy
  pub filesystem : List FilesystemPermission
  pub fs_host : Bool
  pub fs_host_etc : Bool
  pub fs_host_home : Bool
  pub fs_extra : List Text
  pub env : List Text
  pub network : Bool
  pub process : Bool
  pub user_namespaces : Bool
  pub memory_max_mb : ℤ
  pub cpu_quota : ℤ
  pub pids_max : ℤ
  pub as_root : Bool
  pub allowed_host_commands : List Text

-- `NewOverride`: nothing is granted by omission.
abbrev pub new_override : Override
new_override = record {
  socket_x11 = false;
  display_x11 = false;
  socket_wayland = false;
  socket_pulse_audio = false;
  socket_session_bus = false;
  socket_system_bus = false;
  socket_ssh_agent = false;
  socket_cups = false;
  socket_gpg_agent = false;
  socket_at_spi_bus = false;
  socket_bluetooth = false;
  bluetooth = false;
  device_dri = false;
  device_kvm = false;
  device_shm = false;
  device_alsa = false;
  device_video = false;
  device_fuse = false;
  device_tun = false;
  device_usb = false;
  device_serial = false;
  device_input = false;
  device_tty = false;
  device_all = false;
  notification = false;
  open_uri = false;
  host_applications = false;
  host_actions = [];
  file_picker = record {
    open_file = false;
    open_folder = false;
    save_file = false;
    persistent = false;
    containing_folder = false;
  };
  session_bus = record { talk = []; own = [] };
  filesystem = [];
  fs_host = false;
  fs_host_etc = false;
  fs_host_home = false;
  fs_extra = [];
  env = [];
  network = false;
  process = false;
  user_namespaces = false;
  memory_max_mb = pos 0;
  cpu_quota = pos 0;
  pids_max = pos 0;
  as_root = false;
  allowed_host_commands = [];
}

unfoldable pub file_picker_has_additions : FilePickerGrant → FilePickerGrant → Bool
file_picker_has_additions current next =
    (not current.open_file && next.open_file)
    || ((not current.open_folder && next.open_folder)
        || ((not current.save_file && next.save_file)
            || ((not current.persistent && next.persistent)
                || (not current.containing_folder && next.containing_folder))))

-- A permission's key, and whether the update adds it.
pub record Asked : Type 0 where
  pub key : Text
  pub added : Bool

abbrev asked : Text → Bool → Asked
asked key added = record { key = key; added = added }

-- An element of the update that the current slice lacks.
abbrev lacks {ℓ} : {A : Type ℓ} ⦃e : Eq A⦄ → List A → List A → Bool
lacks current next = any (λ x. not (contains x current)) next

-- The fields in their order; a limit is no permission and never counts as one.
unfoldable pub fields : Override → Override → List Asked
fields o next =
    asked (ascii "socketX11") (not o.socket_x11 && next.socket_x11)
    ∷ asked (ascii "displayX11") (not o.display_x11 && next.display_x11)
    ∷ asked (ascii "socketWayland") (not o.socket_wayland && next.socket_wayland)
    ∷ asked (ascii "socketPulseAudio") (not o.socket_pulse_audio && next.socket_pulse_audio)
    ∷ asked (ascii "socketSessionBus") (not o.socket_session_bus && next.socket_session_bus)
    ∷ asked (ascii "socketSystemBus") (not o.socket_system_bus && next.socket_system_bus)
    ∷ asked (ascii "socketSshAgent") (not o.socket_ssh_agent && next.socket_ssh_agent)
    ∷ asked (ascii "socketCups") (not o.socket_cups && next.socket_cups)
    ∷ asked (ascii "socketGpgAgent") (not o.socket_gpg_agent && next.socket_gpg_agent)
    ∷ asked (ascii "socketAtSpiBus") (not o.socket_at_spi_bus && next.socket_at_spi_bus)
    ∷ asked (ascii "socketBluetooth") (not o.socket_bluetooth && next.socket_bluetooth)
    ∷ asked (ascii "bluetooth") (not o.bluetooth && next.bluetooth)
    ∷ asked (ascii "deviceDri") (not o.device_dri && next.device_dri)
    ∷ asked (ascii "deviceKvm") (not o.device_kvm && next.device_kvm)
    ∷ asked (ascii "deviceShm") (not o.device_shm && next.device_shm)
    ∷ asked (ascii "deviceAlsa") (not o.device_alsa && next.device_alsa)
    ∷ asked (ascii "deviceVideo") (not o.device_video && next.device_video)
    ∷ asked (ascii "deviceFuse") (not o.device_fuse && next.device_fuse)
    ∷ asked (ascii "deviceTun") (not o.device_tun && next.device_tun)
    ∷ asked (ascii "deviceUsb") (not o.device_usb && next.device_usb)
    ∷ asked (ascii "deviceSerial") (not o.device_serial && next.device_serial)
    ∷ asked (ascii "deviceInput") (not o.device_input && next.device_input)
    ∷ asked (ascii "deviceTTY") (not o.device_tty && next.device_tty)
    ∷ asked (ascii "deviceAll") (not o.device_all && next.device_all)
    ∷ asked (ascii "notification") (not o.notification && next.notification)
    ∷ asked (ascii "openURI") (not o.open_uri && next.open_uri)
    ∷ asked (ascii "hostApplications") (not o.host_applications && next.host_applications)
    ∷ asked (ascii "hostActions") (lacks o.host_actions next.host_actions)
    ∷ asked (ascii "filePicker") (file_picker_has_additions o.file_picker next.file_picker)
    ∷ asked (ascii "sessionBus") (not (restricts o.session_bus next.session_bus))
    ∷ asked (ascii "filesystem") (lacks o.filesystem next.filesystem)
    ∷ asked (ascii "fsHost") (not o.fs_host && next.fs_host)
    ∷ asked (ascii "fsHostEtc") (not o.fs_host_etc && next.fs_host_etc)
    ∷ asked (ascii "fsHostHome") (not o.fs_host_home && next.fs_host_home)
    ∷ asked (ascii "fsExtra") (lacks o.fs_extra next.fs_extra)
    ∷ asked (ascii "env") (lacks o.env next.env)
    ∷ asked (ascii "network") (not o.network && next.network)
    ∷ asked (ascii "process") (not o.process && next.process)
    ∷ asked (ascii "userNamespaces") (not o.user_namespaces && next.user_namespaces)
    ∷ asked (ascii "asRoot") (not o.as_root && next.as_root)
    ∷ asked (ascii "allowedHostCommands") (lacks o.allowed_host_commands next.allowed_host_commands)
    ∷ []

unfoldable pub added_keys : List Asked → List Text
added_keys [] = []
added_keys (q ∷ qs) = let rest = added_keys qs in if q.added then q.key ∷ rest else rest

unfoldable pub additions : Override → Override → List Text
unfolding fields added_keys
additions o next = added_keys (fields o next)

-- `widestPerPath`: the first permission of each path keeps its place, and is widened by the later
-- ones; `widen` is the assignment at the index that the map has for the path.
unfoldable pub widen : FilesystemPermission → List FilesystemPermission → List FilesystemPermission
widen p [] = []
widen p (q ∷ qs) =
    let rest = widen p qs in
    if q.path == p.path
    then (if p.access == ascii "read-write"
        then record q { access = ascii "read-write" } ∷ qs
        else q ∷ qs)
    else q ∷ rest

unfoldable pub widest_from :
    List FilesystemPermission → List FilesystemPermission → List FilesystemPermission
unfolding widen
widest_from folded [] = folded
widest_from folded (p ∷ ps) =
    if any (λ q. q.path == p.path) folded
    then widest_from (widen p folded) ps
    else widest_from (folded ++ (p ∷ [])) ps

unfoldable pub widest_per_path : List FilesystemPermission → List FilesystemPermission
unfolding widest_from
widest_per_path ps = widest_from [] ps
