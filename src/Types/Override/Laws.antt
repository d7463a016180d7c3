-- ===== src/Types/Override/Laws.antt =====
-- What an update that adds nothing keeps to.
use cpak.Base.{
  ◌≡◌, refl, sym, ◌∙◌, inl, inr, Bool, true, false, not, ◌&&◌, ◌||◌, List, [], ◌∷◌, Memᴰ, arith, Eq,
  ◌==◌, nat_eq, Bool-cases, any, any_of_mem, contains, contains_mem, Text, ascii, text_beq, text_eq,
  int_eq, int_eq,
}
use mathlib.Core.Bool.{true≢false}
use cpak.Types.Dbus.Laws.{IsWithin, restricts_iff}
use cpak.Types.HostActions.{HostActionGrant}
use cpak.Types.Override.{
  Override, FilesystemPermission, file_picker_has_additions, Asked, added_keys, fields, additions,
  permission_eq, action_eq,
}

-- No key is added exactly if none of the questions is answered by yes.
quiet :
    (key : Text) (qs : List Asked)
    → added_keys qs ≡ []
    → any (λ q. (q.key == key) && q.added) qs ≡ false
unfolding added_keys any
quiet key [] h = refl
quiet key (q ∷ qs) h = ground (arith, quiet key qs (ground arith))

lacks_none :
    {A : Type 0} ⦃e : Eq A⦄ (current next : List A)
    → any (λ x. not (contains x current)) next ≡ false
    → (x : A) → Memᴰ x next
    → Memᴰ x current
lacks_none current next h x m = elim (Bool-cases (contains x current)) [
  | inl c ↦ contains_mem x current c
  | inr c ↦
      absurd
        (true≢false (sym (any_of_mem (λ y. not (contains y current)) x next m (rw c refl)) ∙ h))
]

-- What is granted next is granted now.
abbrev pub Within : Bool → Bool → Type 0
Within next now = next ≡ true → now ≡ true

within : {now next : Bool} → ((not now && next) || false) ≡ false → Within next now
within {now = true} h n = refl
within {now = false} {next = true} h n = sym h
within {now = false} {next = false} h n = n

not-false : (b : Bool) → not b ≡ false → b ≡ true
not-false true h = refl
not-false false h = cc

only : {b : Bool} → (b || false) ≡ false → b ≡ false
only {b = true} h = h
only {b = false} h = refl

-- No socket, display or Bluetooth that the current permissions lack.
pub record SocketsKept (o next : Override) : Type 0 where
  pub socket_x11 : Within next.socket_x11 o.socket_x11
  pub display_x11 : Within next.display_x11 o.display_x11
  pub socket_wayland : Within next.socket_wayland o.socket_wayland
  pub socket_pulse_audio : Within next.socket_pulse_audio o.socket_pulse_audio
  pub socket_session_bus : Within next.socket_session_bus o.socket_session_bus
  pub socket_system_bus : Within next.socket_system_bus o.socket_system_bus
  pub socket_ssh_agent : Within next.socket_ssh_agent o.socket_ssh_agent
  pub socket_cups : Within next.socket_cups o.socket_cups
  pub socket_gpg_agent : Within next.socket_gpg_agent o.socket_gpg_agent
  pub socket_at_spi_bus : Within next.socket_at_spi_bus o.socket_at_spi_bus
  pub socket_bluetooth : Within next.socket_bluetooth o.socket_bluetooth
  pub bluetooth : Within next.bluetooth o.bluetooth

-- No device.
pub record DevicesKept (o next : Override) : Type 0 where
  pub device_dri : Within next.device_dri o.device_dri
  pub device_kvm : Within next.device_kvm o.device_kvm
  pub device_shm : Within next.device_shm o.device_shm
  pub device_alsa : Within next.device_alsa o.device_alsa
  pub device_video : Within next.device_video o.device_video
  pub device_fuse : Within next.device_fuse o.device_fuse
  pub device_tun : Within next.device_tun o.device_tun
  pub device_usb : Within next.device_usb o.device_usb
  pub device_serial : Within next.device_serial o.device_serial
  pub device_input : Within next.device_input o.device_input
  pub device_tty : Within next.device_tty o.device_tty
  pub device_all : Within next.device_all o.device_all

-- No portal, no path of the host, no network, process, namespace or root.
pub record HostKept (o next : Override) : Type 0 where
  pub notification : Within next.notification o.notification
  pub open_uri : Within next.open_uri o.open_uri
  pub host_applications : Within next.host_applications o.host_applications
  pub fs_host : Within next.fs_host o.fs_host
  pub fs_host_etc : Within next.fs_host_etc o.fs_host_etc
  pub fs_host_home : Within next.fs_host_home o.fs_host_home
  pub network : Within next.network o.network
  pub process : Within next.process o.process
  pub user_namespaces : Within next.user_namespaces o.user_namespaces
  pub as_root : Within next.as_root o.as_root

-- The permissions of an update are among the current ones.
pub record IsNoWider (o next : Override) : Type 0 where
  pub sockets : SocketsKept o next
  pub devices : DevicesKept o next
  pub host : HostKept o next
  pub session_bus : IsWithin next.session_bus o.session_bus
  pub file_picker : file_picker_has_additions o.file_picker next.file_picker ≡ false
  pub filesystem : (p : FilesystemPermission) → Memᴰ p next.filesystem → Memᴰ p o.filesystem
  pub fs_extra : (p : Text) → Memᴰ p next.fs_extra → Memᴰ p o.fs_extra
  pub env : (v : Text) → Memᴰ v next.env → Memᴰ v o.env
  pub host_actions : (g : HostActionGrant) → Memᴰ g next.host_actions → Memᴰ g o.host_actions
  pub host_commands :
      (c : Text) → Memᴰ c next.allowed_host_commands → Memᴰ c o.allowed_host_commands

additions-SocketsKept : (o next : Override) → additions o next ≡ [] → SocketsKept o next
unfolding additions fields any text_beq
additions-SocketsKept o next h = record {
  socket_x11 = within (quiet (ascii "socketX11") (fields o next) h);
  display_x11 = within (quiet (ascii "displayX11") (fields o next) h);
  socket_wayland = within (quiet (ascii "socketWayland") (fields o next) h);
  socket_pulse_audio = within (quiet (ascii "socketPulseAudio") (fields o next) h);
  socket_session_bus = within (quiet (ascii "socketSessionBus") (fields o next) h);
  socket_system_bus = within (quiet (ascii "socketSystemBus") (fields o next) h);
  socket_ssh_agent = within (quiet (ascii "socketSshAgent") (fields o next) h);
  socket_cups = within (quiet (ascii "socketCups") (fields o next) h);
  socket_gpg_agent = within (quiet (ascii "socketGpgAgent") (fields o next) h);
  socket_at_spi_bus = within (quiet (ascii "socketAtSpiBus") (fields o next) h);
  socket_bluetooth = within (quiet (ascii "socketBluetooth") (fields o next) h);
  bluetooth = within (quiet (ascii "bluetooth") (fields o next) h);
}

additions-DevicesKept : (o next : Override) → additions o next ≡ [] → DevicesKept o next
unfolding additions fields any text_beq
additions-DevicesKept o next h = record {
  device_dri = within (quiet (ascii "deviceDri") (fields o next) h);
  device_kvm = within (quiet (ascii "deviceKvm") (fields o next) h);
  device_shm = within (quiet (ascii "deviceShm") (fields o next) h);
  device_alsa = within (quiet (ascii "deviceAlsa") (fields o next) h);
  device_video = within (quiet (ascii "deviceVideo") (fields o next) h);
  device_fuse = within (quiet (ascii "deviceFuse") (fields o next) h);
  device_tun = within (quiet (ascii "deviceTun") (fields o next) h);
  device_usb = within (quiet (ascii "deviceUsb") (fields o next) h);
  device_serial = within (quiet (ascii "deviceSerial") (fields o next) h);
  device_input = within (quiet (ascii "deviceInput") (fields o next) h);
  device_tty = within (quiet (ascii "deviceTTY") (fields o next) h);
  device_all = within (quiet (ascii "deviceAll") (fields o next) h);
}

additions-HostKept : (o next : Override) → additions o next ≡ [] → HostKept o next
unfolding additions fields any text_beq
additions-HostKept o next h = record {
  notification = within (quiet (ascii "notification") (fields o next) h);
  open_uri = within (quiet (ascii "openURI") (fields o next) h);
  host_applications = within (quiet (ascii "hostApplications") (fields o next) h);
  fs_host = within (quiet (ascii "fsHost") (fields o next) h);
  fs_host_etc = within (quiet (ascii "fsHostEtc") (fields o next) h);
  fs_host_home = within (quiet (ascii "fsHostHome") (fields o next) h);
  network = within (quiet (ascii "network") (fields o next) h);
  process = within (quiet (ascii "process") (fields o next) h);
  user_namespaces = within (quiet (ascii "userNamespaces") (fields o next) h);
  as_root = within (quiet (ascii "asRoot") (fields o next) h);
}

-- An update without additions asks for nothing that the current permissions lack: no socket, no
-- device, no part of the host, no name or call on the session bus, no way to pick a file, no path,
-- variable, host action or host command.
pub additions-IsNoWider : (o next : Override) → additions o next ≡ [] → IsNoWider o next
unfolding additions fields any text_beq
additions-IsNoWider o next h = record {
  sockets = additions-SocketsKept o next h;
  devices = additions-DevicesKept o next h;
  host = additions-HostKept o next h;
  session_bus =
      (restricts_iff o.session_bus next.session_bus).0
        (not-false _ (only (quiet (ascii "sessionBus") (fields o next) h)));
  file_picker = only (quiet (ascii "filePicker") (fields o next) h);
  filesystem =
      lacks_none o.filesystem next.filesystem (only (quiet (ascii "filesystem") (fields o next) h));
  fs_extra = lacks_none o.fs_extra next.fs_extra (only (quiet (ascii "fsExtra") (fields o next) h));
  env = lacks_none o.env next.env (only (quiet (ascii "env") (fields o next) h));
  host_actions =
      lacks_none o.host_actions next.host_actions
        (only (quiet (ascii "hostActions") (fields o next) h));
  host_commands =
      lacks_none o.allowed_host_commands next.allowed_host_commands
        (only (quiet (ascii "allowedHostCommands") (fields o next) h));
}
