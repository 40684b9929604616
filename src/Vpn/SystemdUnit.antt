-- ===== src/Vpn/SystemdUnit.antt =====
-- panel/infrastructure/vpn/systemd_unit.py and systemd_reload.py: the unit of a config and the
-- steps that install, stop and remove it. The file system and systemctl are a state that a record
-- of methods works on; a CalledProcessError is a `runtime_error` and an OSError a `file_error`.
pub mod Lines
pub mod Commands
use Prim.Native.String
use vpn_control_panel.Prelude.{
  ℕ, String, Bool, true, false, Option, none, some, List, [], ◌∷◌, ◌=ˢ◌, not, if◌then◌else◌, Error,
  file_error, runtime_error, Result, ok, err, Exec, ◌>>=◌, ◌>>◌, pure, raise, lift, strip, concat,
}
use vpn_control_panel.Domain.Enums.{ConfigProfile, profile_value, is_hysteria}
use vpn_control_panel.Domain.Settings.{SystemdSettings}
use vpn_control_panel.Vpn.ConfigBuilder.{child_path}

pub record SystemOps (S : Type 0) : Type 0 where
  -- `atomic_write(path, content, mode)`
  pub atomic_write : String → String → ℕ → Exec S (Unit {0})
  pub make_directory : String → Exec S (Unit {0})
  pub is_file : String → Exec S Bool
  -- a link of the name in the directory to a file beside it, in place of what was there
  pub replace_link : String → String → String → Exec S (Unit {0})
  pub unlink : String → Exec S (Unit {0})
  pub remove_tree : String → S → S
  -- `run_systemctl(action, service_name, input_text)`
  pub run_systemctl : String → Option String → Option String → Exec S (Unit {0})
  -- the action of VPN_SYSTEMCTL_ACTION, reload or restart
  pub systemctl_action : Result String
  pub wait_for_service_ready : String → ConfigProfile → Exec S (Unit {0})
  -- `str(uuid)`
  pub show_id : ℕ → String

unfoldable pub config_service_name : String → String → String
config_service_name prefix config_id = concat (prefix ∷ "-" ∷ config_id ∷ [])

abbrev pub live_base : ConfigProfile → SystemdSettings → String
live_base profile settings =
    if is_hysteria profile then settings.hysteria_config_dir else settings.xray_config_dir

-- The parent of `live_config_path`.
unfoldable pub live_config_dir : ConfigProfile → String → SystemdSettings → String
unfolding child_path
live_config_dir profile config_id settings = child_path (live_base profile settings) config_id

unfoldable pub live_config_path : ConfigProfile → String → String → SystemdSettings → String
unfolding live_config_dir child_path
live_config_path profile config_id config_filename settings =
    child_path (live_config_dir profile config_id settings) config_filename

unfoldable pub unit_file_path : String → SystemdSettings → String
unfolding child_path
unit_file_path service_name settings =
    child_path settings.unit_dir (concat (service_name ∷ ".service" ∷ []))

abbrev pub or_text : String → String → String
or_text s other = if s =ˢ "" then other else s

unfoldable pub exec_start : ConfigProfile → String → SystemdSettings → String
exec_start profile config_path settings =
    if is_hysteria profile
    then concat (settings.hysteria_binary ∷ " server -c " ∷ config_path ∷ [])
    else concat (settings.xray_binary ∷ " run -config " ∷ config_path ∷ [])

unfoldable pub description_line : ConfigProfile → String → String → String
unfolding strip
description_line profile service_name config_name = concat (
    "Description=VPN "
    ∷ or_text (strip config_name) service_name
    ∷ " ("
    ∷ profile_value profile
    ∷ ")"
    ∷ [])

unfoldable pub render_unit : ConfigProfile → String → String → String → SystemdSettings → String
unfolding exec_start description_line
render_unit profile service_name config_path config_name settings = concat (
    "[Unit]\n"
    ∷ description_line profile service_name config_name
    ∷ "\n"
    ∷ "After=network-online.target\n"
    ∷ "Wants=network-online.target\n"
    ∷ "\n"
    ∷ "[Service]\n"
    ∷ "Type=simple\n"
    ∷ concat ("ExecStart=" ∷ exec_start profile config_path settings ∷ [])
    ∷ "\n"
    ∷ "LimitNOFILE=1048576\n"
    ∷ "\n"
    ∷ "[Install]\n"
    ∷ "WantedBy=multi-user.target\n"
    ∷ [])

-- A PermissionError is the OSError with this text.
abbrev is_permission_error : Error → Bool
is_permission_error (file_error s) = s =ˢ "PermissionError"
is_permission_error _ = false

module _ {S : Type 0} (ops : SystemOps S) where
  abbrev pub reload_service : String → Exec S (Unit {0})
  reload_service service_name =
      lift ops.systemctl_action >>= λ action. ops.run_systemctl action (some service_name) none

  -- `except PermissionError: write_unit_file(…)`, on what the write gave
  abbrev or_write_unit : String → String → Result (Unit {0}) × S → Result (Unit {0}) × S
  or_write_unit service_name content (ok u, s) = (ok u, s)
  or_write_unit service_name content (err e, s) =
      if is_permission_error e
      then ops.run_systemctl "write-unit" (some service_name) (some content) s
      else (err e, s)

  abbrev enable_if : Bool → String → Exec S (Unit {0})
  enable_if true service_name = ops.run_systemctl "enable" (some service_name) none
  enable_if false service_name = pure tt

  unfoldable pub install_config_unit :
      ConfigProfile → String → String → String → SystemdSettings → Exec S String
  unfolding config_service_name live_config_path unit_file_path render_unit
  install_config_unit profile config_id config_filename config_name settings =
      let service_name = config_service_name settings.service_prefix config_id in
      let config_path = live_config_path profile config_id config_filename settings in
      let unit_path = unit_file_path service_name settings in
      let content = render_unit profile service_name config_path config_name settings in
      do
        installed ← ops.is_file unit_path
        (λ s. or_write_unit service_name content (ops.atomic_write unit_path content 0o644 s))
        ops.run_systemctl "daemon-reload" none none
        enable_if (not installed) service_name
        reload_service service_name
        ops.wait_for_service_ready service_name profile
        pure service_name

  -- `except subprocess.CalledProcessError: pass`
  abbrev pub passing_over : Result (Unit {0}) × S → Result (Unit {0}) × S
  passing_over (err (runtime_error t), s) = (ok tt, s)
  passing_over r = r

  -- The `try` block of `remove_config_unit`.
  abbrev removal : String → String → Exec S (Unit {0})
  removal service_name unit_path = do
    (λ s. passing_over (ops.run_systemctl "stop" (some service_name) none s))
    (λ s. passing_over (ops.run_systemctl "disable" (some service_name) none s))
    ops.unlink unit_path
    ops.run_systemctl "daemon-reload" none none

  abbrev or_remove_unit : String → Result (Unit {0}) × S → Result (Unit {0}) × S
  or_remove_unit service_name (ok u, s) = (ok u, s)
  or_remove_unit service_name (err (runtime_error t), s) =
      ops.run_systemctl "remove-unit" (some service_name) none s
  or_remove_unit service_name (err (file_error t), s) =
      ops.run_systemctl "remove-unit" (some service_name) none s
  or_remove_unit service_name (err e, s) = (err e, s)

  unfoldable pub remove_config_unit : ConfigProfile → String → SystemdSettings → Exec S (Unit {0})
  unfolding config_service_name unit_file_path live_config_dir
  remove_config_unit profile config_id settings =
      let service_name = config_service_name settings.service_prefix config_id in
      let unit_path = unit_file_path service_name settings in
      ops.is_file unit_path >>= λ installed.
      if installed
      then ((λ s. or_remove_unit service_name (removal service_name unit_path s))
          >> (λ s. (ok tt, ops.remove_tree (live_config_dir profile config_id settings) s)))
      else pure tt

  unfoldable pub stop_config_unit : String → SystemdSettings → Exec S (Unit {0})
  unfolding config_service_name
  stop_config_unit config_id settings s = passing_over (
      ops.run_systemctl "stop" (some (config_service_name settings.service_prefix config_id)) none
        s)
