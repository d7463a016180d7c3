-- ===== src/Integrity/Policy/Restricts/Order.antt =====
-- `Restricts` orders permission sets.
use cpak.Base.{◌≡◌, refl, ◌∙◌, ◌↔◌, true, nat_eq, Text, text_eq, int_eq, int_eq}
use cpak.Base.{both}
use cpak.Types.Dbus.{restricts}
use cpak.Types.Dbus.Laws.{restricts_iff}
use cpak.Types.Override.{Override, texts_beq, texts_beq_iff}
use cpak.Types.Filesystem.Migrated.{with_migrated_filesystem}
use cpak.Integrity.Policy.Restricts.{
  flags, flags_within, limit_within, subset, actions_covered, permissions_covered, grants_no_more,
  policy_restricts,
}
use cpak.Integrity.Policy.Restricts.Laws.{
  flags_within_refl, flags_within_trans, limit_within_refl, limit_within_trans, subset_refl,
  subset_trans, actions_covered_refl, actions_covered_trans, permissions_covered_refl,
  permissions_covered_trans,
}

-- The comparisons of the function, each by its name.
pub record GrantsNoMore (current candidate : Override) : Type 0 where
  pub flags_ok : flags_within (flags candidate) (flags current) ≡ true
  pub memory_ok : limit_within candidate.memory_max_mb current.memory_max_mb ≡ true
  pub cpu_ok : limit_within candidate.cpu_quota current.cpu_quota ≡ true
  pub pids_ok : limit_within candidate.pids_max current.pids_max ≡ true
  pub commands_ok : subset candidate.allowed_host_commands current.allowed_host_commands ≡ true
  pub actions_ok : actions_covered current.host_actions candidate.host_actions ≡ true
  pub session_bus_ok : restricts current.session_bus candidate.session_bus ≡ true
  pub filesystem_ok : permissions_covered current.filesystem candidate.filesystem ≡ true
  pub env_ok : texts_beq current.env candidate.env ≡ true

pub grants_no_more_iff : (a b : Override) → (grants_no_more a b ≡ true) ↔ GrantsNoMore a b
unfolding grants_no_more
grants_no_more_iff a b = (
  λ h.
      let (flags_ok, h1) = both h in
      let (limits_ok, h2) = both h1 in
      let (commands_ok, h3) = both h2 in
      let (actions_ok, h4) = both h3 in
      let (session_bus_ok, h5) = both h4 in
      let (filesystem_ok, env_ok) = both h5 in
      let (memory_ok, others_ok) = both limits_ok in
      let (cpu_ok, pids_ok) = both others_ok in
      record {
        flags_ok = flags_ok;
        memory_ok = memory_ok;
        cpu_ok = cpu_ok;
        pids_ok = pids_ok;
        commands_ok = commands_ok;
        actions_ok = actions_ok;
        session_bus_ok = session_bus_ok;
        filesystem_ok = filesystem_ok;
        env_ok = env_ok;
      },
  λ h.
      rw
        (
          h.flags_ok, h.memory_ok, h.cpu_ok, h.pids_ok, h.commands_ok, h.actions_ok,
          h.session_bus_ok, h.filesystem_ok, h.env_ok,
        )
        refl,
)

GrantsNoMore-refl : (a : Override) → GrantsNoMore a a
GrantsNoMore-refl a = record {
  flags_ok = flags_within_refl (flags a);
  memory_ok = limit_within_refl a.memory_max_mb;
  cpu_ok = limit_within_refl a.cpu_quota;
  pids_ok = limit_within_refl a.pids_max;
  commands_ok = subset_refl a.allowed_host_commands;
  actions_ok = actions_covered_refl a.host_actions;
  session_bus_ok =
      (restricts_iff a.session_bus a.session_bus).1
        (record { own_within = λ n h. h; call_within = λ n p i m h. h });
  filesystem_ok = permissions_covered_refl a.filesystem;
  env_ok = (texts_beq_iff a.env a.env).1 refl;
}

IsWithin-trans :
    (a b c : Override)
    → restricts a.session_bus b.session_bus ≡ true
    → restricts b.session_bus c.session_bus ≡ true
    → restricts a.session_bus c.session_bus ≡ true
IsWithin-trans a b c h k =
    let ab = (restricts_iff a.session_bus b.session_bus).0 h in
    let bc = (restricts_iff b.session_bus c.session_bus).0 k in
    (restricts_iff a.session_bus c.session_bus).1 (record {
      own_within = λ n o. ab.own_within n (bc.own_within n o);
      call_within = λ n p i m o. ab.call_within n p i m (bc.call_within n p i m o);
    })

GrantsNoMore-trans : (a b c : Override) → GrantsNoMore a b → GrantsNoMore b c → GrantsNoMore a c
GrantsNoMore-trans a b c h k = record {
  flags_ok = flags_within_trans (flags c) (flags b) (flags a) k.flags_ok h.flags_ok;
  memory_ok =
      limit_within_trans c.memory_max_mb b.memory_max_mb a.memory_max_mb k.memory_ok h.memory_ok;
  cpu_ok = limit_within_trans c.cpu_quota b.cpu_quota a.cpu_quota k.cpu_ok h.cpu_ok;
  pids_ok = limit_within_trans c.pids_max b.pids_max a.pids_max k.pids_ok h.pids_ok;
  commands_ok =
      subset_trans c.allowed_host_commands b.allowed_host_commands a.allowed_host_commands
        k.commands_ok h.commands_ok;
  actions_ok =
      actions_covered_trans a.host_actions b.host_actions c.host_actions h.actions_ok k.actions_ok;
  session_bus_ok = IsWithin-trans a b c h.session_bus_ok k.session_bus_ok;
  filesystem_ok =
      permissions_covered_trans a.filesystem b.filesystem c.filesystem h.filesystem_ok
        k.filesystem_ok;
  env_ok =
      (texts_beq_iff a.env c.env).1
        ((texts_beq_iff a.env b.env).0 h.env_ok ∙ (texts_beq_iff b.env c.env).0 k.env_ok);
}

-- Every permission set restricts itself, whatever `filepath.Clean` does: offering again what is
-- held is never a widening.
policy_restricts_refl : (clean : Text → Text) (a : Override) → policy_restricts clean a a ≡ true
unfolding policy_restricts
policy_restricts_refl clean a =
    (grants_no_more_iff (with_migrated_filesystem clean a) (with_migrated_filesystem clean a)).1
      (GrantsNoMore-refl (with_migrated_filesystem clean a))

-- A chain of restrictions is a restriction: if `b` restricts `a` and `c` restricts `b`, then `c`
-- restricts `a`, over every field that is compared, and whatever `filepath.Clean` does.
pub policy_restricts_trans :
    (clean : Text → Text) (a b c : Override)
    → policy_restricts clean a b ≡ true
    → policy_restricts clean b c ≡ true
    → policy_restricts clean a c ≡ true
unfolding policy_restricts
policy_restricts_trans clean a b c h k =
    let read = with_migrated_filesystem clean in
    (grants_no_more_iff (read a) (read c)).1 (
      GrantsNoMore-trans (read a) (read b) (read c) ((grants_no_more_iff (read a) (read b)).0 h)
        ((grants_no_more_iff (read b) (read c)).0 k))
