-- ===== src/Policy/Denylist/Table.antt =====
-- crates/archangel-policy/src/denylist.rs: the types of a rule and of a match, and the rule table.
-- The regular expressions stand as the source's raw strings, with each backslash escaped.
use archangel.Common.{List, [], ◌∷◌}
use archangel.Common.Text.{Str, str}

pub data DenyCategory : Type 0 where
  self_protection ssh firewall destruction mass_deletion identity kernel exfiltration : DenyCategory

pub data PathScope : Type 0 where
  modify any : PathScope

pub data PathAccess : Type 0 where
  read write : PathAccess

pub record RuleSpec : Type 0 where
  pub id : Str
  pub category : DenyCategory
  pub description : Str
  pub command_patterns : List Str
  pub path_patterns : List Str
  pub path_scope : PathScope

-- Who owns a compiled pattern.
pub record Owner : Type 0 where
  pub category : DenyCategory
  pub rule_id : Str
  pub description : Str

abbrev self_protection_rule : RuleSpec
self_protection_rule = record {
  id = str "self-protection";
  category = self_protection;
  description =
      str "No modification of archangel's own config, binaries, units, keys, or audit log.";
  command_patterns = [];
  path_patterns =
      str "/etc/archangel/**"
      ∷ str "/var/lib/archangel/**"
      ∷ str "/var/lib/archangel-exec/**"
      ∷ str "/var/log/archangel/**"
      ∷ str "/usr/bin/archangel*"
      ∷ str "/usr/lib/systemd/system/archangel*.service"
      ∷ str "/etc/systemd/system/archangel*.service"
      ∷ str "/etc/systemd/system/archangel*.service.d/**"
      ∷ [];
  path_scope = modify;
}

abbrev ssh_rule : RuleSpec
ssh_rule = record {
  id = str "ssh";
  category = ssh;
  description = str "No tampering with SSH access or its configuration.";
  command_patterns =
      str "^systemctl (stop|disable|mask|kill) sshd?(\\.service)?$"
      ∷ str "^systemctl (stop|disable|mask|kill) ssh(\\.socket)?$"
      ∷ str "^service sshd? (stop|disable|kill)$"
      ∷ [];
  path_patterns =
      str "/etc/ssh/**"
      ∷ str "/root/.ssh/authorized_keys"
      ∷ str "/home/*/.ssh/authorized_keys"
      ∷ [];
  path_scope = any;
}

abbrev firewall_rule : RuleSpec
firewall_rule = record {
  id = str "firewall";
  category = firewall;
  description = str "No flushing or disabling of the host firewall.";
  command_patterns =
      str "^ufw disable$"
      ∷ str "^iptables -F$"
      ∷ str "^iptables --flush$"
      ∷ str "^nft flush ruleset$"
      ∷ str "^firewall-cmd --complete-reload$"
      ∷ str "^systemctl (stop|disable|mask) (firewalld|nftables|ufw)(\\.service)?$"
      ∷ [];
  path_patterns = [];
  path_scope = modify;
}

abbrev destruction_rule : RuleSpec
destruction_rule = record {
  id = str "destruction";
  category = destruction;
  description = str "No formatting, wiping, or raw writes to block devices.";
  command_patterns =
      str "^mkfs(\\.\\w+)?\\b"
      ∷ str "^wipefs\\b"
      ∷ str "^shred .*\\s/dev/(sd|nvme|vd|md|dm-|loop)"
      ∷ str "^dd\\b.*\\bof=/dev/(sd|nvme|vd|md|dm-|loop)"
      ∷ str "^cryptsetup luksFormat\\b"
      ∷ str "^parted\\b.*\\b(mklabel|mkpart|rm)\\b"
      ∷ str "^fdisk\\b"
      ∷ str "^sfdisk\\b"
      ∷ str "^blkdiscard\\b"
      ∷ str "^:\\(\\)\\s*\\{\\s*:\\s*\\|\\s*:&\\s*\\}\\s*;\\s*:"
      ∷ [];
  path_patterns = [];
  path_scope = modify;
}

abbrev mass_deletion_rule : RuleSpec
mass_deletion_rule = record {
  id = str "mass-deletion";
  category = mass_deletion;
  description = str "No catastrophic recursive removal of system trees.";
  command_patterns =
      str
        "^rm (-[rRfF]+ )?(/|/bin|/boot|/dev|/etc|/lib(64)?|/proc|/root|/sbin|/sys|/usr|/var)( |/|$)"
      ∷ str
          "^find (/|/bin|/boot|/dev|/etc|/lib(64)?|/proc|/root|/sbin|/sys|/usr|/var).*(-delete|-exec rm)"
      ∷ [];
  path_patterns = [];
  path_scope = modify;
}

abbrev identity_rule : RuleSpec
identity_rule = record {
  id = str "identity";
  category = identity;
  description = str "No silent modification of user identity, passwords, or sudo policy.";
  command_patterns =
      str "^passwd root$"
      ∷ str "^passwd -d "
      ∷ str "^usermod .*(-p|--password|--groups (sudo|wheel))"
      ∷ str "^useradd .*(--groups (sudo|wheel)|-G (sudo|wheel))"
      ∷ str "^visudo\\b"
      ∷ [];
  path_patterns =
      str "/etc/shadow"
      ∷ str "/etc/gshadow"
      ∷ str "/etc/sudoers"
      ∷ str "/etc/sudoers.d/**"
      ∷ str "/etc/pam.d/**"
      ∷ str "/etc/security/**"
      ∷ [];
  path_scope = any;
}

abbrev kernel_rule : RuleSpec
kernel_rule = record {
  id = str "kernel";
  category = kernel;
  description = str "No tampering with boot, kernel, or kernel modules.";
  command_patterns =
      str "^kexec\\b"
      ∷ str "^insmod\\b"
      ∷ str "^modprobe\\b"
      ∷ str "^rmmod\\b"
      ∷ str "^grub2?-install\\b"
      ∷ str "^grub2?-mkconfig\\b"
      ∷ str "^update-grub\\b"
      ∷ str "^update-initramfs\\b"
      ∷ str "^dracut\\b"
      ∷ [];
  path_patterns = str "/boot/**" ∷ str "/etc/default/grub" ∷ str "/etc/grub.d/**" ∷ [];
  path_scope = modify;
}

abbrev exfiltration_rule : RuleSpec
exfiltration_rule = record {
  id = str "exfiltration";
  category = exfiltration;
  description = str "Common reverse-shell and fetch-and-execute patterns.";
  command_patterns =
      str "\\| ?(bash|sh|zsh|python|perl|ruby|node)\\b"
      ∷ str "\\bcurl\\b.*\\| ?(bash|sh)\\b"
      ∷ str "\\bwget\\b.*\\| ?(bash|sh)\\b"
      ∷ str "\\bnc(at)? .*-e\\b"
      ∷ str "\\bsocat .*\\bEXEC\\b"
      ∷ str "\\bbash -i\\b.*>& ?/dev/tcp/"
      ∷ [];
  path_patterns = [];
  path_scope = modify;
}

unfoldable pub rules : List RuleSpec
rules =
    self_protection_rule ∷ ssh_rule ∷ firewall_rule ∷ destruction_rule ∷ mass_deletion_rule
    ∷ identity_rule ∷ kernel_rule ∷ exfiltration_rule ∷ []
