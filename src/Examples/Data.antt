-- ===== src/Examples/Data.antt =====
-- A policy with one tool, and a world in which it is called.
use secure_sudoers_setup.Base.{
  ℕ, zero, suc, pos, true, false, not, List, [], ◌∷◌, ◌++◌, Option, none, some, Result, ok, err,
  if◌then◌else◌,
}
use secure_sudoers_setup.Text.{Text, lit, text_eq, has_char}
use secure_sudoers_setup.Error.{IoError, not_found}
use secure_sudoers_setup.Fs.{FileSystem}
use secure_sudoers_setup.Regex.{RegexEngine}
use secure_sudoers_setup.Models.{
  ParameterType, ParameterConfig, ToolPolicy, GlobalSettings, SecureSudoersPolicy,
  default_global_settings, default_isolation_settings,
}
use secure_sudoers_setup.Models.Validate.{PathInfo}
use secure_sudoers_setup.Policy.{Codecs}
use secure_sudoers_setup.Policy.Pem.{PemFiles}
use secure_sudoers_setup.Binding.{Kernel}
use secure_sudoers_setup.Validator.Types.{ValidatedArg, ValidatedCommand}
use secure_sudoers_setup.Main.{World}
use secure_sudoers_setup.Main.Events.{local}

abbrev pub no_file : IoError
no_file = record { kind = not_found; raw_os_error = some 2; message = [] }

-- Every name opens, one descriptor further on, and nothing is a link.
abbrev pub open_fs : FileSystem
unfolding lit
open_fs = record {
  open_root = ok 3;
  openat = λ fd name. ok (suc fd);
  is_symlink = λ fd. false;
  readlinkat = λ fd. err no_file;
  from_utf8 = λ bytes. some bytes;
  proc_fd_link = λ fd. ok (lit "/usr/bin/apt");
}

-- Every pattern compiles and refuses texts with a semicolon.
abbrev pub engine : RegexEngine
unfolding has_char
engine = record { compiles = λ p. true; is_match = λ re t. not (has_char b';' t) }

abbrev pub no_files : PathInfo
no_files = record { canonicalize = λ p. err no_file; metadata = λ p. err no_file }

abbrev pub switch : ParameterConfig
switch = record {
  param_type = ParameterType.bool;
  sensitive = false;
  regex = none;
  compiled_regex = none;
  allowed = none;
  disallowed = none;
  help = none;
}

abbrev pub secret : ParameterConfig
unfolding lit
secret = record {
  param_type = ParameterType.string;
  sensitive = true;
  regex = some (lit "^[a-z]+$");
  compiled_regex = none;
  allowed = none;
  disallowed = some (lit "root" ∷ []);
  help = none;
}

abbrev pub apt : ToolPolicy
unfolding lit
apt = record {
  id = some (lit "apt-rule");
  real_binary = lit "/usr/bin/apt";
  verbs = lit "update" ∷ [];
  parameters = (lit "--quiet", switch) ∷ (lit "--token", secret) ∷ (lit "-p", secret) ∷ [];
  positional = some secret;
  help_description = [];
  isolation = none;
  env_whitelist = lit "TERM" ∷ [];
}

abbrev pub settings : GlobalSettings
unfolding lit
settings = record default_global_settings {
  common_env_whitelist = lit "LANG" ∷ [];
  blocked_paths = lit "/etc/shadow" ∷ [];
}

abbrev pub policy : SecureSudoersPolicy
unfolding lit
policy = record {
  version = lit "1.0";
  serial = pos 1;
  global_settings = settings;
  tools = (lit "apt", apt) ∷ [];
}

abbrev pub zeros : ℕ → List ℕ
zeros zero = []
zeros (suc n) = 0 ∷ zeros n

abbrev pub pem_text : Text
unfolding lit
pem_text =
    lit "-----BEGIN SECURE SUDOERS PUBLIC KEY-----"
    ++ (0x0a
        ∷ (lit "AAAA" ++ (0x0a ∷ (lit "-----END SECURE SUDOERS PUBLIC KEY-----" ++ 0x0a ∷ []))))

abbrev pub pem_files : PemFiles
unfolding lit
pem_files = record {
  current_dir = err no_file;
  read_fd = λ fd. ok pem_text;
  decode_base64 = λ t. ok (zeros 32);
}

abbrev pub codecs : Codecs
codecs = record {
  from_bytes = λ key. ok tt;
  verify = λ key message signature. ok tt;
  from_slice = λ bytes. ok policy;
}

abbrev pub kernel : Kernel
kernel = record { open_path = λ p. ok 9; fstat = λ fd. ok (record { dev = 1; ino = 2 }) }

abbrev pub read : Text → Result IoError (List ℕ)
unfolding lit text_eq
read path =
    if text_eq path (lit "/proc/self/cmdline")
    then ok (lit "apt" ++ (0 ∷ (lit "update" ++ (0 ∷ (lit "--quiet" ++ 0 ∷ [])))))
    else if text_eq path (lit "/etc/secure-sudoers/policy.json.sig")
    then ok (zeros 64)
    else ok (b'{' ∷ b'}' ∷ [])

abbrev pub sudo_env : Text → Option Text
unfolding lit
sudo_env name = some (lit "/usr/bin/apt update --quiet")

abbrev pub world : World
unfolding lit
world = record {
  fs = open_fs;
  engine = engine;
  info = no_files;
  files = pem_files;
  codecs = codecs;
  kernel = kernel;
  read = read;
  from_utf8 = λ bytes. some bytes;
  get_env = sudo_env;
  env_args = [];
  kernel_release = ok (lit "6.8.0-41-generic");
  txn_id = ok (lit "0000002a");
  now = lit "2025-01-01T00:00:00Z";
  identity = record {
    user = lit "alice";
    uid = 1001;
    euid = 0;
    sudo_uid = some 1001;
    account_type = local;
  };
  hash_fd = λ fd. ok (lit "ab");
  run_supervisor = λ command policy txn_id. ok (pos 0);
}

abbrev pub command : ValidatedCommand
unfolding lit
command = record {
  binary = record { path = lit "/usr/bin/apt"; fd = 6 };
  args = ValidatedArg.string (lit "update") ∷ ValidatedArg.string (lit "--quiet") ∷ [];
  isolation = default_isolation_settings;
  env_whitelist = lit "LANG" ∷ lit "TERM" ∷ [];
}
