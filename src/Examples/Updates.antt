-- ===== src/Examples/Updates.antt =====
-- A policy and its signature in memory, and a server.
use secure_sudoers_setup.Base.{false, true, [], ◌∷◌, none, some, ok, err, ◌≡◌, refl, ◌↔◌, ◌⊎◌}
use secure_sudoers_setup.Text.{Text, lit, text_eq, has_char, split}
use secure_sudoers_setup.Path.{
  components, parent, file_name, last_component, all_but_last, push_all, push_path,
}
use secure_sudoers_setup.Fs.{SecurePath, positional, check_path, check_blocked, is_blocked}
use secure_sudoers_setup.PathSecurity.{Owners}
use secure_sudoers_setup.Steps.{Post}
use secure_sudoers_setup.Disk.Laws.{File, SameFiles}
use secure_sudoers_setup.Disk.Memory.{Memory, memory_disk, memory_view, memory_view-IsLawful}
use secure_sudoers_setup.Immutable.Target.{locate}
use secure_sudoers_setup.Immutable.Locked.{Names}
use secure_sudoers_setup.Update.Install.{install_update}
use secure_sudoers_setup.Update.Replaced.{with_sig, Installed, Failed}
use secure_sudoers_setup.Update.Atomic.{IsPlaced, install_update-IsAtomic}
use secure_sudoers_setup.Update.Fetch.{Urls, Client, Response, fetch_limited}
use secure_sudoers_setup.Update.Limits.{IsFetched, fetch_limited_iff}
use secure_sudoers_setup.Update.Check.{Surroundings}
use secure_sudoers_setup.Update.{run_with_client}
use secure_sudoers_setup.Update.Verified.{IsVerified, run_with_client-IsVerified}
use secure_sudoers_setup.Examples.Data.{open_fs, engine, no_files, pem_files, codecs, zeros, policy}

abbrev policy_path : Text
unfolding lit
policy_path = lit "/etc/secure-sudoers/policy.json"

abbrev name : Text
unfolding lit
name = lit "policy.json"

abbrev folder : Text
unfolding lit
folder = lit "/etc/secure-sudoers"

abbrev dir : SecurePath
unfolding lit
dir = record { path = lit "/usr/bin/apt"; fd = 5 }

-- A directory of root that only root writes.
abbrev owners : Owners
owners = record { fstat = λ fd. ok (record { st_mode = 16_877; st_uid = 0 }); geteuid = 0 }

abbrev old_file : File
old_file = record { content = 1 ∷ []; mode = 384; immutable = false }

abbrev memory : Memory
memory = record { files = λ fd n. some old_file; drafts = λ tmp. old_file; next = 0 }

opens : check_path open_fs folder positional [] ≡ ok dir
unfolding check_path check_blocked is_blocked components split lit text_eq has_char
opens = refl

policy-IsPlaced : IsPlaced open_fs policy_path folder dir name
unfolding check_path check_blocked is_blocked components split lit parent file_name last_component
    all_but_last push_all push_path has_char text_eq
policy-IsPlaced = record {
  absolute = refl;
  in_folder = refl;
  checked = refl;
  has_name = refl;
  no_nul = refl;
}

sig-IsPlaced : IsPlaced open_fs (with_sig policy_path) folder dir (with_sig name)
unfolding check_path check_blocked is_blocked components split lit parent file_name last_component
    all_but_last push_all push_path has_char text_eq
sig-IsPlaced = record {
  absolute = refl;
  in_folder = refl;
  checked = refl;
  has_name = refl;
  no_nul = refl;
}

install_update-IsAtomic_example :
    Post
      (λ done t.
        Installed open_fs owners memory_disk memory_view memory_view-IsLawful 5 policy_path name
          (2 ∷ [])
          (3 ∷ [])
          memory
          t)
      (λ e t.
        Failed open_fs owners memory_disk memory_view memory_view-IsLawful 5 policy_path name
          (2 ∷ [])
          (3 ∷ [])
          memory
          e
          t)
      (install_update open_fs owners memory_disk policy_path (2 ∷ []) (3 ∷ []) memory)
unfolding dir
install_update-IsAtomic_example =
    install_update-IsAtomic open_fs owners memory_disk memory_view memory_view-IsLawful policy_path
      name folder dir (2 ∷ []) (3 ∷ []) policy-IsPlaced sig-IsPlaced memory

policy_located : Names open_fs memory_disk memory_view memory_view-IsLawful 5 true policy_path name
unfolding locate check_path check_blocked is_blocked components split lit parent file_name
    last_component all_but_last push_all push_path has_char text_eq
policy_located = refl

-- A URL is its text; the server sends 64 zeros.
abbrev urls : Urls
urls = record {
  Url = Text;
  parse = λ t. some t;
  scheme = λ u. u;
  path = λ u. u;
  set_path = λ p u. p;
  clear_query = λ u. u;
  clear_fragment = λ u. u;
  password = λ u. none;
  set_password = λ p u. u;
  username = λ u. [];
  set_username = λ n u. u;
  to_string = λ u. u;
}

abbrev answer : Response
answer = record {
  is_success = true;
  status = [];
  content_length = some 64;
  read_up_to = λ n. ok (zeros 64);
}

abbrev client : Client urls
client = record { send = λ u. ok answer }

fetch_limited_iff_example :
    (fetch_limited urls client [] ≡ ok (zeros 64)) ↔ IsFetched urls client [] (zeros 64)
fetch_limited_iff_example = fetch_limited_iff urls client [] (zeros 64)

abbrev surroundings : Surroundings
surroundings = record {
  fs = open_fs;
  owners = owners;
  disk = memory_disk;
  engine = engine;
  info = no_files;
  files = pem_files;
  codecs = codecs;
  from_str = λ t. some policy;
  urls = urls;
  client = client;
}

run_with_client-IsVerified_example :
    Post
      (λ done t.
        IsVerified surroundings (lit "https") [] policy_path true memory_view memory (ok done, t))
      (λ e t.
        SameFiles memory_view memory t
        ⊎ IsVerified surroundings (lit "https") [] policy_path true memory_view memory (err e, t))
      (run_with_client surroundings (lit "https") [] policy_path true memory)
run_with_client-IsVerified_example =
    run_with_client-IsVerified surroundings (lit "https") [] policy_path true memory_view
      memory_view-IsLawful memory
