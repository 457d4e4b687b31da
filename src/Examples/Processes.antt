-- ===== src/Examples/Processes.antt =====
-- A kernel on which every call succeeds, and the start of a command.
use secure_sudoers_setup.Base.{pos, true, false, [], ◌∷◌, ◌++◌, some, List, ok, ◌≡◌, refl}
use secure_sudoers_setup.Text.{Text, lit, text_eq, contains, has_char, split, trim, utf8_len}
use secure_sudoers_setup.Path.{
  below_root, components, file_name, last_component, all_but_last, push_all, push_path,
}
use secure_sudoers_setup.Models.{IsolationSettings}
use secure_sudoers_setup.Calls.{Machine, History, exited}
use secure_sudoers_setup.Capabilities.Drop.{
  read_digits, parse_number, parse_cap_last_cap, drop_bounding_from, drop_capabilities,
}
use secure_sudoers_setup.Isolation.Guard.{
  fstat_for_fd, traverse, safe_traverse, ensure_path_matches_fd, ensure_path_matches_fd_with_stat,
}
use secure_sudoers_setup.Isolation.Mounts.{
  unshare_namespaces, make_root_private, mount_shadow_fd, mount_blocked, apply_blocked_paths,
  mount_private, apply_private_mounts, mount_readonly, apply_readonly_mounts,
  pin_validated_path_parent, pin_path_at_fd,
}
use secure_sudoers_setup.Isolation.{setup_isolation}
use secure_sudoers_setup.Exec.Pins.{
  canonical_parent_path, parent_chain, pin_parents, pin_parent_chain_for_path, pin_args,
  pin_validated_path_arguments_with,
}
use secure_sudoers_setup.Exec.{
  ExecInput, build_scrubbed_env, nul_position, c_args, c_env, build_argv, prepare_exec,
}
use secure_sudoers_setup.Exec.Passed.{IsPassed, prepare_exec-IsPassed}
use secure_sudoers_setup.Fs.{Fd}
use secure_sudoers_setup.Base.{All}
use secure_sudoers_setup.Exec.Chain.{below, directories_above, chain_of-directories_above}
use secure_sudoers_setup.Exec.Pins.{chain_of}
use secure_sudoers_setup.Exec.Ordered.{
  Pin, parent, whole, pin_parent, pin_whole, IsPinnedDown, HasPlace, IfPath,
  pin_validated_path_arguments-IsPinnedDown,
}
use secure_sudoers_setup.Validator.Types.{ValidatedArg, ValidatedCommand, secure_path}
use secure_sudoers_setup.Examples.Data.{policy, command}

-- Every descriptor is a directory; the last capability is 2.
abbrev machine : Machine
unfolding lit
machine = record {
  answer = λ h c. ok 3;
  stat = λ h fd. ok (record { dev = 1; ino = 2; st_mode = 16_877 });
  cap_last_cap = ok (lit "2\n");
  getppid = λ h. 1;
  getpgrp = λ h. pos 7;
  wait = λ h pid. exited 0;
}

abbrev settings : IsolationSettings
unfolding lit
settings = record {
  unshare_network = true;
  unshare_pid = false;
  unshare_ipc = true;
  unshare_uts = true;
  private_mounts = lit "/tmp" ∷ [];
  readonly_mounts = lit "/etc" ∷ lit "/usr/lib" ∷ [];
}

abbrev hidden : List Text
unfolding lit
hidden = lit "/root" ∷ []

abbrev isolated : History
isolated = (setup_isolation machine settings hidden []).1

abbrev variables : List (Text × Text)
unfolding lit
variables = (lit "LANG", lit "C") ∷ (lit "LD_PRELOAD", lit "x.so") ∷ []

abbrev input : ExecInput
unfolding lit
input = record {
  binary_fd = 3;
  argv = lit "apt" ∷ lit "update" ∷ lit "--quiet" ∷ [];
  envp = (lit "LANG", lit "C") ∷ [];
}

abbrev prepared : History
prepared = (prepare_exec machine command policy variables (some 9) []).1

preparation_succeeds :
    prepare_exec machine command policy variables (some 9) [] ≡ (ok input, prepared)
unfolding prepare_exec setup_isolation unshare_namespaces make_root_private mount_shadow_fd
    mount_blocked apply_blocked_paths mount_private apply_private_mounts mount_readonly
    apply_readonly_mounts fstat_for_fd traverse safe_traverse ensure_path_matches_fd
    ensure_path_matches_fd_with_stat pin_validated_path_parent pin_path_at_fd canonical_parent_path
    parent_chain pin_parents pin_parent_chain_for_path pin_args pin_validated_path_arguments_with
    build_scrubbed_env nul_position c_args c_env build_argv read_digits parse_number
    parse_cap_last_cap drop_bounding_from drop_capabilities components split has_char contains
    text_eq trim utf8_len file_name last_component all_but_last push_all push_path lit
preparation_succeeds = refl

prepare_exec-IsPassed_example : IsPassed command variables input
prepare_exec-IsPassed_example =
    prepare_exec-IsPassed machine command policy variables (some 9) input [] prepared
      preparation_succeeds

-- Two files in one directory, one of them named twice.
abbrev copying : ValidatedCommand
unfolding lit
copying = record command {
  args =
      ValidatedArg.path (record { path = lit "/srv/www/a"; fd = 7 })
      ∷ ValidatedArg.string (lit "-v")
      ∷ ValidatedArg.path (record { path = lit "/srv/www/b"; fd = 8 })
      ∷ ValidatedArg.path (record { path = lit "/srv/www/a"; fd = 9 })
      ∷ [];
}

abbrev pins : List Pin
unfolding lit
pins =
    whole 8 (lit "/srv/www/b")
    ∷ whole 7 (lit "/srv/www/a")
    ∷ parent (lit "/srv/www")
    ∷ parent (lit "/srv")
    ∷ whole 6 (lit "/usr/bin/apt")
    ∷ parent (lit "/usr/bin")
    ∷ parent (lit "/usr")
    ∷ []

pinning_succeeds : pin_validated_path_arguments_with pin_parent pin_whole copying [] ≡ (ok tt, pins)
unfolding canonical_parent_path parent_chain pin_parents pin_parent_chain_for_path pin_args
    pin_validated_path_arguments_with components split has_char contains text_eq last_component
    all_but_last push_all push_path lit
pinning_succeeds = refl

-- Where the paths stand.
abbrev place_of :
    (path : Text) (ns : List Text) (x : Text) (fd : Fd)
    → components path ≡ below_root (ns ++ x ∷ [])
    → HasPlace (record { path = path; fd = fd })
place_of path ns x fd e = (directories_above [] ns, below ns x e)

binary_place : HasPlace copying.binary
unfolding components split has_char text_eq lit
binary_place = place_of _ (lit "usr" ∷ lit "bin" ∷ []) (lit "apt") 6 refl

argument_places : All (λ (arg : ValidatedArg). IfPath HasPlace (secure_path arg)) copying.args
unfolding components split has_char text_eq lit
argument_places = (
  place_of _ (lit "srv" ∷ lit "www" ∷ []) (lit "a") 7 refl,
  (
    tt,
    (
      place_of _ (lit "srv" ∷ lit "www" ∷ []) (lit "b") 8 refl,
      (place_of _ (lit "srv" ∷ lit "www" ∷ []) (lit "a") 9 refl, tt),
    ),
  ),
)

pin_validated_path_arguments-IsPinnedDown_example :
    (recorded : List Pin) × (pin_validated_path_arguments_with pin_parent pin_whole copying []
      ≡ (ok tt, recorded))
    × IsPinnedDown copying recorded
pin_validated_path_arguments-IsPinnedDown_example =
    pin_validated_path_arguments-IsPinnedDown copying binary_place argument_places

abbrev index_page : Text
unfolding lit
index_page = lit "/srv/www/index.html"

abbrev above_names : List Text
unfolding lit
above_names = lit "srv" ∷ lit "www" ∷ []

abbrev page_name : Text
unfolding lit
page_name = lit "index.html"

page_components : components index_page ≡ below_root (above_names ++ page_name ∷ [])
unfolding components split has_char text_eq lit
page_components = refl

chain_of-directories_above_example : chain_of index_page ≡ ok (directories_above [] above_names)
chain_of-directories_above_example =
    chain_of-directories_above index_page above_names page_name page_components
