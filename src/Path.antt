-- ===== src/Path.antt =====
-- `std::path` on Unix: a path is read through its components, as its equality and `starts_with` are.
pub mod Laws
use secure_sudoers_setup.Base.{
  ℕ, Bool, true, false, not, ◌&&◌, ◌==◌, List, [], ◌∷◌, ◌++◌, map, Option, none, some,
  if◌then◌else◌,
}
use secure_sudoers_setup.Text.{Text, text_eq, split, starts_with_char}

pub data Component : Type 0 where
  root_dir cur_dir parent_dir : Component
  normal : Text → Component

abbrev pub dot : Text
dot = b'.' ∷ []

abbrev pub dot_dot : Text
dot_dot = b'.' ∷ b'.' ∷ []

abbrev keep_segment : Text → List Component → List Component
keep_segment s later =
    if text_eq s []
    then later
    else if text_eq s dot
    then later
    else if text_eq s dot_dot
    then parent_dir ∷ later
    else normal s ∷ later

-- Empty segments and `.` are dropped.
unfoldable pub segments : List Text → List Component
segments [] = []
segments (s ∷ ss) = keep_segment s (segments ss)

-- `.` is a component at the start of a relative path only.
unfoldable pub relative : List Text → List Component
unfolding segments
relative [] = []
relative (s ∷ ss) = if text_eq s dot then cur_dir ∷ segments ss else segments (s ∷ ss)

abbrev pub is_absolute : Text → Bool
is_absolute t = starts_with_char t b'/'

-- `Path::new(t).components()`
unfoldable pub components : Text → List Component
unfolding segments relative
components t = if is_absolute t then root_dir ∷ segments (split b'/' t) else relative (split b'/' t)

unfoldable pub component_eq : Component → Component → Bool
component_eq root_dir root_dir = true
component_eq cur_dir cur_dir = true
component_eq parent_dir parent_dir = true
component_eq (normal s) (normal t) = text_eq s t
component_eq _ _ = false

-- `Path::starts_with`, on components.
unfoldable pub path_starts_with : List Component → List Component → Bool
unfolding component_eq
path_starts_with cs [] = true
path_starts_with [] (b ∷ bs) = false
path_starts_with (c ∷ cs) (b ∷ bs) = component_eq c b && path_starts_with cs bs

abbrev pub skip_first {ℓ} : {A : Type ℓ} → List A → List A
skip_first [] = []
skip_first (x ∷ xs) = xs

abbrev last_normal : Option Component → Option Text
last_normal (some (normal s)) = some s
last_normal _ = none

unfoldable pub last_component : List Component → Option Component
last_component [] = none
last_component (c ∷ []) = some c
last_component (c ∷ d ∷ cs) = last_component (d ∷ cs)

-- `Path::file_name`: the last component, if it is a normal one.
unfoldable pub file_name : Text → Option Text
unfolding components last_component
file_name t = last_normal (last_component (components t))

-- The absolute path with these names below the root.
abbrev pub below_root : List Text → List Component
below_root names = root_dir ∷ map normal names

-- `PathBuf::pop` on such a path; the root stays.
unfoldable pub pop : List Text → List Text
pop [] = []
pop (n ∷ []) = []
pop (n ∷ m ∷ ns) = n ∷ pop (m ∷ ns)

join_names : List Text → Text
join_names [] = []
join_names (n ∷ ns) = b'/' ∷ (n ++ join_names ns)

-- The text of such a path.
unfoldable pub render : List Text → Text
unfolding join_names
render [] = b'/' ∷ []
render (n ∷ ns) = join_names (n ∷ ns)

abbrev pub needs_separator : Text → Bool
needs_separator [] = false
needs_separator (c ∷ []) = not (c == b'/')
needs_separator (c ∷ d ∷ t) = needs_separator (d ∷ t)

-- `PathBuf::push`
unfoldable pub push_path : Text → Text → Text
push_path p q = if is_absolute q then q else if needs_separator p then p ++ (b'/' ∷ q) else p ++ q

abbrev pub component_text : Component → Text
component_text root_dir = b'/' ∷ []
component_text cur_dir = dot
component_text parent_dir = dot_dot
component_text (normal s) = s

-- The loop `for rem in rest { path.push(rem) }`.
unfoldable pub push_all : Text → List Component → Text
unfolding push_path
push_all p [] = p
push_all p (c ∷ cs) = push_all (push_path p (component_text c)) cs

unfoldable pub all_but_last : List Component → List Component
all_but_last [] = []
all_but_last (c ∷ []) = []
all_but_last (c ∷ d ∷ cs) = c ∷ all_but_last (d ∷ cs)

abbrev parent_of : List Component → Option Component → Option Text
parent_of cs none = none
parent_of cs (some root_dir) = none
parent_of cs (some _) = some (push_all [] (all_but_last cs))

-- `Path::parent`, up to repeated separators.
unfoldable pub parent : Text → Option Text
unfolding components last_component all_but_last push_all
parent t = parent_of (components t) (last_component (components t))
