-- ===== src/Path/Laws.antt =====
-- Laws of paths.
use secure_sudoers_setup.Base.{false, List, [], ◌∷◌, ◌≡◌, arith, All}
use secure_sudoers_setup.Text.{Text, text_eq, split}
use secure_sudoers_setup.Path.{
  Component, normal, components, segments, relative, dot, dot_dot, keep_segment, skip_first,
}

-- A name of one entry of a directory.
abbrev pub IsClean : Component → Type 0
IsClean (normal s) = (text_eq s [] ≡ false) × (text_eq s dot ≡ false) × (text_eq s dot_dot ≡ false)
IsClean _ = Unit

keep_segment-IsClean :
    (s : Text) (cs : List Component) → All IsClean cs → All IsClean (keep_segment s cs)
keep_segment-IsClean s cs h = ground arith

segments-IsClean : (ss : List Text) → All IsClean (segments ss)
unfolding segments
segments-IsClean [] = tt
segments-IsClean (s ∷ ss) = keep_segment-IsClean s (segments ss) (segments-IsClean ss)

relative-IsClean : (ss : List Text) → All IsClean (relative ss)
unfolding relative
relative-IsClean [] = tt
relative-IsClean (s ∷ ss) = ground (arith, segments-IsClean ss, segments-IsClean (s ∷ ss))

-- The names in a path's components are no `.`, no `..` and not empty.
pub components-IsClean : (t : Text) → All IsClean (components t)
unfolding components
components-IsClean t =
    ground (arith, segments-IsClean (split b'/' t), relative-IsClean (split b'/' t))

pub skip_first-IsClean : (cs : List Component) → All IsClean cs → All IsClean (skip_first cs)
skip_first-IsClean [] h = tt
skip_first-IsClean (c ∷ cs) h = h.1
