-- ===== src/PortSpec/Render.antt =====
-- internal/store/portspec.go: `RenderPortSpec` and `GroupSpec`.
use spawn_relay.Common.{
  ℕ, ◌+◌, ◌==◌, Bool, ◌&&◌, List, [], ◌∷◌, ◌++◌, Text, codes, text_eq, itoa, join, ltb,
  if◌then◌else◌, map, sort_by,
}
use spawn_relay.Store.{Forward}
use spawn_relay.PortSpec.{PortEntry, less_entry, entry}

-- the loop test of the inner loop: `next` goes on the run that began with `first` and is at `last`.
-- The offsets are integers, so the comparison of the differences is written with sums.
abbrev continues : PortEntry → PortEntry → PortEntry → Bool
continues first last next =
    next.public_port == last.public_port + 1
    && text_eq next.protocol first.protocol
    && next.target_port + first.public_port == first.target_port + next.public_port

-- one part: the run from `first` to the port `last`
part : PortEntry → ℕ → Text
part first last =
    itoa first.public_port
    ++ ((if ltb first.public_port last then b'-' ∷ itoa last else [])
        ++ (b'/'
            ∷ (first.protocol
                ++ (if first.target_port == first.public_port
                    then []
                    else b'>' ∷ itoa first.target_port))))

-- both loops: the run that began with `first` has reached `last`
parts_from : PortEntry → PortEntry → List PortEntry → List Text
parts_from first last [] = part first last.public_port ∷ []
parts_from first last (e ∷ es) =
    let longer = parts_from first e es in
    let closed = part first last.public_port ∷ parts_from e e es in
    if continues first last e then longer else closed

parts : List PortEntry → List Text
unfolding parts_from
parts [] = []
parts (e ∷ es) = parts_from e e es

unfoldable pub render_port_spec : List PortEntry → Text
unfolding parts part
render_port_spec entries = join (codes ", ") (parts (sort_by less_entry entries))

-- `GroupSpec`
unfoldable pub group_spec : List Forward → Text
group_spec fs = render_port_spec (map entry fs)
