-- ===== src/Store/Order.antt =====
-- internal/store/store.go: `sortForwards`, `ForwardsInGroup`, `ForwardsForClient`, `GroupIDs`.
-- `sort.Slice` is not stable: the order of two forwards with one port and one protocol is open there,
-- and a store without port conflicts holds no such two.
use spawn_relay.Common.{
  ℕ, ◌==◌, Bool, List, [], ◌∷◌, Option, none, some, Text, text_eq, ltb, if◌then◌else◌, keep,
  sort_by, map,
}
use spawn_relay.Store.{State, Forward}
use spawn_relay.Store.TextOrder.{text_lt}

unfoldable pub less_forward : Forward → Forward → Bool
less_forward f g =
    if f.public_port == g.public_port
    then text_lt f.protocol g.protocol
    else ltb f.public_port g.public_port

unfoldable pub forwards_in_group : State → Text → List Forward
forwards_in_group st id = sort_by less_forward (keep (λ f. text_eq f.group_id id) st.forwards)

unfoldable pub forwards_for_client : State → Text → List Forward
forwards_for_client st id = sort_by less_forward (keep (λ f. text_eq f.client_id id) st.forwards)

-- the map `lowest`, with the group ids in the order in which they were added
pub lowest_of : Text → List (Text × ℕ) → Option ℕ
lowest_of id [] = none
lowest_of id ((k, p) ∷ m) = if text_eq k id then some p else lowest_of id m

pub set_lowest : Text → ℕ → List (Text × ℕ) → List (Text × ℕ)
set_lowest id p [] = (id, p) ∷ []
set_lowest id p ((k, q) ∷ m) = if text_eq k id then (k, p) ∷ m else (k, q) ∷ set_lowest id p m

-- one round of the loop over the forwards; `ids` are the keys of `lowest`, in order
note_port : List (Text × ℕ) → Forward → List (Text × ℕ)
note_port m f = elim (lowest_of f.group_id m) [
  | none ↦ set_lowest f.group_id f.public_port m
  | some p ↦ if ltb f.public_port p then set_lowest f.group_id f.public_port m else m
]

note_all : List (Text × ℕ) → List Forward → List (Text × ℕ)
note_all m [] = m
note_all m (f ∷ fs) = note_all (note_port m f) fs

unfoldable pub group_ids : State → List Text
unfolding note_all note_port lowest_of set_lowest
group_ids st = map (λ e. e.0) (sort_by (λ a b. ltb a.1 b.1) (note_all [] st.forwards))
