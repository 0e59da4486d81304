-- ===== src/Tunnel/Rollback/Restored.antt =====
-- internal/server/tunnel.go: the members of a group, and what `Remove` leaves.
use spawn_relay.Common.{
  ◌≡◌, refl, arith, ap, sym, ◌∙◌, true, false, ◌||◌, List, [], ◌∷◌, ◌++◌, none, some, Text, text_eq,
  text_eq_iff, text_eq_refl, Pairwise, Member, at_head, in_tail, All-Member, Bool-cases,
  Option-cases, inl, inr,
}
use spawn_relay.Store.{Forward, clash}
use spawn_relay.Store.Conflict.{Separate, clash_comm}
use spawn_relay.Tunnel.{Runners, running, stop, remove, remove_all, mem_id, dropped, last_by_id}
use spawn_relay.Tunnel.Apply.{running-stop_self, running-stop_ne}

pub mem_id-append :
    (id : Text) (xs ys : List Forward) → mem_id id (xs ++ ys) ≡ (mem_id id xs || mem_id id ys)
mem_id-append id [] ys = refl
mem_id-append id (x ∷ xs) ys = ground (arith, mem_id-append id xs ys)

pub mem_id-Member : {f : Forward} {fs : List Forward} → Member f fs → mem_id f.id fs ≡ true
mem_id-Member {f} at_head = ground (arith, text_eq_refl f.id)
mem_id-Member (in_tail m) = ground (arith, mem_id-Member m)

pub mem_id-dropped :
    (f : Forward) (next prev : List Forward)
    → mem_id f.id next ≡ true
    → mem_id f.id (dropped next prev) ≡ false
mem_id-dropped f next [] m = refl
mem_id-dropped f next (p ∷ prev) m = elim (Bool-cases (mem_id p.id next)) [
  | inl stays ↦ rw stays (mem_id-dropped f next prev m)
  | inr goes ↦ elim (Bool-cases (text_eq p.id f.id)) [
    | inl here ↦
        let own : p.id ≡ f.id = (text_eq_iff p.id f.id).0 here in
        cc (m, goes, ap (λ (x : Text). mem_id x next) own)
    | inr other ↦ rw goes (ground (arith, mem_id-dropped f next prev m))
  ]
]

pub last_by_id-none :
    (id : Text) (fs : List Forward) → last_by_id id fs ≡ none → mem_id id fs ≡ false
last_by_id-none id [] e = refl
last_by_id-none id (f ∷ fs) e = elim (Option-cases (last_by_id id fs)) [
  | inr (g, found) ↦ cc (rw found at e)
  | inl missing ↦ elim (Bool-cases (text_eq f.id id)) [
    | inl here ↦ cc (rw (missing, here) at e)
    | inr other ↦ ground (arith, last_by_id-none id fs missing)
  ]
]

pub last_by_id-Member :
    (id : Text) (fs : List Forward) {o : Forward}
    → last_by_id id fs ≡ some o
    → Member o fs × (text_eq o.id id ≡ true)
last_by_id-Member id [] e = cc
last_by_id-Member id (f ∷ fs) {o} e = elim (Option-cases (last_by_id id fs)) [
  | inr (g, found) ↦
      let s : g ≡ o = ground arith in
      let (m, here) = last_by_id-Member id fs found in rw (← s) (in_tail m, here)
  | inl missing ↦ elim (Bool-cases (text_eq f.id id)) [
    | inl here ↦ let s : f ≡ o = ground arith in rw (← s) (at_head, here)
    | inr other ↦ absurd (ground arith)
  ]
]

pub Member-Separate :
    {a b : Forward} {fs : List Forward}
    → Pairwise Separate fs
    → Member a fs
    → Member b fs
    → text_eq a.id b.id ≡ false
    → clash a b ≡ false
Member-Separate {a} p at_head at_head h = cc (h, text_eq_refl a.id)
Member-Separate {a} p at_head (in_tail m) h = (All-Member (Separate a) p.0 m).1
Member-Separate {a} {b} p (in_tail m) at_head h = clash_comm a b ∙ (All-Member (Separate b) p.0 m).1
Member-Separate p (in_tail m) (in_tail n) h = Member-Separate p.1 m n h

running-stop-none :
    (id j : Text) (rs : Runners) → running j rs ≡ none → running j (stop id rs) ≡ none
running-stop-none id j rs e = elim (Bool-cases (text_eq id j)) [
  | inr other ↦ running-stop_ne id j rs other ∙ e
  | inl here ↦
      let own : id ≡ j = (text_eq_iff id j).0 here in
      ap (λ (x : Text). running x (stop id rs)) (sym own) ∙ running-stop_self id rs
]

pub running-remove_all-none :
    (rs : Runners) (fs : List Forward) (j : Text)
    → running j rs ≡ none
    → running j (remove_all rs fs) ≡ none
running-remove_all-none rs [] j e = e
running-remove_all-none rs (f ∷ fs) j e =
    running-remove_all-none (remove rs f.id) fs j (running-stop-none f.id j rs e)

pub running-remove_all-other :
    (rs : Runners) (fs : List Forward) (j : Text)
    → mem_id j fs ≡ false
    → running j (remove_all rs fs) ≡ running j rs
running-remove_all-other rs [] j h = refl
running-remove_all-other rs (f ∷ fs) j h =
    running-remove_all-other (remove rs f.id) fs j (ground arith)
    ∙ running-stop_ne f.id j rs (ground arith)

pub running-remove_all-gone :
    (rs : Runners) (fs : List Forward) (j : Text)
    → mem_id j fs ≡ true
    → running j (remove_all rs fs) ≡ none
running-remove_all-gone rs [] j h = cc
running-remove_all-gone rs (f ∷ fs) j h = elim (Bool-cases (text_eq f.id j)) [
  | inr other ↦ running-remove_all-gone (remove rs f.id) fs j (ground arith)
  | inl here ↦
      let own : f.id ≡ j = (text_eq_iff f.id j).0 here in
      running-remove_all-none (remove rs f.id) fs j
        (ap (λ (x : Text). running x (stop f.id rs)) (sym own) ∙ running-stop_self f.id rs)
]

-- what runs behind the removals has run before
pub running-remove_all-some :
    (rs : Runners) (fs : List Forward) (j : Text) {r : Forward}
    → running j (remove_all rs fs) ≡ some r
    → running j rs ≡ some r
running-remove_all-some rs fs j e = elim (Bool-cases (mem_id j fs)) [
  | inl gone ↦ cc (running-remove_all-gone rs fs j gone, e)
  | inr stays ↦ sym (running-remove_all-other rs fs j stays) ∙ e
]
