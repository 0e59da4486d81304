-- ===== src/Server/Groups/Prior.antt =====
-- internal/server/groups.go: the members that a group has before an update.
use spawn_relay.Common.{
  ℕ, ◌≡◌, true, false, Text, text_eq, All, All-map, keep-holds, All-keep, All-sort_by, Pairwise,
  Pairwise-sort_by, inl, inr, keep, ◌⊎◌,
}
use spawn_relay.Store.{State, Forward}
use spawn_relay.Store.Conflict.{Separate, Pairwise-keep}
use spawn_relay.Store.Order.{less_forward, forwards_in_group}
use spawn_relay.Server.Groups.Commit.{Separate-symm, Others}
use spawn_relay.Server.Groups.Members.{AreFresh, Pairwise-total}

-- the members of a group as `ForwardsInGroup` gives them
module _ (st : State) (id : Text) (separate : Pairwise Separate st.forwards) where
  pub in_group-Separate : Pairwise Separate (forwards_in_group st id)
  unfolding forwards_in_group
  in_group-Separate =
      Pairwise-sort_by less_forward Separate Separate-symm
        (keep (λ f. text_eq f.group_id id) st.forwards)
        (Pairwise-keep Separate (λ f. text_eq f.group_id id) st.forwards separate)

  pub in_group-AreFresh :
      (fresh : ℕ → Text) → AreFresh fresh st.forwards → AreFresh fresh (forwards_in_group st id)
  unfolding forwards_in_group
  in_group-AreFresh fresh new = record {
    distinct = new.distinct;
    unused = λ i.
        All-sort_by less_forward (λ o. text_eq o.id (fresh i) ≡ false)
          (keep (λ f. text_eq f.group_id id) st.forwards)
          (All-keep (λ o. text_eq o.id (fresh i) ≡ false) (λ f. text_eq f.group_id id) st.forwards
            (new.unused i));
  }

  pub in_group-Others :
      All (λ p. Others id (λ o. text_eq o.id p.id ≡ false) st.forwards) (forwards_in_group st id)
  unfolding forwards_in_group
  in_group-Others =
      All-sort_by less_forward (λ p. Others id (λ o. text_eq o.id p.id ≡ false) st.forwards)
        (keep (λ f. text_eq f.group_id id) st.forwards)
        (All-map
          (λ p. All (λ o. (p ≡ o) ⊎ Separate p o) st.forwards × (text_eq p.group_id id ≡ true))
          (λ p. Others id (λ o. text_eq o.id p.id ≡ false) st.forwards)
          (keep (λ f. text_eq f.group_id id) st.forwards)
          (λ p t.
            All-map (λ o. (p ≡ o) ⊎ Separate p o)
              (λ o. text_eq o.group_id id ≡ false → text_eq o.id p.id ≡ false) st.forwards
              (λ o h g. apart p o t.1 g h) t.0)
          (keep-holds (λ f. text_eq f.group_id id)
            (λ p. All (λ o. (p ≡ o) ⊎ Separate p o) st.forwards) st.forwards
            (Pairwise-total Separate Separate-symm st.forwards separate)))
    where
      apart :
          (p o : Forward)
          → text_eq p.group_id id ≡ true
          → text_eq o.group_id id ≡ false
          → (p ≡ o) ⊎ Separate p o
          → text_eq o.id p.id ≡ false
      apart p o mine other (inl e) = cc (rw e at mine, other)
      apart p o mine other (inr s) = (Separate-symm p o s).0
