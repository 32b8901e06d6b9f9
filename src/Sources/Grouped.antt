-- ===== src/Sources/Grouped.antt =====
-- The groups have every target once, and each group a key that is of one of the servers.
use superflash_ia.Prelude.{
  ◌+◌, Bool, true, ◌&&◌, ◌≡◌, inl, inr, Bool-cases, List, [], ◌∷◌, ◌++◌, arith, All, count,
  if◌then◌else◌,
}
use superflash_ia.Sources.Groups.{
  ManagedServer, GroupKey, Groups, key_beq, key_of, is_target, add_to_group, group_servers,
}

-- The servers of all the groups.
abbrev pub members_of : Groups → List ManagedServer
members_of [] = []
members_of ((key, members) ∷ groups) = members ++ members_of groups

count-append {ℓ} :
    {A : Type ℓ} (q : A → Bool) (xs ys : List A) → count q (xs ++ ys) ≡ count q xs + count q ys
count-append q [] ys = omega arith
count-append q (x ∷ xs) ys = ground (arith, count-append q xs ys)

module _ (q : ManagedServer → Bool) where
  count-add_to_group :
      (s : ManagedServer) (groups : Groups)
      → count q (members_of (add_to_group s groups))
        ≡ count q (s ∷ []) + count q (members_of groups)
  unfolding add_to_group
  count-add_to_group s [] = omega arith
  count-add_to_group s ((key, members) ∷ groups) = elim (Bool-cases (key_beq key (key_of s))) [
    | inl same ↦ rw same (
        omega (
          arith,
          count-append q (members ++ s ∷ []) (members_of groups),
          count-append q members (s ∷ []),
          count-append q members (members_of groups),
        ))
    | inr other ↦ rw other (
        omega (
          arith,
          count-append q members (members_of (add_to_group s groups)),
          count-append q members (members_of groups),
          count-add_to_group s groups,
        ))
  ]

  count-group_servers :
      (groups : Groups) (servers : List ManagedServer)
      → count q (members_of (group_servers groups servers))
        ≡ count q (members_of groups) + count (λ s. is_target s && q s) servers
  unfolding group_servers
  count-group_servers groups [] = omega arith
  count-group_servers groups (s ∷ servers) = elim (Bool-cases (is_target s)) [
    | inl target ↦
        let r = count-group_servers (add_to_group s groups) servers in
        let a = count-add_to_group s groups in rw target (ground (arith, r, a))
    | inr no_target ↦ rw no_target (count-group_servers groups servers)
  ]

  -- For every test of a server: as many servers of the groups pass as there are enabled servers with
  -- an address of Prometheus and a host name that pass. So each of these is in one group, once, and
  -- no other server is in any.
  pub count-members_of :
      (servers : List ManagedServer)
      → count q (members_of (group_servers [] servers)) ≡ count (λ s. is_target s && q s) servers
  count-members_of servers = omega (arith, count-group_servers [] servers)

module _ (P : GroupKey → Type 0) where
  add_to_group-All :
      (s : ManagedServer) (groups : Groups)
      → P (key_of s)
      → All (λ g. P g.0) groups
      → All (λ g. P g.0) (add_to_group s groups)
  unfolding add_to_group
  add_to_group-All s [] p ps = (p, tt)
  add_to_group-All s ((key, members) ∷ groups) p ps = elim (Bool-cases (key_beq key (key_of s))) [
    | inl same ↦ rw same ps
    | inr other ↦ rw other (ps.0, add_to_group-All s groups p ps.1)
  ]

  pub group_servers-All :
      (groups : Groups) (servers : List ManagedServer)
      → All (λ s. is_target s ≡ true → P (key_of s)) servers
      → All (λ g. P g.0) groups
      → All (λ g. P g.0) (group_servers groups servers)
  unfolding group_servers
  group_servers-All groups [] ps gs = gs
  group_servers-All groups (s ∷ servers) ps gs =
      group_servers-All (if is_target s then add_to_group s groups else groups) servers ps.1
        (elim (Bool-cases (is_target s)) [
          | inl target ↦ rw target (add_to_group-All s groups (ps.0 target) gs)
          | inr no_target ↦ rw no_target gs
        ])
