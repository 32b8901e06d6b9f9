-- ===== src/Sources/Refused.antt =====
-- An inventory that is not valid ends the pass over all the groups.
use superflash_ia.Prelude.{
  ℕ, suc, Bool, true, false, ◌&&◌, ◌≡◌, refl, inl, inr, Bool-cases, List, [], ◌∷◌, ◌++◌, arith, map,
}
use superflash_ia.Sources.Json.{Floats}
use superflash_ia.Sources.Fetch.{Request, Exchange, Outcome, ok, raised, Fetch, pure, after, ◌>>=◌}
use superflash_ia.Sources.Host.{InfrastructureSample}
use superflash_ia.Sources.Groups.{ManagedServer, Groups, group_servers}
use superflash_ia.Sources.Inventory.{inventory_server, is_valid_inventory}
use superflash_ia.Sources.Database.{
  Harvest, is_source_error, check_harvest, note_group, collect_group, collect_groups,
  collect_managed,
}

abbrev pub is_ok : {A : Type 0} → Outcome A → Bool
is_ok (ok a) = true
is_ok (raised e) = false

-- Whether every group has a valid inventory: instances of the pattern, and no two alike.
abbrev pub all_groups_valid : Groups → Bool
all_groups_valid [] = true
all_groups_valid ((key, members) ∷ groups) =
    is_valid_inventory (map inventory_server members) && all_groups_valid groups

is_ok-after :
    {A B : Type 0} (o : Outcome A) (f : A → Fetch B) (sent : List Request)
    → is_ok o ≡ false
    → is_ok (after o f sent).0 ≡ false
is_ok-after (ok a) f sent h = absurd (ground (arith, h))
is_ok-after (raised e) f sent h = refl

module _ {F : Floats} (network : List Request → Request → Exchange F) (now : ℕ) where
  is_ok-note_group :
      (o : Outcome (List (InfrastructureSample F))) (rest : Fetch (Harvest F))
      → ((sent : List Request) → is_ok (rest sent).0 ≡ false)
      → (sent : List Request) → is_ok (note_group o rest sent).0 ≡ false
  unfolding ◌>>=◌
  is_ok-note_group (ok samples) rest h sent =
      is_ok-after (rest sent).0 (λ r. pure (samples ++ r.0, r.1)) (rest sent).1 (h sent)
  is_ok-note_group (raised e) rest h sent = elim (Bool-cases (is_source_error e)) [
    | inl noted ↦
        rw (note_group, noted)
          (is_ok-after (rest sent).0 (λ r. pure (r.0, suc r.1)) (rest sent).1 (h sent))
    | inr fatal ↦ rw (note_group, fatal) refl
  ]

  is_ok-collect_groups :
      (groups : Groups)
      → all_groups_valid groups ≡ false
      → (sent : List Request) → is_ok (collect_groups network now groups sent).0 ≡ false
  unfolding collect_groups
  is_ok-collect_groups [] h sent = absurd (ground (arith, h))
  is_ok-collect_groups ((key, members) ∷ groups) h sent =
      elim (Bool-cases (is_valid_inventory (map inventory_server members))) [
        | inr invalid ↦ rw invalid refl
        | inl valid ↦
            let g = collect_group network now key members sent in
            rw valid (
              is_ok-note_group g.0 (collect_groups network now groups)
                (is_ok-collect_groups groups (ground (arith, h, valid))) g.1)
      ]

  -- If the inventory of one group is not valid (a host name has a character that no instance may
  -- have, or two servers of the group have the same host name), the pass gives no samples at all,
  -- not those of the other groups either, whatever Prometheus answers.
  pub is_ok-collect_managed :
      (servers : List ManagedServer) (sent : List Request)
      → all_groups_valid (group_servers [] servers) ≡ false
      → is_ok (collect_managed network now servers sent).0 ≡ false
  unfolding collect_managed ◌>>=◌
  is_ok-collect_managed servers sent h =
      let groups = group_servers [] servers in
      let pass = collect_groups network now groups sent in
      is_ok-after pass.0 (check_harvest groups) pass.1 (is_ok-collect_groups groups h sent)
