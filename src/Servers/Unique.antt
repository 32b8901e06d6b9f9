-- ===== src/Servers/Unique.antt =====
-- The inventory keeps its keys: one server at most has an id, and one an external id.
use superflash_ia.Prelude.{
  ℕ, ◌≤◌, String, Bool, true, false, not, ◌≡◌, sym, ap, subst, ◌∙◌, inl, inr, Bool-cases,
  Option-cases, Option, none, some, List, arith, count, ◌==◌, nat_eq, string_eq, nat_beq_iff,
  eq_iff,
}
use mathlib.Core.Option.{some-injective}
use superflash_ia.Channels.Rows.{
  update_first, count-update_first, count-update_first_le, count-add, count-none,
}
use superflash_ia.Servers.Types.{ServerRow, Inventory, ServerUpdate}
use superflash_ia.Servers.Rows.{
  bind-some, first-passes, count-select_le, count-replace_le, first_same,
}
use superflash_ia.Servers.Repository.{
  has_id, has_external_id, get, get_by_external_id, create, delete,
}
use superflash_ia.Servers.Endpoints.{
  required_value, apply_update, is_taken, store_update, update_server,
}

module _ {Details Number : Type 0} where
  -- The keys of the servers, and the key that is given next, which is higher.
  pub record HasKeys (servers : List (ServerRow Details Number)) (next : ℕ) : Type 0 where
    pub one_id : (key : ℕ) → count (has_id key) servers ≤ 1
    pub one_external_id : (external : String) → count (has_external_id external) servers ≤ 1
    pub next_is_free : (key : ℕ) → next ≤ key → count (has_id key) servers ≡ 0

  abbrev pub IsUnique : Inventory Details Number → Type 0
  IsUnique inv = HasKeys inv.servers inv.next_server

  -- An edit that keeps both keys.
  pub update_first-HasKeys :
      (p : ServerRow Details Number → Bool)
      (f : ServerRow Details Number → ServerRow Details Number)
      → ((s : ServerRow Details Number) → (f s).server_id ≡ s.server_id)
      → ((s : ServerRow Details Number) → (f s).external_id ≡ s.external_id)
      → (xs : List (ServerRow Details Number)) (next : ℕ) → HasKeys xs next
      → HasKeys (update_first p f xs) next
  update_first-HasKeys p f i e xs next u = record {
    one_id = λ key. omega (
      arith,
      u.one_id key,
      count-update_first_le p (has_id key) f (λ s h. subst (λ k. k == key ≡ true) (i s)) xs,
    );
    one_external_id = λ external. omega (
      arith,
      u.one_external_id external,
      count-update_first_le p (has_external_id external) f
          (λ s h. subst (λ k. k == external ≡ true) (e s)) xs,
    );
    next_is_free = λ key h. omega (
      arith,
      u.next_is_free key h,
      count-update_first_le p (has_id key) f (λ s h. subst (λ k. k == key ≡ true) (i s)) xs,
    );
  }

  pub create-IsUnique :
      (row : ServerRow Details Number) (inv : Inventory Details Number)
      → get_by_external_id row.external_id inv ≡ none
      → IsUnique inv
      → IsUnique (create row inv)
  unfolding create
  create-IsUnique row inv new u =
      let row' = record row { server_id = inv.next_server } in
      let a = λ (key : ℕ). count-add (has_id key) inv.servers row' in
      let free = u.next_is_free inv.next_server (omega arith) in
      record {
        one_id = λ key. elim (Bool-cases (inv.next_server == key)) [
          | inl same ↦
              let k : inv.next_server ≡ key = (nat_beq_iff inv.next_server key).0 same in
              let z = subst (λ k. count (has_id k) inv.servers ≡ 0) k free in
              ground (arith, a key, z, same)
          | inr other ↦ ground (arith, a key, u.one_id key, other)
        ];
        one_external_id = λ external. elim (Bool-cases (row.external_id == external)) [
          | inl same ↦
              let k : row.external_id ≡ external = (eq_iff row.external_id external).0 same in
              let n = count-none (has_external_id row.external_id) inv.servers new in
              let z = subst (λ k. count (has_external_id k) inv.servers ≡ 0) k n in
              let b = count-add (has_external_id external) inv.servers row' in
              ground (arith, b, z, same)
          | inr other ↦
              let b = count-add (has_external_id external) inv.servers row' in
              ground (arith, b, u.one_external_id external, other)
        ];
        next_is_free = λ key h. ground (arith, a key, u.next_is_free key (omega (arith, h)), h);
      }

  pub delete-IsUnique :
      (key : ℕ) (inv : Inventory Details Number) → IsUnique inv → IsUnique (delete key inv)
  unfolding delete
  delete-IsUnique key inv u = record {
    one_id = λ k.
        omega (arith, u.one_id k, count-select_le (has_id k) (λ s. not (has_id key s)) inv.servers);
    one_external_id = λ k. omega (
      arith,
      u.one_external_id k,
      count-select_le (has_external_id k) (λ s. not (has_id key s)) inv.servers,
    );
    next_is_free = λ k h. omega (
      arith,
      u.next_is_free k h,
      count-select_le (has_id k) (λ s. not (has_id key s)) inv.servers,
    );
  }

  apply_update_keys :
      (u : ServerUpdate Details Number) (s s' : ServerRow Details Number)
      → apply_update u s ≡ some s'
      → (s'.server_id ≡ s.server_id)
        × (required_value u.external_id s.external_id ≡ some s'.external_id)
  unfolding apply_update
  apply_update_keys u s s' h =
      let a = bind-some (required_value u.external_id s.external_id) _ s' h in
      let b = bind-some (required_value u.name s.name) _ s' a.2 in
      let c = bind-some (required_value u.enabled s.enabled) _ s' b.2 in
      let d = bind-some (u.details s.details) _ s' c.2 in
      let e = some-injective _ s' d.2 in
      (ap (λ r. r.server_id) (sym e), a.1 ∙ ap (λ r. some r.external_id) e)

  module _ (key : ℕ) (s s' : ServerRow Details Number) (inv : Inventory Details Number)
      (i : IsUnique inv) (found : get key inv ≡ some s) (external : String) where
    replaced_once :
        (has_external_id external s' ≡ true → has_external_id external s ≡ true)
        → count (has_external_id external) (update_first (has_id key) (λ _. s') inv.servers) ≤ 1
    replaced_once h = omega (
      arith,
      i.one_external_id external,
      count-replace_le (has_id key) (has_external_id external) s s' h inv.servers found,
    )

    -- Where the new external id is not of another server, it is still of one at most.
    one_external_id-is_taken :
        (v : Option (Option String))
        → is_taken v key inv ≡ false
        → required_value v s.external_id ≡ some s'.external_id
        → count (has_external_id external) (update_first (has_id key) (λ _. s') inv.servers) ≤ 1
    one_external_id-is_taken none free e =
        let k = some-injective _ _ e in
        replaced_once (λ h. subst (λ z. z == external ≡ true) (sym k) h)
    one_external_id-is_taken (some none) free e = absurd (ground (arith, e))
    one_external_id-is_taken (some (some new)) free e =
        let k : new ≡ s'.external_id = some-injective _ _ e in
        elim (Bool-cases (s'.external_id == external)) [
          | inr other ↦ replaced_once (λ h. absurd (ground (arith, h, other)))
          | inl same ↦
              let l : new ≡ external = k ∙ (eq_iff s'.external_id external).0 same in
              elim (Option-cases (get_by_external_id new inv)) [
                | inl unused ↦
                    let z =
                      subst (λ n. count (has_external_id n) inv.servers ≡ 0) l
                        (count-none (has_external_id new) inv.servers unused) in
                    let c =
                      count-update_first (has_id key) (has_external_id external) (λ _. s')
                        inv.servers in
                    omega (arith, z, c)
                | inr (d, used) ↦
                    let own : has_id key d ≡ true = ground (arith, free, used) in
                    let sd =
                      first_same (has_id key) (has_external_id new) s d inv.servers (i.one_id key)
                        found used own in
                    let had = first-passes (has_external_id new) inv.servers d used in
                    replaced_once (λ h.
                      subst (λ n. has_external_id n s ≡ true) l
                        (subst (λ z. has_external_id new z ≡ true) (sym sd) had))
              ]
        ]

  pub update_server-IsUnique :
      (key : ℕ) (u : ServerUpdate Details Number) (inv : Inventory Details Number)
      → IsUnique inv
      → IsUnique (update_server key u inv).0
  unfolding update_server store_update
  update_server-IsUnique key u inv i = elim (Option-cases (get key inv)) [
    | inl absent ↦ rw (update_server, absent) i
    | inr (s, found) ↦ elim (Bool-cases (is_taken u.external_id key inv)) [
      | inl taken ↦ rw (update_server, found, taken) i
      | inr free ↦ elim (Option-cases (apply_update u s)) [
        | inl violates ↦ rw (update_server, found, free, store_update, violates) i
        | inr (s', applies) ↦
            let k = apply_update_keys u s s' applies in
            let same = first-passes (has_id key) inv.servers s found in
            rw (update_server, found, free, store_update, applies)
              (record {
                one_id = λ j. omega (
                  arith,
                  i.one_id j,
                  count-replace_le (has_id key) (has_id j) s s'
                      (λ h. subst (λ z. z == j ≡ true) k.0 h) inv.servers found,
                );
                one_external_id = λ external.
                    one_external_id-is_taken key s s' inv i found external u.external_id free k.1;
                next_is_free = λ j h. omega (
                  arith,
                  i.next_is_free j h,
                  count-replace_le (has_id key) (has_id j) s s'
                      (λ h. subst (λ z. z == j ≡ true) k.0 h) inv.servers found,
                );
              })
      ]
    ]
  ]
