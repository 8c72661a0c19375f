-- ===== src/Clients/Removal.antt =====
-- When sessions of internal/clients/clients.go end.
use xgql.Prelude.{
  ◌+◌, ◌≡◌, refl, ◌∙◌, true, none, some, ◌∷◌, Text, lookup, insert, text_eq, beq_refl,
  lookup-insert, lookup-delete, arith,
}
use xgql.Clients.Sessions.{Session, Cache, ok, Calls, remove, build, commit, finish, get}

module _ {C : Type 0} where
  lookup-remove : (id : Text) (c : Cache C) → lookup (remove id c).active id ≡ none
  unfolding remove
  lookup-remove id c = ground (arith, beq_refl id, lookup-delete c.active id id)

  remove-some :
      (id : Text) (c : Cache C) (sn : Session C)
      → lookup c.active id ≡ some sn
      → (remove id c).cancelled ≡ sn.serial ∷ c.cancelled
  unfolding remove
  remove-some id c sn h = ground (arith, h)

  get_miss :
      (w : Calls C) (id : Text) (c : Cache C) (wc : C)
      → lookup c.active id ≡ none
      → (w.http_client ≡ true) × (w.cache ≡ true) × (w.client ≡ some wc) × (w.synced ≡ true)
      → get w id c ≡ (
        record c {
          active = insert c.active id (record { client = wc; serial = c.made });
          made = c.made + 1;
        },
        ok wc,
      )
  unfolding get build commit finish
  get_miss w id c wc p h = ground (arith, p, h.0, h.1, h.2, h.3)

  -- Both goroutines of a session call `remove` with its hash when it ends. If a `Get` made a new session
  -- between the two calls, the second call cancels and drops the new one, which nobody ended.
  pub remove-get-remove :
      (w : Calls C) (id : Text) (c : Cache C) (wc : C)
      → (w.http_client ≡ true) × (w.cache ≡ true) × (w.client ≡ some wc) × (w.synced ≡ true)
      → let c1 = remove id c in
        let c2 = (get w id c1).0 in
        let c3 = remove id c2 in
        ((get w id c1).1 ≡ ok wc)
        × (lookup c2.active id ≡ some (record { client = wc; serial = c1.made }))
        × (lookup c3.active id ≡ none)
        × (c3.cancelled ≡ c1.made ∷ c1.cancelled)
  remove-get-remove w id c wc h =
      let c1 = remove id c in
      let gone = lookup-remove id c in
      let sn : Session C = record { client = wc; serial = c1.made } in
      let c2 : Cache C = record c1 { active = insert c1.active id sn; made = c1.made + 1 } in
      let here : lookup c2.active id ≡ some sn =
        lookup-insert c1.active id id sn ∙ (rw (beq_refl id)) in
      rw (get_miss w id c1 wc gone h) (refl, here, lookup-remove id c2, remove-some id c2 sn here)
