-- ===== src/Clients/Reuse.antt =====
-- When `Get` of internal/clients/clients.go hands out a client that is there already.
use xgql.Prelude.{
  ◌≡◌, inl, inr, true, Option, none, some, List, Text, Dict, lookup, insert, text_eq, text_beq_iff,
  beq_refl, lookup-insert, lookup-delete, arith, Option-cases,
}
use xgql.Auth.Credentials.{Credentials, hash}
use xgql.Auth.Hash.{hash-token}
use xgql.Clients.Sessions.{
  Session, Cache, Error, ok, err, Calls, remove, build, commit, finish, get,
}

module _ {C : Type 0} where
  abbrev pub client_of : Option (Session C) → Option C
  client_of none = none
  client_of (some sn) = some sn.client

  get-active :
      (w : Calls C) (id : Text) (c : Cache C) (k : C)
      → (get w id c).1 ≡ ok k
      → client_of (lookup (get w id c).0.active id) ≡ some k
  unfolding get build finish commit
  get-active w id c k h = elim (Option-cases w.client) [
    | inl p ↦ ground (arith, p)
    | inr (x, p) ↦ ground (
      arith,
      p,
      beq_refl id,
      lookup-insert c.active id id (record { client = x; serial = c.made }),
    )
  ]

  get_of_active :
      (w : Calls C) (id : Text) (c : Cache C) (k : C)
      → client_of (lookup c.active id) ≡ some k
      → get w id c ≡ (c, ok k)
  unfolding get
  get_of_active w id c k h = ground arith

  -- A client that `Get` returned is returned again by the next call for the same hash, however the
  -- calls of the other libraries would end then, and nothing changes.
  get-get :
      (v w : Calls C) (id : Text) (c : Cache C) (k : C)
      → (get v id c).1 ≡ ok k
      → get w id (get v id c).0 ≡ ((get v id c).0, ok k)
  get-get v w id c k h = get_of_active w id (get v id c).0 k (get-active v id c k h)

  -- After a call that failed each hash has the client that it had before, or none.
  get_failed :
      (w : Calls C) (id j : Text) (c : Cache C) (e : Error)
      → (get w id c).1 ≡ err e
      → lookup (get w id c).0.active j ≡ lookup c.active j
  unfolding get build finish commit remove
  get_failed w id j c e h = elim (Option-cases w.client) [
    | inl p ↦ ground (arith, p)
    | inr (x, p) ↦
        let sn : Session C = record { client = x; serial = c.made } in
        ground (
          arith,
          p,
          beq_refl id,
          text_beq_iff id j,
          lookup-insert c.active id id sn,
          lookup-insert c.active id j sn,
          lookup-delete (insert c.active id sn) id j,
        )
  ]

  -- Two calls for one hash that both found no session and made one each: whichever takes the lock
  -- first, both return its client, and the second leaves the map as it is.
  commit_race :
      (id : Text) (a b : Session C) (c : Cache C)
      → lookup c.active id ≡ none
      → let c1 = (commit id a c).0 in
        (finish true id a (commit id a c) ≡ (c1, ok a.client))
        × (finish true id b (commit id b c1) ≡ (c1, ok a.client))
  unfolding commit finish
  commit_race id a b c h = ground (arith, h, beq_refl id, lookup-insert c.active id id a)

  -- Whoever comes with other tokens, passwords or extra attributes, but the same usernames and groups,
  -- is handed the client that was made with the credentials of the first.
  pub get_shares :
      (digest : Text → Text) (sorted_set : List Text → List Text) (salt : Text) (v w : Calls C)
      (c : Cache C) (cr : Credentials) (token user password : Text) (ie pe : Dict Text (List Text))
      (k : C)
      → (get v (hash digest sorted_set salt cr) c).1 ≡ ok k
      → get w
          (hash digest sorted_set salt (record {
            bearer_token = token;
            basic_username = user;
            basic_password = password;
            impersonate = record (cr.impersonate) { extra = ie };
            authenticating_proxy = record (cr.authenticating_proxy) { extra = pe };
          }))
          (get v (hash digest sorted_set salt cr) c).0
        ≡ ((get v (hash digest sorted_set salt cr) c).0, ok k)
  get_shares digest sorted_set salt v w c cr token user password ie pe k h =
      rw (← hash-token digest sorted_set salt cr token user password ie pe)
        (get-get v w (hash digest sorted_set salt cr) c k h)
