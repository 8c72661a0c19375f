-- ===== src/Tests/Clients.antt =====
-- Calls of `Get` of internal/clients/clients.go; a client is a number.
use xgql.Prelude.{ℕ, ◌≡◌, refl, true, false, none, some, [], ◌∷◌, lit, lookup, text_eq}
use xgql.Auth.Credentials.{hash}
use xgql.Clients.Sessions.{
  Session, Cache, Error, ok, err, Calls, remove, build, commit, finish, get,
}
use xgql.Clients.Reuse.{get_shares}
use xgql.Clients.Removal.{remove-get-remove}
use xgql.Tests.Auth.{someone, identity, no_groups}

abbrev empty : Cache ℕ
empty = record { active = []; cancelled = []; made = 0 }

abbrev succeeds : ℕ → Calls ℕ
succeeds n = record { http_client = true; cache = true; client = some n; synced = true }

abbrev never_syncs : Calls ℕ
never_syncs = record { http_client = true; cache = true; client = some 5; synced = false }

got : (get (succeeds 7) (lit "id") empty).1 ≡ ok 7
unfolding get build commit finish lookup
got = refl

failed : (get never_syncs (lit "id") empty).1 ≡ err Error.wait_for_cache_sync
unfolding get build commit finish lookup
failed = refl

abbrev first : Session ℕ
first = record { client = 1; serial = 0 }

got_someone : (get (succeeds 7) (hash identity no_groups (lit "salt") someone) empty).1 ≡ ok 7
unfolding get build commit finish lookup
got_someone = refl

get_shares_example :
    get
      (succeeds 8)
      (hash identity no_groups (lit "salt") (record {
        bearer_token = lit "another";
        basic_username = [];
        basic_password = [];
        impersonate = record (someone.impersonate) { extra = [] };
        authenticating_proxy = record (someone.authenticating_proxy) { extra = [] };
      }))
      (get (succeeds 7) (hash identity no_groups (lit "salt") someone) empty).0
    ≡ ((get (succeeds 7) (hash identity no_groups (lit "salt") someone) empty).0, ok 7)
get_shares_example =
    get_shares identity no_groups (lit "salt") (succeeds 7) (succeeds 8) empty someone
      (lit "another") [] [] [] [] 7 got_someone

abbrev ended : Cache ℕ
ended = record { active = (lit "id", first) ∷ []; cancelled = []; made = 1 }

remove-get-remove_example :
    let c1 = remove (lit "id") ended in
    let c2 = (get (succeeds 7) (lit "id") c1).0 in
    let c3 = remove (lit "id") c2 in
    ((get (succeeds 7) (lit "id") c1).1 ≡ ok 7)
    × (lookup c2.active (lit "id") ≡ some (record { client = 7; serial = c1.made }))
    × (lookup c3.active (lit "id") ≡ none)
    × (c3.cancelled ≡ c1.made ∷ c1.cancelled)
remove-get-remove_example =
    remove-get-remove (succeeds 7) (lit "id") ended 7 (refl, refl, refl, refl)
