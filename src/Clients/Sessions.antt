-- ===== src/Clients/Sessions.antt =====
-- The `Cache` of internal/clients/clients.go: its map of sessions, `Get` and `remove`.
use xgql.Prelude.{
  ℕ, ◌+◌, Bool, Option, none, some, List, ◌∷◌, Text, Dict, lookup, insert, delete, if◌then◌else◌,
  is_empty, text_eq, ◌||◌,
}

-- `serial` names a session: what `cancel` and `Stop` of its context and ticker are called on.
pub record Session (C : Type 0) : Type 0 where
  pub client : C
  pub serial : ℕ

-- `active`, the sessions that were cancelled, and how many sessions were made so far.
pub record Cache (C : Type 0) : Type 0 where
  pub active : Dict Text (Session C)
  pub cancelled : List ℕ
  pub made : ℕ

pub data Error : Type 0 where
  new_http_client new_cache new_client wait_for_cache_sync : Error

pub data Result (C : Type 0) : Type 0 where
  ok : C → Result C
  err : Error → Result C

-- How the calls of other libraries end: `HTTPClientFor`, `newCache`, `newClient`, `WaitForCacheSync`.
pub record Calls (C : Type 0) : Type 0 where
  pub http_client : Bool
  pub cache : Bool
  pub client : Option C
  pub synced : Bool

-- InjectClientTLSCredentials, of the two files in a configuration.
unfoldable pub inject_client_tls : Text × Text → Text → Text → Text × Text
inject_client_tls cfg key_file cert_file =
    if is_empty key_file || is_empty cert_file then cfg else (key_file, cert_file)

module _ {C : Type 0} where
  -- remove
  unfoldable pub remove : Text → Cache C → Cache C
  remove id c = elim (lookup c.active id) [
    | none ↦ c
    | some sn ↦ record c { active = delete c.active id; cancelled = sn.serial ∷ c.cancelled }
  ]

  -- From `Inject` to the new session.
  unfoldable pub build :
      Calls C → Cache C → (Session C → Cache C → Cache C × Result C) → Cache C × Result C
  build w c next =
      if w.http_client
      then if w.cache
        then elim w.client [
          | none ↦ (c, err Error.new_client)
          | some wc ↦
              next (record { client = wc; serial = c.made }) (record c { made = c.made + 1 })
        ]
        else (c, err Error.new_cache)
      else (c, err Error.new_http_client)

  -- The section under the write lock: another goroutine might have set the session.
  unfoldable pub commit : Text → Session C → Cache C → Cache C × Option (Session C)
  commit id sn c = elim (lookup c.active id) [
    | some other ↦ (c, some other)
    | none ↦ (record c { active = insert c.active id sn }, none)
  ]

  -- What follows the commit: the other's client, or ours once its cache has synced.
  unfoldable pub finish :
      Bool → Text → Session C → Cache C × Option (Session C) → Cache C × Result C
  finish synced id sn (c, some other) = (c, ok other.client)
  finish synced id sn (c, none) =
      if synced then (c, ok sn.client) else (remove id c, err Error.wait_for_cache_sync)

  -- Get, of the credentials with the hash, without the goroutines that it starts, which call `remove`.
  unfoldable pub get : Calls C → Text → Cache C → Cache C × Result C
  get w id c = elim (lookup c.active id) [
    | some sn ↦ (c, ok sn.client)
    | none ↦ build w c (λ sn c'. finish w.synced id sn (commit id sn c'))
  ]
