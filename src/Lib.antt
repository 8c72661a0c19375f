-- ===== src/Lib.antt =====
-- Verification library of xgql, a GraphQL server for the Kubernetes resources of Crossplane.
--
-- A request carries credentials (internal/auth). The resolvers (internal/graph/resolvers) ask the client
-- cache (internal/clients) for the client of those credentials, whose reads go through two layers of
-- internal/cache: one that moves objects to a database on disk some time after their last use, and one
-- that remembers what each live query has read and triggers the query when that changes. A live query
-- (internal/live_query) is then run again, at most once in a throttle interval, and sends patches. What
-- is read becomes a GraphQL type by internal/graph/model.
--
-- Files, with the code that they model:
--   Prelude         shared names, tests on native numbers, lists, maps, binary search and texts
--   Kube            the kinds of Kubernetes objects
--   Cache/Cleaner   internal/cache/cleaner.go: `add` and `collect` are add and collect; Loop has Schedule
--                   and the goroutine Start as a step relation
--   Cache/Set       internal/cache/set.go
--   Cache/Tracker   internal/cache/live_query.go, liveQueryTracker: what one live query has read
--   Cache/LiveQueries  the same file, liveQueryCache: the event handlers and trackObject
--   Cache/Bolt      internal/cache/bbolt_cache.go: cleanup, rehydrateObject, rehydrateObjectList;
--                   Transactions has txOnce, Client has Get, List, putObject and WithBBoltCache
--   Live/Debounce   internal/live_query/runtime.go: debounce as a step relation
--   Live/Patch      internal/live_query/json_patch.go: CreateJSONPatch
--   Live/Responses  internal/live_query/extension.go: InterceptOperation
--   Live/Operation  the same file: MutateOperationContext
--   Refresh         the live queries as a whole: the handlers and reads of internal/cache/live_query.go, the
--                   loops of runtime.go and the readers of extension.go as one step relation
--   Auth            internal/auth/auth.go: Header is the header map of net/http, Extract and Credentials
--                   are the functions of the file
--   Clients         internal/clients/clients.go: Cache.Get and Cache.remove
--   Model/Id        internal/graph/model/id.go and sort.go
--   Model/Detect    GetKubernetesResource of internal/graph/model/common.go, and the tests of
--                   internal/unstructured
--   Model/Meta      labels, annotations, data and conditions: internal/graph/model/objectmeta.go and common.go
--   Model/FieldPath internal/graph/model/fieldpath.go
--   Model/Package   internal/graph/model/package.go: packages and their revisions
--   Model/Composites   internal/graph/model/composite.go, managed.go and providerconfig.go
--   Model/Definitions  internal/graph/model/apiextensions.go, and the definitions of common.go
--   Model/Plain     internal/graph/model/event.go, and the secrets and config maps of common.go
--   Unstructured    internal/unstructured: the getters and setters of each type, with its tests
--   Present         internal/graph/present/present.go
--   Resolvers/Objects      what the resolvers read, and how it is modelled
--   Resolvers/Connections  what the handlers of internal/graph/resolvers do alike
--   Resolvers/Composed     Resources and Resource of internal/graph/resolvers/composite.go
--   Resolvers/References   the other reads of composite.go, of managed.go and providerconfig.go
--   Resolvers/Tree         CrossplaneResourceTree of internal/graph/resolvers/query.go
--   Resolvers/Queries      the other queries of that file
--   Resolvers/Packages     internal/graph/resolvers/configuration.go and provider.go
--   Resolvers/Definitions  internal/graph/resolvers/apiextensions.go
--   Resolvers/Defined      DefinedResources of internal/graph/resolvers/common.go
--   Resolvers/Owners       internal/graph/resolvers/objectmeta.go
--   Resolvers/Events    internal/graph/resolvers/event.go
--   Resolvers/Mutation  internal/graph/resolvers/mutation.go
--   Tests           the theorems at concrete inputs
--
-- State is passed on: a component's mutable fields are a record, and each method is a function from the
-- record to the record and what it returns. A Go map is an association list without order; a string is
-- the list of its bytes; an error is a constructor of the component's own type. Goroutines are step
-- relations in which a lock's critical section is one step. Code of other packages is a parameter, with
-- what it does where a theorem needs it as a hypothesis; how its calls end is given by Booleans.
--
-- Goroutines that a resolver waits for add what they find in the order in which they end: such a handler
-- is a function of its references in that order.
--
-- Numbers are natural numbers without a bound, but for the generation of a cleaner's entry, which wraps
-- around at 2^64 as in the source. Fuel is used twice. The loop of CreateJSONPatch gets the length of the
-- patch; that this is enough is part of its theorem. getAllDescendant recurs without a bound in the
-- source; its fuel is the depth, and what runs out of it is none. Binary search recurses on the length
-- of the list.
--
-- In Refresh a send on an unbuffered channel and its receipt are one step, a read from the cache and its
-- registration with the tracker are one step, and so is a handler up to its triggers, which follow one by
-- one; the source reads first and registers afterwards.
--
-- The objects of a cleanup are values: an object that is in it twice, as two pointers or one, is left out
-- of the theorems on it, and sort.Slice is a parameter that reorders, since it is not stable. The field
-- paths of crossplane-runtime set a field where its parent is missing or an object, and a theorem on what
-- a setter wrote is about values that encoding/json decodes as it encoded them.
--
-- Not modelled: the goroutines that Cache.Get of internal/clients starts, which call remove, and what the
-- credentials make the libraries return there; generated code, telemetry, health checks and configuration, which only do input and
-- output or are made by tools; GetObjectMeta, which copies fields; the scalars of GraphQL; the choice of
-- an informer, and the time after which a request is cancelled.
pub mod Prelude
pub mod Kube
pub mod Live
pub mod Cache
pub mod Auth
pub mod Clients
pub mod Model
pub mod Refresh
pub mod Resolvers
pub mod Present
pub mod Unstructured
pub mod Tests
