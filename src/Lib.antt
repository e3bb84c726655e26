-- ===== src/Lib.antt =====
-- WasmHooks: a verification library for the web console (web/src) and the mock API that stands in for the
-- control plane (web/src/mocks).
--
-- The console is a browser program. Its features send requests to an HTTP API; in development and in its tests that
-- API is the mock of web/src/mocks, which keeps one object of state and answers every path of the API. The
-- development models the state of the mock and its handlers, the contract of the API that the console is compiled
-- against, the client of the API with the tokens that it sends, and the sessions, forms, dialogs and widgets of the
-- features.
--
--   Common      shared names: Boolean tests, lists measured by native numbers, searches, a stable sort, integers
--   Text        trimming, UTF-16 length, the order of `sort()`, decimal and hexadecimal numerals
--   Json        JSON values, `String(v)`, `key in record`; Json/Stringify is `JSON.stringify`
--   Clock       `new Date(ms).toISOString()`
--   Entity      web/src/entities/*/model: the types, their bounds, and the functions on them; Entity/Format is
--               web/src/shared/lib/format.ts
--   Mock/Db     mocks/db.ts: the state; Mock/Seed is its initial value, and Mock/Random the generator of random numbers
--   Mock/Http   mocks/http.ts: replies, problems, hasBearer, authed
--   Mock/Tenants, Mock/ApiKeys
--               mocks/operator-tenants.ts: /tenants and /api-keys
--   Mock/Sessions
--               mocks/operator-tenants.ts: the console sessions and their tokens
--   Mock/Log    mocks/db.ts and mocks/handlers.ts: the log of invocations and its listing
--   Mock/Hooks  mocks/operator-hooks.ts: /hooks
--   Mock/Modules, Mock/Bindings
--               mocks/handlers.ts and mocks/db.ts: /tenant/hooks, uploads, validation, bindings
--   Mock/Server mocks/handlers.ts: the table of handlers as one function, and histories of requests
--   Contract    web/src/shared/api/contract.gen.ts, contract.ts and the files contract.check.ts: the types of the
--               contract (Shape, Schemas), its operations and paths, the console's zod schemas (Zod, Codecs), what
--               the compiler checks of the one against the other (Checks), and the JSON of the mock's records (Encode)
--   Api         web/src/shared/api: the session tokens and apiRequest
--   Upload      web/src/features/upload-module/model: the checks of an upload
--   Form        web/src/features/*/model/form.ts and web/src/shared/ui/string-list-input.tsx
--   Gate        web/src/features/console-session and web/src/shared/lib/jwt.ts: how a console gets its token, what
--               it shows of a session, how the session of a tenant ends by itself, and the sign-out
--   Dialog      web/src/features/*/ui: the dialogs of an upload, of a new key, of a tenant, of an activation and of a
--               revocation (Confirm), and the editor of a configuration
--   Queries     web/src/entities/*/api and web/src/features/*/api: the queries with the keys of their cache entries, and
--               the mutations with what their success does to the cache
--   Versions    web/src/widgets/module-versions: the table of versions and its panel
--   Examples    the theorems at concrete requests
--
-- A handler is a function from its arguments and the state to a reply and a state. The fields of the source's `db`
-- are those of the record `Db`: snake case for camel case, a list for an array and an association list in the order
-- of insertion for the `Map`. `Date.now()` is an argument, in milliseconds; the random bytes of a key are an
-- argument. What else the browser brings are the fields of `Platform`, about which nothing is assumed: SHA-256,
-- `localeCompare`, `TextEncoder` and `btoa`, floating-point numbers, `Date.parse`, and `Number` of a text as an index. A text is a list
-- of code points, and its `length` counts UTF-16 units. A JSON number is an integer, or the text of a number that is
-- none. A handler runs as one step: it awaits a delay and the body of its request first, and between the check of the
-- token and the handler's own code another handler may run in the source, which the model leaves out.
--
-- `fetch` is a function on the state of the world outside, and the session storage is an interface, `Storage`, with
-- the laws of the Storage standard, `StorageLaws`. zod is an interface too: `ZodLaws` says which inputs its
-- combinators accept. `atob`, `TextDecoder`, `JSON.parse`, `JSON.stringify` with an indentation, and URLSearchParams
-- are the fields of records that the definitions take.
--
-- A type of the contract is a value of `Shape`. TypeScript lets an object have properties that its type does not name;
-- `conforms` takes a flag that asks for objects without them, which is what a schema's input type needs where another
-- type is assignable to it. `fits` is assignability for the types that occur here.
--
-- A component of the console is a record of its state, a step function on what can happen to it, and a function to what
-- it shows: texts and buttons, without classes and icons. A mutation of the query library is pending from its start to
-- the event that brings its answer, and a list of events is one history of a component. What the user or the server can
-- do only through an enabled button, or only to a pending request, has no effect elsewhere.
--
-- Numerals are written on fuel, one unit more than the number, which has fewer digits than that. Every other function
-- is structurally recursive.
--
-- The timers of a session are a list that says how late each fires; the list is long enough if it has one entry for
-- each 2147483647 milliseconds that are left.
--
-- A form of react-hook-form is written out as the library documents it: a submit checks the fields and sends only values
-- without a complaint, and after a first submit a field is checked again when it changes. Of the query library the
-- development has the rule that an invalidation marks the entries whose keys begin with the given one; a query is read
-- as the mock API answers it, and two consoles have caches of their own.
--
-- Not modelled: bodies of a binding update that are not of the contract's type, which the handler casts and does not
-- check; the timer of a session whose end has a fraction of a millisecond; the opening of a tenant's console in a new
-- tab; the widget of the log of invocations; the fields of the hook editor, which the form library keeps; the pages; the
-- texts of the queries' URLs; the query library, zod and React themselves; the headers of the contract's answers, which it
-- leaves open; the control plane in Python and the data plane in Go.
pub mod Common
pub mod Text
pub mod Json
pub mod Clock
pub mod Entity
pub mod Mock
pub mod Form
pub mod Contract
pub mod Api
pub mod Upload
pub mod Examples
pub mod Gate
pub mod Dialog
pub mod Versions
pub mod Queries
