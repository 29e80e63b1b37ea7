-- ===== src/Lib.antt =====
-- go-auth-x, an authentication library for Go web applications.
--
-- The library (package authx, the repository's root) runs the login methods and keeps its data
-- behind store interfaces: credstore.go, directory.go, orgs.go, sessions.go, twofactor.go and
-- oauthstore.go. Package store/memory is the reference implementation of all of them. This
-- development models that package, with the records and errors of the interfaces, and what runs over
-- it: of package authx, the login funnel with its second factor, the sign-in by password, mailed link
-- and mailed code, the organization endpoints, the directory view that one organization's provider
-- works through, and the admin API; and the storage of package oidcprovider. Three parts stand by
-- themselves: the CSRF guard and the rate limiter of package authx, and the filters of package scim.
--
--   Base      shared names, Boolean tests, equality tests as an interface, loops over slices, sorting
--   Map       Go's maps: lookup, assignment, delete and the loops over their entries; below it the
--             loops that collect entries
--   Text      Go strings; norm, idStr, parseID, parseUserID and userIDStr of
--             store/memory/memory.go, and what they use of packages strings and strconv
--   Types, OauthTypes
--             the records and errors of the interfaces
--   Memory    package store/memory:
--     Store       the struct Store and its records; New
--     Users       rows and passwords (memory.go, directory.go); below it the invariant of the user
--                 table, the steps that keep it, and the histories
--     Upsert      UpsertUserOnLogin; below it its possible ends and what follows from them
--     Erase       deleteUserCascadeLocked and DeleteUser
--     Passkeys, Identities, Tokens, Otps, Audits
--                 the other parts of memory.go
--     Sessions    sessions.go
--     TwoFactor   twofactor.go
--     Groups, ApiKeys
--                 directory.go, and the groups and keys of organizations in orgs.go
--     Orgs, Invites
--                 orgs.go
--     Oauth       oauth.go; below it the single use of refresh tokens and the end of a client
--     Listings    the listings of all these files, sorted as the code sorts them
--   Session   session.go: the claims of the session cookie, how it is signed and read; below it the
--             keys that it may be signed with (Keys)
--   Org         orgs.go and orgs_handlers.go:
--     Gate        the checks that a request passes before it changes anything
--     Members     OrgList, OrgSwitch, OrgMemberList, OrgMemberSetRole, OrgMemberRemove
--     Joining     OrgInviteCreate, OrgInviteList, OrgInviteRevoke, OrgInviteAccept; below it what an
--                 invitation does to a role that is held (Kept)
--     Owners      who owns an organization after any of these (Guards, Kept, Escalation, Runs), and
--                 the identifiers that the guard does not see through (Spelling)
--     Directory   orgdirectory.go, and the batches of directory.go: the view of one organization; below
--                 it what a step through the view leaves alone (Confined), step by step (Accounts,
--                 Roles, Grouping, Frame) and for any run (Runs), what a provisioned account is
--                 (Joined, Subjects), and the two ways to look members up (Lookups)
--   Handler   a request handler as a chain of steps that may answer the request
--   Password  passwordStrengthError of password.go, passwordPolicyError of breach.go
--   Admin     admin.go: API keys, their scopes, and the guard of the admin API:
--     Groups      the handlers of admin.go
--     Users       admin_users.go
--     Orgs        admin_orgs.go
--     Guarded, Refused
--                 whom the guard lets through, and the handlers for a caller whom it refuses
--     Actor, Impersonation, CutOff, Keys
--                 impersonation, the disabling of an account, the reach of an organization's key
--   Login     login.go, with what it calls of sessions.go and twofactor.go:
--     Factors     twofactor_handlers.go, stepup.go
--     Passwords   PasswordSignup and PasswordLogin of password.go
--     Reset       the resetting of a password
--     Links       magic.go, emailotp.go
--     Gated, SignIns, Lockout, Rewind, Stale
--                 what a first factor sets, the lockout, TOTPConfirm on a confirmed factor, and the address that a
--                 redeemed link marks
--   Provider    oidcprovider/storage.go: grants and the issue of tokens
--     Requests    authorization requests and their codes; Pkce, CreateAuthRequest
--     Rotation    the use of a refresh token
--     Tokens      revocation, introspection
--     Ended, Swept, Calls, Replay, Race
--                 grants that have ended or are gone, over every writer of the OAuth store, and what
--                 ends one
--     Codes, Lifetimes
--                 the single use of a code, the life of an access token
--   Totp        totp.go, recoveryHash of twofactor.go, verifySecondFactor of twofactor_handlers.go;
--               below it the form of a code (Codes) and its single use (Once)
--   Csrf        csrf.go and CSRFHTTP of httpadapter.go: the guard on requests that change state; below
--               it what a request that passes has shown (Passed)
--   RateLimit   ratelimit.go: the sliding window of the built-in limiter; below it what was admitted
--   Scim.Filter scim/filter.go: below it the tokenizer (Lexer), the parser (Parser), that they end
--               (Tokens, Fine, Total), and the comparison operators (Order)
--   Examples, Tests
--             small stores, runs, and the theorems at concrete inputs
--
-- How the code is modelled. A method is a function of the store that it locks: the lock makes a
-- call one step, so concurrent calls are a sequence of steps. A method whose error is always nil
-- returns the store alone. The clock and the random values that a method reads are arguments; a
-- call reads the clock once. Times are natural numbers of nanoseconds, with 0 for the zero time.
-- Integers are natural numbers: the counters that issue keys wrap at 2^64, and theorems that need a
-- fresh key say that there is room; attempt counters are not wrapped. Strings are lists of code
-- points: ToLower and TrimSpace act on ASCII only, and the agent of a session is cut after 400 code
-- points, not bytes. A loop over a map visits its entries in one fixed order; a row that the code
-- finds in a loop is written back under its own identifier, which the invariant of the user table
-- makes its key. The copies that the code makes to avoid aliasing have no counterpart. Recursion is
-- structural; the digits of a key are emitted with fuel 20, and a 64-bit number has no more. The
-- tokenizer of filters has one unit of fuel more than the input has characters, and the parser has
-- six units for each token and five more: a token is behind at most six calls. The parser reads a
-- list of the tokens that are left in place of an index, and its depth, which parseOr restores on
-- return, is an argument.
--
-- A handler reads and changes one store, which has every optional interface, and ends with an answer
-- or the refusal of the request, of which the status is kept. In place of what it calls elsewhere it
-- has arguments: whether each limiter admits the request, what a cookie parses to, what the breach
-- checker answers, bcrypt, the hash functions, the random values. What it starts off the request path
-- is a step of its own. Mail is not sent in the model; the token that it would carry is stored.
--
-- A handler of an organization endpoint is a chain of gates: a gate lets a value through or answers
-- the request. What a handler does under the lock a.orgMu is a function of its own, since other
-- requests may run between the gates and the lock. A reply is its status and the session cookie
-- that it sets; a session cookie is its claims, since the JWT text is the work of a library. The OP
-- library decides which method of the provider's storage is called: the theorems quantify over the
-- sequence of calls. HMAC, SHA-256, base32 and the parser of addresses are arguments; of HMAC-SHA1
-- one theorem uses that it has 20 bytes. The random identifiers of the provider are arguments; the
-- store refuses one that is taken, and one theorem needs that a later grant does not draw the
-- identifier of one that has ended. Sorting is a stable insertion sort; sort.Slice may leave ties in
-- any order, and no theorem depends on theirs.
--
-- Not modelled: the account and session handlers, social login, the OIDC callback and passkeys, the
-- HTTP layer, the text of cookies and mails, RequireOrgHTTP and RequireOrgGroupsHTTP, the SCIM
-- server, the signing keys, consent and registration of the OAuth provider, LDAP and SMTP; the
-- wiring of the limiters; store/gormstore, which reaches its data through a database library.
mod Base
pub mod Map
pub mod Text
pub mod Types
pub mod OauthTypes
pub mod Memory
pub mod Session
pub mod Org
pub mod Handler
pub mod Password
pub mod Admin
pub mod Login
pub mod RateLimit
pub mod Scim
pub mod Provider
pub mod Totp
pub mod Csrf
mod Examples
mod Tests
