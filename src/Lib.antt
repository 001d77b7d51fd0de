-- ===== src/Lib.antt =====
-- Harmony is a multi-tenant SaaS application: a server in Python and a client in TypeScript under
-- frontend/src. This library models the client's own logic: who is signed in, what a user may see and
-- do, how a request reaches the server, and the pages that guide a subscription. The server, the
-- browser, axios, React and its libraries are outside the code that is modelled. The server is a record
-- of functions over a state of any type, so a theorem about it holds for every server.
--
-- The parts, and how they depend on one another.
--
-- Base (Tests, Lists, Texts, Prefixes, Objects, Characters, Cleaning) has what all parts share: tests on
-- numbers, lists over the native numbers, membership in a list of texts, beginnings of texts, and plain
-- objects as tables, where `table[key]` also finds what every object inherits from Object.prototype.
--
-- Auth models frontend/src/types/auth.ts: users, tenants, tokens and the predicates on roles, isSystemUser
-- to canDeleteAccount. A user that may be null is an Option.
--
-- Permission models frontend/src/hooks/use-permission.ts. Permission/Tables has the unions of permissions
-- and the tables of the roles; Permission has the checks. A hook is a function of the user that the
-- session store holds. A check of the older names looks a role up in a plain object, so it can throw:
-- its result is an Outcome.
--
-- Browser is what the client keeps outside its own memory: local storage, a cookie, the address, and
-- whether there is a window. A stored JSON text is the value it stands for, an empty text, or a text
-- that is not JSON (which JSON.parse rejects).
--
-- Client models frontend/src/lib/api/client.ts: the tokens, the two interceptors (on_request, on_reply)
-- and a request through them (client). A request that the interceptor sends again is marked `_retry`,
-- so two passes are enough; Client/Laws is about the recursion of the interceptors, which makes no
-- third pass. Client/Trace follows the calls. Client/Steps cuts a request at its awaits (advance), so that
-- other code can run between them, and Client/Pool lets several requests go on in any order; elsewhere a
-- request runs as a whole.
--
-- AuthApi models frontend/src/lib/api/auth.ts (login to getStoredTenant), each call with what it keeps in
-- the browser. AuthStore models frontend/src/lib/store/authStore.ts on top of it: each action takes the
-- state of the store, of the browser and of the server to the next. loadFeatures is started and not
-- awaited, so a store counts the loads under way, and deliver_features is the end of one.
-- AuthStore/Session, Invariant and Stale are about sequences of these actions, Races about a logout while
-- a request waits.
--
-- Public models the pages under frontend/src/app/(public) that work without a session: forgot-password,
-- reset-password, verify-email and accept-invite, with their calls through Client. Public/Mixed follows an
-- accepted invitation into AuthStore.
--
-- Features models frontend/src/types/features.ts and frontend/src/hooks/use-feature.ts: the registry of
-- features, its grouping by module and the checks of the hooks. Tiers models the dialog of
-- frontend/src/app/(auth)/admin/tiers/page.tsx, which selects features for a tier; a Set is the list of
-- its members in the order of their insertion. Payment has the records of frontend/src/types/payment.ts
-- that pages use, with whole numbers for amounts.
--
-- Coupons models the dialogs of frontend/src/app/(auth)/admin/coupons/page.tsx with the records of
-- frontend/src/types/coupon.ts. What the user types into the form is an event that carries the new form.
--
-- Upgrade models the wizard of frontend/src/app/(dashboard)/upgrade/page.tsx. Upgrade has its state, the
-- edit mode and the arguments of the three mutations; where the code reads a field of null, the result
-- is `thrown`. Upgrade/Controls has the buttons, when each can be used, and the answers of the server as
-- events (handle, enabled); an event may come in any order that the controls allow, and an answer at any
-- time that a call may be open. Upgrade/Reachable is the relation of the pages that can be reached;
-- Submitting and Editing are about what is sent, Reload about an edit after the page was loaded anew,
-- Proof about the upload of the proof of payment.
--
-- Uploads models frontend/src/lib/api/files.ts: an upload in three calls, over a record of the API
-- server and the storage. Uploads/Batch models the hook of frontend/src/hooks/use-file-upload.ts, which
-- uploads a list of files in order; Finished describes what that should leave, by the replies to the
-- uploads alone (replies_of), and Round and Accounting are about what it does leave. Flow is about one
-- upload, Progress about percentages. The progress is rounded as Math.round does, with exact division in
-- place of floating point.
--
-- Navigation models frontend/src/components/layout/route-meta.ts (Routes, Title), AppSidebar.tsx beside
-- it (Sidebar, Menu) and frontend/src/components/auth/AuthProvider.tsx (Redirects, with the renders and
-- navigations as turns; Redirects/Settling). Permission decides what the sidebar shows.
--
-- Notifications models frontend/src/hooks/use-notifications.ts: the count of unread notifications that the
-- cache of queries holds, changed before the server answers and put back if it refuses.
--
-- AuditLogs models the page of the audit logs, frontend/src/app/(auth)/admin/logs/AuditLogsClient.tsx, as
-- events on its state (handle, enabled), with what it asks of frontend/src/lib/api/audit.ts (params_of,
-- query_params). AuditLogs/Pages is about the pages that can be reached, Stranded about a deletion.
--
-- Methods models the page of the payment methods,
-- frontend/src/app/(auth)/admin/payment-methods/page.tsx, as events on its state and on the calls that
-- are under way (on_method, usable). Methods/Codes is about what it can send, Late about calls that end
-- while the user is at another method.
--
-- Doubles has the numbers of JavaScript, written as decimals, and what format.ts computes with them:
-- each result is the double nearest to the exact one (nearest, to_double). A mantissa is below 2 ^ 53
-- and its exponent one of 2046, which is the bound of the search for it (binade). Numerals has
-- `toFixed`, with the form that it takes from 10 ^ 21 on, in which seventeen digits are always enough
-- (shortest), and `parseFloat` (Reading is about both). Format models frontend/src/lib/utils/format.ts:
-- a text is the list of its code points (Base/Characters, with the laws in Base/Cleaning). Format/Threes
-- is about the groups of digits; Grouping, Unwrapping, Offered, Written and RoundTrip are about an
-- amount that is formatted and parsed again, under the settings that
-- frontend/src/app/(dashboard)/settings/page.tsx offers; Format/Dates has dates and times, whose local
-- time and whose parse are parameters.
--
-- Billing models the page of a transaction,
-- frontend/src/app/(auth)/admin/billing/[transactionId]/TransactionDetail.tsx: its forms and calls, and
-- in Billing/Controls its controls and the replies as events (can_come, answer). Billing/Guards is about
-- the calls that can be under way.
--
-- Tenants models the forms of frontend/src/app/(auth)/admin/tenants/[id]/page.tsx, where a handler reads
-- the state of the last rendering (click_save_subscription). Tenants/Subscription and Tenants/Features
-- are about what is saved.
--
-- Users models the dialog of frontend/src/components/features/users/UserDialog.tsx (populate,
-- handle_change, submit_user); Users/Branch is about the default branch, Closing about closing without a
-- question. Users/Listing models the page frontend/src/app/(dashboard)/users/page.tsx, whose queries may
-- be answered in any order.
--
-- Branches models the dialog frontend/src/components/features/branches/BranchDialog.tsx: its form and
-- what it sends; Branches/Headquarters is about the mark of the headquarters.
--
-- Settings models frontend/src/app/(dashboard)/settings/page.tsx: how the settings of a tenant are
-- loaded, edited and saved (load_ends, save_request, update_format_setting). Settings/Controls has the
-- controls and the replies as events (can_happen, respond); Viewing is about a user who cannot edit,
-- Saving about what is sent.
--
-- Tests has the results below at concrete inputs, and runs of the definitions.
--
-- The digits of a number are found in as many rounds as the number counts, and one, which is enough since
-- each round divides it by ten. No other definition needs fuel: all loops run over lists, and the request
-- that is sent again is bounded by its mark.
--
-- Not modelled: rendering and styles; the plain bindings of frontend/src/lib/api (one call each); the
-- kit of user interface components, which is third-party code copied into the repository; the
-- formats of Intl, which depend on a locale; rounding errors of floating point in the
-- progress of an upload;
-- the pages that only show what the server returns; the list of transactions, the page of
-- branches, the platform's lists of tenants and users, the profile and the developer tools;
-- frontend/middleware.ts and the redirects of the layouts;
-- the server under backend.
pub mod Base
pub mod Auth
pub mod Permission
pub mod Browser
pub mod Client
pub mod AuthApi
pub mod AuthStore
pub mod Coupons
pub mod Features
pub mod Billing
pub mod Users
pub mod Tenants
pub mod Branches
pub mod Settings
pub mod Payment
pub mod Methods
pub mod Public
pub mod AuditLogs
pub mod Doubles
pub mod Numerals
pub mod Format
pub mod Tiers
pub mod Navigation
pub mod Notifications
pub mod Upgrade
pub mod Uploads
mod Tests
