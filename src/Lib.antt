-- ===== src/Lib.antt =====
-- The tenant dashboard of ModeraShield (frontend/tenant-dashboard): a Next.js application in
-- TypeScript through which a tenant signs in with an API key, reads the moderation log, manages keys
-- and webhooks, and tries the moderation.
--
-- The parts and how they interact. Every page calls the methods of `apiClient`
-- (lib/api/client.ts), which send requests with the key of the session, kept in the local storage;
-- an answer with status 401 or 403 ends the session. A page keeps its state in React hooks; its
-- handlers set it around the calls. The sidebar guards the pages of the dashboard and logs out; the
-- bar above each page tests the connection.
--
-- Which file models what (paths from frontend/tenant-dashboard):
-- - Base: Boolean tests, lists, texts as JavaScript's `String` treats them, and code that throws
--   (Base/Effect: a state monad with errors, `try`, `catch` and `finally`).
-- - Client/Types: the interfaces of lib/api/client.ts; Client/Browser: the storage and
--   getStoredApiKey, setStoredApiKey, removeStoredApiKey, getStoredTenant, setStoredTenant;
--   Client/Http: getApiUrl and request, as `prepare` (above fetch) and `receive` (below it);
--   Client/Api: testConnection and the other methods. Client/Session, Client/Address,
--   Client/Requests and Client/Connection prove laws about them; Client/Refines has the session as
--   an abstract value.
-- - Page: the state of a page with the browser; Numeric: Math.round, toFixed on exact fractions.
-- - Login: app/login/page.tsx. Signup: app/signup/page.tsx, its slug in Signup/Slug.
-- - Overview: app/dashboard/page.tsx, with Charts for the figures that it computes,
--   Client/Concurrent for its four requests under Promise.all and Overview/Answers and Overview/Arrivals
--   for the order of their answers. Queue:
--   app/dashboard/queue/page.tsx. Submissions: app/dashboard/submissions/page.tsx. Detail:
--   app/dashboard/submissions/[requestId]/page.tsx. ApiKeys: app/dashboard/api-keys/page.tsx,
--   with ApiKeys/Creation for a key that is made and ApiKeys/Secret for the buttons and the dialog.
--   Integrations: app/dashboard/integrations/page.tsx. Landing: app/page.tsx.
-- - Analytics, Settings and ForgotPassword: app/dashboard/analytics/page.tsx,
--   app/dashboard/settings/page.tsx and app/forgot-password/page.tsx.
-- - Rules: app/dashboard/rules/page.tsx. Docs: app/docs/page.tsx, its sections as data in
--   Docs/Guides, Docs/Reference and Docs/Webhooks, its navigation in Docs/View; Docs/Laws and
--   Docs/Errors hold it against the client. Form: what the forms of the pages show.
-- - Sidebar and TopNav: components/layout/sidebar.tsx and components/layout/topnav.tsx.
-- - App: the pages together. App/Machine has one step for each handler that calls the client or
--   changes the browser, and the browsers that they reach; App/SignIn has the abstract machine of
--   the session, whose state is the stored key. App/Acts has the handlers and App/Tracks the pieces
--   that they are made of, as an interface; App/Handlers and App/Pages show that any relation with
--   that interface is respected by the handlers, and App/Kept has the one by which they leave the key
--   or drop it. App/Arrive follows a sign-up to the sidebar, and App/Overlap takes handlers that
--   overlap. App/Steps has the pieces of handlers between two
--   awaits, which may follow one another in any order, and App/Runs is about handlers as runs of
--   them. App/Reached has the keys that handlers leave stored and App/Visits where they send the
--   browser; Tests/Overlap and Tests/Machine have runs of concrete handlers.
-- - Fetching: the effect with which the pages fetch, for any page with its interface, with calls
--   that overlap; Fetching/Laws is about what the page shows at rest, Fetching/Settled about a
--   page that is left alone, and Fetching/Overtaken about answers out of order; Overview/Fetching,
--   Analytics/Fetching, Submissions/Fetching and Queue/Fetching are pages with that interface.
-- - Routes: the pages by their addresses; Routes/Links has the links of every page and where its
--   handlers push the router, Routes/Laws where they lead, Routes/Reach which pages they reach.
-- - Tests: concrete backends, browsers and pages on which the laws are applied.
-- In each page's module `Ui` has a field for each hook, a handler is a function of the name that it
-- has in the source with underscores, and `view` is what the page shows, as data; in the larger
-- pages it stands in a child, View.
--
-- The environment. What the n-th request of a page is answered is an argument (`Env`), so a theorem
-- holds for every backend and every failure of the network. The body of an answer has the type that
-- the caller's cast names. Handlers run one at a time; where another handler can run during an
-- `await` and a property depends on it, what it does is an argument `meanwhile`. So
-- App/Machine runs one handler after another, in any order, each on any state of its page; App/Steps
-- and Fetching cut handlers at their awaits; Fetching takes the answers in any order.
--
-- Bounds and fuel. The simulator's loop has the bound of ten attempts of the source. `wait` of
-- Detail runs the polling for a number of seconds that its theorems quantify over. Every other
-- loop is structural recursion over a list or a text.
--
-- Not modelled: markup and styles; the formats of dates; lower case beyond ASCII; the rounding of
-- doubles, for which exact fractions stand; the texts that only advertise, on the landing page and
-- among the tips of the integrations; the fonts and the metadata of the root layout; the Python
-- backend and SDK. What zod and its resolver do with the schema of a form is an argument.
pub mod Analytics
pub mod ApiKeys
pub mod App
pub mod Base
pub mod Charts
pub mod Client
pub mod Detail
pub mod Docs
pub mod Fetching
pub mod ForgotPassword
pub mod Form
pub mod Integrations
pub mod Landing
pub mod Login
pub mod Numeric
pub mod Overview
pub mod Page
pub mod Queue
pub mod Routes
pub mod Rules
pub mod Settings
pub mod Sidebar
pub mod Signup
pub mod Submissions
pub mod Tests
pub mod TopNav
