-- ===== src/Lib.antt =====
-- The distributed traffic service: RoutePass, its browser application (services/frontend/src/app),
-- with which a driver books journeys, an enforcement agent verifies plates and an admin watches the
-- system; the booking service behind it (services/booking_service), which runs on two nodes and
-- reserves the road segments of a journey at both; the verification service
-- (services/verification_service), which tells whether a vehicle has a journey at the moment; and the
-- auth, notification and analytics services (services/auth_service, notification_service,
-- analytics_service). The application talks to the services through an API gateway
-- (services/api_gateway): on the side of the application an answer of theirs is an argument of the
-- operation that awaits it.
--
-- The parts, and the files that model them:
--   Base            JavaScript as the program uses it: equality, lists, texts, sort, decimals,
--                   encodeURIComponent (Base/Uri, Base/Segment)
--   Api             api/*.ts: the payloads and requests, the axios instance and its interceptors
--   Session         contexts/AuthContext.tsx: the provider's state, mount, signIn, signUp, signOut
--   Navigation      routes.tsx, Root.tsx, components/Navbar.tsx: guards, redirects, links
--   BookJourney     pages/BookJourney.tsx: the choice of points, the route check, the submission
--   Entry           pages/SignIn.tsx, pages/Register.tsx: the forms over Session's operations
--   MyJourneys      pages/MyJourneys.tsx: the list of bookings, its filters, the cancellation
--   Dashboard       pages/Dashboard.tsx: the three reports of the admin's page
--   VerifyPlate     pages/VerifyPlate.tsx: the lookup of a plate and the list of recent checks
--   Notifications   pages/Notifications.tsx: the notifications of a user
--   BookingService  services/booking_service: the tables of a node (Store), capacity.py (Capacity),
--                   distributed_lock.py and the endpoints for the peer (Peer), saga.py (Saga),
--                   service.py and the statuses of routes.py (Service, Preview), routing.py
--                   (Routing), reconciler.py (Reconciler); Atomic is what a booking promises as
--                   one transaction, Serving all that two nodes serve one after another
--   VerificationService
--                   services/verification_service: cache.py (Cache), service.py (Lookup),
--                   consumer.py (Consumer), routes.py and the batch (Routes)
--   Access          shared/auth.py: tokens, and the tests of roles
--   AuthService     services/auth_service: models.py and the keys of Redis (Accounts), service.py
--                   (Password, Register, Login), routes.py (Login), main.py (Replication); Cluster
--                   is what two nodes register and replicate in any order
--   Delivery        shared/messaging.py: the rows of an event over the deliveries of its message
--   NotificationService
--                   services/notification_service: consumer.py (Consumer), store.py and routes.py
--                   (Store)
--   AnalyticsService
--                   services/analytics_service: consumer.py and aggregator.py (Events), routes.py
--                   (Reports, and Load for the capacity report)
--   Gateway         services/api_gateway: rate_limiter.py (RateLimiter), routes.py (Proxy)
--   Permissions     what the pages let a user do, against what the services let the user's token do
--   Answering       what BookJourney shows of the errors of BookingService
--
-- How they interact: a page calls a function of Api, whose answer passes the response interceptor
-- (Api/Client, `settle`), which empties the storage that Session reads on mount; Navigation reads
-- the user that Session keeps; a page is rendered only through Navigation's guards.
--
-- The saga of a node reserves its own segments in its database and those of other regions by calls
-- of the peer, which reserves in its own; what fails is compensated at both. The reconciler of a node
-- sees the database of that node only. The events of the saga are what the verification service
-- fills its cache from; it reads the bookings of the booking service where the cache has none. The
-- notification and the analytics service write rows of the same events, and the capacity report reads
-- the reservations of the booking service. A registration claims its email in Redis, tells the peer by
-- an event in front of its commit, and takes that back by another where the commit fails.
--
-- How code becomes definitions: the state of a component is a record of what its `useState` calls
-- hold, under the source's names; a handler is a function from state to state, cut at each `await`
-- into what happens before (and the request that is sent) and what happens at the answer; an
-- answer is `ok` or `failed` (Api/Reply); an error that a `catch` receives keeps the parts that
-- the program reads. An effect runs behind the handler that changed its inputs. Steps that the
-- user and the network can make in any order are a relation (Session/Coherence, BookJourney/Page,
-- MyJourneys/Ordering, VerifyPlate/History, Notifications/Visiting). What a component renders is a
-- record of the texts, flags, targets and state-dependent colours of its JSX; markup and style
-- classes are left out.
--
-- In BookingService an operation is a function on the databases of the node and its peer, cut into
-- the steps of the source; the answers of locks, network, database and broker on the way are a
-- record (Saga, `Env`), so theorems hold for each of them. A transaction runs alone. Releasing a lock is
-- taken to succeed, and so are the commit of cancel_booking and the commits of the except clauses of
-- create_booking. A datetime is the number of its microseconds;
-- an edge of the road network has its rounded minutes in place of a distance. A check of
-- VerificationService has one time, and so has a registration of AuthService; the plates of a batch
-- are checked one behind the other. Whether Redis and the database answer the calls of a check is a
-- function (VerificationService/Lookup, `Answers`). Whether Redis, the database and the broker answer to a
-- registration is a record too (AuthService/Register, `Surroundings`). Both nodes set their keys in one
-- Redis, which evicts none before it expires. A row leaves out the random id that it is given.
--
-- Parameters, for what is no code of the repository: react-router's match of a path
-- (Navigation/Routes), the dates of the runtime in the browser's time zone (BookJourney/Check,
-- MyJourneys/State, and the texts of dates in the views), `toFixed`, and JSON.stringify and
-- JSON.parse at users (Session/Provider), each with the laws that are used as hypotheses; PyJWT and
-- passlib (Access, `Jwt`; AuthService/Password, `PwdContext`), the services and httpx behind the
-- gateway (Gateway/Proxy), and rounded percentages (AnalyticsService/Reports). Letters
-- are those of ASCII in upper- and lower-casing. JSON numbers are exact decimals.
--
-- Fuel: following redirects takes fuel (Navigation/Guard, `visit`), and two are proved enough;
-- printing a number takes as many digits as its successor counts.
--
-- Not modelled: components/ui and components/figma (copies of the shadcn/ui component library and
-- of a Figma helper, which the pages do not use), the mounting of the application (main.tsx,
-- App.tsx), the older JavaScript frontend (src/pages/*.jsx and around); of the booking service the
-- search for the shortest path (its distances are doubles, of which the model has no arithmetic: a
-- path is an argument), and transactions that overlap; the connections of shared/messaging.py
-- and their retries; the logging middleware, CORS and health routes of the services.
pub mod Base
pub mod Api
pub mod Session
pub mod Navigation
pub mod BookJourney
pub mod MyJourneys
pub mod Dashboard
pub mod VerifyPlate
pub mod Entry
pub mod Notifications
pub mod BookingService
pub mod Access
pub mod Answering
pub mod AuthService
pub mod VerificationService
pub mod Delivery
pub mod Gateway
pub mod Permissions
pub mod NotificationService
pub mod AnalyticsService
