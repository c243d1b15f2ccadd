-- ===== src/Lib.antt =====
-- The SSF transmitter: a service that takes webhooks of Authentik, maps them to security events,
-- signs an event as a SET for each stream that asks for it, keeps the SETs in a durable queue, and
-- delivers them to the receiver of the stream.
--
-- A webhook enters by app/routes/webhook.py, is mapped by app/events/mapper.py, signed by
-- app/crypto.py and queued by app/events/outbox.py in the tables of app/database.py. The delivery
-- worker of app/events/outbox.py takes the due rows from there and pushes them with
-- app/events/pusher.py, which asks app/security/url_validation.py whether the endpoint is safe. The
-- receiver manages its stream by app/routes/streams.py, behind app/auth.py.
--
-- The parts and their files:
--   Environment: the settings and all code outside the repository, as one record of functions
--     (Fernet, JWT, JSON, base64, URL and address parsing). What a theorem asks of them is among its
--     hypotheses; FernetRoundTrip in Crypto/Laws is that decryption undoes encryption.
--   Value: JSON values. Result: the exceptions of the program as values.
--   Crypto (app/crypto.py): the stored forms of tokens; Crypto/Set has the claims of the SETs.
--   Database (app/database.py): the tables and, in Database/Streams and Database/Outbox, a function
--     for each operation under its own name, each transaction being one step. Database/Ops joins
--     the operations that write to one type, of which `run` makes sequences.
--   Security/Address, Security/Url (app/security/url_validation.py): blocked addresses and the
--     checks of a receiver URL.
--   Auth (app/auth.py): the bearer check and the limit on failed attempts.
--   Models (app/models.py): the validators of request bodies.
--   Events/Mapper, Events/Pusher, Events/Outbox (app/events): the files of the same names. A push
--     gives what it has sent beside its result. A delivery meets a World: the time, the network,
--     where the deadline cuts it off, and what other tasks do to the tables while it waits.
--   Events/Outbox/Wanted and Routes/Webhook/Queue follow an event from its webhook to the queue.
--   Routes/Webhook, Routes/Streams (app/routes/webhook.py, app/routes/streams.py and
--     app/routes/verification.py): the handlers, which give the answer, the requests sent and the
--     new tables.
--   Scim/Token (app/scim/token.py): the tokens of Apple SCIM.
--   Scim/Http, Identity, Pages, Listing, Lookup, Preflight, Diff, Update, Run, Reconcile, Conflict,
--     Sync (app/scim/apple.py): the synchronisation of users. An action takes what was sent so far
--     and gives a result or an exception with what is sent then; Apple answers by all that it was
--     sent. A step of the synchronisation also carries the counters and the indexes, which an
--     exception leaves as they are. Listing/Steps and Reconcile/Laws follow one page and one user.
--   Scim/Authentik, Scim/Users (app/scim/authentik.py): the mapping of Authentik's users, and their
--     pages.
--   Scim/Coordination (app/scim/coordination.py): the claim on the connection with Apple, with the
--     tasks that compete for it as a step relation: they enter, wait, are released and resume.
--   Routes/AppleScim (app/routes/apple_scim.py): the OAuth states and the callback, and in
--     Routes/AppleScim/History any sequence of authorizations and callbacks.
--   Routes/AppleScim/Sync (app/routes/apple_scim.py): the sync route and the sync after an
--     authorization, which compose the tokens, Authentik's users, the synchronisation and the
--     coordinator; the status and the redirect to Apple.
--   Routes/Root (app/routes/root.py, app/routes/wellknown.py): the discovery documents and the pages
--     that answer exceptions.
--   Config (app/config.py): the parsers of the settings, and in Config/Load `from_env`, which reads
--     them from the variables, a function from names to texts; Config/Hosts is the list of hosts.
--   Startup (app/startup.py): the checks before the start, the pause of undecryptable streams, which
--     SQLite may fail, and in Startup/Report the lines that all checks log, each as its mark and its
--     subject.
--   Crypto/Keys (app/crypto.py): the key files and the JWK. Alerts (app/alerts.py): the cooldown
--     of alerts, in calls that follow one another.
--   Security/Log (app/security/log_sanitize.py, pii.py, http_logging.py): what may reach the log.
--   Main, Main/Headers (app/main.py): the start of the process, which composes Config, Startup,
--     Crypto/Keys and the tables, the scheduled sync, and the two middlewares around the routes.
--   Events/Outbox/Loop (app/events/outbox.py): the rounds of the delivery worker, whose requests
--     Events/Outbox/Trace follows item by item.
--   Prelude: tests, lists and texts. Tests: the theorems at concrete inputs.
--
-- Times are natural numbers: seconds, and milliseconds of the monotonic clock in Auth, in Alerts and
-- for the OAuth states. The bounds are those of the code:
-- 10,000 rows, 25 deliveries in a pass, 64 KiB of body, 11 attempts of a client. Loops
-- run over a finite list, but for the pages of Apple's users, which have the total that the first page
-- names as fuel: each page brings a user, and the theorem on Scim/Listing shows that it is enough. The
-- pages of Authentik have no bound in the code, and run on any fuel.
--
-- Not modelled: the set-up of the logging library, the log lines other than those of the checks at
-- the start, and the metadata of replies in them; the timers of the worker and of the scheduled sync,
-- which run their rounds, and the end of their tasks; the framework's registration of routes and its
-- limit of calls per minute; asyncio's lock of the tokens; the subject routes, which change nothing;
-- and the release scripts.
pub mod Main
pub mod Alerts
pub mod Config
pub mod Prelude
pub mod Value
pub mod Result
pub mod Environment
pub mod Crypto
pub mod Database
pub mod Security
pub mod Events
pub mod Auth
pub mod Models
pub mod Routes
pub mod Tests
pub mod Scim
pub mod Startup
