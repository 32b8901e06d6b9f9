-- ===== src/Lib.antt =====
-- SuperFlash Monitor: the onboarding of servers over SSH, the synchronisation of channels, the
-- collections of measurements, their sources and histories, the inventory of servers and the alerts.
--
-- The program is a FastAPI service (app/) over a relational database. A source of measurements is
-- read by collections, one at a time, which synchronise channels and store samples; alerts are
-- evaluated on the latest samples; an operator adds a server by an onboarding, a job that connects
-- to the server over SSH, installs an exporter, sets its firewall and enables the server.
--
-- Prelude and Text hold what the other modules share: tests, lists and the functions of Python's
-- str.
--
-- Ssh models app/services/ssh_service.py. Ssh.Catalogue has its types and detect_firewall,
-- Ssh.Inventory the parser parse_inventory_output, Ssh.HostKey the host key policy, Ssh.Connect
-- the method connect and the classification of its errors. The library paramiko is not modelled:
-- what the network gives to each attempt is data (Network), and the rule that a loaded key is
-- compared before the policy is asked is check_key.
--
-- Onboarding models app/services/onboarding_service.py with app/models/onboarding.py,
-- app/schemas/onboarding.py, app/repositories/onboarding_repository.py and the endpoints of
-- app/api/v1/onboarding.py. Onboarding.Types has the rows, Onboarding.Texts the catalogue of
-- errors, Onboarding.Api recover_stale and the endpoints as functions of one onboarding and its
-- events. Onboarding.Job is the state of a job: the database, the session's copies with the
-- assignments that are not committed, what was sent to the host, and the readings of the clock.
-- Surroundings is what a job does not decide: the clock, the replies of the host, Prometheus, and
-- what other sessions commit before each of its refreshes and commands: cancellations, expiries and
-- removals of the server. Not modelled are a retry or a rollback of the same onboarding by another
-- session while the job runs, other sessions that write the server, and commits that fail.
-- Onboarding.Steps has _transition, _check_cancel and _fail, Onboarding.Precheck _discover_and_precheck and
-- _register_inventory, Onboarding.Run the method run in the order of its statements,
-- Onboarding.Rollback the method rollback. A job has no loop: no fuel is needed. The methods that open
-- no database, Onboarding.Preflight (test_ssh) and Onboarding.Discovery (discover), are talks with a
-- host (Onboarding.Visit) that fill in a report; the host's replies may depend on all that was sent.
-- Onboarding.Health is the method health, which reads the stored samples, Onboarding.Maintenance the
-- method maintenance. Onboarding.Shown says what the exchanges with a host show.
--
-- Channels models app/models/channel.py and app/repositories/channel_repository.py: Channels.Parts
-- the events, streams and category intervals, Channels.Sync upsert_from_snapshot,
-- Channels.Reconcile reconcile_missing. A table is a list with the key that the database gives out
-- next, and a query that takes the first row takes the first of the list.
--
-- Collection models app/collectors/runner.py, app/collectors/lock.py and
-- app/repositories/collection_run_repository.py: Collection.Runs the history, Collection.Runner
-- _run_locked, Collection.Locks the two locks as a step function over calls of several processes,
-- Collection.Channels and Collection.Samples the methods _sync_channels and _store_server_metrics
-- of app/collectors/collection.py, where which savepoints raise is a parameter. What the service
-- does to the history is data (Collecting).
--
-- Alerts models app/services/alert_service.py with its repository and endpoint: Alerts.Evaluate
-- the candidates, Alerts.Sync the stored alerts. Floating point numbers are a parameter (Floats).
--
-- History models the stored samples: History.Samples the method list_metrics of
-- app/repositories/server_repository.py and channel_repository.py, History.Cursor the cursor of
-- app/api/pagination.py (base64 and the texts of instants are a parameter, Codec), History.Pages the
-- endpoints of app/api/v1/servers.py and channels.py that use it, History.Retention prune_history of
-- app/services/retention_service.py and the command app/tasks/prune_metrics.py. The function follow
-- of History.Follow, a client, takes the number of pages it may ask for as fuel.
--
-- Servers models the inventory, app/models/server.py with app/repositories/server_repository.py and
-- app/api/v1/servers.py: Servers.Types the tables, with what the foreign keys of app/models do when a
-- server is deleted, Servers.Relations what protects a server, Servers.Repository the writing methods
-- and Servers.Endpoints the endpoints that call them.
--
-- Sources models app/adapters/prometheus.py with app/adapters/inventory.py, and
-- app/adapters/composite.py. Sources.Json is what Python does with a decoded answer, Sources.Fetch
-- one query (what the network answers may depend on every request before and is a parameter),
-- Sources.Queries the PromQL, Sources.Host a host, Sources.Infrastructure an inventory,
-- Sources.Probe the diagnosis, Sources.Groups, Sources.Inventory and Sources.Database the managed
-- servers in groups of one address and token, Sources.Composite the measurement of a cycle.
--
-- The retries of Ssh.Connect are the fuel of its loop, as in the source: retry_count + 1 attempts.
-- Instants are microseconds as natural numbers, and a difference of instants is written as a sum
-- on the other side. Messages for people, logging and the payloads of the endpoints are left out,
-- save the texts that are stored.
--
-- Not modelled: the rest of the collection service, the filtered pages of servers and channels,
-- recommendations, the mock sources, the scheduler, the migrations, the scripts and the frontend. Of
-- the onboarding service, create_server_and_onboarding and diagnose are not modelled.
pub mod Prelude
pub mod Text
pub mod Ssh
pub mod Onboarding
pub mod Channels
pub mod Collection
pub mod Alerts
pub mod History
pub mod Servers
pub mod Sources
