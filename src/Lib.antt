-- ===== src/Lib.antt =====
-- The verification library of consul-k8s, the integration of Consul with Kubernetes.
--
-- The control plane runs controllers that keep the two systems in step. Modelled are:
--   * Namespaces (control-plane/namespaces/namespaces.go): `ensure_exists` is EnsureExists and
--     `consul_namespace` is ConsulNamespace.
--   * ConfigEntry (control-plane/controller/configentry_controller.go): the handler
--     `reconcile_entry` of ConfigEntry/Reconcile.antt is ReconcileEntry, in the order of its
--     statements, with a definition for each branch. ConfigEntry.antt has the resource, the
--     interface `EntryKind` of its kind (control-plane/api/common/configentry.go) and the APIs;
--     ConfigEntry/Status.antt has the conditions and finalizers
--     (control-plane/api/v1alpha1/status.go, servicesplitter_types.go). ConfigEntry/Plan.antt is
--     the specification, a table of decisions. ConfigEntry/ExportedServices.antt is the kind of
--     control-plane/api/v1alpha1/exportedservices_types.go. ConfigEntry/Webhook.antt is
--     control-plane/api/common/configentry_webhook.go.
--   * Catalog/K8sSink (control-plane/catalog/to-k8s/sink.go): the methods of K8SSink, and
--     `run_round` for one round of its loop Run.
--   * Catalog/Source (control-plane/catalog/to-k8s/source.go): `run_round` is a round of the loop of
--     Source's Run, which calls SetServices of the sink.
--   * Catalog/ConsulSyncer (control-plane/catalog/to-consul/syncer.go): `sync` is Sync,
--     `watch_service` and `watch_reapable_services` are one round of the loops of these names,
--     and `sync_full` is syncFull, which registers over Namespaces' `ensure_exists`.
--   * Catalog/ServiceResource (control-plane/catalog/to-consul/resource.go, annotation.go and
--     service_id.go): `should_sync`, `generate_registrations` (BaseService.antt has its first half,
--     Generate.antt its second) and, in Handlers.antt, `upsert`, `delete` and those of the endpoints
--     resource. They hand all registrations to ConsulSyncer's `sync`; `run` is a sequence of events.
--   * Peering (control-plane/connect-inject/controllers/peering): `reconcile` of
--     Peering/Dialer.antt and of Peering/Acceptor.antt are the Reconcile methods of the two
--     controllers; Peering.antt has the resource and the clients, Peering/Version.antt the version
--     annotation and Peering/Requests.antt the requests for a changed secret. Each Plan.antt below
--     is a table of decisions.
--   * Informer (control-plane/helper/controller/controller.go): `process_single` is processSingle
--     and `run` the loop around it; the Resource is a record of callbacks, such as those of
--     ServiceResource and K8sSink.
--   * ConnectInject (control-plane/connect-inject): the endpoints controller of
--     controllers/endpoints/endpoints_controller.go. `reconcile` of Endpoints/Reconcile.antt is its
--     Reconcile: it reads the Endpoints and their pods, registers a service and a sidecar proxy for a
--     pod (`create_service_registrations` of Endpoints/Services.antt) or a gateway
--     (`create_gateway_registrations` of Endpoints/Gateways.antt, over Namespaces' `ensure_exists`),
--     and then calls `deregister_service` of Deregister.antt with the addresses of the pods.
--     Endpoints.antt has its data and clients, Upstreams.antt is processUpstreams, Pods.antt what
--     reads a pod, Common.antt common/common.go, and Metrics.antt
--     metrics/metrics_configuration.go. A panic is an outcome of its own.
--   * AclInit (control-plane/subcommand/server-acl-init/create_or_update.go, connect_inject.go): the
--     auth method of the injector, and the policies, roles,
--     binding rules and tokens of the ACL bootstrap, with `until_succeeds` for untilSucceeds of
--     command.go; how often each operation is tried again before the timeout is a parameter.
--   * ParseTags (control-plane/helper/parsetags/parsetags.go): `parse_tags` is ParseTags, `step` a
--     round of its loop over code points.
--
-- Base has what these share: maps as association lists, strings, lists and errors. A Go error is
-- its text, a nil map is the empty one, and the order of a `range` loop over a map is that of the
-- association list. A method under a mutex is one step. Logging is left out.
--
-- The Kubernetes API and the Consul API are parameters, records of operations over an unknown
-- state, which may fail at any call. Where a theorem needs them to behave, it takes their laws:
-- IsLawful and IsUp for services (with the errors 404 and 409), IsCatalog for the Consul catalog
-- by node, IsLawfulStore for config entries and for dialers, IsLawfulSecrets for the secrets of
-- acceptors, IsQueue for the queue of client-go, and IsCatalog and IsTokenStore of
-- ConnectInject/Deregister for the services of a node and the ACL tokens, and IsConsul for the
-- catalog and the pods that the endpoints controller works with, and IsPolicyStore and KeepsRoles
-- for ACL policies and roles. IsEntryEquality is what `cmp.Equal` does under the options of
-- MatchesConsul. Tests has an instance of each in memory. The finalizer functions of
-- controllerutil are parameters too, and so are the texts of JSON, of the verb %q and of
-- strconv.Quote, `net.ParseIP` and `json.Unmarshal` of a pod. `strings.ToLower` is modelled on
-- ASCII, which is what names in the DNS are made of. What the code uses of strings and strconv is
-- written out in Base/Strings.antt and Base/Strconv.antt: ParseInt and ParseUint with their
-- bounds, ParseBool, Split, TrimSpace. SHA-1, from which the identifiers of services are made, is
-- the parameter `short_hash`. All recursion is on lists and texts, so nothing takes fuel;
-- Informer's `run` takes the number of its calls, and its theorem says how many are enough.
--
-- Not modelled: timers and goroutines, the informers, the wiring of the subcommands, the Helm
-- chart, the command line tool, and the parts of the control plane that the list above leaves out.
pub mod Base
pub mod Namespaces
pub mod ConfigEntry
pub mod Catalog
pub mod Peering
pub mod ParseTags
pub mod AclInit
pub mod Informer
pub mod ConnectInject
mod Tests
