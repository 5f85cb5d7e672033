-- ===== src/Lib.antt =====
-- telekube is a Telegram bot that operates Kubernetes clusters and ArgoCD. An update passes
-- the middleware (internal/bot/middleware), which limits its rate and finds or registers its
-- user, and reaches a handler of a module (internal/module). The handlers ask the RBAC engine
-- (internal/rbac) for permission, stop at a deployment freeze, hand actions that need
-- approval to the approval manager (internal/module/approval), keep their state in the
-- storage repositories (internal/storage), and write to the audit log (internal/audit).
-- Watchers (internal/module/watcher) send alerts.
--
-- The files and what they model:
--   Base: truth values, lists, Go's `(T, error)` results, maps as association lists,
--     strings.SplitN on callback data, and "%d" of fmt (Numbers, with its round trip in
--     Numbers/RoundTrip).
--   Entity: the records of internal/entity.
--   Storage: the tables and statements of internal/storage/sqlite. A table is the list of
--     its rows; each statement is a function that returns the new table or an error.
--   Storage/Audit: audit_repo.go of both databases; Storage/Audit/Paging proves.
--   Storage/Postgres: internal/storage/postgres, with its tables Users, Roles, Approvals,
--     Freezes and Preferences. Storage/Approvals/Refinement says what a repository of
--     approval requests promises; Refinement and Agreement prove it of both, and
--     Assignments is about role bindings.
--   Rbac: internal/rbac. Engine is the code over the interface in Repository
--     (RBACRepository of internal/storage/storage.go), Defaults the built-in roles with
--     their permissions (Permissions).
--   Admin: the confirmations of internal/module/rbacmod.
--   Approval: internal/module/approval. Manager is module.go and checker.go over the
--     interface in Repository, and Workflow puts their calls into histories, cut where
--     another goroutine can come in between; Votes, Soundness, Calls, Moves, Held,
--     Invariant and Openness carry the proofs of Safety, Execution, Progress and Attach.
--   Argocd: internal/module/argocd. Services is what the handlers call, Sync, Rollback and
--     Freezing are the handlers, Requests and Http are pkg/argocd/client.go
--     (Requests/Retries is about its retries), Audited is about their audit entries, and
--     Gate fills the interface with the tables and the approval manager; Gate/Unguarded is
--     about the confirmation of a sync.
--   Notify: internal/module/notify and its table.
--   Middleware: ratelimit.go, auth.go, audit.go and recovery.go of internal/bot/middleware,
--     Audit being the last two; Window, Registration and Audit/Trail prove.
--   Watcher: internal/module/watcher. AlertCache and Pods are pod_watcher.go, Nodes is
--     node_watcher.go, Rules is custom_rules.go (Rules/Violations lists what violates the
--     rules, Rules/Evaluation and Rules/Firing prove), Applications is argocd_watcher.go
--     (Applications/Memory and Applications/Changes prove) and Control is module.go;
--     Cooldown and Muting prove.
--   AlertManager: internal/module/alertmanager/module.go. Deliveries is about who gets
--     which alerts.
--   AuditLog: internal/audit/logger.go.
--   Telegram: pkg/telegram/paginator.go, SplitMessage of pkg/telegram/format.go (Splitting,
--     with its proofs in Parts, Lines and Sizes), and
--     internal/bot/keyboard/callback_store.go.
--   Briefing: internal/module/briefing/scheduler.go. Schedule is its code, Windows proves.
--   Clusters: internal/cluster. Manager is manager.go and context.go, Clients and Selection
--     prove.
--   Health: pkg/health/checker.go. Readiness is about when the bot is ready.
--   Kubernetes: internal/module/kubernetes. Api is what the handlers call and answer;
--     Nodes, Drain, Scale and Pods are the handlers of nodes.go, scale.go, pods.go,
--     events.go and restart.go, Rollout is watchRollout, Namespaces is namespace.go.
--     Drain/Counting, Scale/Buttons, Pods/Paging and Namespaces/Freshness prove.
--   Modules: internal/module/registry.go.
--
-- Conventions. State is passed: an operation that changes it returns it, and one that fails
-- with an error leaves it as it was. `time.Now()` is an argument in nanoseconds since an
-- epoch before all events; fresh identifiers (ulid) are arguments. An int64 identifier is the
-- number of its bit pattern, as the program only compares identifiers. Sizes and limits that
-- the source takes as int are natural numbers, and a value that is not positive is 0. A mutex
-- makes each call one step; concurrent calls are histories of steps, and where others write
-- to the repository without the mutex, as in the approval workflow, a call is several steps.
-- Loops are structural recursion on the list that they range over, so no fuel is needed. The
-- answers of services outside the repository (Telegram, HTTP, JSON, Kubernetes, the LIKE of
-- PostgreSQL, the order in which a database lists audit entries of one time, the time zone
-- database, SHA-256, what a TIMESTAMPTZ column keeps of a time) are arguments.
--
-- Not modelled: message texts, menus and logging; the handlers that only query Kubernetes,
-- Helm or Prometheus and format the answer; configuration, start-up and leader election,
-- which are calls of libraries. In the tables a failure of the connection is left out; the
-- interfaces that the clients take have an error at each call.
pub mod Admin
pub mod AlertManager
pub mod Approval
pub mod Argocd
pub mod AuditLog
pub mod Base
pub mod Briefing
pub mod Clusters
pub mod Entity
pub mod Health
pub mod Kubernetes
pub mod Middleware
pub mod Modules
pub mod Notify
pub mod Rbac
pub mod Storage
pub mod Telegram
pub mod Watcher
