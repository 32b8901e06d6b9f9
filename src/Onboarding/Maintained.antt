-- ===== src/Onboarding/Maintained.antt =====
-- What `maintenance` of app/services/onboarding_service.py stores when it changes a host.
use superflash_ia.Prelude.{
  ℕ, String, Bool, true, false, not, ◌≡◌, refl, sym, ◌⊎◌, inl, inr, Option, none, some, List, [],
  ◌∷◌, Bool-cases, truthy,
}
use superflash_ia.Ssh.Catalogue.{
  check_exporter, check_exporter_version, SshOperation, SshCommandResult, SshServiceError,
}
use superflash_ia.Ssh.Catalogue
use superflash_ia.Onboarding.Types.{Onboarding, Server}
use superflash_ia.Onboarding.Job.{Command, Reply, answered, raised, crashed, script, operation}
use superflash_ia.Onboarding.Visit.{
  Greeting, welcomed, turned_away, broken, Host, Visit, VisitOutcome, ok, error, crash, Talk, pure,
  after, ◌>>=◌, ◌>>◌, write, outcome_of, send, connect,
}
use superflash_ia.Onboarding.Maintenance.{
  MaintenanceAction, script_of, MaintenanceResult, maintenance_result, Books, raise_unless,
  maintained, validated, change_host, lacks_version, perform, attend, excused, settle, maintenance,
}

abbrev HasFailed : MaintenanceResult → Type 0
HasFailed r = r.status ≡ "failed"

-- What holds of a result and its report, where a talk ends well; otherwise the report says failed.
unfoldable Leaves :
    {A : Type 0}
    → (A → MaintenanceResult → Type 0)
    → VisitOutcome A × Visit MaintenanceResult
    → Type 0
Leaves q (ok a, v) = q a v.report
Leaves q (error e, v) = HasFailed v.report
Leaves q (crash, v) = Unit

bind-Leaves :
    {A B : Type 0} (p : A → MaintenanceResult → Type 0) (q : B → MaintenanceResult → Type 0)
    (m : Talk MaintenanceResult A) (f : A → Talk MaintenanceResult B) (v : Visit MaintenanceResult)
    → Leaves p (m v)
    → ((a : A) (w : Visit MaintenanceResult) → p a w.report → Leaves q (f a w))
    → Leaves q ((m >>= f) v)
unfolding Leaves ◌>>=◌
bind-Leaves {A} {B} p q m f v h k = go (m v) h
  where
    go : (o : VisitOutcome A × Visit MaintenanceResult) → Leaves p o → Leaves q (after o.0 f o.1)
    go (ok a, w) g = k a w g
    go (error e, w) g = g
    go (crash, w) g = tt

outcome-Leaves :
    (p : MaintenanceResult → Type 0) (v : Visit MaintenanceResult) (reply : Reply)
    → p v.report
    → HasFailed v.report
    → Leaves (λ a r. p r) (outcome_of reply, v)
unfolding Leaves
outcome-Leaves p v (answered r) h f = h
outcome-Leaves p v (raised code) h f = f
outcome-Leaves p v crashed h f = tt

-- A command that is sent leaves the report alone.
send_then-Leaves :
    {B : Type 0} (p : MaintenanceResult → Type 0) (q : B → MaintenanceResult → Type 0) (host : Host)
    (c : Command) (f : SshCommandResult → Talk MaintenanceResult B) (v : Visit MaintenanceResult)
    → p v.report
    → HasFailed v.report
    → ((a : SshCommandResult) (w : Visit MaintenanceResult) → p w.report → Leaves q (f a w))
    → Leaves q ((send host c >>= f) v)
send_then-Leaves p q host c f v h failed k =
    let reply = host.reply v.exchanges c in
    bind-Leaves (λ a r. p r) q (send host c) f v
      (outcome-Leaves p (record v { exchanges = (c, reply) ∷ v.exchanges }) reply h failed) k

check_then-Leaves :
    {B : Type 0} (q : B → MaintenanceResult → Type 0) (b : Bool) (code : String)
    (m : Talk MaintenanceResult B) (v : Visit MaintenanceResult)
    → HasFailed v.report
    → ((w : Visit MaintenanceResult) → HasFailed w.report → Leaves q (m w))
    → Leaves q ((raise_unless b code >> m) v)
unfolding Leaves ◌>>=◌
check_then-Leaves q true code m v failed k = k v failed
check_then-Leaves q false code m v failed k = failed

write_then-Leaves :
    {B : Type 0} (p : MaintenanceResult → Type 0) (q : B → MaintenanceResult → Type 0)
    (f : MaintenanceResult → MaintenanceResult) (m : Talk MaintenanceResult B)
    (v : Visit MaintenanceResult)
    → p (f v.report)
    → ((w : Visit MaintenanceResult) → p w.report → Leaves q (m w))
    → Leaves q ((write f >> m) v)
unfolding Leaves ◌>>=◌
write_then-Leaves p q f m v h k = k (record v { report = f v.report }) h

pure-Leaves :
    {A : Type 0} (q : A → MaintenanceResult → Type 0) (a : A) (v : Visit MaintenanceResult)
    → q a v.report
    → Leaves q (pure a v)
unfolding Leaves
pure-Leaves q a v h = h

-- An action that ends well is validated, and assigns what its report says.
abbrev IsValidated : (Server → Server) → MaintenanceResult → Type 0
IsValidated assign r =
    (r.status ≡ "ok")
    × (r.exporter_status ≡ "healthy")
    × ((s : Server)
        → ((assign s).node_exporter_status ≡ "running")
          × ((assign s).node_exporter_version ≡ r.exporter_version))

abbrev IsHealthy : MaintenanceResult → Type 0
IsHealthy r = HasFailed r × (r.exporter_status ≡ "healthy")

abbrev IsValidatedAs : Option String → MaintenanceResult → Type 0
IsValidatedAs version r =
    (r.status ≡ "ok") × (r.exporter_status ≡ "healthy") × (r.exporter_version ≡ version)

change_host-Leaves :
    (host : Host) (name : String) (fingerprint : Option String) (v : Visit MaintenanceResult)
    → HasFailed v.report
    → Leaves IsValidated (change_host host name fingerprint v)
unfolding change_host
change_host-Leaves host name fingerprint v failed =
    let q = IsValidated in
    send_then-Leaves HasFailed q host (script name) _ v failed failed (λ a v1 f1.
      check_then-Leaves q (Catalogue.ok a) "maintenance_failed" _ v1 f1 (λ v2 f2.
        send_then-Leaves HasFailed q host (script "configure-node-exporter-firewall.sh") _ v2 f2 f2
          (λ b v3 f3. check_then-Leaves q (Catalogue.ok b) "firewall_failed" _ v3 f3 (λ v4 f4.
            send_then-Leaves HasFailed q host (operation check_exporter false) _ v4 f4 f4
              (λ x v5 f5.
                check_then-Leaves q (Catalogue.ok x) "exporter_unhealthy" _ v5 f5 (λ v6 f6.
                  write_then-Leaves IsHealthy q _ _ v6 (f6, refl)
                    (λ v7 h7.
                      send_then-Leaves IsHealthy q host (operation check_exporter_version false) _
                        v7 h7 h7.0
                        (λ y v8 h8.
                          let version = host.version_of y.stdout in
                          write_then-Leaves (IsValidatedAs version) q (validated version) _ v8
                            (refl, h8.1, refl)
                            (λ v9 h9.
                              pure-Leaves q (maintained version fingerprint) v9
                                (h9.0, h9.1, λ s. (refl, sym h9.2)))))))))))

connect-Leaves :
    (host : Host) (v : Visit MaintenanceResult)
    → HasFailed v.report
    → Leaves (λ key r. HasFailed r) (connect host v)
unfolding Leaves
connect-Leaves host v failed = go host.greeting refl
  where
    go : (g : Greeting) → host.greeting ≡ g → Leaves (λ key r. HasFailed r) (connect host v)
    go (welcomed fingerprint status) h = rw (connect, h) failed
    go (turned_away x) h = rw (connect, h) failed
    go broken h = rw (connect, h) tt

perform-Leaves :
    (host : Host) (action : MaintenanceAction) (target wanted fingerprint : Option String)
    (name : String) (v : Visit MaintenanceResult)
    → script_of action ≡ some name
    → HasFailed v.report
    → Leaves IsValidated (perform host action target wanted fingerprint v)
perform-Leaves host action target wanted fingerprint name v changes failed =
    rw (perform, changes)
      (check_then-Leaves IsValidated (not (lacks_version action target wanted))
        "target_version_not_configured" (change_host host name fingerprint) v failed
        (change_host-Leaves host name fingerprint))

attend-Leaves :
    (host : Host) (action : MaintenanceAction) (target wanted : Option String) (name : String)
    (v : Visit MaintenanceResult)
    → script_of action ≡ some name
    → HasFailed v.report
    → Leaves IsValidated (attend host action target wanted v)
unfolding attend
attend-Leaves host action target wanted name v changes failed =
    bind-Leaves (λ key r. HasFailed r) IsValidated (connect host)
      (λ key. perform host action target wanted key.0) v (connect-Leaves host v failed)
      (λ key w f. perform-Leaves host action target wanted key.0 name w changes f)

-- All of it, or nothing.
abbrev pub IsAllOrNothing : Books → Option MaintenanceResult × Books → Type 0
IsAllOrNothing before (answer, after') =
    ((after' ≡ before)
      × ((answer ≡ none) ⊎ ((r : MaintenanceResult) × (answer ≡ some r) × HasFailed r)))
    ⊎ ((r : MaintenanceResult) × (answer ≡ some r)
        × (r.status ≡ "ok")
        × (r.exporter_status ≡ "healthy")
        × (after'.server.node_exporter_status ≡ "running")
        × (after'.server.node_exporter_version ≡ r.exporter_version))

settle-IsAllOrNothing :
    (action : MaintenanceAction) (actor : String) (now : ℕ) (jobs : List Onboarding) (books : Books)
    (v : VisitOutcome (Server → Server) × Visit MaintenanceResult)
    → Leaves IsValidated v
    → IsAllOrNothing books (settle action actor now jobs books v.0 v.1.report)
unfolding Leaves
settle-IsAllOrNothing action actor now jobs books (ok f, v) h =
    let s = h.2 books.server in inr (v.report, refl, h.0, h.1, s.0, s.1)
settle-IsAllOrNothing action actor now jobs books (error e, v) h =
    inl (refl, inr (excused e v.report, refl, h))
settle-IsAllOrNothing action actor now jobs books (crash, v) h = inl (refl, inl refl)

-- An action that changes the host is stored whole or not at all: either the server and its events stay
-- as they are and the answer, if there is one, says failed, or the answer says that the exporter is
-- healthy and the server is stored with a running exporter of the version in the answer.
pub maintenance_lem :
    (host : Host) (action : MaintenanceAction) (target wanted : Option String) (actor : String)
    (now : ℕ) (jobs : List Onboarding) (books : Books) (name : String)
    → script_of action ≡ some name
    → IsAllOrNothing books (maintenance host action target wanted actor now jobs books).0
unfolding maintenance
maintenance_lem host action target wanted actor now jobs books name changes =
    elim (Bool-cases (truthy books.server.hostname)) [
      | inl named ↦ rw named (
          settle-IsAllOrNothing action actor now jobs books
            (attend host action target wanted
              (record { report = maintenance_result; exchanges = [] }))
            (attend-Leaves host action target wanted name
              (record { report = maintenance_result; exchanges = [] }) changes refl))
      | inr nameless ↦ rw nameless (inl (refl, inr (_, refl, refl)))
    ]
