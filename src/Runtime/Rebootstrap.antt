-- ===== src/Runtime/Rebootstrap.antt =====
-- The transport that `RuntimeKernel` of runtime/kernel.py builds anew on demand.
use androidctl.Prelude.{nonempty, Option, none, some, if◌then◌else◌, not}
use androidctl.Runtime.Models.{
  Runtime, RuntimeTransport, BootstrapResult, ConnectionConfig, to_connection_config, World,
  runtime_not_connected, ok, err, Run,
}
use androidctl.Runtime.Lifecycle.{Lease, is_current, capture_lifecycle_lease, on_runtime}
use androidctl.Runtime.Kernel.{committing, close_transport, admits}

unfoldable pub commit_transport_rebootstrap :
    Lease → BootstrapResult → World → Run (Option RuntimeTransport)
commit_transport_rebootstrap lease result w =
    if not (is_current lease w.runtime)
    then (ok none, close_transport result.transport w)
    else elim w.runtime.transport [
      | some t ↦ (ok (some t), close_transport result.transport w)
      | none ↦ committing (some result.transport) (
          on_runtime
            (λ r. record r {
              connection = some result.connection;
              transport = some result.transport;
              device_capabilities = some result.capabilities;
            })
            w)
    ]

abbrev active_lease : Option Lease → Runtime → Lease
active_lease none r = capture_lifecycle_lease r
active_lease (some lease) r = lease

-- What `rebootstrap_transport` does before it calls `bootstrap`: an error, the transport at hand,
-- or the lease and the configuration to bootstrap with.
pub data Plan : Type 0 where
  refuse : Plan
  reuse : RuntimeTransport → Plan
  bootstrap_with : Lease → ConnectionConfig → Plan

unfoldable pub plan_rebootstrap : Option Lease → Runtime → Plan
unfolding to_connection_config
plan_rebootstrap lease r = if not (admits lease r) then refuse else elim r.transport [
  | some t ↦ reuse t
  | none ↦ elim r.connection [
    | none ↦ refuse
    | some c ↦ elim r.device_token [
      | none ↦ refuse
      | some token ↦
          if nonempty token
          then bootstrap_with (active_lease lease r) (to_connection_config c token)
          else refuse
    ]
  ]
]

or_not_connected : Run (Option RuntimeTransport) → Run RuntimeTransport
or_not_connected (ok none, w) = (err runtime_not_connected, w)
or_not_connected (ok (some t), w) = (ok t, w)
or_not_connected (err e, w) = (err e, w)

-- `bootstrap` runs with the lock released: it is a parameter, and may find or leave another world.
unfoldable pub rebootstrap_transport :
    (ConnectionConfig → World → Run BootstrapResult) → Option Lease → World → Run RuntimeTransport
unfolding or_not_connected
rebootstrap_transport bootstrap lease w = elim (plan_rebootstrap lease w.runtime) [
  | refuse ↦ (err runtime_not_connected, w)
  | reuse t ↦ (ok t, w)
  | bootstrap_with active config ↦
      let (r, w') = bootstrap config w in
      elim r [
        | err e ↦ (err e, w')
        | ok result ↦ or_not_connected (commit_transport_rebootstrap active result w')
      ]
]
