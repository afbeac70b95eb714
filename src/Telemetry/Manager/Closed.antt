-- ===== src/Telemetry/Manager/Closed.antt =====
-- An entry of the telemetry manager (telemetry_manager.go) that comes back after its worker has gone.
use agentic_cloud_cluster.Base.{◌≡◌, refl, true, none, some, List, [], ◌∷◌, arith, eq_iff, ℤ}
use mathlib.Core.Option
use agentic_cloud_cluster.Float.{Float}
use agentic_cloud_cluster.Dict.{lookup, delete, lookup-insert, lookup-delete}
use agentic_cloud_cluster.Proto.{Heartbeat}
use agentic_cloud_cluster.Telemetry.Manager.{
  TelemetryManager, unregister_telemetry, deliver_closed, update_worker_telemetry, fresh_data,
  get_worker_telemetry, unregistered, drained, react, react_all,
}

module _ {N : Type 0} ⦃f : Float N⦄ where
  deliver-last :
      (tm : TelemetryManager N) (hb : Heartbeat N) (rest : List (Heartbeat N))
      (others : List (List (Heartbeat N))) (now : ℤ)
      → tm.closing ≡ (hb ∷ rest) ∷ others
      → deliver_closed tm now
        ≡ update_worker_telemetry (record tm { closing = rest ∷ others }) hb now
  unfolding deliver_closed
  deliver-last tm hb rest others now e = ground (arith, e)

  -- A worker whose channel still holds a heartbeat of its own when it is unregistered comes back:
  -- its goroutine takes the heartbeat from the closed channel, and the worker has an entry again,
  -- an active one, though no channel.
  pub unregistered_returns :
      (tm : TelemetryManager N) (hb : Heartbeat N) (rest : List (Heartbeat N)) (now : ℤ)
      → lookup hb.worker_id tm.worker_channels ≡ some (hb ∷ rest)
      → let after = react_all tm (unregistered hb.worker_id ∷ drained now ∷ []) in
        (Option.map (λ d. d.is_active) (get_worker_telemetry after hb.worker_id) ≡ some true)
        × (lookup hb.worker_id after.worker_channels ≡ none)
  unfolding react_all react unregister_telemetry deliver_closed update_worker_telemetry
      get_worker_telemetry
  unregistered_returns tm hb rest now there =
      let id = hb.worker_id in
      let self = (eq_iff id id).1 refl in
      let last : (unregister_telemetry tm id).closing ≡ (hb ∷ rest) ∷ tm.closing =
        ground (arith, there) in
      let next = deliver-last (unregister_telemetry tm id) hb rest tm.closing now last in
      (
        rw next (
            ground
              (arith, self, lookup-insert id id (fresh_data hb now) (delete id tm.worker_data))),
        rw next (ground (arith, self, lookup-delete id id tm.worker_channels)),
      )
