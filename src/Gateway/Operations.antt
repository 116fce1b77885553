-- ===== src/Gateway/Operations.antt =====
-- The public operations of `HostGateway`, and every way in which it can run: host-gateway.ts.
use ai_block.Prelude.{
  ℕ, ◌+◌, Bool, true, ◌||◌, not, Option, none, some, if◌then◌else◌, is_none, insert, returns,
  throws, message_of,
}
use ai_block.Protocol.{ServerToHostPayload, HostToServerMessage, Decoded}
use ai_block.Gateway.Ports.{
  AuthenticatedHostContext, LocalErrorCode, SendRejection, HostGatewaySendResult,
  HostGatewayOpenResult, PortAnswers, TransportCall,
}
use ai_block.Gateway.State.{
  HostGateway, core, transport, default_terminal_failure, is_failed, new_connection, new_gateway,
  put, fail_connection,
}
use ai_block.Gateway.Write.{listen}
use ai_block.Gateway.Receive.{receive, send}

abbrev pub occupied : HostGateway → AuthenticatedHostContext → Bool
occupied g identity =
    not (is_none (g.pending_by_actor identity.actor_id))
    || not (is_none (g.pending_by_host identity.host_instance_id))
    || not (is_none (g.live_by_actor identity.actor_id))
    || not (is_none (g.live_by_host identity.host_instance_id))

-- The connection object and its two entries.
unfoldable pub register : HostGateway → AuthenticatedHostContext → Bool → HostGateway
register g identity has_fail =
    put
      (record g {
        pending_by_actor = insert g.pending_by_actor identity.actor_id g.opened;
        pending_by_host = insert g.pending_by_host identity.host_instance_id g.opened;
        opened = g.opened + 1;
      })
      g.opened (new_connection identity has_fail)

-- `connection.observeTransportFailures()` and the rest of `openConnection`. When the listener
-- runs before `onFailure` returns, `unsubscribeTransportFailure` is set on the failed connection.
unfoldable pub observe : HostGateway → ℕ → TransportCall → HostGateway × HostGatewayOpenResult
observe g r t = elim t.result [
  | throws e ↦ (
    fail_connection (listen g r t) r core
        (record { message = message_of e "Host transport failure observer failed." }),
    HostGatewayOpenResult.transport_failed (record {
      code = LocalErrorCode.transport_failed;
      message = message_of e "Host transport failure observer failed.";
    }),
  )
  | returns _ ↦ (
    put (listen g r t) r (record ((listen g r t).connections r) { subscribed = true }),
    if is_failed ((listen g r t).connections r).state
        then HostGatewayOpenResult.transport_failed (record {
          code = LocalErrorCode.transport_failed;
          message = "Host transport failed while opening.";
        })
        else HostGatewayOpenResult.accepted r,
  )
]

module _ (ports : PortAnswers) where
  unfoldable pub open_connection :
      HostGateway → AuthenticatedHostContext → Bool → HostGateway × HostGatewayOpenResult
  open_connection g identity has_fail =
      if occupied g identity
      then (g, HostGatewayOpenResult.connection_exists)
      else observe (register g identity has_fail) g.opened (ports.on_failure g.opened)

  unfoldable pub send_command :
      HostGateway → ℕ → ServerToHostPayload → Option ℕ → HostGateway × HostGatewaySendResult
  send_command g actor_id payload causal_message_id = elim (g.live_by_actor actor_id) [
    | none ↦ (g, HostGatewaySendResult.rejected SendRejection.not_live)
    | some r ↦ send ports g r payload causal_message_id
  ]

  -- One call of the gateway, of a connection, or of a failure listener by its transport.
  pub data Step (g : HostGateway) : HostGateway → Type 0 where
    opens :
        (identity : AuthenticatedHostContext) (has_fail : Bool)
        → Step g (open_connection g identity has_fail).0
    receives : (r : ℕ) (input : Decoded HostToServerMessage) → Step g (receive ports g r input).0
    sends :
        (r : ℕ) (payload : ServerToHostPayload) (causal_message_id : Option ℕ)
        → Step g (send ports g r payload causal_message_id).0
    commands :
        (actor_id : ℕ) (payload : ServerToHostPayload) (causal_message_id : Option ℕ)
        → Step g (send_command g actor_id payload causal_message_id).0
    fails : (r : ℕ) → Step g (fail_connection g r transport default_terminal_failure)

  pub data Reach : HostGateway → Type 0 where
    start : Reach new_gateway
    next : {g h : HostGateway} → Reach g → Step g h → Reach h
