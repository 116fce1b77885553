-- ===== src/Gateway/Receipts/Inbound.antt =====
-- What `receive` does with an input, by its result: host-gateway.ts.
use ai_block.Prelude.{
  ap, ◌∙◌, sym, ◌≢◌, ◌⊎◌, ◌↔◌, Bool, Attempt, Thrown, returns, ℕ, ◌≡◌, refl, inl, inr, true, false,
  none, some, arith, Bool-cases, Option-cases, Attempt-cases,
}
use ai_block.Protocol.{HostToServerPayload, HostToServerMessage, decoded}
use ai_block.Gateway.Ports.{
  AuthenticatedHostContext, HostGatewaySendResult, HostGatewayInboundResult, InboundRejection,
  PortAnswers,
}
use ai_block.Gateway.State.{HostGateway, is_failed, is_pending, remove, fail_connection}
use ai_block.Gateway.Receive.{
  is_hello, matches_hello_identity, matches_post_hello_identity, envelope_error, commit_live,
  take_inbound, reject, write, register_hello, receive_hello, deliver_fact, receive_ack,
  receive_live_payload, receive_live, receive_decoded, receive,
}
use ai_block.Gateway.Receipts.{
  IsNext, Acknowledges, write_with-Acknowledges, is_ack, IsFrom, IsInTurn, IsRegistered, ReceiptOf,
  Receipt, reject-IsLost, commit_live_lem,
}

hello-IsFrom :
    (identity : AuthenticatedHostContext) (payload : HostToServerPayload)
    → (matches_hello_identity identity payload ≡ true)
      ↔ ((is_hello payload ≡ true) × IsFrom identity payload)
hello-IsFrom identity (HostToServerPayload.host_hello project_id host_instance_id actor_id) = (
  λ h. (refl, (ground (arith, h), ground (arith, h), ground (arith, h))),
  λ (q, (p, a, i)). ground (arith, p, a, i),
)
hello-IsFrom identity (HostToServerPayload.host_ready _) = (λ h. cc, λ (q, _). cc)
hello-IsFrom identity (HostToServerPayload.invocation_result _) = (λ h. cc, λ (q, _). cc)
hello-IsFrom identity _ = (λ h. cc, λ (q, _). cc)

later-IsFrom :
    (identity : AuthenticatedHostContext) (payload : HostToServerPayload)
    → is_hello payload ≡ false
    → (matches_post_hello_identity identity payload ≡ true) ↔ IsFrom identity payload
later-IsFrom identity (HostToServerPayload.host_hello _ _ _) e = absurd (ground (arith, e))
later-IsFrom identity (HostToServerPayload.host_ready actor_id) e =
    (λ h. ground (arith, h), λ h. ground (arith, h))
later-IsFrom identity (HostToServerPayload.invocation_result result) e =
    (λ h. (ground (arith, h), ground (arith, h)), λ (p, a). ground (arith, p, a))
later-IsFrom identity _ e = (λ h. tt, λ h. refl)

mismatch : {b : Bool} {P : Type 0} → b ≡ false → (P → b ≡ true) → ¬ P
mismatch e f p = absurd (ground (arith, e, f p))

mismatch-false : {b c : Bool} → (b ≡ true → c ≡ true) → c ≡ false → b ≡ false
mismatch-false {b = true} f e = absurd (ground (arith, e, f refl))
mismatch-false {b = false} f e = refl

hello-is_ack : (payload : HostToServerPayload) → is_hello payload ≡ true → is_ack payload ≡ false
hello-is_ack (HostToServerPayload.host_hello _ _ _) e = refl
hello-is_ack (HostToServerPayload.ack _) e = absurd (ground (arith, e))
hello-is_ack _ e = refl

throws≢returns : {A : Type 0} {e : Thrown} {a : A} → Attempt.throws e ≢ returns a
throws≢returns h = cc h

commit_live-IsRegistered :
    (h : HostGateway) (r : ℕ)
    → is_pending (h.connections r).state ≡ true
    → is_failed ((commit_live h r).connections r).state ≡ false
    → IsRegistered (take_inbound (commit_live h r) r) r
unfolding commit_live fail_connection remove
commit_live-IsRegistered h r p e =
    (ground arith, ground arith, ground arith, ground arith, ground arith)

commit_live-out_of_turn :
    (h : HostGateway) (r : ℕ)
    → is_failed ((commit_live h r).connections r).state ≡ true
    → (is_failed (h.connections r).state ≡ true) ⊎ ¬ IsInTurn h r
unfolding commit_live
commit_live-out_of_turn h r e = elim (Bool-cases (is_failed (h.connections r).state)) [
  | inl f ↦ inl f
  | inr f ↦ inr λ (a, b, c, d). absurd (ground (arith, e, f, a, b, c, d))
]

commit_live-keeps_failed :
    (h : HostGateway) (r : ℕ)
    → is_failed (h.connections r).state ≡ true
    → is_failed ((commit_live h r).connections r).state ≡ true
unfolding commit_live fail_connection remove
commit_live-keeps_failed h r f = ground arith

register_hello-Receipt :
    (g h : HostGateway) (s : HostGatewaySendResult) (accepted : Attempt (Unit {0})) (r : ℕ)
    (message : HostToServerMessage)
    → matches_hello_identity (g.connections r).identity message.payload ≡ true
    → is_pending (g.connections r).state ≡ true
    → Acknowledges g r message (h, s)
    → ReceiptOf (h, s) accepted g r message (register_hello (h, s) r)
unfolding register_hello
register_hello-Receipt g h (HostGatewaySendResult.sent m) accepted r message i p k =
    let (hello, from) = (hello-IsFrom (g.connections r).identity message.payload).0 i in
    let (log, number, facts) = commit_live_lem h r in
    elim (Bool-cases (is_failed ((commit_live h r).connections r).state)) [
      | inl e ↦
          rw (e, register_hello)
            (
              hello-is_ack message.payload hello,
              inr (hello, commit_live-out_of_turn h r e),
              (e, ground arith, ground arith),
            )
      | inr e ↦
          let up : is_failed (h.connections r).state ≡ false =
            mismatch-false (commit_live-keeps_failed h r) e in
          let still : is_pending (h.connections r).state ≡ true = ap is_pending (k.3 up) ∙ p in
          rw (e, register_hello)
            (
              k.0,
              p,
              hello,
              from,
              commit_live-IsRegistered h r still e,
              ground arith,
              ground arith,
              ground arith,
            )
    ]
register_hello-Receipt g h (HostGatewaySendResult.rejected _) accepted r message i p k = absurd k
register_hello-Receipt g h (HostGatewaySendResult.transport_failed _) accepted r message i p k =
    (hello-is_ack message.payload ((hello-IsFrom _ message.payload).0 i).0, inl refl, k)

module _ (ports : PortAnswers) where
  deliver_fact-Receipt :
      (g h : HostGateway) (s : HostGatewaySendResult) (r : ℕ) (message : HostToServerMessage)
      → is_pending (g.connections r).state ≡ false
      → is_ack message.payload ≡ false
      → IsFrom (g.connections r).identity message.payload
      → Acknowledges g r message (h, s)
      → ReceiptOf
          (h, s)
          (ports.accept r (g.connections r).next_inbound_sequence)
          g
          r
          message
          (deliver_fact ports (h, s) r message)
  unfolding deliver_fact fail_connection remove
  deliver_fact-Receipt g h (HostGatewaySendResult.sent m) r message p a i k =
      let number : (h.connections r).next_inbound_sequence
          ≡ (g.connections r).next_inbound_sequence =
        k.4 in
      elim (Attempt-cases (ports.accept r (h.connections r).next_inbound_sequence)) [
        | inl (x, e) ↦
            rw (e, deliver_fact)
              (
                p,
                a,
                ap (ports.accept r) (sym number) ∙ e,
                ground arith,
                i,
                (m, k.0, ground arith),
                ground arith,
                ground arith,
              )
        | inr (x, e) ↦
            rw (e, deliver_fact)
              (
                p,
                a,
                λ q. absurd (throws≢returns (sym e ∙ ap (ports.accept r) number ∙ q)),
                i,
                (m, k.0, ground arith),
                ground arith,
                ground arith,
                ground arith,
              )
      ]
  deliver_fact-Receipt g h (HostGatewaySendResult.rejected _) r message p a i k = absurd k
  deliver_fact-Receipt g h (HostGatewaySendResult.transport_failed _) r message p a i k =
      (a, inl refl, k)

  receive_hello-Receipt :
      (g : HostGateway) (r : ℕ) (message : HostToServerMessage)
      → is_pending (g.connections r).state ≡ true
      → Receipt ports g r message (receive_hello ports g r message)
  unfolding receive_hello write reject
  receive_hello-Receipt g r message p = elim (Bool-cases (is_hello message.payload)) [
    | inr e ↦ rw e ((p, e), refl, reject-IsLost g r InboundRejection.wrong_first_payload none)
    | inl e ↦
        rw e
          (elim (Bool-cases (matches_hello_identity (g.connections r).identity message.payload)) [
            | inr f ↦ rw f (
              mismatch f (λ from. (hello-IsFrom _ message.payload).1 (e, from)),
              refl,
              reject-IsLost g r InboundRejection.identity_mismatch none,
            )
            | inl f ↦ rw f (
                register_hello-Receipt g _ _ _ r message f p
                  (write_with-Acknowledges g r message _))
          ])
  ]

  receive_ack-Receipt :
      (g : HostGateway) (r id : ℕ) (message : HostToServerMessage)
      → is_pending (g.connections r).state ≡ false
      → message.payload ≡ HostToServerPayload.ack id
      → Receipt ports g r message (receive_ack g r id)
  unfolding receive_ack
  receive_ack-Receipt g r id message p e =
      elim (Option-cases ((g.connections r).pending_commands id)) [
        | inl n ↦ rw (n, receive_ack) (p, e, ground arith, n, ground arith, refl)
        | inr (m, n) ↦
            rw (n, receive_ack) (p, e, ground arith, (m, n), ground arith, ground arith, refl)
      ]

  receive_live_payload-Receipt :
      (g : HostGateway) (r : ℕ) (message : HostToServerMessage) (payload : HostToServerPayload)
      → message.payload ≡ payload
      → is_pending (g.connections r).state ≡ false
      → IsFrom (g.connections r).identity message.payload
      → Receipt ports g r message (receive_live_payload ports g r message payload)
  unfolding receive_live_payload write
  receive_live_payload-Receipt g r message (HostToServerPayload.ack id) e p i =
      receive_ack-Receipt g r id message p e
  receive_live_payload-Receipt g r message _ e p i =
      deliver_fact-Receipt g _ _ r message p (rw e refl) i (write_with-Acknowledges g r message _)

  receive_live-Receipt :
      (g : HostGateway) (r : ℕ) (message : HostToServerMessage)
      → is_pending (g.connections r).state ≡ false
      → Receipt ports g r message (receive_live ports g r message)
  unfolding receive_live reject
  receive_live-Receipt g r message p = elim (Bool-cases (is_hello message.payload)) [
    | inl e ↦ rw e ((p, e), refl, reject-IsLost g r InboundRejection.duplicate_hello none)
    | inr e ↦
        rw e
          (elim (Bool-cases
            (matches_post_hello_identity (g.connections r).identity message.payload)) [
              | inr f ↦ rw f (
                mismatch f (later-IsFrom _ message.payload e).1,
                refl,
                reject-IsLost g r InboundRejection.identity_mismatch none,
              )
              | inl f ↦ rw f (
                  receive_live_payload-Receipt g r message message.payload refl p
                    ((later-IsFrom _ message.payload e).0 f))
            ])
  ]

  receive_decoded-Receipt :
      (g : HostGateway) (r : ℕ) (message : HostToServerMessage)
      → IsNext g r message
      → Receipt ports g r message (receive_decoded ports g r message)
  unfolding receive_decoded
  receive_decoded-Receipt g r message (gen, seq) =
      rw (in_order, receive_decoded)
        (elim (Bool-cases (is_pending (g.connections r).state)) [
          | inl p ↦ rw p (receive_hello-Receipt g r message p)
          | inr p ↦ rw p (receive_live-Receipt g r message p)
        ])
    where
      in_order : envelope_error (g.connections r) message ≡ none
      in_order = ground arith

  -- On a connection that has not failed, a decoded message with the gateway's generation and the
  -- connection's next number ends in one of these ways, each with its result. While the connection
  -- is pending: the hello of the own host is acknowledged and makes the connection the live one of
  -- its actor and its host instance, and no pending one. Afterwards: an ack settles the command if
  -- it is pending, and is ignored otherwise; any other message that names no other identity is
  -- acknowledged and handed to the sink as a fact, and if the sink refuses it the connection has
  -- failed. Each of these counts the message. Else the connection has failed and nothing is
  -- counted: since the acknowledgement could not be written; or, after a hello, since the connection
  -- failed meanwhile or is not the pending one of its actor and host instance, or another is live;
  -- or the message is rejected, but only where the first one is no hello, a later one is, or it
  -- names another identity.
  pub receive-Receipt :
      (g : HostGateway) (r : ℕ) (message : HostToServerMessage)
      → is_failed (g.connections r).state ≡ false
      → IsNext g r message
      → Receipt ports g r message (receive ports g r (decoded message))
  unfolding receive
  receive-Receipt g r message up n = rw up (receive_decoded-Receipt g r message n)

  -- On a connection that has not failed, a decoded message with another generation or another number
  -- is rejected, by the first check that it fails: the connection fails, its next
  -- number stays and no fact is handed over.
  pub receive_out_of_order :
      (g : HostGateway) (r : ℕ) (message : HostToServerMessage)
      → is_failed (g.connections r).state ≡ false
      → ¬ IsNext g r message
      → let (h, result) = receive ports g r (decoded message) in
        ((reason : InboundRejection) × (result ≡ HostGatewayInboundResult.rejected reason none)
          × (envelope_error (g.connections r) message ≡ some reason))
        × (is_failed (h.connections r).state ≡ true)
        × ((h.connections r).next_inbound_sequence ≡ (g.connections r).next_inbound_sequence)
        × (h.facts ≡ g.facts)
  unfolding receive receive_decoded reject fail_connection remove
  receive_out_of_order g r message up n =
      elim (Option-cases (envelope_error (g.connections r) message)) [
        | inl e ↦ absurd (n (ground arith))
        | inr (reason, e) ↦
            rw (up, receive)
              (rw (e, receive_decoded)
                ((reason, refl, refl), ground arith, ground arith, ground arith))
      ]
