-- ===== src/ActorHost/Orderly.antt =====
-- `IsOrderly`, which says what the host's connection has sent and what it has passed to the command processor:
-- server-connection.ts and command-processor.ts.
pub mod Moves
use ai_block.Prelude.{
  ℕ, ◌+◌, ◌<◌, ap, ◌≡◌, refl, sym, ◌∙◌, Bool, true, false, List, [], ◌∷◌, ◌++◌, map, map-append,
  arith, length, length-append_one, All, All-append, upto, upto_one, String, Option, none, some,
  returns, throws, inl, inr, ◌⊎◌, Attempt,
}
use ai_block.Protocol.{
  ServerToHostMessage, HostToServerMessage, HostToServerPayload, InvocationProcessFact,
  ContractErrorEnvelope, Decoded, decoded, undecodable,
}
use ai_block.Supervisor.State.{Supervisor}
use ai_block.Gateway.Ports.{TransportCall}
use ai_block.ActorHost.State.{
  ActorHost, HostIdentity, ServerConnectionState, HostOutboundSendResult, WriteAnswers,
  Subscription, new_actor_host,
}
use ai_block.ActorHost.Redaction.{fixed_host_fault_message, redact_outbound_payload, redact_process}
use ai_block.ActorHost.Connection.{fail_connection, envelope, start, send, write, go_live}
use ai_block.ActorHost.Commands.{emit, take_inbound}
use ai_block.ActorHost.Writes.{took, write_cases, send_cases}

abbrev pub is_failed : ServerConnectionState → Bool
is_failed ServerConnectionState.failed = true
is_failed _ = false

abbrev pub is_live : ServerConnectionState → Bool
is_live ServerConnectionState.live = true
is_live _ = false

abbrev pub is_hello : HostToServerPayload → Bool
is_hello (HostToServerPayload.host_hello p h a) = true
is_hello _ = false

-- What may leave the host of the text of errors: the fixed message of a code, and no details.
abbrev IsPlain : ContractErrorEnvelope → String → Type 0
IsPlain error message = (error.message ≡ message) × (error.details ≡ none)

abbrev IsRedactedFact : InvocationProcessFact → Type 0
IsRedactedFact (InvocationProcessFact.launch_failed error) =
    IsPlain error "Backend process launch failed."
IsRedactedFact _ = Unit {0}

unfoldable pub IsRedacted : HostToServerPayload → Type 0
unfolding fixed_host_fault_message
IsRedacted (HostToServerPayload.host_fault invocation_id error) =
    IsPlain error (fixed_host_fault_message error.code)
IsRedacted (HostToServerPayload.invocation_result result) = IsRedactedFact result.process
IsRedacted _ = Unit {0}

-- The first message is the hello of the connection's identity, and no other is a hello.
abbrev pub IsOpened : HostIdentity → List HostToServerMessage → Type 0
IsOpened identity [] = Unit {0}
IsOpened identity (m ∷ ms) =
    (m.payload
      ≡ HostToServerPayload.host_hello identity.project_id identity.host_instance_id
          identity.actor_id)
    × All (λ n. is_hello n.payload ≡ false) ms

unfoldable pub IsProper : ℕ → HostToServerMessage → Type 0
unfolding IsRedacted
IsProper generation m = (m.connection_generation ≡ generation) × IsRedacted m.payload

abbrev sent_numbers : List HostToServerMessage → List ℕ
sent_numbers = map λ m. m.sender_sequence

abbrev heard_numbers : List ServerToHostMessage → List ℕ
heard_numbers = map λ m. m.sender_sequence

pub record IsOrderly (h : ActorHost) : Type 0 where
  pub numbered : sent_numbers h.sent ≡ upto (length h.sent)
  pub complete : is_failed h.state ≡ false → length h.sent ≡ h.next_outbound_sequence
  pub opened : IsOpened h.identity h.sent
  pub begun : is_live h.state ≡ true → 0 < h.next_outbound_sequence
  pub unbegun : h.state ≡ ServerConnectionState.not_started → h.next_outbound_sequence ≡ 0
  pub proper : All (IsProper h.connection_generation) h.sent
  pub heard : heard_numbers h.processed ≡ upto h.next_inbound_sequence
  pub meant : All (λ m. m.connection_generation ≡ h.connection_generation) h.processed

pub new_actor_host-IsOrderly :
    (identity : HostIdentity) (generation : ℕ) (sv : Supervisor)
    → IsOrderly (new_actor_host identity generation sv)
new_actor_host-IsOrderly identity generation sv = record {
  numbered = refl;
  complete = λ up. refl;
  opened = tt;
  begun = λ up. cc;
  unbegun = λ s. refl;
  proper = tt;
  heard = refl;
  meant = tt;
}

IsOpened-append :
    (identity : HostIdentity) (ms : List HostToServerMessage) (m : HostToServerMessage)
    → 0 < length ms
    → is_hello m.payload ≡ false
    → IsOpened identity ms
    → IsOpened identity (ms ++ m ∷ [])
IsOpened-append identity [] m lt e o = absurd (omega (arith, lt))
IsOpened-append identity (x ∷ xs) m lt e o = (o.0, All-append _ xs (m ∷ []) o.1 (e, tt))

redact_process-IsRedactedFact :
    (fact : InvocationProcessFact) → IsRedactedFact (redact_process fact)
redact_process-IsRedactedFact (InvocationProcessFact.exited n) = tt
redact_process-IsRedactedFact (InvocationProcessFact.signaled name) = tt
redact_process-IsRedactedFact InvocationProcessFact.stopped = tt
redact_process-IsRedactedFact (InvocationProcessFact.launch_failed error) = (refl, refl)

redact-IsRedacted : (payload : HostToServerPayload) → IsRedacted (redact_outbound_payload payload)
unfolding IsRedacted redact_outbound_payload
redact-IsRedacted (HostToServerPayload.host_fault i error) = (refl, refl)
redact-IsRedacted (HostToServerPayload.invocation_result result) =
    redact_process-IsRedactedFact result.process
redact-IsRedacted (HostToServerPayload.host_hello p h a) = tt
redact-IsRedacted (HostToServerPayload.host_ready a) = tt
redact-IsRedacted HostToServerPayload.heartbeat = tt
redact-IsRedacted (HostToServerPayload.session_report i s) = tt
redact-IsRedacted (HostToServerPayload.package_publish_request i k t b p) = tt
redact-IsRedacted (HostToServerPayload.completion_request i p) = tt
redact-IsRedacted (HostToServerPayload.ack i) = tt

redact-is_hello :
    (payload : HostToServerPayload) → is_hello (redact_outbound_payload payload) ≡ is_hello payload
unfolding redact_outbound_payload
redact-is_hello (HostToServerPayload.host_fault i error) = refl
redact-is_hello (HostToServerPayload.invocation_result result) = refl
redact-is_hello (HostToServerPayload.host_hello p h a) = refl
redact-is_hello (HostToServerPayload.host_ready a) = refl
redact-is_hello HostToServerPayload.heartbeat = refl
redact-is_hello (HostToServerPayload.session_report i s) = refl
redact-is_hello (HostToServerPayload.package_publish_request i k t b p) = refl
redact-is_hello (HostToServerPayload.completion_request i p) = refl
redact-is_hello (HostToServerPayload.ack i) = refl

-- A change that sends and hears nothing, and leaves the numbers and the state alone or fails.
quiet-IsOrderly :
    {h k : ActorHost}
    → IsOrderly h
    → k.sent ≡ h.sent
    → k.processed ≡ h.processed
    → k.identity ≡ h.identity
    → k.connection_generation ≡ h.connection_generation
    → k.next_inbound_sequence ≡ h.next_inbound_sequence
    → ((k.state ≡ ServerConnectionState.failed)
        ⊎ ((k.state ≡ h.state) × (k.next_outbound_sequence ≡ h.next_outbound_sequence)))
    → IsOrderly k
quiet-IsOrderly {h} {k} o s p i g n q = record {
  numbered = rw s o.numbered;
  complete = λ up. rw s (ground (arith, o.complete));
  opened = rw (s, i) o.opened;
  begun = λ up. ground (arith, o.begun);
  unbegun = λ up. ground (arith, o.unbegun);
  proper = rw (s, g) o.proper;
  heard = rw (p, n) o.heard;
  meant = rw (p, g) o.meant;
}

-- The transport takes a message with the next number.
took-IsOrderly :
    {h : ActorHost}
    → IsOrderly h
    → is_failed h.state ≡ false
    → (m : HostToServerMessage) (t : TransportCall) → m.sender_sequence ≡ h.next_outbound_sequence
    → IsProper h.connection_generation m
    → IsOpened h.identity (h.sent ++ m ∷ [])
    → (k : ActorHost) → k.sent ≡ h.sent ++ m ∷ []
    → k.next_outbound_sequence ≡ h.next_outbound_sequence + 1
    → k.processed ≡ h.processed
    → k.identity ≡ h.identity
    → k.connection_generation ≡ h.connection_generation
    → k.next_inbound_sequence ≡ h.next_inbound_sequence
    → (is_failed k.state ≡ true) ⊎ (is_live k.state ≡ true)
    → IsOrderly k
took-IsOrderly {h} o up m t q proper opened k s n p i g c st = record {
  numbered = rw (s, length-append_one h.sent m, map-append, o.numbered, q, o.complete up);
  complete = λ _. rw (s, length-append_one h.sent m, n, o.complete up) (omega arith);
  opened = rw (s, i) opened;
  begun = λ _. rw n (omega arith);
  unbegun = λ e. ground (arith);
  proper = rw (s, g) (All-append _ h.sent (m ∷ []) o.proper (proper, tt));
  heard = rw (p, c) o.heard;
  meant = rw (p, g) o.meant;
}

pub emit-IsOrderly :
    (writes : ℕ → WriteAnswers) (h : ActorHost) (payload : HostToServerPayload) (causal : ℕ)
    → is_hello payload ≡ false
    → IsOrderly h
    → IsOrderly (emit writes h payload causal).0
unfolding emit IsProper
emit-IsOrderly writes h payload causal e o =
    send_cases (λ x. IsOrderly x.0) writes h (redact_outbound_payload payload) causal (λ r. o)
      λ live.
        write_cases (λ x. IsOrderly x.0) h (redact_outbound_payload payload) (some causal)
          (writes h.next_outbound_sequence)
          (λ m. quiet-IsOrderly o refl refl refl refl refl (inl refl))
          (λ m.
            quiet-IsOrderly o (ground arith) (ground arith) (ground arith) (ground arith)
              (ground arith) (inl refl))
          λ id at.
            took-IsOrderly o (rw live)
              (envelope h (redact_outbound_payload payload) (some causal) id at)
              (writes h.next_outbound_sequence).send refl (refl, redact-IsRedacted payload)
              (IsOpened-append h.identity h.sent _ (ground (arith, o.complete, o.begun))
                (redact-is_hello payload ∙ e) o.opened)
              _ (ground arith) (ground arith) (ground arith) (ground arith) (ground arith)
              (ground arith) (ground arith)

empty : {A : Type 0} (xs : List A) → length xs ≡ 0 → xs ≡ []
empty [] e = refl
empty (x ∷ xs) e = absurd (omega (arith, e))

-- `start` writes the hello as the first message.
begin-IsOrderly :
    (writes : ℕ → WriteAnswers) (h : ActorHost) (payload : HostToServerPayload)
    → payload
      ≡ HostToServerPayload.host_hello h.identity.project_id h.identity.host_instance_id
          h.identity.actor_id
    → h.state ≡ ServerConnectionState.not_started
    → IsOrderly h
    → IsOrderly (go_live (write writes h payload none)).0
unfolding write IsProper IsRedacted
begin-IsOrderly writes h payload e s o =
    write_cases (λ x. IsOrderly (go_live x).0) h payload none (writes h.next_outbound_sequence)
      (λ m. quiet-IsOrderly o refl refl refl refl refl (inl refl))
      (λ m.
        quiet-IsOrderly o (ground arith) (ground arith) (ground arith) (ground arith) (ground arith)
          (inl refl))
      λ id at.
        took-IsOrderly o (rw s) (envelope h payload none id at)
          (writes h.next_outbound_sequence).send refl (refl, rw e tt)
          (rw (empty h.sent (o.complete (rw s) ∙ o.unbegun s)) (e, tt)) _ (ground arith)
          (ground arith) (ground arith) (ground arith) (ground arith) (ground arith) (inr refl)

pub start-IsOrderly :
    (writes : ℕ → WriteAnswers) (h : ActorHost) → IsOrderly h → IsOrderly (start writes h).0
unfolding start
start-IsOrderly writes h o = go h.state refl
  where
    go : (s : ServerConnectionState) → h.state ≡ s → IsOrderly (start writes h).0
    go ServerConnectionState.live e = rw (e, start) o
    go ServerConnectionState.failed e = rw (e, start) o
    go ServerConnectionState.not_started e = rw (e, start) (begin-IsOrderly writes h _ refl e o)

pub take_inbound-IsOrderly :
    (h : ActorHost) (m : ServerToHostMessage)
    → m.sender_sequence ≡ h.next_inbound_sequence
    → m.connection_generation ≡ h.connection_generation
    → IsOrderly h
    → IsOrderly (take_inbound h m)
take_inbound-IsOrderly h m q g o = record {
  numbered = o.numbered;
  complete = o.complete;
  opened = o.opened;
  begun = o.begun;
  unbegun = o.unbegun;
  proper = o.proper;
  heard = rw (map-append, o.heard, q) (sym (upto_one h.next_inbound_sequence));
  meant = All-append _ h.processed (m ∷ []) o.meant (g, tt);
}
