-- ===== src/Orchestrator/Polling.antt =====
-- Polling ends: pollNode of internal/orchestrator/service.go.
use remnanode_setup_bot.Base.{ℕ, zero, suc, ◌+◌, ◌≤◌, ◌<◌, String, ◌≡◌, ◌∙◌, sym, ap, refl}
use remnanode_setup_bot.Base.{Bool, true, false, Option, none, some, arith}
use remnanode_setup_bot.Base.{ltb, if◌then◌else◌}
use remnanode_setup_bot.Base.{
  ok, err, Triple, After, Triple-bind, Triple-return, Triple-if, Triple-weaken,
}
use remnanode_setup_bot.Remnawave.{Node}
use remnanode_setup_bot.Orchestrator.World.{
  Error, context_done, Config, Outside, World, Run, check_context, tick_on,
}
use remnanode_setup_bot.Orchestrator.Calls.{ask_node, ask_poll_time}
use remnanode_setup_bot.Orchestrator.Connect.{
  Polled, connected, rejected, timed_out, poll_answer, keep_polling, next_backoff, poll_loop,
  poll_node,
}
use mathlib.Core.Path.{subst}
use mathlib.Core.Option.{some-injective}

-- What a read of the Node says: that it is connected, that it is neither connected nor connecting, or
-- neither of the two (an error, or a Node that is connecting).
abbrev pub Said : Polled → Option Node → Type 0
Said connected answer = (node : Node) × ((answer ≡ some node) × (node.is_connected ≡ true))
Said rejected answer =
    (node : Node) × ((answer ≡ some node)
      × ((node.is_connected ≡ false) × (node.is_connecting ≡ false)))
Said timed_out answer =
    (node : Node) → answer ≡ some node → (node.is_connected ≡ false) × (node.is_connecting ≡ true)

-- The calls after the last read: of the clock, and of the context before the wait that was too long.
abbrev pub calls_after : Polled → ℕ
calls_after timed_out = 3
calls_after _ = 2

-- The answer that polling ends in is what the last read of the Node said.
abbrev pub Seen : Outside → String → Polled → World → Type 0
Seen o uuid polled w =
    (read : ℕ) × ((w.tick ≡ calls_after polled + read) × Said polled (o.node read uuid))

abbrev pub Ends : Error → World → Type 0
Ends e w = e ≡ context_done

module _ (o : Outside) (config : Config) where
  abbrev Any : World → Type 0
  Any w = Unit {0}

  -- The call that the read was, so many calls ago.
  abbrev Asked : String → ℕ → Option Node → World → Type 0
  Asked uuid n answer w = (read : ℕ) × ((w.tick ≡ n + read) × (o.node read uuid ≡ answer))

  asked : (uuid : String) → Triple Any (ask_node o uuid) (Asked uuid 1) Ends
  unfolding ask_node
  asked uuid = record { run = λ w _. (w.tick, (omega arith, refl)) }

  timed :
      (uuid : String) (answer : Option Node)
      → Triple (Asked uuid 1 answer) (ask_poll_time o) (λ _. Asked uuid 2 answer) Ends
  unfolding ask_poll_time
  timed uuid answer = record { run = λ w (read, (t, a)). (read, (omega arith, a)) }

  context :
      (uuid : String) (answer : Option Node)
      → Triple (Asked uuid 2 answer) (check_context o) (λ _. Asked uuid 3 answer) Ends
  unfolding check_context
  context uuid answer = record {
    run = λ w (read, (t, a)). ended (o.done w.tick) (tick_on w) (read, (omega arith, a));
  }
    where
      ended :
          (b : Bool) (w : World)
          → Asked uuid 3 answer w
          → After (λ _. Asked uuid 3 answer) Ends (if b then err context_done else ok tt, w)
      ended true w h = refl
      ended false w h = h

  AnswerSaid : Option Polled → Option Node → Type 0
  AnswerSaid none answer = Said timed_out answer
  AnswerSaid (some timed_out) answer = ⊥
  AnswerSaid (some polled) answer = Said polled answer

  poll_answer-Said : (answer : Option Node) → AnswerSaid (poll_answer o config answer) answer
  unfolding poll_answer AnswerSaid
  poll_answer-Said none = λ node e. absurd (ground (arith, e))
  poll_answer-Said (some node) = by_state node.is_connected node.is_connecting refl refl
    where
      by_state :
          (up connecting : Bool)
          → node.is_connected ≡ up
          → node.is_connecting ≡ connecting
          → AnswerSaid
              (if up then some connected else if connecting then none else some rejected)
              (some node)
      by_state true c a b = (node, (refl, a))
      by_state false true a b = λ other e.
          let same = some-injective _ _ e in
          (
            sym (ap (λ (n : Node). n.is_connected) same) ∙ a,
            sym (ap (λ (n : Node). n.is_connecting) same) ∙ b,
          )
      by_state false false a b = (node, (refl, (a, b)))

  abbrev Waited : String → World → Type 0
  Waited uuid w = (read : ℕ) × ((w.tick ≡ 3 + read) × Said timed_out (o.node read uuid))

  keep_polling-Seen :
      (uuid : String) (answer : Option Node) (polled : Option Polled) (next : Run Polled)
      → AnswerSaid polled answer
      → Triple (Waited uuid) next (Seen o uuid) Ends
      → Triple (Asked uuid 2 answer) (keep_polling o config polled next) (Seen o uuid) Ends
  unfolding keep_polling AnswerSaid
  keep_polling-Seen uuid answer none next s h = Triple-bind (context uuid answer) (λ _.
      Triple-weaken h (λ w (read, (t, a)). (read, (t, subst (Said timed_out) (sym a) s)))
        (λ _ w q. q) (λ _ w q. q))
  keep_polling-Seen uuid answer (some connected) next s h =
      Triple-return connected (λ w (read, (t, a)). (read, (t, subst (Said connected) (sym a) s)))
  keep_polling-Seen uuid answer (some rejected) next s h =
      Triple-return rejected (λ w (read, (t, a)). (read, (t, subst (Said rejected) (sym a) s)))
  keep_polling-Seen uuid answer (some timed_out) next s h = absurd s

  next_backoff-positive :
      (backoff : ℕ) → 1 ≤ backoff → 1 ≤ config.max_poll_backoff → 1 ≤ next_backoff o config backoff
  unfolding next_backoff
  next_backoff-positive backoff h k = ground arith

  poll_loop-Seen :
      (fuel : ℕ) (uuid : String) (elapsed backoff : ℕ)
      → 1 ≤ backoff
      → 1 ≤ config.max_poll_backoff
      → elapsed ≤ config.node_connect_timeout
      → config.node_connect_timeout < elapsed + fuel
      → Triple Any (poll_loop o config fuel uuid elapsed backoff) (Seen o uuid) Ends
  unfolding poll_loop
  poll_loop-Seen zero uuid elapsed backoff b m e f = absurd (omega arith)
  poll_loop-Seen (suc fuel) uuid elapsed backoff b m e f = Triple-bind (asked uuid) λ answer.
      Triple-bind (timed uuid answer) λ time.
        keep_polling-Seen uuid answer (poll_answer o config answer) _ (poll_answer-Said answer) (
          Triple-if (ltb (elapsed + time + backoff) config.node_connect_timeout)
            (λ l.
              Triple-weaken
                (poll_loop-Seen fuel uuid (elapsed + time + backoff) (next_backoff o config backoff)
                  (next_backoff-positive backoff b m) m (ground arith) (ground arith))
                (λ w _. tt) (λ _ w q. q) (λ _ w q. q))
            (λ _. Triple-return timed_out (λ w h. h)))

  -- Polling ends whatever the panel answers and however long it takes. It ends in what the very last
  -- read of the Node said: in a connection or a rejection if that read said that the Node is connected,
  -- or neither connected nor connecting; in a timeout only if that read failed or said that it is
  -- still connecting; or else with the context. The turns of the model are always enough. The backoffs
  -- must be at least one unit, which the service's defaults see to.
  pub poll_node-Ends :
      (uuid : String) (w : World)
      → 1 ≤ config.initial_poll_backoff
      → 1 ≤ config.max_poll_backoff
      → After (Seen o uuid) Ends (poll_node o config uuid w)
  unfolding poll_node
  poll_node-Ends uuid w i m =
      (poll_loop-Seen (suc config.node_connect_timeout) uuid 0 config.initial_poll_backoff i m
          (omega arith) (omega arith)).run
        w tt
