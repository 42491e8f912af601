-- ===== src/Distributed/Session/Orders.antt =====
-- What the controller sends is followed by the worker (crates/distributed/src/state.rs).
use mcp_loadtest.Base.{
  ℕ, String, true, List, ◌⊎◌, inl, inr, Bool-cases, Option, none, some, ok, ◌≡◌, refl, ap, ◌∙◌,
  arith, str_eq_iff,
}
use mathlib.Core.Option
use mcp_loadtest.Distributed.Wire.{HelloFrame, WireFrame, WireMessage, frame}
use mcp_loadtest.Base.Order.{str_ord}
use mcp_loadtest.Base.Map.{get, get-map_values, map_values}
use mcp_loadtest.Distributed.Controller.Types.{AgentState, JobState, Phase, Signature, is_ended}
use mcp_loadtest.Distributed.Controller.Handlers.{
  dispatch, on_hello, after, validate_hello, check_name,
}
use mcp_loadtest.Distributed.Controller.{
  accept, start_all, start_frame, cancel_all, cancel_frame, cancel_phase, cancel_frames,
  wants_cancel, all_ready, address,
}
use mcp_loadtest.Distributed.Controller.Moves.{accept_known, accept_cases}
use mcp_loadtest.Distributed.Controller.Invariant.{Holds, Inv}
use mcp_loadtest.Distributed.Controller.Sent.{
  AllReady, all_ready-AllReady, get-address, frame_for, get-cancel_frames,
}
use mcp_loadtest.Distributed.Controller.Later.{all_ready-get}
use mcp_loadtest.Distributed.Controller.Frames.{Answers, accept-Answers}
use mcp_loadtest.Base.Map.{Every-get}
use mcp_loadtest.Distributed.Worker.Types.{Machine, Directive, Phase as WorkerPhase}
use mcp_loadtest.Distributed.Worker.{new, hello, accept as follow}
use mcp_loadtest.Distributed.Worker.Orders.{FitsName, new-prepare, accept-start, accept-cancel}
use mcp_loadtest.Distributed.Session.{Synced, counterpart}

-- The worker follows the order, and both sides are in step in this phase.
pub record Followed (t : JobState) (name : String) (m : Machine) (f : WireFrame) (order : Directive)
    (p : WorkerPhase) : Type 0 where
  pub directive : (follow m f).1 ≡ ok order
  pub arrived : (follow m f).0.phase ≡ p
  pub synced : Synced t name (follow m f).0

-- A greeting that is answered came under no other name.
greeted_name :
    (own : Option String) (name : String) (sig : Option Signature) (a : AgentState) (g : HelloFrame)
    {f : WireFrame}
    → g.agent_name ≡ own
    → (on_hello sig name a g).reply ≡ ok (some f)
    → FitsName own name
unfolding on_hello after validate_hello check_name
greeted_name none name sig a g e h = tt
greeted_name (some own) name sig a g e h = ground (arith, str_eq_iff own name)

answered_name :
    (s : JobState) (name : String) (a : AgentState) (g : HelloFrame) {f : WireFrame}
    → get name s.agents ≡ some a
    → a.phase ≡ Phase.awaiting_hello
    → (accept s name (frame (WireMessage.hello g))).1 ≡ ok (some f)
    → FitsName g.agent_name name
unfolding dispatch
answered_name s name a g {f} found waiting h =
    greeted_name g.agent_name name s.ready_signature a g {f = f} refl
      (ground (arith, accept_known s name a (frame (WireMessage.hello g)) refl found))

accept_job : (s : JobState) (name : String) (f : WireFrame) → (accept s name f).0.job_id ≡ s.job_id
accept_job s name f =
    accept_cases (λ r. r.0.job_id ≡ s.job_id) s name f (λ e. refl) (λ a h found move. refl)

-- A new worker greets the controller of a sound job, and the greeting is answered: the worker takes the
-- answer as the preparation of its own shard, and both are preparing this job.
pub follow-prepare :
    (s : JobState) (name : String) (g : HelloFrame) (f : WireFrame)
    → Inv s
    → (accept s name (hello (new g))).1 ≡ ok (some f)
    → (a : AgentState) × (get name s.agents ≡ some a)
      × Followed
          (accept s name (hello (new g))).0
          name
          (new g)
          f
          (Directive.prepare a.prepare)
          WorkerPhase.preparing
unfolding hello new
follow-prepare s name g f v h =
    let answer : Answers s (accept s name (hello (new g))).0 name (hello (new g)) f =
      accept-Answers s name (hello (new g)) f h in
    let a = answer.entry in
    let holds : Holds s.job_id s.ready_signature name a =
      Every-get _ name a s.agents v.agents answer.found in
    let step =
      new-prepare g a.prepare
        (rw holds.own_name (answered_name s name a g answer.found answer.waiting h)) in
    (
      a,
      answer.found,
      record {
        directive = rw answer.answer (ap (λ r. r.1) step);
        arrived = rw (answer.answer, step) refl;
        synced = record {
          entry = record a { phase = Phase.preparing };
          found = answer.now;
          same_job =
              rw (answer.answer, step)
                (ground (arith, holds.own_job, accept_job s name (frame (WireMessage.hello g))));
          same_name = rw (answer.answer, step) (ap some holds.own_name);
          same_phase = rw (answer.answer, step) refl;
        };
      },
    )

-- Among the frames is one for this agent, and its worker follows it.
pub record Ordered (t : JobState) (frames : List (String × WireFrame)) (name : String) (m : Machine)
    (order : Directive) (p : WorkerPhase) : Type 0 where
  pub sent : WireFrame
  pub addressed : get name frames ≡ some sent
  pub followed : Followed t name m sent order p

-- If the whole cohort is ready, `start_all` succeeds, and among the frames that it returns is one for every
-- agent whose worker is in step: the worker takes it as the order to start this job after the lead that the
-- controller has asked for, and both are running.
pub follow-start :
    (s : JobState) (lead : ℕ) (name : String) (m : Machine)
    → AllReady s
    → Synced s name m
    → (t : JobState) × (frames : List (String × WireFrame)) × (start_all s lead ≡ (t, ok frames))
      × Ordered t frames name m
          (Directive.start (record { job_id = s.job_id; start_after_ms = lead }))
          WorkerPhase.running
unfolding start_all all_ready
follow-start s lead name m whole y =
    let full : all_ready s ≡ true = all_ready-AllReady s whole in
    let ready : counterpart m.phase ≡ some Phase.ready =
      ground (arith, y.same_phase, all_ready-get s.agents name y.entry full y.found) in
    let step =
      accept-start m (record { job_id = s.job_id; start_after_ms = lead }) (ground (arith, ready))
        y.same_job in
    (
      record s { agents = map_values (λ a. record a { phase = Phase.running }) s.agents },
      address (start_frame s.job_id lead) s.agents,
      rw full refl,
      record {
        sent = start_frame s.job_id lead;
        addressed = get-address name _ s.agents ∙ ap (Option.map _) y.found;
        followed = record {
          directive = ap (λ r. r.1) step;
          arrived = rw step refl;
          synced = record {
            entry = record y.entry { phase = Phase.running };
            found = get-map_values _ name s.agents ∙ ap (Option.map _) y.found;
            same_job = rw step y.same_job;
            same_name = rw step y.same_name;
            same_phase = rw step refl;
          };
        };
      },
    )

-- What a cancellation is to a worker in step: an order that it follows, or nothing if it has ended.
abbrev pub Cancels :
    JobState × List (String × WireFrame) → (name job reason : String) → Machine → Type 0
Cancels (t, frames) name job reason m =
    Ordered t frames name m (Directive.cancel (record { job_id = job; reason = reason }))
      WorkerPhase.cancelling
    ⊎ ((get name frames ≡ none)
        × Synced t name m
        × ((p : Phase) × (counterpart m.phase ≡ some p) × (is_ended p ≡ true)))

-- Between calls, the controller cancels: for a worker in step there is either a frame among those that
-- `cancel_all` returns, which it takes as the order to cancel this job for the reason given, and both are
-- cancelling; or there is none, and the worker has ended and is still in step.
pub follow-cancel :
    (s : JobState) (reason : String) (name : String) (m : Machine)
    → Inv s
    → Synced s name m
    → Cancels (cancel_all s reason) name s.job_id reason m
unfolding cancel_all
follow-cancel s reason name m v y =
    let f = cancel_frame s.job_id reason in
    let asked : get name (cancel_frames f s.agents) ≡ frame_for f (some y.entry) =
      get-cancel_frames name f s.agents v.sorted ∙ ap (frame_for f) y.found in
    let found =
      get-map_values (λ (a : AgentState). record a { phase = cancel_phase a.phase }) name s.agents
      ∙ ap (Option.map _) y.found in
    elim (Bool-cases (wants_cancel y.entry.phase)) [
      | inl wanted ↦
          let step =
            accept-cancel m (record { job_id = s.job_id; reason = reason })
              (ground (arith, y.same_phase)) y.same_job in
          inl (record {
            sent = f;
            addressed = ground (arith, asked, wanted);
            followed = record {
              directive = ap (λ r. r.1) step;
              arrived = rw step refl;
              synced = record {
                entry = record y.entry { phase = cancel_phase y.entry.phase };
                found = found;
                same_job = rw step y.same_job;
                same_name = rw step y.same_name;
                same_phase = rw step (ground (arith, y.same_phase));
              };
            };
          })
      | inr unwanted ↦ inr (
        ground (arith, asked, unwanted),
        record {
          entry = record y.entry { phase = cancel_phase y.entry.phase };
          found = found;
          same_job = y.same_job;
          same_name = y.same_name;
          same_phase = ground (arith, y.same_phase, unwanted);
        },
        (y.entry.phase, y.same_phase, ground (arith, y.same_phase, unwanted)),
      )
    ]
