-- ===== src/Distributed/Controller/Frames.antt =====
-- What one frame does to `ControllerJobState` (crates/distributed/src/state.rs): replies and errors.
use mcp_loadtest.Base.{String, some, ok, err, ◌≡◌, ◌≢◌, refl, arith}
use mcp_loadtest.Base.Order.{str_ord, same_iff}
use mcp_loadtest.Base.Map.{get, update, update_self}
use mcp_loadtest.Distributed.Wire.{WireFrame, WireMessage, HelloFrame, frame}
use mcp_loadtest.Distributed.Controller.Types.{AgentState, JobState, Handled, Error}
use mcp_loadtest.Distributed.Controller.Types.Phase.{awaiting_hello, preparing, failed}
use mcp_loadtest.Distributed.Controller.{accept, commit}
use mcp_loadtest.Distributed.Controller.Moves.{
  Move, refused, lost, kept, greeted, readied, advanced, done, stopped, broke, accept_cases,
}
use mcp_loadtest.Distributed.Controller.Later.{get-written}

-- What a refused frame leaves behind.
pub data Refusal (s : JobState) (agent : String) (t : JobState) : Type 0 where
  unchanged : t ≡ s → Refusal s agent t
  gave_up :
      (a : AgentState)
      → get agent s.agents ≡ some a
      → a.phase ≡ preparing
      → t ≡ record s { agents = update agent (record a { phase = failed }) s.agents }
      → Refusal s agent t

Move-Refusal :
    (s : JobState) (agent : String) (a : AgentState) (m : WireMessage) (h : Handled) (e : Error)
    → get agent s.agents ≡ some a
    → Move s.job_id s.ready_signature agent a m h
    → h.reply ≡ err e
    → Refusal s agent (commit s agent h).0
Move-Refusal s agent a m h e found (refused e' q) r =
    unchanged (ground (arith, update_self agent a s.agents))
Move-Refusal s agent a m h e found (lost e' p q) r = gave_up a found p (ground arith)
Move-Refusal s agent a m h e found (kept k q) r = absurd (ground arith)
Move-Refusal s agent a m h e found (greeted g k p q) r = absurd (ground arith)
Move-Refusal s agent a m h e found (readied r' k p full agrees q) r = absurd (ground arith)
Move-Refusal s agent a m h e found (advanced p k e' names newer q) r = absurd (ground arith)
Move-Refusal s agent a m h e found (done f k p names q) r = absurd (ground arith)
Move-Refusal s agent a m h e found (stopped c k p q) r = absurd (ground arith)
Move-Refusal s agent a m h e found (broke f k p own q) r = absurd (ground arith)

-- A refused frame leaves the job as it was, except that a readiness report from an agent that is
-- preparing may set that agent, and nothing else, to failed.
pub accept-Refusal :
    (s : JobState) (agent : String) (f : WireFrame) (e : Error)
    → (accept s agent f).1 ≡ err e
    → Refusal s agent (accept s agent f).0
accept-Refusal s agent f e =
    accept_cases (λ r. r.1 ≡ err e → Refusal s agent r.0) s agent f (λ e' t. unchanged refl)
      λ a h found move t. Move-Refusal s agent a f.message h e found move t

-- A frame of one agent leaves the entries of all others as they were.
pub accept-others :
    (s : JobState) (agent name : String) (f : WireFrame)
    → name ≢ agent
    → get name (accept s agent f).0.agents ≡ get name s.agents
accept-others s agent name f other =
    accept_cases (λ r. get name r.0.agents ≡ get name s.agents) s agent f (λ e. refl)
      λ a h found move.
        ground (arith, get-written name agent s.agents h.agent found, same_iff name agent)

-- `g` answers the greeting that was waited for with the preparation of the agent.
pub record Answers (s t : JobState) (agent : String) (f g : WireFrame) : Type 0 where
  pub entry : AgentState
  pub hello : HelloFrame
  pub found : get agent s.agents ≡ some entry
  pub waiting : entry.phase ≡ awaiting_hello
  pub greeting : f.message ≡ WireMessage.hello hello
  pub answer : g ≡ frame (WireMessage.prepare entry.prepare)
  pub now : get agent t.agents ≡ some (record entry { phase = preparing })

Move-Answers :
    (s : JobState) (agent : String) (a : AgentState) (f : WireFrame) (h : Handled) (g : WireFrame)
    → get agent s.agents ≡ some a
    → Move s.job_id s.ready_signature agent a f.message h
    → h.reply ≡ ok (some g)
    → Answers s (commit s agent h).0 agent f g
Move-Answers s agent a f h g found (refused e' q) r = absurd (ground arith)
Move-Answers s agent a f h g found (lost e' p q) r = absurd (ground arith)
Move-Answers s agent a f h g found (kept k q) r = absurd (ground arith)
Move-Answers s agent a f h g found (greeted hello k p q) r = record {
  entry = a;
  hello = hello;
  found = found;
  waiting = p;
  greeting = k;
  answer = ground arith;
  now = ground (arith, get-written agent agent s.agents h.agent found, same_iff agent agent);
}
Move-Answers s agent a f h g found (readied r' k p full agrees q) r = absurd (ground arith)
Move-Answers s agent a f h g found (advanced p k e' names newer q) r = absurd (ground arith)
Move-Answers s agent a f h g found (done f' k p names q) r = absurd (ground arith)
Move-Answers s agent a f h g found (stopped c k p q) r = absurd (ground arith)
Move-Answers s agent a f h g found (broke f' k p own q) r = absurd (ground arith)

-- A frame is answered only if it is the greeting that was waited for, and then by the preparation
-- that the job holds for that agent, which is from then on preparing.
pub accept-Answers :
    (s : JobState) (agent : String) (f g : WireFrame)
    → (accept s agent f).1 ≡ ok (some g)
    → Answers s (accept s agent f).0 agent f g
accept-Answers s agent f g =
    accept_cases (λ r. r.1 ≡ ok (some g) → Answers s r.0 agent f g) s agent f
      (λ e t. absurd (ground arith)) λ a h found move t. Move-Answers s agent a f h g found move t
